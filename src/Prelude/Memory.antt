-- ===== src/Prelude/Memory.antt =====
-- Code that may touch memory it does not own: `ub` is undefined behaviour, `ok` a normal return,
-- and `out_of_fuel` a loop that is still running when the fuel of its model is spent.
use mathlib.Core.Path.{◌≡◌}
use mathlib.Core.Option.{Option, none, some}
use native.Mathlib.Omega.{arith}

pub data Run {ℓ} (A : Type ℓ) : Type ℓ where
  ub out_of_fuel : Run A
  ok : A → Run A

infixl 5 ◌>>=◌
abbrev pub ◌>>=◌ {ℓ κ} : {A : Type ℓ} {B : Type κ} → Run A → (A → Run B) → Run B
ub >>= f = ub
out_of_fuel >>= f = out_of_fuel
ok a >>= f = f a

-- A dereference of a possibly dead object.
abbrev pub deref {ℓ} : {A : Type ℓ} → Option A → Run A
deref none = ub
deref (some a) = ok a

-- The code returns, and what it returns satisfies `P`.
abbrev pub Returns {ℓ} : {A : Type ℓ} → (A → Type 0) → Run A → Type 0
Returns P ub = ⊥
Returns P out_of_fuel = ⊥
Returns P (ok a) = P a

pub Returns-bind {ℓ κ} :
    {A : Type ℓ} {B : Type κ} (P : A → Type 0) (Q : B → Type 0) (m : Run A) (f : A → Run B)
    → Returns P m
    → ((a : A) → P a → Returns Q (f a))
    → Returns Q (m >>= f)
Returns-bind P Q ub f h k = absurd h
Returns-bind P Q out_of_fuel f h k = absurd h
Returns-bind P Q (ok a) f h k = k a h

-- If the code returns, what it returns satisfies `P`.
abbrev pub IfReturns {ℓ} : {A : Type ℓ} → (A → Type 0) → Run A → Type 0
IfReturns P ub = Unit {0}
IfReturns P out_of_fuel = Unit {0}
IfReturns P (ok a) = P a

pub Returns-both {ℓ} :
    {A : Type ℓ} (P Q : A → Type 0) (m : Run A)
    → Returns P m
    → IfReturns Q m
    → Returns (λ a. P a × Q a) m
Returns-both P Q ub h k = h
Returns-both P Q out_of_fuel h k = h
Returns-both P Q (ok a) h k = (h, k)

pub Returns-mono {ℓ} :
    {A : Type ℓ} (P Q : A → Type 0) (m : Run A) → Returns P m → ((a : A) → P a → Q a) → Returns Q m
Returns-mono P Q ub h k = h
Returns-mono P Q out_of_fuel h k = h
Returns-mono P Q (ok a) h k = k a h

pub IfReturns-bind {ℓ κ} :
    {A : Type ℓ} {B : Type κ} (P : A → Type 0) (Q : B → Type 0) (m : Run A) (f : A → Run B)
    → IfReturns P m
    → ((a : A) → P a → IfReturns Q (f a))
    → IfReturns Q (m >>= f)
IfReturns-bind P Q ub f h k = tt
IfReturns-bind P Q out_of_fuel f h k = tt
IfReturns-bind P Q (ok a) f h k = k a h

-- A run that is known to end in `a` satisfies there what every result satisfies.
pub Returns-ok {ℓ} :
    {A : Type ℓ} (P : A → Type 0) (m : Run A) (a : A) → Returns P m → m ≡ ok a → P a
Returns-ok P ub a h e = absurd h
Returns-ok P out_of_fuel a h e = absurd h
Returns-ok P (ok b) a h e = ground (arith, h)

pub IfReturns-after {ℓ κ} :
    {A : Type ℓ} {B : Type κ} (Q : B → Type 0) (m : Run A) (f : A → Run B)
    → ((a : A) → IfReturns Q (f a))
    → IfReturns Q (m >>= f)
IfReturns-after Q ub f k = tt
IfReturns-after Q out_of_fuel f k = tt
IfReturns-after Q (ok a) f k = k a

pub Returns-and {ℓ} :
    {A : Type ℓ} (P Q : A → Type 0) (m : Run A)
    → Returns P m
    → Returns Q m
    → Returns (λ a. P a × Q a) m
Returns-and P Q ub h k = h
Returns-and P Q out_of_fuel h k = h
Returns-and P Q (ok a) h k = (h, k)
