-- ===== src/Prelude/Text.antt =====
-- Text as lists of bytes: literals, decimal numbers and search.
use Prim.Native.Nat.{ℕ, zero, suc, ◌+◌, ◌/◌, ◌%◌}
use Prim.Native.Char.{code}
use Prim.Native.String.{String}
use mathlib.Core.Bool.{Bool, true, false, ◌&&◌}
use mathlib.Core.Option.{Option, none, some}
use mathlib.Core.List.{[], ◌∷◌, ◌++◌}
use rxtracenetcap.Prelude.Tests.{ltb, ◌==◌, if◌then◌else◌}
use rxtracenetcap.Prelude.Lists.{drop}
use rxtracenetcap.Prelude.Int.{ℤ, pos, negsuc}
use rxtracenetcap.Prelude.Classes.{Str}

-- The bytes of a literal.
abbrev pub codes : String → Str
codes String.[] = []
codes (String.◌∷◌ c s) = code c ∷ codes s

-- The decimal digits of a number; it has fewer digits than its successor has units.
digits : ℕ → ℕ → Str
digits zero n = []
digits (suc fuel) n =
    let more = digits fuel (n / 10) in
    if ltb n 10 then (48 + n) ∷ [] else more ++ (48 + n % 10) ∷ []

unfoldable pub decimal : ℕ → Str
unfolding digits
decimal n = digits (suc n) n

-- What `%d` prints.
unfoldable pub int_text : ℤ → Str
unfolding decimal
int_text (pos n) = decimal n
int_text (negsuc n) = b'-' ∷ decimal (suc n)

abbrev pub starts_with : Str → Str → Bool
starts_with [] s = true
starts_with (x ∷ xs) [] = false
starts_with (x ∷ xs) (y ∷ ys) = x == y && starts_with xs ys

-- `s.find(needle)`, counted from `i`, for a needle that is not empty.
unfoldable pub find_text : Str → Str → ℕ → Option ℕ
find_text needle [] i = none
find_text needle (y ∷ ys) i =
    if starts_with needle (y ∷ ys) then some i else find_text needle ys (suc i)

-- `s.find(needle, i)`
unfoldable pub find_text_from : Str → Str → ℕ → Option ℕ
unfolding find_text
find_text_from needle s i = find_text needle (drop i s) i
