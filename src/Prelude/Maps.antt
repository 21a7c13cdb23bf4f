-- ===== src/Prelude/Maps.antt =====
-- `std::map` as an association list: `find`, `m[k] = v`, `erase`, and sums over the values.
use Prim.Native.Nat.{ℕ, ◌+◌}
use mathlib.Core.Path.{◌≡◌, refl}
use mathlib.Core.Logic.{◌≢◌}
use mathlib.Core.List.{List, [], ◌∷◌}
use mathlib.Core.Option.{Option, none, some}
use native.Mathlib.Omega.{arith}
use rxtracenetcap.Prelude.Tests.{if◌then◌else◌}
use rxtracenetcap.Prelude.Classes.{Eq}

abbrev pub Map : Type 0 → Type 0 → Type 0
Map K V = List (K × V)

-- The weight of what a lookup found.
abbrev pub weigh : {V : Type 0} → (V → ℕ) → Option V → ℕ
weigh f none = 0
weigh f (some v) = f v

module _ {K V : Type 0} ⦃e : Eq K⦄ where
  unfoldable pub find : K → Map K V → Option V
  find k [] = none
  find k ((j, v) ∷ m) = if e.beq j k then some v else find k m

  unfoldable pub assign : K → V → Map K V → Map K V
  assign k v [] = (k, v) ∷ []
  assign k v ((j, w) ∷ m) = if e.beq j k then (j, v) ∷ m else (j, w) ∷ assign k v m

  unfoldable pub erase : K → Map K V → Map K V
  erase k [] = []
  erase k ((j, w) ∷ m) = if e.beq j k then m else (j, w) ∷ erase k m

  -- No key stands twice, as in every `std::map`.
  abbrev pub Uniq : Map K V → Type 0
  Uniq [] = Unit {0}
  Uniq ((j, w) ∷ m) = (find j m ≡ none) × Uniq m

  pub find-assign :
      (k j : K) (v : V) (m : Map K V)
      → find j (assign k v m) ≡ (if e.beq k j then some v else find j m)
  unfolding find assign
  find-assign k j v [] = refl
  find-assign k j v ((i, w) ∷ m) =
      ground (arith, e.beq_iff k j, e.beq_iff i k, e.beq_iff i j, find-assign k j v m)

  pub find-assign_self : (k : K) (v : V) (m : Map K V) → find k (assign k v m) ≡ some v
  find-assign_self k v m = rw (find-assign k k v m, (e.beq_iff k k).1 refl)

  pub find-assign_ne : (k j : K) (v : V) (m : Map K V) → k ≢ j → find j (assign k v m) ≡ find j m
  find-assign_ne k j v m ne = ground (arith, find-assign k j v m, e.beq_iff k j)

  pub find-erase_ne : (k j : K) (m : Map K V) → k ≢ j → find j (erase k m) ≡ find j m
  unfolding find erase
  find-erase_ne k j [] ne = refl
  find-erase_ne k j ((i, w) ∷ m) ne =
      ground (arith, e.beq_iff i k, e.beq_iff i j, find-erase_ne k j m)

  pub assign-Uniq : (k : K) (v : V) (m : Map K V) → Uniq m → Uniq (assign k v m)
  unfolding find assign
  assign-Uniq k v [] u = (refl, tt)
  assign-Uniq k v ((i, w) ∷ m) u =
      ground (arith, e.beq_iff i k, e.beq_iff k i, find-assign k i v m, assign-Uniq k v m u.1)

  pub find-erase :
      (k j : K) (m : Map K V) → Uniq m → find j (erase k m) ≡ (if e.beq k j then none else find j m)
  unfolding find erase
  find-erase k j [] u = ground arith
  find-erase k j ((i, w) ∷ m) u =
      ground (arith, e.beq_iff k j, e.beq_iff i k, e.beq_iff i j, find-erase k j m u.1)

  pub erase-Uniq : (k : K) (m : Map K V) → Uniq m → Uniq (erase k m)
  unfolding find erase
  erase-Uniq k [] u = tt
  erase-Uniq k ((i, w) ∷ m) u =
      ground (arith, e.beq_iff i k, e.beq_iff k i, find-erase k i m u.1, erase-Uniq k m u.1)

  -- The sum of a weight over all entries.
  unfoldable pub tally : (V → ℕ) → Map K V → ℕ
  tally f [] = 0
  tally f ((j, w) ∷ m) = f w + tally f m

  pub tally-assign :
      (f : V → ℕ) (k : K) (v : V) (m : Map K V)
      → tally f (assign k v m) + weigh f (find k m) ≡ tally f m + f v
  unfolding find assign tally
  tally-assign f k v [] = omega arith
  tally-assign f k v ((i, w) ∷ m) = ground (arith, tally-assign f k v m)

  pub tally-erase :
      (f : V → ℕ) (k : K) (m : Map K V) → tally f (erase k m) + weigh f (find k m) ≡ tally f m
  unfolding find erase tally
  tally-erase f k [] = omega arith
  tally-erase f k ((i, w) ∷ m) = ground (arith, tally-erase f k m)
