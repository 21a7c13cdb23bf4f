-- ===== src/Prelude/Search.antt =====
-- Where a search in a text succeeds.
use rxtracenetcap.Prelude.{
  ℕ, zero, suc, ◌+◌, ◌≤◌, ◌≡◌, refl, sym, ap, ◌∙◌, Bool, true, false, some, [], ◌∷◌, ◌++◌, take,
  drop, length, if◌then◌else◌, Str, arith,
}
use rxtracenetcap.Prelude.Text.{starts_with, find_text, find_text_from}

abbrev no_bytes : Str
no_bytes = []

drop_nil : (k : ℕ) → drop k no_bytes ≡ no_bytes
drop_nil zero = refl
drop_nil (suc k) = refl

pub drop-drop : (i k : ℕ) (s : Str) → drop k (drop i s) ≡ drop (i + k) s
drop-drop zero k s = ap (λ n. drop n s) {x = k} {y = zero + k} (omega arith)
drop-drop (suc i) k [] =
    drop_nil k ∙ ap (λ n. drop n no_bytes) {x = suc (i + k)} {y = suc i + k} (omega arith)
drop-drop (suc i) k (x ∷ s) =
    drop-drop i k s ∙ ap (λ n. drop n (x ∷ s)) {x = suc (i + k)} {y = suc i + k} (omega arith)

pub append_assoc : (xs ys zs : Str) → (xs ++ ys) ++ zs ≡ xs ++ (ys ++ zs)
append_assoc [] ys zs = refl
append_assoc (x ∷ xs) ys zs = ap (λ l. x ∷ l) (append_assoc xs ys zs)

pub take-drop : (n : ℕ) (s : Str) → take n s ++ drop n s ≡ s
take-drop zero s = refl
take-drop (suc n) [] = refl
take-drop (suc n) (x ∷ s) = ap (λ l. x ∷ l) (take-drop n s)

-- The mark stands at this position.
abbrev pub Marks : ℕ → Str → ℕ → Type 0
Marks x s j = drop j s ≡ x ∷ drop (suc j) s

starts_with-Marks : (x : ℕ) (s : Str) (j : ℕ) → starts_with (x ∷ []) (drop j s) ≡ true → Marks x s j
starts_with-Marks x [] zero h = grind (arith, h)
starts_with-Marks x [] (suc j) h = grind (arith, h)
starts_with-Marks x (y ∷ s) zero h = grind (arith, h)
starts_with-Marks x (y ∷ s) (suc j) h = starts_with-Marks x s j h

find_text-starts_with :
    (needle s : Str) (i j : ℕ)
    → find_text needle s i ≡ some j
    → (k : ℕ) × (j ≡ i + k) × (starts_with needle (drop k s) ≡ true)
unfolding find_text
find_text-starts_with needle [] i j h = grind (arith, h)
find_text-starts_with needle (y ∷ s) i j h =
    go (starts_with needle (y ∷ s)) refl h (find_text-starts_with needle s (suc i) j)
  where
    go :
        (b : Bool)
        → starts_with needle (y ∷ s) ≡ b
        → (if b then some i else find_text needle s (suc i)) ≡ some j
        → (find_text needle s (suc i) ≡ some j
            → (k : ℕ) × (j ≡ suc i + k) × (starts_with needle (drop k s) ≡ true))
        → (k : ℕ) × (j ≡ i + k) × (starts_with needle (drop k (y ∷ s)) ≡ true)
    go true e f ih = (0, grind (arith, f), e)
    go false e f ih = let (k, p, q) = ih f in (suc k, omega (arith, p), q)

-- The search finds the mark, at or after its start.
pub find_text_from-Marks :
    (x : ℕ) (s : Str) (i j : ℕ)
    → find_text_from (x ∷ []) s i ≡ some j
    → (k : ℕ) × (j ≡ i + k) × Marks x s j
unfolding find_text_from
find_text_from-Marks x s i j h =
    let (k, e, f) = find_text-starts_with (x ∷ []) (drop i s) i j h in
    (
      k,
      e,
      starts_with-Marks x s j
          (ap (starts_with (x ∷ [])) (ap (λ n. drop n s) e ∙ sym (drop-drop i k s)) ∙ f),
    )

pub take-Marks : (x : ℕ) (s : Str) (j : ℕ) → Marks x s j → take (suc j) s ≡ take j s ++ x ∷ []
take-Marks x [] zero h = grind (arith, h)
take-Marks x [] (suc j) h = grind (arith, h)
take-Marks x (y ∷ s) zero h = grind (arith, h)
take-Marks x (y ∷ s) (suc j) h = ap (λ l. y ∷ l) (take-Marks x s j h)

pub length-take_le : (n : ℕ) (s : Str) → length (take n s) ≤ n
length-take_le zero s = omega arith
length-take_le (suc n) [] = omega arith
length-take_le (suc n) (x ∷ s) = omega (arith, length-take_le n s)
