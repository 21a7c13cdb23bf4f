-- ===== src/LockFreeQueue/Slots.antt =====
-- Which slot of the ring a position has: the mask of src/rxlockfreequeue.c is a remainder, and positions
-- that are less than a round apart have different slots.
use rxtracenetcap.Prelude.{
  ℕ, zero, suc, ◌+◌, ◌*◌, ◌/◌, ◌%◌, ◌≤◌, ◌<◌, ◌≡◌, ◌≢◌, sym, ap, ◌∙◌, true, false, bit_and, leb,
  leb→le, ◌⊎◌, inl, inr, Bool-cases, arith,
}
use Prim.Native.Nat.{bit_and-bitwise, min, digits}
use native.Mathlib.Nat.{
  div-add-mod, zero-mod, mod-lt, mod-eq_of_lt, mul-add-mod_self_left, mul-le-mul_left, zero-lt-suc,
}

-- 2 ^ k - 1
abbrev pub mask_of : ℕ → ℕ
mask_of zero = 0
mask_of (suc k) = 2 * mask_of k + 1

double_mod : (w c : ℕ) → (w / 2 % suc c) * 2 + w % 2 ≡ w % (2 * suc c)
double_mod w c =
    let r = w / 2 % suc c in
    let q = w / 2 / suc c in
    let t = r * 2 + w % 2 in
    let halves : suc c * q + r ≡ w / 2 = div-add-mod (w / 2) (suc c) in
    let whole : w ≡ 2 * suc c * q + t = omega (arith, halves) in
    let small : t < 2 * suc c = omega (arith, mod-lt (w / 2) (zero-lt-suc c)) in
    sym
      (ap (λ n. n % (2 * suc c)) whole ∙ mul-add-mod_self_left (2 * suc c) q t ∙ mod-eq_of_lt small)

half_mask : (m : ℕ) → (2 * m + 1) / 2 ≡ m
half_mask m = omega arith

odd_mask : (m : ℕ) → (2 * m + 1) % 2 ≡ 1
odd_mask m = omega arith

digits_mask : (n k w : ℕ) → w ≤ n → digits (λ b. zero) min n w (mask_of k) ≡ w % suc (mask_of k)
digits_mask zero k zero h = sym (zero-mod (suc (mask_of k)))
digits_mask zero k (suc a) h = absurd (omega (arith, h))
digits_mask (suc n) k zero h = sym (zero-mod (suc (mask_of k)))
digits_mask (suc n) zero (suc a) h =
    omega (arith, digits_mask n zero (suc a / 2) (omega (arith, h)))
digits_mask (suc n) (suc k) (suc a) h =
    rw (half_mask (mask_of k), odd_mask (mask_of k), digits_mask n k (suc a / 2) (omega (arith, h)))
      (omega (
        arith,
        double_mod (suc a) (mask_of k),
        ap (λ n. suc a % n) {x = 2 * suc (mask_of k)} {y = suc (2 * mask_of k + 1)} (omega arith),
      ))

-- `position & mask`
pub bit_and-mask_of : (w k : ℕ) → bit_and w (mask_of k) ≡ w % suc (mask_of k)
bit_and-mask_of w k = bit_and-bitwise w (mask_of k) ∙ digits_mask w k w (omega arith)

-- Two positions less than a round apart.
pub slots_ne : (i w c : ℕ) → i < w → w < i + suc c → i % suc c ≢ w % suc c
slots_ne i w c h k e = go (Bool-cases (leb (w / suc c) (i / suc c)))
  where
    low : suc c * (i / suc c) + i % suc c ≡ i
    low = div-add-mod i (suc c)

    high : suc c * (w / suc c) + w % suc c ≡ w
    high = div-add-mod w (suc c)

    go : (leb (w / suc c) (i / suc c) ≡ true) ⊎ (leb (w / suc c) (i / suc c) ≡ false) → ⊥
    go (inl f) =
        omega (arith, low, high, e, h, mul-le-mul_left (suc c) (leb→le (w / suc c) (i / suc c) f))
    go (inr f) =
        let above : i / suc c + 1 ≤ w / suc c = ground (arith, f) in
        omega (arith, low, high, e, k, mul-le-mul_left (suc c) above)
