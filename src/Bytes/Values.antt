-- ===== src/Bytes/Values.antt =====
-- What the readers of src/utils/endian.h return: the value of a run of bytes.
use rxtracenetcap.Prelude.{
  sym, refl, ℕ, ◌+◌, ◌*◌, ◌^◌, ◌≤◌, ◌<◌, List, [], ◌∷◌, ◌≡◌, ap, ◌∙◌, Run, ok, deref, get_elem?,
  length, take, drop, get_elem?-drop, length-drop, arith,
}
use rxtracenetcap.Bytes.{
  add32, byte_at, read_u8, read_u16_be, read_u16_le, read_u32_be, read_u32_le, read_u64_be,
  read_u64_le,
}

-- The first byte is the most significant one.
unfoldable pub be_value : List ℕ → ℕ
be_value bytes = go 0 bytes
  where
    go : ℕ → List ℕ → ℕ
    go acc [] = acc
    go acc (b ∷ bs) = go (acc * 256 + b) bs

-- The first byte is the least significant one.
unfoldable pub le_value : List ℕ → ℕ
le_value [] = 0
le_value (b ∷ bs) = b + 256 * le_value bs

-- `n` bytes from `offset` on.
abbrev pub slice : ℕ → ℕ → List ℕ → List ℕ
slice n offset bytes = take n (drop offset bytes)

byte_at-drop :
    (bytes : List ℕ) (offset i : ℕ)
    → offset + i < 2 ^ 32
    → byte_at bytes (add32 offset i) ≡ deref (get_elem? (drop offset bytes) i)
unfolding byte_at
byte_at-drop bytes offset i h =
    ap (λ j. deref (get_elem? bytes j)) {x = add32 offset i} {y = offset + i} (omega (arith, h))
    ∙ ap deref (sym (get_elem?-drop offset i bytes))

byte_at-drop_first :
    (bytes : List ℕ) (offset : ℕ) → byte_at bytes offset ≡ deref (get_elem? (drop offset bytes) 0)
unfolding byte_at
byte_at-drop_first bytes offset =
    ap (λ j. deref (get_elem? bytes j)) {x = offset} {y = offset + 0} (omega arith)
    ∙ ap deref (sym (get_elem?-drop offset 0 bytes))

-- A reader that agrees with `value` on every window of `n` bytes.
abbrev pub Reads : ℕ → (List ℕ → ℕ → Run ℕ) → (List ℕ → ℕ) → Type 0
Reads n read value =
    (bytes : List ℕ) (offset : ℕ)
    → offset + n ≤ length bytes
    → offset + n ≤ 2 ^ 32
    → read bytes offset ≡ ok (value (slice n offset bytes))

-- The bytes of a window, one by one.
one_byte : (w : List ℕ) → 1 ≤ length w → (a : ℕ) × (v : List ℕ) × (w ≡ a ∷ v)
one_byte [] h = absurd (omega (arith, h))
one_byte (a ∷ v) h = (a, v, refl)

two_bytes : (w : List ℕ) → 2 ≤ length w → (a : ℕ) × (b : ℕ) × (v : List ℕ) × (w ≡ a ∷ b ∷ v)
two_bytes [] h = absurd (omega (arith, h))
two_bytes (a ∷ w) h =
    (let (b, v, e) = one_byte w (omega (arith, h)) in (a, b, v, ap (λ x. a ∷ x) e))

four_bytes :
    (w : List ℕ)
    → 4 ≤ length w
    → (a : ℕ) × (b : ℕ) × (c : ℕ) × (d : ℕ) × (v : List ℕ) × (w ≡ a ∷ b ∷ c ∷ d ∷ v)
four_bytes [] h = absurd (omega (arith, h))
four_bytes (a ∷ []) h = absurd (omega (arith, h))
four_bytes (a ∷ b ∷ w) h =
    (let (c, d, v, e) = two_bytes w (omega (arith, h)) in (a, b, c, d, v, ap (λ x. a ∷ b ∷ x) e))

room : (n offset : ℕ) (bytes : List ℕ) → offset + n ≤ length bytes → n ≤ length (drop offset bytes)
room n offset bytes h = omega (arith, h, length-drop offset bytes (omega (arith, h)))

pub read_u8-be_value : Reads 1 read_u8 be_value
unfolding read_u8 be_value
read_u8-be_value bytes offset h k =
    (let (a, v, e) = one_byte (drop offset bytes) (room 1 offset bytes h) in go a v e)
  where
    go :
        (a : ℕ) (v : List ℕ)
        → drop offset bytes ≡ a ∷ v
        → read_u8 bytes offset ≡ ok (be_value (slice 1 offset bytes))
    go a v q = rw (byte_at-drop_first bytes offset, q) (ap ok (omega arith))

pub read_u8-le_value : Reads 1 read_u8 le_value
unfolding read_u8 le_value
read_u8-le_value bytes offset h k =
    (let (a, v, e) = one_byte (drop offset bytes) (room 1 offset bytes h) in go a v e)
  where
    go :
        (a : ℕ) (v : List ℕ)
        → drop offset bytes ≡ a ∷ v
        → read_u8 bytes offset ≡ ok (le_value (slice 1 offset bytes))
    go a v q = rw (byte_at-drop_first bytes offset, q) (ap ok (omega arith))

pub read_u16_be_lem : Reads 2 read_u16_be be_value
unfolding read_u16_be be_value
read_u16_be_lem bytes offset h k =
    (let (a, b, v, e) = two_bytes (drop offset bytes) (room 2 offset bytes h) in go a b v e)
  where
    go :
        (a b : ℕ) (v : List ℕ)
        → drop offset bytes ≡ a ∷ b ∷ v
        → read_u16_be bytes offset ≡ ok (be_value (slice 2 offset bytes))
    go a b v q =
        rw (byte_at-drop_first bytes offset, byte_at-drop bytes offset 1 (omega (arith, k)), q)
          (ap ok (omega arith))

pub read_u16_le_lem : Reads 2 read_u16_le le_value
unfolding read_u16_le le_value
read_u16_le_lem bytes offset h k =
    (let (a, b, v, e) = two_bytes (drop offset bytes) (room 2 offset bytes h) in go a b v e)
  where
    go :
        (a b : ℕ) (v : List ℕ)
        → drop offset bytes ≡ a ∷ b ∷ v
        → read_u16_le bytes offset ≡ ok (le_value (slice 2 offset bytes))
    go a b v q =
        rw (byte_at-drop_first bytes offset, byte_at-drop bytes offset 1 (omega (arith, k)), q)
          (ap ok (omega arith))

pub read_u32_be_lem : Reads 4 read_u32_be be_value
unfolding read_u32_be be_value
read_u32_be_lem bytes offset h k =
    (let (a, b, c, d, v, e) = four_bytes (drop offset bytes) (room 4 offset bytes h) in
      go a b c d v e)
  where
    go :
        (a b c d : ℕ) (v : List ℕ)
        → drop offset bytes ≡ a ∷ b ∷ c ∷ d ∷ v
        → read_u32_be bytes offset ≡ ok (be_value (slice 4 offset bytes))
    go a b c d v q =
        rw
          (
            byte_at-drop_first bytes offset,
            byte_at-drop bytes offset 1 (omega (arith, k)),
            byte_at-drop bytes offset 2 (omega (arith, k)),
            byte_at-drop bytes offset 3 (omega (arith, k)),
            q,
          )
          (ap ok (omega arith))

pub read_u32_le_lem : Reads 4 read_u32_le le_value
unfolding read_u32_le le_value
read_u32_le_lem bytes offset h k =
    (let (a, b, c, d, v, e) = four_bytes (drop offset bytes) (room 4 offset bytes h) in
      go a b c d v e)
  where
    go :
        (a b c d : ℕ) (v : List ℕ)
        → drop offset bytes ≡ a ∷ b ∷ c ∷ d ∷ v
        → read_u32_le bytes offset ≡ ok (le_value (slice 4 offset bytes))
    go a b c d v q =
        rw
          (
            byte_at-drop_first bytes offset,
            byte_at-drop bytes offset 1 (omega (arith, k)),
            byte_at-drop bytes offset 2 (omega (arith, k)),
            byte_at-drop bytes offset 3 (omega (arith, k)),
            q,
          )
          (ap ok (omega arith))

pub read_u64_be_lem : Reads 8 read_u64_be be_value
unfolding read_u64_be be_value
read_u64_be_lem bytes offset h k =
    (let (a, b, c, d, v₁, e₁) =
        four_bytes (drop offset bytes) (omega (arith, room 8 offset bytes h)) in
      let (e, f, g, i, v, e₂) =
        four_bytes v₁ (omega (arith, room 8 offset bytes h, ap length e₁)) in
      go a b c d e f g i v (e₁ ∙ ap (λ x. a ∷ b ∷ c ∷ d ∷ x) e₂))
  where
    go :
        (a b c d e f g i : ℕ) (v : List ℕ)
        → drop offset bytes ≡ a ∷ b ∷ c ∷ d ∷ e ∷ f ∷ g ∷ i ∷ v
        → read_u64_be bytes offset ≡ ok (be_value (slice 8 offset bytes))
    go a b c d e f g i v q =
        rw
          (
            byte_at-drop_first bytes offset,
            byte_at-drop bytes offset 1 (omega (arith, k)),
            byte_at-drop bytes offset 2 (omega (arith, k)),
            byte_at-drop bytes offset 3 (omega (arith, k)),
            byte_at-drop bytes offset 4 (omega (arith, k)),
            byte_at-drop bytes offset 5 (omega (arith, k)),
            byte_at-drop bytes offset 6 (omega (arith, k)),
            byte_at-drop bytes offset 7 (omega (arith, k)),
            q,
          )
          (ap ok (omega arith))

pub read_u64_le_lem : Reads 8 read_u64_le le_value
unfolding read_u64_le le_value
read_u64_le_lem bytes offset h k =
    (let (a, b, c, d, v₁, e₁) =
        four_bytes (drop offset bytes) (omega (arith, room 8 offset bytes h)) in
      let (e, f, g, i, v, e₂) =
        four_bytes v₁ (omega (arith, room 8 offset bytes h, ap length e₁)) in
      go a b c d e f g i v (e₁ ∙ ap (λ x. a ∷ b ∷ c ∷ d ∷ x) e₂))
  where
    go :
        (a b c d e f g i : ℕ) (v : List ℕ)
        → drop offset bytes ≡ a ∷ b ∷ c ∷ d ∷ e ∷ f ∷ g ∷ i ∷ v
        → read_u64_le bytes offset ≡ ok (le_value (slice 8 offset bytes))
    go a b c d e f g i v q =
        rw
          (
            byte_at-drop_first bytes offset,
            byte_at-drop bytes offset 1 (omega (arith, k)),
            byte_at-drop bytes offset 2 (omega (arith, k)),
            byte_at-drop bytes offset 3 (omega (arith, k)),
            byte_at-drop bytes offset 4 (omega (arith, k)),
            byte_at-drop bytes offset 5 (omega (arith, k)),
            byte_at-drop bytes offset 6 (omega (arith, k)),
            byte_at-drop bytes offset 7 (omega (arith, k)),
            q,
          )
          (ap ok (omega arith))
