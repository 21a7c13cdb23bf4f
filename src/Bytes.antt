-- ===== src/Bytes.antt =====
-- src/utils/endian.h: the readers of integers in a byte buffer.
-- A buffer is the list of its bytes, and a read outside of it is undefined behaviour. The operands
-- of each `|` are bytes shifted to different places, so it is written as `+`. Offsets are uint32.
pub mod Values
use rxtracenetcap.Prelude.{
  ℕ, ◌+◌, ◌-◌, ◌*◌, ◌%◌, ◌^◌, List, Run, ok, ◌>>=◌, deref, get_elem?, ltb, if◌then◌else◌,
}

-- uint32 addition.
abbrev pub add32 : ℕ → ℕ → ℕ
add32 a b = (a + b) % 2 ^ 32

-- `data[offset]`
unfoldable pub byte_at : List ℕ → ℕ → Run ℕ
byte_at bytes offset = deref (get_elem? bytes offset)

unfoldable pub read_u8 : List ℕ → ℕ → Run ℕ
read_u8 bytes offset = byte_at bytes offset

unfoldable pub read_u16_be : List ℕ → ℕ → Run ℕ
read_u16_be bytes offset = do
  a ← byte_at bytes offset
  b ← byte_at bytes (add32 offset 1)
  ok (a * 2 ^ 8 + b)

unfoldable pub read_u16_le : List ℕ → ℕ → Run ℕ
read_u16_le bytes offset = do
  a ← byte_at bytes offset
  b ← byte_at bytes (add32 offset 1)
  ok (a + b * 2 ^ 8)

unfoldable pub read_u32_be : List ℕ → ℕ → Run ℕ
read_u32_be bytes offset = do
  a ← byte_at bytes offset
  b ← byte_at bytes (add32 offset 1)
  c ← byte_at bytes (add32 offset 2)
  d ← byte_at bytes (add32 offset 3)
  ok (a * 2 ^ 24 + b * 2 ^ 16 + c * 2 ^ 8 + d)

unfoldable pub read_u32_le : List ℕ → ℕ → Run ℕ
read_u32_le bytes offset = do
  a ← byte_at bytes offset
  b ← byte_at bytes (add32 offset 1)
  c ← byte_at bytes (add32 offset 2)
  d ← byte_at bytes (add32 offset 3)
  ok (a + b * 2 ^ 8 + c * 2 ^ 16 + d * 2 ^ 24)

unfoldable pub read_u64_be : List ℕ → ℕ → Run ℕ
read_u64_be bytes offset = do
  a ← byte_at bytes offset
  b ← byte_at bytes (add32 offset 1)
  c ← byte_at bytes (add32 offset 2)
  d ← byte_at bytes (add32 offset 3)
  e ← byte_at bytes (add32 offset 4)
  f ← byte_at bytes (add32 offset 5)
  g ← byte_at bytes (add32 offset 6)
  h ← byte_at bytes (add32 offset 7)
  ok (a * 2 ^ 56 + b * 2 ^ 48 + c * 2 ^ 40 + d * 2 ^ 32 + e * 2 ^ 24 + f * 2 ^ 16 + g * 2 ^ 8 + h)

unfoldable pub read_u64_le : List ℕ → ℕ → Run ℕ
read_u64_le bytes offset = do
  a ← byte_at bytes offset
  b ← byte_at bytes (add32 offset 1)
  c ← byte_at bytes (add32 offset 2)
  d ← byte_at bytes (add32 offset 3)
  e ← byte_at bytes (add32 offset 4)
  f ← byte_at bytes (add32 offset 5)
  g ← byte_at bytes (add32 offset 6)
  h ← byte_at bytes (add32 offset 7)
  ok (a + b * 2 ^ 8 + c * 2 ^ 16 + d * 2 ^ 24 + e * 2 ^ 32 + f * 2 ^ 40 + g * 2 ^ 48 + h * 2 ^ 56)

-- `(uint64_t)(int64_t)(intw_t)v` for a `w`-bit value: the two's complement at 64 bits.
unfoldable pub sign_extend : ℕ → ℕ → ℕ
sign_extend w v = if ltb v (2 ^ (w - 1)) then v else v + (2 ^ 64 - 2 ^ w)

-- A read followed by that conversion.
abbrev extended : ℕ → Run ℕ → Run ℕ
extended w read = do v ← read; ok (sign_extend w v)

unfoldable pub read_i8 : List ℕ → ℕ → Run ℕ
read_i8 bytes offset = extended 8 (read_u8 bytes offset)

unfoldable pub read_i16_be : List ℕ → ℕ → Run ℕ
read_i16_be bytes offset = extended 16 (read_u16_be bytes offset)

unfoldable pub read_i16_le : List ℕ → ℕ → Run ℕ
read_i16_le bytes offset = extended 16 (read_u16_le bytes offset)

unfoldable pub read_i32_be : List ℕ → ℕ → Run ℕ
read_i32_be bytes offset = extended 32 (read_u32_be bytes offset)

unfoldable pub read_i32_le : List ℕ → ℕ → Run ℕ
read_i32_le bytes offset = extended 32 (read_u32_le bytes offset)

-- The casts of 64-bit values change nothing.
unfoldable pub read_i64_be : List ℕ → ℕ → Run ℕ
read_i64_be bytes offset = read_u64_be bytes offset

unfoldable pub read_i64_le : List ℕ → ℕ → Run ℕ
read_i64_le bytes offset = read_u64_le bytes offset
