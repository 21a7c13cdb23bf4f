-- ===== src/Pdef/Rules.antt =====
-- What a filter rule means, apart from its bytecode: the number that a field reads in a packet, and
-- the conditions on it.
use rxtracenetcap.Prelude.{
  ℕ, ◌+◌, ◌*◌, bit_and, Bool, true, false, not, ◌&&◌, ◌||◌, Option, none, some, List, [], ◌∷◌,
  length, ltb, leb, ◌==◌, if◌then◌else◌,
}
use rxtracenetcap.Bytes.{sign_extend}
use rxtracenetcap.Bytes.Values.{be_value, le_value, slice}
use rxtracenetcap.Pdef.Types.{
  FieldType, field_type_uint16, field_type_uint32, field_type_uint64, field_type_int8,
  field_type_int16, field_type_int32, field_type_int64, Endian, endian_big, endian_little, Field,
}
use rxtracenetcap.Pdef.Compile.{
  ConditionOp, cond_eq, cond_ne, cond_gt, cond_ge, cond_lt, cond_le, cond_mask, cond_in,
  cond_not_in, FilterCondition, find_field_by_path,
}

-- Bytes that a field of this type reads.
abbrev pub field_width : FieldType → ℕ
field_width field_type_uint16 = 2
field_width field_type_int16 = 2
field_width field_type_uint32 = 4
field_width field_type_int32 = 4
field_width field_type_uint64 = 8
field_width field_type_int64 = 8
field_width _ = 1

abbrev pub is_signed : FieldType → Bool
is_signed field_type_int8 = true
is_signed field_type_int16 = true
is_signed field_type_int32 = true
is_signed field_type_int64 = true
is_signed _ = false

-- The unsigned value of these bytes.
abbrev pub raw_value : Endian → List ℕ → ℕ
raw_value endian_big bytes = be_value bytes
raw_value endian_little bytes = le_value bytes

-- As 64 bits, in two's complement where the type is signed.
abbrev pub field_value : FieldType → Endian → List ℕ → ℕ
field_value type endian bytes =
    if is_signed type
    then sign_extend (8 * field_width type) (raw_value endian bytes)
    else raw_value endian bytes

-- The value of `n` bytes, where the packet has them.
abbrev pub window : ℕ → (List ℕ → ℕ) → ℕ → List ℕ → Option ℕ
window n value offset packet =
    if ltb (length packet) (offset + n) then none else some (value (slice n offset packet))

abbrev pub number_at : Field → List ℕ → Option ℕ
number_at f packet = window (field_width f.type) (field_value f.type f.endian) f.offset packet

unfoldable pub any_equal : ℕ → List ℕ → Bool
any_equal v [] = false
any_equal v (w ∷ ws) = (v == w) || any_equal v ws

abbrev pub condition_test : ConditionOp → FilterCondition → ℕ → Bool
condition_test cond_eq c v = v == c.value
condition_test cond_ne c v = not (v == c.value)
condition_test cond_gt c v = ltb c.value v
condition_test cond_ge c v = leb c.value v
condition_test cond_lt c v = ltb v c.value
condition_test cond_le c v = leb v c.value
condition_test cond_mask c v = bit_and v c.mask == c.value
condition_test cond_in c v = any_equal v c.values
condition_test cond_not_in c v = not (any_equal v c.values)

-- A field that the packet is too short for satisfies no condition.
abbrev pub number_test : FilterCondition → Option ℕ → Bool
number_test c none = false
number_test c (some v) = condition_test c.op c v

abbrev pub field_test : List ℕ → FilterCondition → Option Field → Bool
field_test packet c none = false
field_test packet c (some f) = number_test c (number_at f packet)

unfoldable pub all_hold : List Field → List ℕ → List FilterCondition → Bool
all_hold fields packet [] = true
all_hold fields packet (c ∷ cs) =
    field_test packet c (find_field_by_path fields c.field_name) && all_hold fields packet cs
