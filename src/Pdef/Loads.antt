-- ===== src/Pdef/Loads.antt =====
-- The load instructions of src/runtime/executor.c read the number of their field.
use rxtracenetcap.Prelude.{
  ℕ, ◌+◌, ◌^◌, ◌<◌, ◌≡◌, refl, ap, ◌∙◌, Bool, true, false, Option, none, some, List, length, ltb,
  if◌then◌else◌, Run, ok, ◌>>=◌, arith,
}
use rxtracenetcap.Bytes.{
  add32, sign_extend, read_u8, read_u16_be, read_u16_le, read_u32_be, read_u32_le, read_u64_be,
  read_u64_le, read_i8, read_i16_be, read_i16_le, read_i32_be, read_i32_le, read_i64_be,
  read_i64_le,
}
use rxtracenetcap.Bytes.Values.{
  Reads, slice, be_value, le_value, read_u8-be_value, read_u8-le_value, read_u16_be_lem,
  read_u16_le_lem, read_u32_be_lem, read_u32_le_lem, read_u64_be_lem, read_u64_le_lem,
}
use rxtracenetcap.Pdef.Types.{
  FieldType, field_type_uint8, field_type_uint16, field_type_uint32, field_type_uint64,
  field_type_int8, field_type_int16, field_type_int32, field_type_int64, field_type_bytes,
  field_type_string, field_type_varbytes, field_type_nested, Endian, endian_big, endian_little,
  Instruction,
}
use rxtracenetcap.Pdef.Executor.{Vm, Outcome, halt, advance, load, execute_opcode}
use rxtracenetcap.Pdef.Compile.{get_load_opcode}
use rxtracenetcap.Pdef.Rules.{field_width, field_value, window}

abbrev pub loaded : Vm → Option ℕ → Outcome
loaded vm none = halt false
loaded vm (some v) = advance (record vm { acc = v })

load_lem :
    (n : ℕ) (read : List ℕ → ℕ → Run ℕ) (value : List ℕ → ℕ)
    → Reads n read value
    → (packet : List ℕ) (ins : Instruction) (vm : Vm) → ins.offset + n < 2 ^ 32
    → load n read packet ins vm ≡ ok (loaded vm (window n value ins.offset packet))
unfolding load
load_lem n read value reads packet ins vm h = go (ltb (length packet) (ins.offset + n)) refl
  where
    same : add32 ins.offset n ≡ ins.offset + n
    same = omega (arith, h)

    go :
        (b : Bool)
        → ltb (length packet) (ins.offset + n) ≡ b
        → load n read packet ins vm ≡ ok (loaded vm (window n value ins.offset packet))
    go true e = rw (same, e) refl
    go false e = rw (same, e, reads packet ins.offset (ground (arith, e)) (omega (arith, h))) refl

-- Reading a signed number.
extended_lem :
    (n w : ℕ) (read : List ℕ → ℕ → Run ℕ) (value : List ℕ → ℕ)
    → Reads n read value
    → Reads n
        (λ bytes offset. do v ← read bytes offset; ok (sign_extend w v))
        (λ bytes. sign_extend w (value bytes))
extended_lem n w read value reads bytes offset h k = rw (reads bytes offset h k) refl

sign_extend-64 : (v : ℕ) → v ≡ sign_extend 64 v
unfolding sign_extend
sign_extend-64 v = go (ltb v (2 ^ 63))
  where
    go : (b : Bool) → v ≡ (if b then v else v + 0)
    go true = refl
    go false = omega arith

-- What a load instruction reads.
abbrev pub LoadsField : FieldType → Endian → Type 0
LoadsField t e =
    (len : ℕ) (packet : List ℕ) (ins : Instruction) (vm : Vm)
    → ins.offset + 8 < 2 ^ 32
    → execute_opcode (get_load_opcode t e) len packet ins vm
      ≡ ok (loaded vm (window (field_width t) (field_value t e) ins.offset packet))

pub load_opcode_lem : (t : FieldType) (e : Endian) → LoadsField t e
unfolding execute_opcode get_load_opcode read_i8 read_i16_be read_i16_le read_i32_be read_i32_le
    read_i64_be read_i64_le
load_opcode_lem field_type_uint8 endian_big len packet ins vm h =
    load_lem 1 read_u8 be_value read_u8-be_value packet ins vm (omega (arith, h))
load_opcode_lem field_type_int8 endian_big len packet ins vm h =
    load_lem 1 read_i8 (λ bytes. sign_extend 8 (be_value bytes))
      (extended_lem 1 8 read_u8 be_value read_u8-be_value) packet ins vm (omega (arith, h))
load_opcode_lem field_type_uint8 endian_little len packet ins vm h =
    load_lem 1 read_u8 le_value read_u8-le_value packet ins vm (omega (arith, h))
load_opcode_lem field_type_int8 endian_little len packet ins vm h =
    load_lem 1 read_i8 (λ bytes. sign_extend 8 (le_value bytes))
      (extended_lem 1 8 read_u8 le_value read_u8-le_value) packet ins vm (omega (arith, h))
load_opcode_lem field_type_uint16 endian_big len packet ins vm h =
    load_lem 2 read_u16_be be_value read_u16_be_lem packet ins vm (omega (arith, h))
load_opcode_lem field_type_int16 endian_big len packet ins vm h =
    load_lem 2 read_i16_be (λ bytes. sign_extend 16 (be_value bytes))
      (extended_lem 2 16 read_u16_be be_value read_u16_be_lem) packet ins vm (omega (arith, h))
load_opcode_lem field_type_uint16 endian_little len packet ins vm h =
    load_lem 2 read_u16_le le_value read_u16_le_lem packet ins vm (omega (arith, h))
load_opcode_lem field_type_int16 endian_little len packet ins vm h =
    load_lem 2 read_i16_le (λ bytes. sign_extend 16 (le_value bytes))
      (extended_lem 2 16 read_u16_le le_value read_u16_le_lem) packet ins vm (omega (arith, h))
load_opcode_lem field_type_uint32 endian_big len packet ins vm h =
    load_lem 4 read_u32_be be_value read_u32_be_lem packet ins vm (omega (arith, h))
load_opcode_lem field_type_int32 endian_big len packet ins vm h =
    load_lem 4 read_i32_be (λ bytes. sign_extend 32 (be_value bytes))
      (extended_lem 4 32 read_u32_be be_value read_u32_be_lem) packet ins vm (omega (arith, h))
load_opcode_lem field_type_uint32 endian_little len packet ins vm h =
    load_lem 4 read_u32_le le_value read_u32_le_lem packet ins vm (omega (arith, h))
load_opcode_lem field_type_int32 endian_little len packet ins vm h =
    load_lem 4 read_i32_le (λ bytes. sign_extend 32 (le_value bytes))
      (extended_lem 4 32 read_u32_le le_value read_u32_le_lem) packet ins vm (omega (arith, h))
load_opcode_lem field_type_uint64 endian_big len packet ins vm h =
    load_lem 8 read_u64_be be_value read_u64_be_lem packet ins vm (omega (arith, h))
load_opcode_lem field_type_int64 endian_big len packet ins vm h =
    load_lem 8 read_i64_be (λ bytes. sign_extend 64 (be_value bytes))
      (λ bytes offset l k.
        read_u64_be_lem bytes offset l k ∙ ap ok (sign_extend-64 (be_value (slice 8 offset bytes))))
      packet ins vm h
load_opcode_lem field_type_uint64 endian_little len packet ins vm h =
    load_lem 8 read_u64_le le_value read_u64_le_lem packet ins vm (omega (arith, h))
load_opcode_lem field_type_int64 endian_little len packet ins vm h =
    load_lem 8 read_i64_le (λ bytes. sign_extend 64 (le_value bytes))
      (λ bytes offset l k.
        read_u64_le_lem bytes offset l k ∙ ap ok (sign_extend-64 (le_value (slice 8 offset bytes))))
      packet ins vm h
load_opcode_lem field_type_bytes endian_big len packet ins vm h =
    load_lem 1 read_u8 be_value read_u8-be_value packet ins vm (omega (arith, h))
load_opcode_lem field_type_bytes endian_little len packet ins vm h =
    load_lem 1 read_u8 le_value read_u8-le_value packet ins vm (omega (arith, h))
load_opcode_lem field_type_string endian_big len packet ins vm h =
    load_lem 1 read_u8 be_value read_u8-be_value packet ins vm (omega (arith, h))
load_opcode_lem field_type_string endian_little len packet ins vm h =
    load_lem 1 read_u8 le_value read_u8-le_value packet ins vm (omega (arith, h))
load_opcode_lem field_type_varbytes endian_big len packet ins vm h =
    load_lem 1 read_u8 be_value read_u8-be_value packet ins vm (omega (arith, h))
load_opcode_lem field_type_varbytes endian_little len packet ins vm h =
    load_lem 1 read_u8 le_value read_u8-le_value packet ins vm (omega (arith, h))
load_opcode_lem field_type_nested endian_big len packet ins vm h =
    load_lem 1 read_u8 be_value read_u8-be_value packet ins vm (omega (arith, h))
load_opcode_lem field_type_nested endian_little len packet ins vm h =
    load_lem 1 read_u8 le_value read_u8-le_value packet ins vm (omega (arith, h))
