-- ===== src/Pdef/Compile.antt =====
-- src/pdef/parser.c: the code generator, `compile_filter_rules`.
-- A condition writes its instructions at indices that follow each other from its start on, and the
-- next condition starts where it ended, so the array is the list of what is written. The labels are
-- computed from the sizes that the source adds up beforehand; they stay below 2 ^ 32. `none` is a
-- parser error.
use rxtracenetcap.Prelude.{
  ℕ, suc, ◌+◌, ◌*◌, Bool, Option, none, some, List, [], ◌∷◌, ◌++◌, map, take, is_empty, length, Str,
  str_beq, if◌then◌else◌,
}
use rxtracenetcap.Prelude.Options.{◌>>=◌}
use rxtracenetcap.Pdef.Types.{
  FieldType, field_type_uint8, field_type_uint16, field_type_uint32, field_type_uint64,
  field_type_int8, field_type_int16, field_type_int32, field_type_int64, Endian, endian_big,
  endian_little, Field, StructDef, OpCode, op_load_u8, op_load_u16_be, op_load_u16_le,
  op_load_u32_be, op_load_u32_le, op_load_u64_be, op_load_u64_le, op_load_i8, op_load_i16_be,
  op_load_i16_le, op_load_i32_be, op_load_i32_le, op_load_i64_be, op_load_i64_le, op_cmp_eq,
  op_cmp_ne, op_cmp_gt, op_cmp_ge, op_cmp_lt, op_cmp_le, op_cmp_mask, op_jump_if_false, op_jump,
  op_return_true, op_return_false, Instruction, FilterRule,
}

pub data ConditionOp : Type 0 where
  cond_eq cond_ne cond_gt cond_ge cond_lt cond_le cond_mask cond_in cond_not_in : ConditionOp

-- `values` has `value_count` elements.
pub record FilterCondition : Type 0 where
  pub field_name : Str
  pub op : ConditionOp
  pub value : ℕ
  pub mask : ℕ
  pub values : List ℕ

pub record TempFilterRule : Type 0 where
  pub name : Str
  pub conditions : List FilterCondition
  pub sliding_window : Bool
  pub sliding_max_offset : ℕ

-- The field of this flattened name.
unfoldable pub find_field_by_path : List Field → Str → Option Field
find_field_by_path [] path = none
find_field_by_path (f ∷ fields) path =
    if str_beq f.name path then some f else find_field_by_path fields path

-- `endian == ENDIAN_BIG ? be : le`
abbrev pub by_endian : Endian → OpCode → OpCode → OpCode
by_endian endian_big be le = be
by_endian endian_little be le = le

unfoldable pub get_load_opcode : FieldType → Endian → OpCode
get_load_opcode field_type_uint8 e = op_load_u8
get_load_opcode field_type_uint16 e = by_endian e op_load_u16_be op_load_u16_le
get_load_opcode field_type_uint32 e = by_endian e op_load_u32_be op_load_u32_le
get_load_opcode field_type_uint64 e = by_endian e op_load_u64_be op_load_u64_le
get_load_opcode field_type_int8 e = op_load_i8
get_load_opcode field_type_int16 e = by_endian e op_load_i16_be op_load_i16_le
get_load_opcode field_type_int32 e = by_endian e op_load_i32_be op_load_i32_le
get_load_opcode field_type_int64 e = by_endian e op_load_i64_be op_load_i64_le
get_load_opcode _ e = op_load_u8

unfoldable pub swap_endian_opcode : OpCode → OpCode
swap_endian_opcode op_load_u16_be = op_load_u16_le
swap_endian_opcode op_load_u16_le = op_load_u16_be
swap_endian_opcode op_load_u32_be = op_load_u32_le
swap_endian_opcode op_load_u32_le = op_load_u32_be
swap_endian_opcode op_load_u64_be = op_load_u64_le
swap_endian_opcode op_load_u64_le = op_load_u64_be
swap_endian_opcode op_load_i16_be = op_load_i16_le
swap_endian_opcode op_load_i16_le = op_load_i16_be
swap_endian_opcode op_load_i32_be = op_load_i32_le
swap_endian_opcode op_load_i32_le = op_load_i32_be
swap_endian_opcode op_load_i64_be = op_load_i64_le
swap_endian_opcode op_load_i64_le = op_load_i64_be
swap_endian_opcode op = op

unfoldable pub get_cmp_opcode : ConditionOp → OpCode
get_cmp_opcode cond_eq = op_cmp_eq
get_cmp_opcode cond_ne = op_cmp_ne
get_cmp_opcode cond_gt = op_cmp_gt
get_cmp_opcode cond_ge = op_cmp_ge
get_cmp_opcode cond_lt = op_cmp_lt
get_cmp_opcode cond_le = op_cmp_le
get_cmp_opcode cond_mask = op_cmp_mask
get_cmp_opcode _ = op_cmp_eq

-- `(Instruction){0}` with an opcode.
abbrev pub plain : OpCode → Instruction
plain op = record { opcode = op; offset = 0; operand = 0; operand2 = 0; jump_target = 0 }

abbrev pub load_of : Field → Instruction
load_of f = record (plain (get_load_opcode f.type f.endian)) { offset = f.offset }

abbrev pub compare_eq : ℕ → Instruction
compare_eq v = record (plain op_cmp_eq) { operand = v }

abbrev pub jump_if_false : ℕ → Instruction
jump_if_false target = record (plain op_jump_if_false) { jump_target = target }

abbrev pub jump_to : ℕ → Instruction
jump_to target = record (plain op_jump) { jump_target = target }

abbrev non_empty : List ℕ → ℕ → Option ℕ
non_empty [] size = none
non_empty (v ∷ vs) size = some size

-- `cond_sizes[j]`
unfoldable pub cond_size : ConditionOp → List ℕ → Option ℕ
cond_size cond_in values = non_empty values (3 * length values)
cond_size cond_not_in values = non_empty values (1 + 3 * length values)
cond_size _ values = some 3

-- `total_size` less the two return instructions.
unfoldable pub conds_size : List FilterCondition → Option ℕ
conds_size [] = some 0
conds_size (c ∷ cs) = do n ← cond_size c.op c.values; rest ← conds_size cs; some (n + rest)

-- The loop of `COND_IN`, where the next instruction is written at `idx`.
unfoldable pub emit_in : ℕ → ℕ → ℕ → List ℕ → List Instruction
emit_in next_start fail_label idx [] = []
emit_in next_start fail_label idx (v ∷ vs) =
    (let rest = emit_in next_start fail_label (idx + 3) vs in
      compare_eq v
      ∷ (if is_empty vs
          then jump_if_false fail_label ∷ []
          else jump_if_false (idx + 1 + 2) ∷ jump_to next_start ∷ rest))

-- The loop of `COND_NOT_IN`.
unfoldable pub emit_not_in : ℕ → ℕ → ℕ → List ℕ → List Instruction
emit_not_in next_start fail_label idx [] = []
emit_not_in next_start fail_label idx (v ∷ vs) =
    compare_eq v
    ∷ jump_if_false (if is_empty vs then next_start else idx + 1 + 2)
    ∷ jump_to fail_label
    ∷ emit_not_in next_start fail_label (idx + 3) vs

-- The comparison of any other operator.
unfoldable pub compare_of : ConditionOp → FilterCondition → Instruction
compare_of cond_mask c = record (plain op_cmp_mask) { operand = c.mask; operand2 = c.value }
compare_of op c = record (plain (get_cmp_opcode op)) { operand = c.value }

-- What follows the load of the field of a condition with this operator.
unfoldable pub emit_tests : ConditionOp → ℕ → ℕ → ℕ → FilterCondition → List Instruction
emit_tests cond_in next_start fail_label idx c = emit_in next_start fail_label idx c.values
emit_tests cond_not_in next_start fail_label idx c = emit_not_in next_start fail_label idx c.values
emit_tests op next_start fail_label idx c = compare_of op c ∷ jump_if_false fail_label ∷ []

-- The loop over the conditions, from the one that starts at `start`.
unfoldable pub emit_conditions :
    List Field → ℕ → ℕ → ℕ → List FilterCondition → Option (List Instruction)
emit_conditions fields success_label fail_label start [] = some []
emit_conditions fields success_label fail_label start (c ∷ cs) = do
  size ← cond_size c.op c.values
  f ← find_field_by_path fields c.field_name
  rest ← emit_conditions fields success_label fail_label (start + size) cs
  let next_start = if is_empty cs then success_label else start + size
  some (load_of f ∷ emit_tests c.op next_start fail_label (suc start) c ++ rest)

-- `bytecode`, from its sizes to the two return instructions.
unfoldable pub compile_conditions : List Field → List FilterCondition → Option (List Instruction)
compile_conditions fields cs = do
  size ← conds_size cs
  body ← emit_conditions fields size (suc size) 0 cs
  some (body ++ plain op_return_true ∷ plain op_return_false ∷ [])

-- The first structure that has the field of the first condition.
unfoldable pub find_target_struct : List StructDef → Str → Option StructDef
find_target_struct [] path = none
find_target_struct (s ∷ structs) path = elim (find_field_by_path s.fields path) [
  | none ↦ find_target_struct structs path
  | some f ↦ some s
]

unfoldable pub target_struct : List StructDef → List FilterCondition → Option StructDef
target_struct structs [] = none
target_struct structs (c ∷ cs) = find_target_struct structs c.field_name

abbrev pub swap_instruction : Instruction → Instruction
swap_instruction ins = record ins { opcode = swap_endian_opcode ins.opcode }

-- The fields of a compiled rule. Names are copied into arrays of 64 bytes.
abbrev pub rule_of : TempFilterRule → StructDef → List Instruction → FilterRule
rule_of temp s bytecode = record {
  name = take 63 temp.name;
  struct_name = take 63 s.name;
  bytecode = bytecode;
  bytecode_be = some bytecode;
  bytecode_le = some (map swap_instruction bytecode);
  min_packet_size = s.min_size;
  sliding_window = temp.sliding_window;
  sliding_max_offset = temp.sliding_max_offset;
}

-- One round of the outer loop.
unfoldable pub compile_filter_rule : List StructDef → TempFilterRule → Option FilterRule
compile_filter_rule structs temp = do
  s ← target_struct structs temp.conditions
  bytecode ← compile_conditions s.fields temp.conditions
  some (rule_of temp s bytecode)

unfoldable pub compile_filter_rules :
    List StructDef → List TempFilterRule → Option (List FilterRule)
compile_filter_rules structs [] = some []
compile_filter_rules structs (temp ∷ temps) = do
  rule ← compile_filter_rule structs temp
  rules ← compile_filter_rules structs temps
  some (rule ∷ rules)
