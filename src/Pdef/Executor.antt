-- ===== src/Pdef/Executor.antt =====
-- src/runtime/executor.c: the bytecode machine.
-- The `while` loop runs on fuel. The instruction pointer is below `bytecode_len`, so `ip++` does
-- not wrap. An opcode outside the enumeration has no counterpart.
use rxtracenetcap.Prelude.{
  Option, ℕ, zero, suc, bit_and, Bool, true, false, not, none, some, List, Run, ok, out_of_fuel,
  ◌>>=◌, get_elem?, length, is_empty, ltb, leb, ◌==◌, if◌then◌else◌,
}
use rxtracenetcap.Bytes.{
  add32, read_u8, read_u16_be, read_u16_le, read_u32_be, read_u32_le, read_u64_be, read_u64_le,
  read_i8, read_i16_be, read_i16_le, read_i32_be, read_i32_le, read_i64_be, read_i64_le,
}
use rxtracenetcap.Pdef.Types.{
  OpCode, op_load_u8, op_load_u16_be, op_load_u16_le, op_load_u32_be, op_load_u32_le,
  op_load_u64_be, op_load_u64_le, op_load_i8, op_load_i16_be, op_load_i16_le, op_load_i32_be,
  op_load_i32_le, op_load_i64_be, op_load_i64_le, op_cmp_eq, op_cmp_ne, op_cmp_gt, op_cmp_ge,
  op_cmp_lt, op_cmp_le, op_cmp_mask, op_jump_if_false, op_jump, op_return_true, op_return_false,
  Instruction, FilterRule,
}

-- The variables of the loop.
pub record Vm : Type 0 where
  pub ip : ℕ
  pub acc : ℕ
  pub cmp_result : Bool

-- What an instruction does: return from the function, or go on.
pub data Outcome : Type 0 where
  halt : Bool → Outcome
  continue : Vm → Outcome

abbrev pub advance : Vm → Outcome
advance vm = continue (record vm { ip = suc vm.ip })

-- `if (ins->offset + n > packet_len) return false; acc = read(packet, ins->offset);`
unfoldable pub load : ℕ → (List ℕ → ℕ → Run ℕ) → List ℕ → Instruction → Vm → Run Outcome
load n read packet ins vm =
    (let value = read packet ins.offset in
      if ltb (length packet) (add32 ins.offset n)
      then ok (halt false)
      else do acc ← value; ok (advance (record vm { acc = acc })))

abbrev compare_to : Bool → Vm → Run Outcome
compare_to result vm = ok (advance (record vm { cmp_result = result }))

-- A jump, with the test of its target.
abbrev jump : ℕ → ℕ → Vm → Run Outcome
jump bytecode_len target vm =
    ok (if leb bytecode_len target then halt false else continue (record vm { ip = target }))

-- The `switch`.
unfoldable pub execute_opcode : OpCode → ℕ → List ℕ → Instruction → Vm → Run Outcome
execute_opcode op_load_u8 len packet ins vm = load 1 read_u8 packet ins vm
execute_opcode op_load_u16_be len packet ins vm = load 2 read_u16_be packet ins vm
execute_opcode op_load_u16_le len packet ins vm = load 2 read_u16_le packet ins vm
execute_opcode op_load_u32_be len packet ins vm = load 4 read_u32_be packet ins vm
execute_opcode op_load_u32_le len packet ins vm = load 4 read_u32_le packet ins vm
execute_opcode op_load_u64_be len packet ins vm = load 8 read_u64_be packet ins vm
execute_opcode op_load_u64_le len packet ins vm = load 8 read_u64_le packet ins vm
execute_opcode op_load_i8 len packet ins vm = load 1 read_i8 packet ins vm
execute_opcode op_load_i16_be len packet ins vm = load 2 read_i16_be packet ins vm
execute_opcode op_load_i16_le len packet ins vm = load 2 read_i16_le packet ins vm
execute_opcode op_load_i32_be len packet ins vm = load 4 read_i32_be packet ins vm
execute_opcode op_load_i32_le len packet ins vm = load 4 read_i32_le packet ins vm
execute_opcode op_load_i64_be len packet ins vm = load 8 read_i64_be packet ins vm
execute_opcode op_load_i64_le len packet ins vm = load 8 read_i64_le packet ins vm
execute_opcode op_cmp_eq len packet ins vm = compare_to (vm.acc == ins.operand) vm
execute_opcode op_cmp_ne len packet ins vm = compare_to (not (vm.acc == ins.operand)) vm
execute_opcode op_cmp_gt len packet ins vm = compare_to (ltb ins.operand vm.acc) vm
execute_opcode op_cmp_ge len packet ins vm = compare_to (leb ins.operand vm.acc) vm
execute_opcode op_cmp_lt len packet ins vm = compare_to (ltb vm.acc ins.operand) vm
execute_opcode op_cmp_le len packet ins vm = compare_to (leb vm.acc ins.operand) vm
execute_opcode op_cmp_mask len packet ins vm =
    compare_to (bit_and vm.acc ins.operand == ins.operand2) vm
execute_opcode op_jump_if_false len packet ins vm =
    if vm.cmp_result then ok (advance vm) else jump len ins.jump_target vm
execute_opcode op_jump len packet ins vm = jump len ins.jump_target vm
execute_opcode op_return_true len packet ins vm = ok (halt true)
execute_opcode op_return_false len packet ins vm = ok (halt false)

abbrev pub resume : (Vm → Run Bool) → Outcome → Run Bool
resume loop (halt result) = ok result
resume loop (continue vm) = loop vm

-- One round of `while (ip < bytecode_len) { … } return false;`, on the instruction at `ip`.
abbrev pub execute_round :
    (Vm → Run Bool) → List Instruction → List ℕ → Vm → Option Instruction → Run Bool
execute_round loop bytecode packet vm none = ok false
execute_round loop bytecode packet vm (some ins) =
    execute_opcode ins.opcode (length bytecode) packet ins vm >>= resume loop

unfoldable pub execute_loop : ℕ → List Instruction → List ℕ → Vm → Run Bool
execute_loop zero bytecode packet vm = out_of_fuel
execute_loop (suc fuel) bytecode packet vm =
    (let loop = execute_loop fuel bytecode packet in
      execute_round loop bytecode packet vm (get_elem? bytecode vm.ip))

abbrev pub start_vm : Vm
start_vm = record { ip = 0; acc = 0; cmp_result = false }

unfoldable pub execute_bytecode : ℕ → List ℕ → List Instruction → Run Bool
execute_bytecode fuel packet bytecode =
    if is_empty bytecode then ok false else execute_loop fuel bytecode packet start_vm

unfoldable pub execute_filter : ℕ → List ℕ → FilterRule → Run Bool
execute_filter fuel packet rule =
    (let result = execute_bytecode fuel packet rule.bytecode in
      if ltb (length packet) rule.min_packet_size then ok false else result)
