-- ===== src/Pdef/Tests.antt =====
-- The PDEF compiler and runtime on concrete rules and packets.
use rxtracenetcap.Prelude.{◌≡◌, refl, inl, [], ◌∷◌, map, ok, Returns, arith}
use rxtracenetcap.Pdef.Types.{endian_mode_big, endian_mode_little, endian_mode_auto}
use rxtracenetcap.Pdef.Executor.{execute_bytecode}
use rxtracenetcap.Pdef.Rules.{all_hold}
use rxtracenetcap.Pdef.Swap.{swap_field, swapped-execute_bytecode}
use rxtracenetcap.Pdef.Compiled.{compile_conditions-execute_bytecode}
use rxtracenetcap.Pdef.Protocol.{packet_filter_match}
use rxtracenetcap.Pdef.Filters.{any_filter, packet_filter_match-big, packet_filter_match-little}
use rxtracenetcap.Pdef.Detection.{Settles}
use rxtracenetcap.Pdef.Auto.{packet_filter_match-Settles}
use rxtracenetcap.Pdef.Compile.{
  compile_filter_rule, conds_size, cond_size, emit_conditions, emit_tests, emit_in, emit_not_in,
  compare_of, get_cmp_opcode, get_load_opcode, swap_endian_opcode, find_field_by_path,
  find_target_struct, target_struct, compile_conditions, compile_filter_rules, swap_instruction,
}
use rxtracenetcap.Pdef.Samples.{
  header_fields, header, header_conditions, header_rule, header_code, protocol, packet,
  header_fields-FieldsFit, one_struct-StructsFit,
}

compile_conditions-execute_bytecode_example :
    execute_bytecode 18 packet header_code ≡ ok (all_hold header_fields packet header_conditions)
unfolding compile_conditions compile_filter_rules compile_filter_rule target_struct
    find_target_struct find_field_by_path conds_size cond_size emit_conditions emit_tests emit_in
    emit_not_in compare_of get_cmp_opcode get_load_opcode swap_endian_opcode
compile_conditions-execute_bytecode_example =
    compile_conditions-execute_bytecode header_fields header_conditions header_code packet 18
      header_fields-FieldsFit refl (omega arith)

swapped-execute_bytecode_example :
    execute_bytecode 18 packet (map swap_instruction header_code)
    ≡ ok (all_hold (map swap_field header_fields) packet header_conditions)
unfolding compile_conditions compile_filter_rules compile_filter_rule target_struct
    find_target_struct find_field_by_path conds_size cond_size emit_conditions emit_tests emit_in
    emit_not_in compare_of get_cmp_opcode get_load_opcode swap_endian_opcode
swapped-execute_bytecode_example =
    swapped-execute_bytecode header_fields header_conditions header_code packet 18
      header_fields-FieldsFit refl (omega arith)

packet_filter_match-big_example :
    packet_filter_match 18 packet 80 (protocol endian_mode_big)
    ≡ ok (
      any_filter (λ s. s.fields) packet (header ∷ []) (header_rule ∷ []),
      protocol endian_mode_big,
    )
unfolding compile_conditions compile_filter_rules compile_filter_rule target_struct
    find_target_struct find_field_by_path conds_size cond_size emit_conditions emit_tests emit_in
    emit_not_in compare_of get_cmp_opcode get_load_opcode swap_endian_opcode
packet_filter_match-big_example =
    packet_filter_match-big (header ∷ []) (header_rule ∷ []) (protocol endian_mode_big) packet 80 18
      (one_struct-StructsFit header header_fields-FieldsFit) refl (omega arith, tt) (inl refl)

packet_filter_match-little_example :
    packet_filter_match 18 packet 80 (protocol endian_mode_little)
    ≡ ok (
      any_filter (λ s. map swap_field s.fields) packet (header ∷ []) (header_rule ∷ []),
      protocol endian_mode_little,
    )
unfolding compile_conditions compile_filter_rules compile_filter_rule target_struct
    find_target_struct find_field_by_path conds_size cond_size emit_conditions emit_tests emit_in
    emit_not_in compare_of get_cmp_opcode get_load_opcode swap_endian_opcode
packet_filter_match-little_example =
    packet_filter_match-little (header ∷ []) (header_rule ∷ []) (protocol endian_mode_little) packet
      80 18 (one_struct-StructsFit header header_fields-FieldsFit) refl (omega arith, tt) (inl refl)

packet_filter_match-Settles_example :
    Returns
      (Settles (protocol endian_mode_auto))
      (packet_filter_match 18 packet 80 (protocol endian_mode_auto))
unfolding compile_conditions compile_filter_rules compile_filter_rule target_struct
    find_target_struct find_field_by_path conds_size cond_size emit_conditions emit_tests emit_in
    emit_not_in compare_of get_cmp_opcode get_load_opcode swap_endian_opcode
packet_filter_match-Settles_example =
    packet_filter_match-Settles (header ∷ []) (header_rule ∷ []) (protocol endian_mode_auto) packet
      80 18 (one_struct-StructsFit header header_fields-FieldsFit) refl (omega arith, tt) refl refl
