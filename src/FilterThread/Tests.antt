-- ===== src/FilterThread/Tests.antt =====
-- The filter thread on concrete packets.
use rxtracenetcap.Prelude.{
  ℕ, ◌≡◌, ◌%◌, ◌^◌, refl, inl, List, [], ◌∷◌, ok, ub, length, Returns, arith,
}
use rxtracenetcap.Bytes.{byte_at}
use rxtracenetcap.Pdef.Types.{endian_mode_big}
use rxtracenetcap.Pdef.Compile.{
  compile_conditions, compile_filter_rules, compile_filter_rule, target_struct, find_target_struct,
  find_field_by_path, conds_size, cond_size, emit_conditions, emit_tests, emit_in, emit_not_in,
  compare_of, get_cmp_opcode, get_load_opcode, swap_endian_opcode,
}
use rxtracenetcap.Pdef.Samples.{
  header, header_rule, protocol, header_fields-FieldsFit, one_struct-StructsFit,
}
use rxtracenetcap.FilterThread.{parse_packet_data, filter_packets}
use rxtracenetcap.FilterThread.Parsing.{
  WithinPacket, parse_packet_data-WithinPacket, parse_packet_data-ub,
}
use rxtracenetcap.FilterThread.Keeping.{NotCut, filter, keeps, filter_packets-filter}

-- Ethernet and IPv4 headers, up to the ports, for this protocol.
abbrev headers : ℕ → List ℕ → List ℕ
headers protocol rest =
    0 ∷ 0 ∷ 0 ∷ 0 ∷ 0 ∷ 0 ∷ 0 ∷ 0 ∷ 0 ∷ 0 ∷ 0 ∷ 0 ∷ 8 ∷ 0 ∷ 69 ∷ 0 ∷ 0 ∷ 0 ∷ 0 ∷ 0 ∷ 0 ∷ 0 ∷ 64
    ∷ protocol ∷ 0 ∷ 0 ∷ 10 ∷ 0 ∷ 0 ∷ 1 ∷ 10 ∷ 0 ∷ 0 ∷ 2 ∷ 31 ∷ 144 ∷ 0 ∷ 80 ∷ rest

-- A UDP packet with three bytes of payload.
abbrev udp_packet : List ℕ
udp_packet = headers 17 (0 ∷ 11 ∷ 0 ∷ 0 ∷ 1 ∷ 2 ∷ 9 ∷ [])

-- A TCP packet cut after 12 bytes of its header.
abbrev cut_packet : List ℕ
cut_packet = headers 6 (0 ∷ 0 ∷ 0 ∷ 0 ∷ 0 ∷ 0 ∷ 0 ∷ 0 ∷ [])

udp_packet-NotCut : NotCut udp_packet
unfolding byte_at
udp_packet-NotCut first e h = ground (arith, e, h)

parse_packet_data-WithinPacket_example :
    Returns (WithinPacket udp_packet) (parse_packet_data udp_packet)
parse_packet_data-WithinPacket_example = parse_packet_data-WithinPacket udp_packet udp_packet-NotCut

parse_packet_data-ub_example : parse_packet_data cut_packet ≡ ub
unfolding byte_at
parse_packet_data-ub_example = parse_packet_data-ub cut_packet 69 refl refl refl refl (omega arith)

filter_packets-filter_example :
    filter_packets 18
      (udp_packet ∷ [])
      (record { kept = []; total = 0; matched = 0; pdef = protocol endian_mode_big })
    ≡ ok (record {
      kept = filter (keeps (header ∷ []) (header_rule ∷ [])) (udp_packet ∷ []);
      total = 1;
      matched = length (filter (keeps (header ∷ []) (header_rule ∷ [])) (udp_packet ∷ [])) % 2 ^ 64;
      pdef = protocol endian_mode_big;
    })
unfolding compile_conditions compile_filter_rules compile_filter_rule target_struct
    find_target_struct find_field_by_path conds_size cond_size emit_conditions emit_tests emit_in
    emit_not_in compare_of get_cmp_opcode get_load_opcode swap_endian_opcode
filter_packets-filter_example =
    filter_packets-filter 18 (header ∷ []) (header_rule ∷ []) (protocol endian_mode_big)
      (udp_packet ∷ []) (one_struct-StructsFit header header_fields-FieldsFit) refl
      (omega arith, tt) (inl refl) (udp_packet-NotCut, tt)
