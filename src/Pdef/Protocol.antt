-- ===== src/Pdef/Protocol.antt =====
-- src/runtime/protocol.c: the match of a packet against the rules of a protocol.
-- One call at a time: the compare-and-swap on `detected_endian` fails only where the value is known
-- already. A length field that is 0 stands beside a null pointer. The log lines are left out.
use rxtracenetcap.Prelude.{
  ℕ, zero, suc, ◌-◌, Bool, true, false, ◌&&◌, Option, none, some, List, [], ◌∷◌, Run, ok, ◌>>=◌,
  drop, length, ltb, if◌then◌else◌, Str, str_beq,
}
use rxtracenetcap.Pdef.Types.{
  EndianType, endian_type_unknown, endian_type_big, endian_type_little, EndianMode, endian_mode_big,
  endian_mode_little, endian_mode_auto, FilterRule, Instruction, ProtocolDef, StructDef,
}
use rxtracenetcap.Pdef.Executor.{execute_bytecode}

-- `code ? code : bytecode`
abbrev pub code_or : Option (List Instruction) → List Instruction → List Instruction
code_or none bytecode = bytecode
code_or (some code) bytecode = code

abbrev pub code_be : FilterRule → List Instruction
code_be rule = code_or rule.bytecode_be rule.bytecode

abbrev pub code_le : FilterRule → List Instruction
code_le rule = code_or rule.bytecode_le rule.bytecode

-- `__sync_val_compare_and_swap(&detected_endian, ENDIAN_TYPE_UNKNOWN, found)`
abbrev pub swap_if_unknown : EndianType → EndianType → ProtocolDef → ProtocolDef
swap_if_unknown endian_type_unknown found proto = record proto { detected_endian = found }
swap_if_unknown _ found proto = proto

abbrev pub detect : EndianType → ProtocolDef → ProtocolDef
detect found proto = swap_if_unknown proto.detected_endian found proto

-- A failed attempt is followed by the next one.
abbrev pub or_else :
    (ProtocolDef → Run (Bool × ProtocolDef)) → Bool × ProtocolDef → Run (Bool × ProtocolDef)
or_else next (true, proto) = ok (true, proto)
or_else next (false, proto) = next proto

-- One bytecode, with what its success says of the byte order.
abbrev pub attempt :
    ℕ
    → List ℕ
    → List Instruction
    → (ProtocolDef → ProtocolDef)
    → ProtocolDef
    → Run (Bool × ProtocolDef)
attempt fuel packet code on_match proto = do
  matched ← execute_bytecode fuel packet code
  ok (if matched then (true, on_match proto) else (false, proto))

abbrev pub unchanged : ProtocolDef → ProtocolDef
unchanged proto = proto

-- The branch of `ENDIAN_MODE_AUTO`, by the byte order detected so far.
unfoldable pub try_match_auto :
    EndianType → ℕ → List ℕ → FilterRule → ProtocolDef → Run (Bool × ProtocolDef)
try_match_auto endian_type_big fuel packet rule proto =
    attempt fuel packet (code_be rule) unchanged proto
try_match_auto endian_type_little fuel packet rule proto =
    attempt fuel packet (code_le rule) unchanged proto
try_match_auto endian_type_unknown fuel packet rule proto =
    attempt fuel packet (code_be rule) (detect endian_type_big) proto
    >>= or_else (attempt fuel packet (code_le rule) (detect endian_type_little))

abbrev pub try_match_mode :
    EndianMode → ℕ → List ℕ → FilterRule → ProtocolDef → Run (Bool × ProtocolDef)
try_match_mode endian_mode_big fuel packet rule proto =
    attempt fuel packet (code_be rule) unchanged proto
try_match_mode endian_mode_little fuel packet rule proto =
    attempt fuel packet (code_le rule) unchanged proto
try_match_mode endian_mode_auto fuel packet rule proto =
    try_match_auto proto.detected_endian fuel packet rule proto

unfoldable pub try_match_with_endian :
    ℕ → List ℕ → FilterRule → ProtocolDef → Run (Bool × ProtocolDef)
try_match_with_endian fuel packet rule proto =
    try_match_mode proto.endian_mode fuel packet rule proto

unfoldable pub search_limit : ℕ → ℕ → ℕ
search_limit packet_len sliding_max_offset =
    if ltb 0 sliding_max_offset && ltb sliding_max_offset packet_len
    then sliding_max_offset
    else packet_len

-- The loop of a sliding rule, with `n` offsets left.
unfoldable pub slide : ℕ → List ℕ → FilterRule → ℕ → ℕ → ProtocolDef → Run (Bool × ProtocolDef)
slide fuel packet rule zero offset proto = ok (false, proto)
slide fuel packet rule (suc n) offset proto =
    (let next = slide fuel packet rule n (suc offset) in
      if ltb (length packet - offset) rule.min_packet_size
      then ok (false, proto)
      else try_match_with_endian fuel (drop offset packet) rule proto >>= or_else next)

unfoldable pub match_rule : ℕ → List ℕ → FilterRule → ProtocolDef → Run (Bool × ProtocolDef)
match_rule fuel packet rule proto =
    if rule.sliding_window
    then slide fuel packet rule (search_limit (length packet) rule.sliding_max_offset) 0 proto
    else try_match_with_endian fuel packet rule proto

-- The loop over the rules.
unfoldable pub match_rules : ℕ → List ℕ → List FilterRule → ProtocolDef → Run (Bool × ProtocolDef)
match_rules fuel packet [] proto = ok (false, proto)
match_rules fuel packet (rule ∷ rules) proto =
    match_rule fuel packet rule proto >>= or_else (match_rules fuel packet rules)

-- The port is ignored.
unfoldable pub packet_filter_match : ℕ → List ℕ → ℕ → ProtocolDef → Run (Bool × ProtocolDef)
packet_filter_match fuel packet port proto = match_rules fuel packet proto.filters proto

unfoldable pub protocol_find_struct : List StructDef → Str → Option StructDef
protocol_find_struct [] name = none
protocol_find_struct (s ∷ structs) name =
    if str_beq s.name name then some s else protocol_find_struct structs name
