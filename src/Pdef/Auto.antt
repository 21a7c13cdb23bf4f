-- ===== src/Pdef/Auto.antt =====
-- The detection of the byte order for rules that src/pdef/parser.c has compiled.
use rxtracenetcap.Prelude.{ℕ, ◌≤◌, ◌≡◌, sym, subst, some, List, [], ◌∷◌, map, length, Returns}
use rxtracenetcap.Prelude.Options.{◌>>=◌, bind-some}
use rxtracenetcap.Pdef.Types.{
  StructDef, FilterRule, ProtocolDef, endian_mode_auto, endian_type_unknown,
}
use rxtracenetcap.Pdef.Compile.{
  TempFilterRule, target_struct, compile_conditions, rule_of, compile_filter_rule,
  compile_filter_rules,
}
use rxtracenetcap.Pdef.Rules.{all_hold}
use rxtracenetcap.Pdef.Compiled.{compile_conditions-execute_bytecode}
use rxtracenetcap.Pdef.Swap.{swap_field, swapped-execute_bytecode}
use rxtracenetcap.Pdef.Protocol.{packet_filter_match}
use rxtracenetcap.Pdef.Filters.{StructsFit, EnoughFuel, some_rule, some_rules}
use rxtracenetcap.Pdef.Detection.{Settles, Decided, AllDecided, match_rules-Settles}

module _ (fuel : ℕ) (structs : List StructDef) (fit : StructsFit structs) where
  compiled-Decided :
      (temp : TempFilterRule) (rule : FilterRule)
      → compile_filter_rule structs temp ≡ some rule
      → length rule.bytecode ≤ fuel
      → Decided fuel rule
  unfolding compile_filter_rule
  compiled-Decided temp rule e le =
      (let (s, s_ok, t) =
          bind-some (target_struct structs temp.conditions)
            (λ s. do code ← compile_conditions s.fields temp.conditions; some (rule_of temp s code))
            rule e in
        let (code, code_ok, u) =
          bind-some (compile_conditions s.fields temp.conditions)
            (λ code. some (rule_of temp s code)) rule t in
        let same = some_rule u in
        let enough = subst (λ r. length r.bytecode ≤ fuel) (sym same) le in
        let fields_fit = fit temp.conditions s s_ok in
        subst (Decided fuel) same (λ packet. (
          all_hold s.fields packet temp.conditions,
          all_hold (map swap_field s.fields) packet temp.conditions,
          compile_conditions-execute_bytecode s.fields temp.conditions code packet fuel fields_fit
              code_ok enough,
          swapped-execute_bytecode s.fields temp.conditions code packet fuel fields_fit code_ok
              enough,
        )))

  compiled-AllDecided :
      (temps : List TempFilterRule) (rules : List FilterRule)
      → compile_filter_rules structs temps ≡ some rules
      → EnoughFuel fuel rules
      → AllDecided fuel rules
  unfolding compile_filter_rules
  compiled-AllDecided [] rules e le = subst (AllDecided fuel) (some_rules e) tt
  compiled-AllDecided (temp ∷ temps) rules e le =
      (let (rule, rule_ok, t) =
          bind-some (compile_filter_rule structs temp)
            (λ rule. do rest ← compile_filter_rules structs temps; some (rule ∷ rest)) rules e in
        let (rest, rest_ok, u) =
          bind-some (compile_filter_rules structs temps) (λ rest. some (rule ∷ rest)) rules t in
        let le' = subst (EnoughFuel fuel) (sym (some_rules u)) le in
        subst (AllDecided fuel) (some_rules u)
          (compiled-Decided temp rule rule_ok le'.0, compiled-AllDecided temps rest rest_ok le'.1))

-- A protocol in the mode `auto` whose byte order is not known yet, with rules compiled from a PDEF
-- file: the match of a packet returns. Where it returns `true`, the detected byte order is big or
-- little from then on and the protocol is otherwise as before; where it returns `false`, the protocol
-- is as before.
pub packet_filter_match-Settles :
    (structs : List StructDef) (temps : List TempFilterRule) (proto : ProtocolDef) (packet : List ℕ)
    (port fuel : ℕ)
    → StructsFit structs
    → compile_filter_rules structs temps ≡ some proto.filters
    → EnoughFuel fuel proto.filters
    → proto.endian_mode ≡ endian_mode_auto
    → proto.detected_endian ≡ endian_type_unknown
    → Returns (Settles proto) (packet_filter_match fuel packet port proto)
unfolding packet_filter_match
packet_filter_match-Settles structs temps proto packet port fuel fit e le auto unknown =
    match_rules-Settles proto fuel auto unknown proto.filters packet
      (compiled-AllDecided fuel structs fit temps proto.filters e le)
