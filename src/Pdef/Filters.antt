-- ===== src/Pdef/Filters.antt =====
-- From the filter rules of a PDEF file to the packets that src/runtime/protocol.c matches.
use rxtracenetcap.Prelude.{
  ℕ, ◌≤◌, ◌≡◌, refl, sym, subst, ◌∙◌, ◌⊎◌, inl, inr, Bool, true, false, ◌||◌, Option, none, some,
  List, [], ◌∷◌, map, length, Run, ok,
}
use rxtracenetcap.Prelude.Options.{◌>>=◌, bind-some}
use rxtracenetcap.Pdef.Types.{
  Field, StructDef, Instruction, FilterRule, ProtocolDef, endian_mode_big, endian_mode_little,
  endian_mode_auto, endian_type_big, endian_type_little,
}
use rxtracenetcap.Pdef.Executor.{execute_bytecode}
use rxtracenetcap.Pdef.Compile.{
  TempFilterRule, FilterCondition, target_struct, compile_conditions, rule_of, compile_filter_rule,
  compile_filter_rules, swap_instruction,
}
use rxtracenetcap.Pdef.Rules.{all_hold}
use rxtracenetcap.Pdef.Compiled.{FieldsFit, compile_conditions-execute_bytecode}
use rxtracenetcap.Pdef.Swap.{swap_field, swapped-execute_bytecode}
use rxtracenetcap.Pdef.Protocol.{
  code_be, code_le, attempt, unchanged, or_else, try_match_with_endian, try_match_auto, match_rule,
  match_rules, packet_filter_match,
}
use rxtracenetcap.Pdef.Matching.{rule_matches, Tests, match_rule_lem}

-- No field of a structure that a rule is about reaches past 2 ^ 32.
abbrev pub StructsFit : List StructDef → Type 0
StructsFit structs =
    (cs : List FilterCondition) (s : StructDef)
    → target_struct structs cs ≡ some s
    → FieldsFit s.fields

-- As many rounds as the longest bytecode has instructions.
abbrev pub EnoughFuel : ℕ → List FilterRule → Type 0
EnoughFuel fuel [] = Unit {0}
EnoughFuel fuel (rule ∷ rules) = (length rule.bytecode ≤ fuel) × EnoughFuel fuel rules

module _ (fields_of : StructDef → List Field) (packet : List ℕ) where
  abbrev pub struct_matches : TempFilterRule → Option StructDef → Bool
  struct_matches temp none = false
  struct_matches temp (some s) =
      rule_matches temp.sliding_window temp.sliding_max_offset s.min_size packet
        (λ p. all_hold (fields_of s) p temp.conditions)

  -- One of the rules matches the packet, where the fields of a structure are those given.
  unfoldable pub any_filter : List StructDef → List TempFilterRule → Bool
  any_filter structs [] = false
  any_filter structs (temp ∷ temps) =
      struct_matches temp (target_struct structs temp.conditions) || any_filter structs temps

-- The byte order is settled, by the file or by an earlier match.
abbrev pub IsBig : ProtocolDef → Type 0
IsBig proto =
    (proto.endian_mode ≡ endian_mode_big)
    ⊎ ((proto.endian_mode ≡ endian_mode_auto) × (proto.detected_endian ≡ endian_type_big))

abbrev pub IsLittle : ProtocolDef → Type 0
IsLittle proto =
    (proto.endian_mode ≡ endian_mode_little)
    ⊎ ((proto.endian_mode ≡ endian_mode_auto) × (proto.detected_endian ≡ endian_type_little))

big-try_match :
    (fuel : ℕ) (packet : List ℕ) (rule : FilterRule) (proto : ProtocolDef)
    → IsBig proto
    → try_match_with_endian fuel packet rule proto
      ≡ attempt fuel packet (code_be rule) unchanged proto
unfolding try_match_with_endian try_match_auto
big-try_match fuel packet rule proto (inl e) = rw (e) refl
big-try_match fuel packet rule proto (inr (e, f)) = rw (e, f) refl

little-try_match :
    (fuel : ℕ) (packet : List ℕ) (rule : FilterRule) (proto : ProtocolDef)
    → IsLittle proto
    → try_match_with_endian fuel packet rule proto
      ≡ attempt fuel packet (code_le rule) unchanged proto
unfolding try_match_with_endian try_match_auto
little-try_match fuel packet rule proto (inl e) = rw (e) refl
little-try_match fuel packet rule proto (inr (e, f)) = rw (e, f) refl

pub some_rule : {r q : FilterRule} → some r ≡ some q → r ≡ q
some_rule e = cc e

pub some_rules : {rs qs : List FilterRule} → some rs ≡ some qs → rs ≡ qs
some_rules e = cc e

or_else_lem :
    (b : Bool) (next : ProtocolDef → Run (Bool × ProtocolDef)) (proto : ProtocolDef) (c : Bool)
    → next proto ≡ ok (c, proto)
    → or_else next (b, proto) ≡ ok (b || c, proto)
or_else_lem true next proto c e = refl
or_else_lem false next proto c e = e

attempt_lem :
    (fuel : ℕ) (packet : List ℕ) (code : List Instruction) (proto : ProtocolDef) (b : Bool)
    → execute_bytecode fuel packet code ≡ ok b
    → attempt fuel packet code unchanged proto ≡ ok (b, proto)
attempt_lem fuel packet code proto true e = rw (e) refl
attempt_lem fuel packet code proto false e = rw (e) refl

module _ (fuel : ℕ) (packet : List ℕ) (proto : ProtocolDef) (structs : List StructDef)
    (fields_of : StructDef → List Field) (fit : StructsFit structs)
    (decides : (temp : TempFilterRule) (s : StructDef) (code : List Instruction)
      → FieldsFit s.fields
      → compile_conditions s.fields temp.conditions ≡ some code
      → length code ≤ fuel
      → Tests fuel
          (rule_of temp s code)
          proto
          (λ p. all_hold (fields_of s) p temp.conditions)) where
  compiled_rule :
      (temp : TempFilterRule) (rule : FilterRule)
      → compile_filter_rule structs temp ≡ some rule
      → length rule.bytecode ≤ fuel
      → match_rule fuel packet rule proto
        ≡ ok (struct_matches fields_of packet temp (target_struct structs temp.conditions), proto)
  unfolding compile_filter_rule
  compiled_rule temp rule e le =
      (let (s, s_ok, t) =
          bind-some (target_struct structs temp.conditions)
            (λ s. do code ← compile_conditions s.fields temp.conditions; some (rule_of temp s code))
            rule e in
        let (code, code_ok, u) =
          bind-some (compile_conditions s.fields temp.conditions)
            (λ code. some (rule_of temp s code)) rule t in
        let same = some_rule u in
        subst
          (λ r.
            match_rule fuel packet r proto
            ≡ ok (
              struct_matches fields_of packet temp (target_struct structs temp.conditions),
              proto,
            ))
          same
          (subst
            (λ o.
              match_rule fuel packet (rule_of temp s code) proto
              ≡ ok (struct_matches fields_of packet temp o, proto))
            (sym s_ok)
            (match_rule_lem fuel packet (rule_of temp s code) proto
              (λ p. all_hold (fields_of s) p temp.conditions)
              (decides temp s code (fit temp.conditions s s_ok) code_ok
                (subst (λ r. length r.bytecode ≤ fuel) (sym same) le)))))

  compiled_rules :
      (temps : List TempFilterRule) (rules : List FilterRule)
      → compile_filter_rules structs temps ≡ some rules
      → EnoughFuel fuel rules
      → match_rules fuel packet rules proto ≡ ok (any_filter fields_of packet structs temps, proto)
  unfolding compile_filter_rules match_rules any_filter
  compiled_rules [] rules e le =
      subst (λ rs. match_rules fuel packet rs proto ≡ ok (false, proto)) (some_rules e) refl
  compiled_rules (temp ∷ temps) rules e le =
      (let (rule, rule_ok, t) =
          bind-some (compile_filter_rule structs temp)
            (λ rule. do rest ← compile_filter_rules structs temps; some (rule ∷ rest)) rules e in
        let (rest, rest_ok, u) =
          bind-some (compile_filter_rules structs temps) (λ rest. some (rule ∷ rest)) rules t in
        let same = some_rules u in
        let le' = subst (EnoughFuel fuel) (sym same) le in
        subst
          (λ rs.
            match_rules fuel packet rs proto
            ≡ ok (any_filter fields_of packet structs (temp ∷ temps), proto))
          same
          (rw (compiled_rule temp rule rule_ok le'.0) (
            or_else_lem
              (struct_matches fields_of packet temp (target_struct structs temp.conditions))
              (match_rules fuel packet rest) proto (any_filter fields_of packet structs temps)
              (compiled_rules temps rest rest_ok le'.1))))

-- A protocol whose rules were compiled from a PDEF file, with the byte order known to be big, by the
-- file or by an earlier match: the match of a packet returns, and it returns `true` exactly if one of
-- the rules matches it, with the fields as the structures declare them. A rule matches where its
-- conditions hold, at the start of the packet or, if it slides, at an offset within its limit after
-- which the packet has the size of the structure left. The detected byte order stays.
pub packet_filter_match-big :
    (structs : List StructDef) (temps : List TempFilterRule) (proto : ProtocolDef) (packet : List ℕ)
    (port fuel : ℕ)
    → StructsFit structs
    → compile_filter_rules structs temps ≡ some proto.filters
    → EnoughFuel fuel proto.filters
    → IsBig proto
    → packet_filter_match fuel packet port proto
      ≡ ok (any_filter (λ s. s.fields) packet structs temps, proto)
unfolding packet_filter_match
packet_filter_match-big structs temps proto packet port fuel fit e le big =
    compiled_rules fuel packet proto structs (λ s. s.fields) fit
      (λ temp s code ok_fields ok_code enough p.
        big-try_match fuel p (rule_of temp s code) proto big
        ∙ attempt_lem fuel p code proto (all_hold s.fields p temp.conditions) (
            compile_conditions-execute_bytecode s.fields temp.conditions code p fuel ok_fields
              ok_code enough))
      temps proto.filters e le

-- A protocol whose rules were compiled from a PDEF file, with the byte order known to be little,
-- by the file or by an earlier match: the match of a packet returns, and it returns `true`
-- exactly if one of the rules matches it with every field read in the other byte order than its
-- structure declares. The detected byte order stays.
pub packet_filter_match-little :
    (structs : List StructDef) (temps : List TempFilterRule) (proto : ProtocolDef) (packet : List ℕ)
    (port fuel : ℕ)
    → StructsFit structs
    → compile_filter_rules structs temps ≡ some proto.filters
    → EnoughFuel fuel proto.filters
    → IsLittle proto
    → packet_filter_match fuel packet port proto
      ≡ ok (any_filter (λ s. map swap_field s.fields) packet structs temps, proto)
unfolding packet_filter_match
packet_filter_match-little structs temps proto packet port fuel fit e le little =
    compiled_rules fuel packet proto structs (λ s. map swap_field s.fields) fit
      (λ temp s code ok_fields ok_code enough p.
        little-try_match fuel p (rule_of temp s code) proto little
        ∙ attempt_lem fuel p (map swap_instruction code) proto
            (all_hold (map swap_field s.fields) p temp.conditions)
            (swapped-execute_bytecode s.fields temp.conditions code p fuel ok_fields ok_code
              enough))
      temps proto.filters e le
