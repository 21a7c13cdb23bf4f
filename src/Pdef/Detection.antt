-- ===== src/Pdef/Detection.antt =====
-- The detection of the byte order in src/runtime/protocol.c, mode `ENDIAN_MODE_AUTO`.
use rxtracenetcap.Prelude.{
  ℕ, zero, suc, ◌-◌, ◌>>=◌, ◌≡◌, refl, sym, subst, ◌⊎◌, inl, inr, Bool, true, false, List, [], ◌∷◌,
  length, drop, ltb, if◌then◌else◌, Run, ok, Returns, Returns-bind,
}
use rxtracenetcap.Pdef.Types.{
  FilterRule, EndianType, ProtocolDef, endian_mode_auto, endian_type_unknown, endian_type_big,
  endian_type_little,
}
use rxtracenetcap.Pdef.Executor.{execute_bytecode}
use rxtracenetcap.Pdef.Protocol.{
  code_be, code_le, detect, swap_if_unknown, try_match_mode, or_else, try_match_with_endian,
  try_match_auto, search_limit, slide, match_rule, match_rules,
}

-- A match settles the byte order and nothing else, and without one all stays.
abbrev pub Settles : ProtocolDef → Bool × ProtocolDef → Type 0
Settles proto (true, after) =
    (after ≡ record proto { detected_endian = endian_type_big })
    ⊎ (after ≡ record proto { detected_endian = endian_type_little })
Settles proto (false, after) = after ≡ proto

or_else-Settles :
    (proto : ProtocolDef) (next : ProtocolDef → Run (Bool × ProtocolDef)) (r : Bool × ProtocolDef)
    → Returns (Settles proto) (next proto)
    → Settles proto r
    → Returns (Settles proto) (or_else next r)
or_else-Settles proto next (true, after) h s = s
or_else-Settles proto next (false, after) h s =
    subst (λ p. Returns (Settles proto) (next p)) (sym s) h

-- Both bytecodes return on every packet.
abbrev pub Decided : ℕ → FilterRule → Type 0
Decided fuel rule =
    (packet : List ℕ)
    → (b : Bool) × (c : Bool) × (execute_bytecode fuel packet (code_be rule) ≡ ok b)
      × (execute_bytecode fuel packet (code_le rule) ≡ ok c)

abbrev pub AllDecided : ℕ → List FilterRule → Type 0
AllDecided fuel [] = Unit {0}
AllDecided fuel (rule ∷ rules) = Decided fuel rule × AllDecided fuel rules

module _ (proto : ProtocolDef) (fuel : ℕ) (auto : proto.endian_mode ≡ endian_mode_auto)
    (unknown : proto.detected_endian ≡ endian_type_unknown) where
  detect-unknown : (t : EndianType) → detect t proto ≡ record proto { detected_endian = t }
  detect-unknown t =
      subst (λ d. swap_if_unknown d t proto ≡ record proto { detected_endian = t }) (sym unknown)
        refl

  try_match-Settles :
      (rule : FilterRule) (packet : List ℕ)
      → Decided fuel rule
      → Returns (Settles proto) (try_match_with_endian fuel packet rule proto)
  unfolding try_match_with_endian try_match_auto
  try_match-Settles rule packet h =
      (let (b, c, e, f) = h packet in
        subst (λ m. Returns (Settles proto) (try_match_mode m fuel packet rule proto)) (sym auto)
          (subst (λ d. Returns (Settles proto) (try_match_auto d fuel packet rule proto))
            (sym unknown) (go b c e f)))
    where
      go :
          (b c : Bool)
          → execute_bytecode fuel packet (code_be rule) ≡ ok b
          → execute_bytecode fuel packet (code_le rule) ≡ ok c
          → Returns (Settles proto) (try_match_auto endian_type_unknown fuel packet rule proto)
      go true c e f = rw (e) (inl (detect-unknown endian_type_big))
      go false true e f = rw (e, f) (inr (detect-unknown endian_type_little))
      go false false e f = rw (e, f) refl

  -- One attempt, and the next one where it fails.
  attempts-Settles :
      (m : Run (Bool × ProtocolDef)) (next : ProtocolDef → Run (Bool × ProtocolDef))
      → Returns (Settles proto) m
      → Returns (Settles proto) (next proto)
      → Returns (Settles proto) (m >>= or_else next)
  attempts-Settles m next h k =
      Returns-bind (Settles proto) (Settles proto) m (or_else next) h
        (λ r s. or_else-Settles proto next r k s)

  slide-Settles :
      (rule : FilterRule) (packet : List ℕ)
      → Decided fuel rule
      → (n o : ℕ) → Returns (Settles proto) (slide fuel packet rule n o proto)
  unfolding slide
  slide-Settles rule packet h zero o = refl
  slide-Settles rule packet h (suc n) o =
      go (ltb (length packet - o) rule.min_packet_size) (slide-Settles rule packet h n (suc o))
    where
      go :
          (b : Bool)
          → Returns (Settles proto) (slide fuel packet rule n (suc o) proto)
          → Returns (Settles proto) (
              if b
              then ok (false, proto)
              else (try_match_with_endian fuel (drop o packet) rule proto
                  >>= or_else (slide fuel packet rule n (suc o))))
      go true ih = refl
      go false ih =
          attempts-Settles (try_match_with_endian fuel (drop o packet) rule proto)
            (slide fuel packet rule n (suc o)) (try_match-Settles rule (drop o packet) h) ih

  match_rule-Settles :
      (rule : FilterRule) (packet : List ℕ)
      → Decided fuel rule
      → Returns (Settles proto) (match_rule fuel packet rule proto)
  unfolding match_rule
  match_rule-Settles rule packet h = go rule.sliding_window
    where
      go :
          (b : Bool)
          → Returns (Settles proto) (
              if b
              then slide fuel packet rule
                  (search_limit (length packet) rule.sliding_max_offset)
                  0
                  proto
              else try_match_with_endian fuel packet rule proto)
      go true = slide-Settles rule packet h (search_limit (length packet) rule.sliding_max_offset) 0
      go false = try_match-Settles rule packet h

  pub match_rules-Settles :
      (rules : List FilterRule) (packet : List ℕ)
      → AllDecided fuel rules
      → Returns (Settles proto) (match_rules fuel packet rules proto)
  unfolding match_rules
  match_rules-Settles [] packet h = refl
  match_rules-Settles (rule ∷ rules) packet (h, k) =
      attempts-Settles (match_rule fuel packet rule proto) (match_rules fuel packet rules)
        (match_rule-Settles rule packet h) (match_rules-Settles rules packet k)
