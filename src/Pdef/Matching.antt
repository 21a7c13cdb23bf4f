-- ===== src/Pdef/Matching.antt =====
-- What the match of a packet in src/runtime/protocol.c decides, for rules that src/pdef/parser.c has
-- compiled, once the byte order is known.
use rxtracenetcap.Prelude.{
  ℕ, zero, suc, ◌-◌, ◌+◌, ◌≤◌, ◌≡◌, refl, sym, ap, ◌∙◌, Bool, true, false, not, ◌&&◌, ◌||◌, List,
  length, drop, ltb, if◌then◌else◌, ok, arith,
}
use rxtracenetcap.Pdef.Types.{FilterRule, ProtocolDef}
use rxtracenetcap.Pdef.Protocol.{try_match_with_endian, search_limit, slide, match_rule}

-- `p` holds of one of the `n` numbers from `o` on.
unfoldable pub any_from : ℕ → ℕ → (ℕ → Bool) → Bool
any_from o zero p = false
any_from o (suc n) p = p o || any_from (suc o) n p

-- Some stretch of the packet that is at least `min` bytes long passes the test.
abbrev pub at_offset : ℕ → List ℕ → (List ℕ → Bool) → ℕ → Bool
at_offset min packet test o = not (ltb (length packet - o) min) && test (drop o packet)

-- A rule with a limit slides below that limit only; 0 stands for no limit.
abbrev pub allowed : ℕ → ℕ → Bool
allowed zero o = true
allowed (suc limit) o = not (ltb limit o)

-- What a rule says of a packet: its conditions hold at the start, or at an offset where it slides.
abbrev pub rule_matches : Bool → ℕ → ℕ → List ℕ → (List ℕ → Bool) → Bool
rule_matches sliding_window sliding_max_offset min packet test =
    if sliding_window
    then any_from 0 (length packet)
        (λ o. allowed sliding_max_offset o && at_offset min packet test o)
    else test packet

module _ (limit : ℕ) (p : ℕ → Bool) where
  -- Every offset is below the limit.
  any_from-allowed :
      (n o : ℕ)
      → o + n ≤ suc limit
      → any_from o n (λ o. allowed (suc limit) o && p o) ≡ any_from o n p
  unfolding any_from
  any_from-allowed zero o h = refl
  any_from-allowed (suc n) o h =
      let below : ltb limit o ≡ false = ground (arith, h) in
      rw (below, any_from-allowed n (suc o) (omega (arith, h))) refl

  any_from-refused :
      (n o : ℕ) → suc limit ≤ o → any_from o n (λ o. allowed (suc limit) o && p o) ≡ false
  unfolding any_from
  any_from-refused zero o h = refl
  any_from-refused (suc n) o h =
      let above : ltb limit o ≡ true = ground (arith, h) in
      rw (above, any_from-refused n (suc o) (omega (arith, h))) refl

  -- The offsets from the limit on do not count.
  any_from-cut :
      (n len o : ℕ)
      → n ≤ len
      → o + n ≡ suc limit
      → any_from o len (λ o. allowed (suc limit) o && p o) ≡ any_from o n p
  unfolding any_from
  any_from-cut zero len o h e = any_from-refused len o (omega (arith, e))
  any_from-cut (suc n) zero o h e = absurd (omega (arith, h))
  any_from-cut (suc n) (suc len) o h e =
      let below : ltb limit o ≡ false = ground (arith, e) in
      rw (below, any_from-cut n len (suc o) (omega (arith, h)) (omega (arith, e))) refl

search_limit-allowed :
    (len limit : ℕ) (p : ℕ → Bool)
    → any_from 0 (search_limit len limit) p ≡ any_from 0 len (λ o. allowed limit o && p o)
unfolding search_limit
search_limit-allowed len zero p = refl
search_limit-allowed len (suc limit) p = rw positive (go (ltb (suc limit) len) refl)
  where
    positive : ltb 0 (suc limit) ≡ true
    positive = ground arith

    go :
        (b : Bool)
        → ltb (suc limit) len ≡ b
        → any_from 0 (if b then suc limit else len) p
          ≡ any_from 0 len (λ o. allowed (suc limit) o && p o)
    go true e = sym (any_from-cut limit p (suc limit) len 0 (ground (arith, e)) (omega arith))
    go false e = sym (any_from-allowed limit p len 0 (ground (arith, e)))

too_short :
    (min : ℕ) (packet : List ℕ) (test : List ℕ → Bool) (n o : ℕ)
    → ltb (length packet - o) min ≡ true
    → any_from o n (at_offset min packet test) ≡ false
unfolding any_from
too_short min packet test zero o h = refl
too_short min packet test (suc n) o h =
    rw (h) (too_short min packet test n (suc o) (ground (arith, h)))

-- With this rule and this protocol every attempt gives the test, and detects nothing.
abbrev pub Tests : ℕ → FilterRule → ProtocolDef → (List ℕ → Bool) → Type 0
Tests fuel rule proto test =
    (packet : List ℕ) → try_match_with_endian fuel packet rule proto ≡ ok (test packet, proto)

slide_lem :
    (fuel : ℕ) (packet : List ℕ) (rule : FilterRule) (proto : ProtocolDef) (test : List ℕ → Bool)
    → Tests fuel rule proto test
    → (n o : ℕ)
    → slide fuel packet rule n o proto
      ≡ ok (any_from o n (at_offset rule.min_packet_size packet test), proto)
unfolding slide any_from
slide_lem fuel packet rule proto test h zero o = refl
slide_lem fuel packet rule proto test h (suc n) o =
    go (ltb (length packet - o) rule.min_packet_size) refl (test (drop o packet)) refl
      (slide_lem fuel packet rule proto test h n (suc o))
  where
    go :
        (b : Bool)
        → ltb (length packet - o) rule.min_packet_size ≡ b
        → (c : Bool) → test (drop o packet) ≡ c
        → slide fuel packet rule n (suc o) proto
          ≡ ok (any_from (suc o) n (at_offset rule.min_packet_size packet test), proto)
        → slide fuel packet rule (suc n) o proto
          ≡ ok (any_from o (suc n) (at_offset rule.min_packet_size packet test), proto)
    go true e c f ih =
        rw (e, too_short rule.min_packet_size packet test n (suc o) (ground (arith, e))) refl
    go false e true f ih = rw (e, h (drop o packet), f) refl
    go false e false f ih = rw (e, h (drop o packet), f) ih

pub match_rule_lem :
    (fuel : ℕ) (packet : List ℕ) (rule : FilterRule) (proto : ProtocolDef) (test : List ℕ → Bool)
    → Tests fuel rule proto test
    → match_rule fuel packet rule proto
      ≡ ok (
        rule_matches rule.sliding_window rule.sliding_max_offset rule.min_packet_size packet test,
        proto,
      )
unfolding match_rule
match_rule_lem fuel packet rule proto test h = go rule.sliding_window
  where
    go :
        (b : Bool)
        → (if b
            then slide fuel packet rule
                (search_limit (length packet) rule.sliding_max_offset)
                0
                proto
            else try_match_with_endian fuel packet rule proto)
          ≡ ok (rule_matches b rule.sliding_max_offset rule.min_packet_size packet test, proto)
    go true =
        slide_lem fuel packet rule proto test h
          (search_limit (length packet) rule.sliding_max_offset) 0
        ∙ ap (λ (c : Bool). ok (c, proto))
            (search_limit-allowed (length packet) rule.sliding_max_offset
              (at_offset rule.min_packet_size packet test))
    go false = h packet
