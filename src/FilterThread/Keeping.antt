-- ===== src/FilterThread/Keeping.antt =====
-- Which packets the loop of `handle_raw_file` in src/rxfilterthread.cpp keeps.
use rxtracenetcap.Prelude.{
  ℕ, suc, ◌+◌, ◌%◌, ◌*◌, ◌^◌, ◌≡◌, ◌≢◌, refl, sym, ap, subst, ◌∙◌, Bool, true, false, not, ◌||◌,
  some, List, [], ◌∷◌, ◌++◌, Run, ok, ub, out_of_fuel, ◌>>=◌, length, ◌==◌, if◌then◌else◌, Returns,
  arith,
}
use rxtracenetcap.Bytes.{byte_at}
use rxtracenetcap.Pdef.Types.{StructDef, ProtocolDef}
use rxtracenetcap.Pdef.Compile.{TempFilterRule, compile_filter_rules}
use rxtracenetcap.Pdef.Protocol.{packet_filter_match}
use rxtracenetcap.Pdef.Filters.{StructsFit, EnoughFuel, IsBig, any_filter, packet_filter_match-big}
use rxtracenetcap.FilterThread.{
  ParsedPacket, Progress, app_bytes, or_again, parse_packet_data, match_either_port, filter_parsed,
  filter_packet, filter_packets, count,
}
use rxtracenetcap.FilterThread.Parsing.{WithinPacket, parse_packet_data-WithinPacket}

-- The packet does not end exactly 12 bytes after the start of its transport header.
abbrev pub NotCut : List ℕ → Type 0
NotCut bytes = (first : ℕ) → byte_at bytes 14 ≡ ok first → length bytes ≢ 14 + first % 16 * 4 + 12

abbrev pub AllNotCut : List (List ℕ) → Type 0
AllNotCut [] = Unit {0}
AllNotCut (bytes ∷ packets) = NotCut bytes × AllNotCut packets

module _ (keep : List ℕ → Bool) where
  unfoldable pub filter : List (List ℕ) → List (List ℕ)
  filter [] = []
  filter (bytes ∷ packets) = if keep bytes then bytes ∷ filter packets else filter packets

module _ (structs : List StructDef) (temps : List TempFilterRule) where
  -- The packet has a payload, and one of the rules matches it.
  abbrev pub is_kept : List ℕ → Run ParsedPacket → Bool
  is_kept bytes ub = false
  is_kept bytes out_of_fuel = false
  is_kept bytes (ok p) =
      if not p.valid || p.app_len == 0
      then false
      else any_filter (λ s. s.fields) (app_bytes bytes p.app_data) structs temps

  abbrev pub keeps : List ℕ → Bool
  keeps bytes = is_kept bytes (parse_packet_data bytes)

append_one :
    (xs : List (List ℕ)) (y : List ℕ) (ys : List (List ℕ)) → (xs ++ y ∷ []) ++ ys ≡ xs ++ y ∷ ys
append_one [] y ys = refl
append_one (x ∷ xs) y ys = ap (λ zs. x ∷ zs) (append_one xs y ys)

Returns-value : {A : Type 0} (P : A → Type 0) (m : Run A) → Returns P m → (a : A) × (m ≡ ok a)
Returns-value P ub h = absurd h
Returns-value P out_of_fuel h = absurd h
Returns-value P (ok a) h = (a, refl)

append_nil : (xs : List (List ℕ)) → xs ≡ xs ++ []
append_nil [] = refl
append_nil (x ∷ xs) = ap (λ zs. x ∷ zs) (append_nil xs)

module _ (pdef : ProtocolDef) where
  -- The loop after `t` packets of which `m` were kept.
  abbrev progress : List (List ℕ) → ℕ → ℕ → Progress
  progress kept t m = record { kept = kept; total = t % 2 ^ 64; matched = m % 2 ^ 64; pdef = pdef }

  progress_eq :
      (k l : List (List ℕ)) (t u m n : ℕ)
      → k ≡ l
      → t % 2 ^ 64 ≡ u % 2 ^ 64
      → m % 2 ^ 64 ≡ n % 2 ^ 64
      → progress k t m ≡ progress l u n
  progress_eq k l t u m n e f g = rw (e, f, g) refl

  counted :
      (k : List (List ℕ)) (t u m n : ℕ)
      → t % 2 ^ 64 ≡ u % 2 ^ 64
      → m % 2 ^ 64 ≡ n % 2 ^ 64
      → progress k t m ≡ progress k u n
  counted k t u m n f g = rw (f, g) refl

module _ (fuel : ℕ) (structs : List StructDef) (temps : List TempFilterRule) (pdef : ProtocolDef)
    (fit : StructsFit structs) (compiled : compile_filter_rules structs temps ≡ some pdef.filters)
    (enough : EnoughFuel fuel pdef.filters) (big : IsBig pdef) where
  match_either_port-big :
      (app : List ℕ) (p : ParsedPacket)
      → match_either_port fuel app p pdef ≡ ok (any_filter (λ s. s.fields) app structs temps, pdef)
  unfolding match_either_port
  match_either_port-big app p =
      rw (packet_filter_match-big structs temps pdef app p.dst_port fuel fit compiled enough big) (
        go (any_filter (λ s. s.fields) app structs temps)
          (packet_filter_match-big structs temps pdef app p.src_port fuel fit compiled enough big))
    where
      go :
          (b : Bool)
          → packet_filter_match fuel app p.src_port pdef ≡ ok (b, pdef)
          → or_again (packet_filter_match fuel app p.src_port) (b, pdef) ≡ ok (b, pdef)
      go true e = refl
      go false e = e

  filter_parsed-big :
      (bytes : List ℕ) (p : ParsedPacket)
      → filter_parsed fuel bytes pdef p ≡ ok (is_kept structs temps bytes (ok p), pdef)
  unfolding filter_parsed
  filter_parsed-big bytes p = go (not p.valid || p.app_len == 0)
    where
      go :
          (b : Bool)
          → (if b
              then ok (false, pdef)
              else match_either_port fuel (app_bytes bytes p.app_data) p pdef)
            ≡ ok (
              if b
                  then false
                  else any_filter (λ s. s.fields) (app_bytes bytes p.app_data) structs temps,
              pdef,
            )
      go true = refl
      go false = match_either_port-big (app_bytes bytes p.app_data) p

  filter_packet-big :
      (bytes : List ℕ)
      → NotCut bytes
      → filter_packet fuel bytes pdef ≡ ok (keeps structs temps bytes, pdef)
  unfolding filter_packet
  filter_packet-big bytes h =
      (let (p, e) =
          Returns-value (WithinPacket bytes) (parse_packet_data bytes)
            (parse_packet_data-WithinPacket bytes h) in
        subst
          (λ r. (r >>= filter_parsed fuel bytes pdef) ≡ ok (is_kept structs temps bytes r, pdef))
          (sym e) (filter_parsed-big bytes p))

  loop_lem :
      (packets kept : List (List ℕ)) (t m : ℕ)
      → AllNotCut packets
      → filter_packets fuel packets (progress pdef kept t m)
        ≡ ok (
            progress pdef
              (kept ++ filter (keeps structs temps) packets)
              (t + length packets)
              (m + length (filter (keeps structs temps) packets)))
  unfolding filter_packets filter
  loop_lem [] kept t m h = ap ok (
      progress_eq pdef kept (kept ++ []) t (t + 0) m (m + 0) (append_nil kept) (omega arith)
        (omega arith))
  loop_lem (bytes ∷ packets) kept t m (h, hs) = rw (filter_packet-big bytes h) (
      go (keeps structs temps bytes) (loop_lem packets (kept ++ bytes ∷ []) (t + 1) (m + 1) hs)
        (loop_lem packets kept (t + 1) m hs))
    where
      go :
          (b : Bool)
          → filter_packets fuel packets (progress pdef (kept ++ bytes ∷ []) (t + 1) (m + 1))
            ≡ ok (
                progress pdef
                  ((kept ++ bytes ∷ []) ++ filter (keeps structs temps) packets)
                  (t + 1 + length packets)
                  (m + 1 + length (filter (keeps structs temps) packets)))
          → filter_packets fuel packets (progress pdef kept (t + 1) m)
            ≡ ok (
                progress pdef
                  (kept ++ filter (keeps structs temps) packets)
                  (t + 1 + length packets)
                  (m + length (filter (keeps structs temps) packets)))
          → filter_packets fuel packets (count bytes (progress pdef kept t m) (b, pdef))
            ≡ ok (
                progress pdef
                  (kept
                    ++ (if b
                        then bytes ∷ filter (keeps structs temps) packets
                        else filter (keeps structs temps) packets))
                  (t + suc (length packets))
                  (m
                    + length (
                        if b
                        then bytes ∷ filter (keeps structs temps) packets
                        else filter (keeps structs temps) packets)))
      go true ih₁ ih₂ =
          ap (filter_packets fuel packets) (
            counted pdef (kept ++ bytes ∷ []) (t % 2 ^ 64 + 1) (t + 1) (m % 2 ^ 64 + 1) (m + 1)
              (omega arith) (omega arith))
          ∙ ih₁
          ∙ ap ok (
              progress_eq pdef ((kept ++ bytes ∷ []) ++ filter (keeps structs temps) packets)
                (kept ++ bytes ∷ filter (keeps structs temps) packets) (t + 1 + length packets)
                (t + suc (length packets)) (m + 1 + length (filter (keeps structs temps) packets))
                (m + suc (length (filter (keeps structs temps) packets)))
                (append_one kept bytes (filter (keeps structs temps) packets))
                (ap (λ n. n % 2 ^ 64) {x = t + 1 + length packets} {y = t + suc (length packets)}
                  (omega arith))
                (ap (λ n. n % 2 ^ 64) {x = m + 1 + length (filter (keeps structs temps) packets)}
                  {y = m + suc (length (filter (keeps structs temps) packets))} (omega arith)))
      go false ih₁ ih₂ =
          ap (filter_packets fuel packets)
            (counted pdef kept (t % 2 ^ 64 + 1) (t + 1) m m (omega arith) refl)
          ∙ ih₂
          ∙ ap ok (
              progress_eq pdef (kept ++ filter (keeps structs temps) packets)
                (kept ++ filter (keeps structs temps) packets) (t + 1 + length packets)
                (t + suc (length packets)) (m + length (filter (keeps structs temps) packets))
                (m + length (filter (keeps structs temps) packets)) refl
                (ap (λ n. n % 2 ^ 64) {x = t + 1 + length packets} {y = t + suc (length packets)}
                  (omega arith))
                refl)

-- The packets of a raw file, none of which ends exactly 12 bytes after the start of its transport
-- header, against rules compiled from a PDEF file whose byte order is known to be big: the loop ends.
-- The output file holds, in their order, the packets that have a payload which a rule matches; the
-- counters are the number of all packets and of those, modulo 2 ^ 64.
pub filter_packets-filter :
    (fuel : ℕ) (structs : List StructDef) (temps : List TempFilterRule) (pdef : ProtocolDef)
    (packets : List (List ℕ))
    → StructsFit structs
    → compile_filter_rules structs temps ≡ some pdef.filters
    → EnoughFuel fuel pdef.filters
    → IsBig pdef
    → AllNotCut packets
    → filter_packets fuel packets (record { kept = []; total = 0; matched = 0; pdef = pdef })
      ≡ ok (record {
        kept = filter (keeps structs temps) packets;
        total = length packets % 2 ^ 64;
        matched = length (filter (keeps structs temps) packets) % 2 ^ 64;
        pdef = pdef;
      })
filter_packets-filter fuel structs temps pdef packets fit compiled enough big h =
    loop_lem fuel structs temps pdef fit compiled enough big packets [] 0 0 h
    ∙ ap ok (
        progress_eq pdef (filter (keeps structs temps) packets)
          (filter (keeps structs temps) packets) (0 + length packets) (length packets)
          (0 + length (filter (keeps structs temps) packets))
          (length (filter (keeps structs temps) packets)) refl
          (ap (λ n. n % 2 ^ 64) {x = 0 + length packets} {y = length packets} (omega arith))
          (ap (λ n. n % 2 ^ 64) {x = 0 + length (filter (keeps structs temps) packets)}
            {y = length (filter (keeps structs temps) packets)} (omega arith)))
