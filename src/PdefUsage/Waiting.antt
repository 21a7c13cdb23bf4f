-- ===== src/PdefUsage/Waiting.antt =====
-- The content of a PDEF file against its entry in `_pdef_usage_map` of src/rxcapturemanagerthread.cpp: an
-- entry that needs the write-back is written back, or is in use.
use rxtracenetcap.Prelude.{
  ℤ, ◌≡◌, ◌≢◌, refl, sym, subst, ◌∙◌, Bool, true, false, ◌&&◌, not, Option, none, some, List, [],
  ◌∷◌, is_empty, if◌then◌else◌, Str, str_eq, arith,
}
use rxtracenetcap.Pdef.Types.{EndianType, endian_type_unknown, endian_type_big, endian_type_little}
use rxtracenetcap.PdefUsage.{
  PdefUsageInfo, edit_endian, insert_id, erase_id, info_or_new, noted, note_detection, Event,
}
use rxtracenetcap.PdefUsage.FileOutcome.{all_succeed}
use rxtracenetcap.PdefUsage.Event.{raw_file, filtered_file, endian_detected}
use rxtracenetcap.PdefUsage.Entry.{
  Entry, started, ended, rewritten, replaced, tried, detected_in, after, concerns, step, steps,
}
use rxtracenetcap.PdefUsage.Elsewhere.{entry}

-- A written entry has the content edited for the byte order first detected; an entry that waits for
-- the write-back is in use.
abbrev pub Waits : Str → Option PdefUsageInfo → Option Str → Type 0
Waits content none c = c ≡ some content
Waits content (some info) c =
    if info.writeback_done
    then c ≡ edit_endian content info.detected_endian
    else (c ≡ some content)
      × (info.writeback_needed ≡ true → is_empty info.active_capture_ids ≡ false)

-- There is a filter thread, a detection is of a byte order, and the write-back of a message succeeds.
abbrev pub Smooth : Event → Type 0
Smooth (raw_file has_filter id path) = has_filter ≡ true
Smooth (filtered_file o id path) = o ≡ all_succeed
Smooth (endian_detected o d path) = (o ≡ all_succeed) × (d ≢ endian_type_unknown)

abbrev pub AllSmooth : List Event → Type 0
AllSmooth [] = Unit {0}
AllSmooth (e ∷ es) = Smooth e × AllSmooth es

insert_id-is_empty : (id : ℤ) (ids : List ℤ) → is_empty (insert_id id ids) ≡ false
unfolding insert_id
insert_id-is_empty id [] = refl
insert_id-is_empty id (j ∷ ids) = ground arith

module _ (content : Str) (editable : (d : EndianType) → edit_endian content d ≢ none) where
  abbrev EntryWaits : Entry → Type 0
  EntryWaits n = Waits content n.info n.content

  -- What a write-back leaves of an entry whose file has the first content.
  replaced-Waits :
      (info : PdefUsageInfo) (nc : Option Str)
      → nc ≢ none
      → edit_endian content info.detected_endian ≡ nc
      → EntryWaits (replaced info (some content) nc)
  replaced-Waits info none ne e = absurd (ne refl)
  replaced-Waits info (some c) ne e = sym e

  unwritten-Waits :
      (info : PdefUsageInfo)
      → info.writeback_done ≡ false
      → (info.writeback_needed ≡ true → is_empty info.active_capture_ids ≡ false)
      → Waits content (some info) (some content)
  unwritten-Waits info h k =
      subst
        (λ b.
          if b
          then some content ≡ edit_endian content info.detected_endian
          else (some content ≡ some content)
            × (info.writeback_needed ≡ true → is_empty info.active_capture_ids ≡ false))
        (sym h) (refl, k)

  tried-Waits :
      (info : PdefUsageInfo) (c : Option Str)
      → c ≡ some content
      → info.writeback_done ≡ false
      → EntryWaits (tried all_succeed (some info) c)
  tried-Waits info c e h =
      subst (λ c. EntryWaits (tried all_succeed (some info) c)) (sym e)
        (go (info.writeback_needed) (info.writeback_done) (is_empty info.active_capture_ids) refl h
          refl)
    where
      go :
          (a b c : Bool)
          → info.writeback_needed ≡ a
          → b ≡ false
          → is_empty info.active_capture_ids ≡ c
          → EntryWaits (
              if a && not b && c
              then replaced info (some content) (edit_endian content info.detected_endian)
              else entry (some info) (some content))
      go true true c e f g = ground (arith, f)
      go true false true e f g =
          replaced-Waits info (edit_endian content info.detected_endian)
            (editable info.detected_endian) refl
      go true false false e f g = unwritten-Waits info h (λ k. g)
      go false b c e f g = unwritten-Waits info h (λ k. ground (arith, k, e))

  -- The two cases of an entry.
  module _ (Goal : Type 0) (info : PdefUsageInfo) (c : Option Str) where
    waits_cases :
        (info.writeback_done ≡ true → c ≡ edit_endian content info.detected_endian → Goal)
        → (info.writeback_done ≡ false
            → c ≡ some content
            → (info.writeback_needed ≡ true → is_empty info.active_capture_ids ≡ false)
            → Goal)
        → Waits content (some info) c
        → Goal
    waits_cases f g = go (info.writeback_done) refl
      where
        go :
            (b : Bool)
            → info.writeback_done ≡ b
            → (if b
                then c ≡ edit_endian content info.detected_endian
                else (c ≡ some content)
                  × (info.writeback_needed ≡ true → is_empty info.active_capture_ids ≡ false))
            → Goal
        go true e s = f e s
        go false e (s, t) = g e s t

  done-Waits :
      (info : PdefUsageInfo) (c : Option Str)
      → info.writeback_done ≡ true
      → c ≡ edit_endian content info.detected_endian
      → Waits content (some info) c
  done-Waits info c h e =
      subst
        (λ b.
          if b
          then c ≡ edit_endian content info.detected_endian
          else (c ≡ some content)
            × (info.writeback_needed ≡ true → is_empty info.active_capture_ids ≡ false))
        (sym h) e

  tried-Waits_done :
      (info : PdefUsageInfo) (c : Option Str)
      → info.writeback_done ≡ true
      → c ≡ edit_endian content info.detected_endian
      → EntryWaits (tried all_succeed (some info) c)
  tried-Waits_done info c h e =
      go (info.writeback_needed) (info.writeback_done) (is_empty info.active_capture_ids) h
    where
      go :
          (a b d : Bool)
          → b ≡ true
          → EntryWaits (
              if a && not b && d
              then replaced info c (rewritten all_succeed info.detected_endian c)
              else entry (some info) c)
      go true true d f = done-Waits info c h e
      go false b d f = done-Waits info c h e
      go true false d f = ground (arith, f)

  noted-done :
      (t d : EndianType) (info : PdefUsageInfo)
      → (noted t d info).writeback_done ≡ info.writeback_done
  noted-done endian_type_unknown d info = refl
  noted-done endian_type_big d info = refl
  noted-done endian_type_little d info = refl

  detected_in-Waits :
      (d : EndianType) (info : PdefUsageInfo) (c : Option Str)
      → Waits content (some info) c
      → EntryWaits (detected_in all_succeed d info c)
  detected_in-Waits d info c s = go (info.writeback_done) refl
    where
      go :
          (b : Bool)
          → info.writeback_done ≡ b
          → EntryWaits (
              if b then entry (some info) c else tried all_succeed (some (note_detection d info)) c)
      go true e = s
      go false e =
          tried-Waits (note_detection d info) c
            (waits_cases (c ≡ some content) info c (λ t f. ground (arith, e, t)) (λ f g k. g) s)
            (noted-done info.detected_endian d info ∙ e)

  started-Waits :
      (id : ℤ) (info : PdefUsageInfo) (c : Option Str)
      → Waits content (some info) c
      → Waits content (some (started id info)) c
  started-Waits id info c =
      waits_cases (Waits content (some (started id info)) c) info c
        (λ h e. done-Waits (started id info) c h e)
        (λ h e k. subst (Waits content (some (started id info))) (sym e) (
          unwritten-Waits (started id info) h (λ n. insert_id-is_empty id info.active_capture_ids)))

  filtered-Waits :
      (id : ℤ) (i : Option PdefUsageInfo) (c : Option Str)
      → Waits content i c
      → EntryWaits (tried all_succeed (ended id i) c)
  filtered-Waits id none c s = s
  filtered-Waits id (some info) c s =
      let info' = record info { active_capture_ids = erase_id id info.active_capture_ids } in
      waits_cases (EntryWaits (tried all_succeed (some info') c)) info c
        (λ h e. tried-Waits_done info' c h e) (λ h e k. tried-Waits info' c e h) s

  new-Waits :
      (i : Option PdefUsageInfo) (c : Option Str)
      → Waits content i c
      → Waits content (some (info_or_new i)) c
  new-Waits none c s = (s, λ k. ground (arith, k))
  new-Waits (some info) c s = s

  after-Waits : (e : Event) (n : Entry) → Smooth e → EntryWaits n → EntryWaits (after e n)
  after-Waits (raw_file true id path) n h s =
      started-Waits id (info_or_new n.info) n.content (new-Waits n.info n.content s)
  after-Waits (raw_file false id path) n h s = ground (arith, h)
  after-Waits (filtered_file o id path) n h s =
      subst (λ o. EntryWaits (tried o (ended id n.info) n.content)) (sym h)
        (filtered-Waits id n.info n.content s)
  after-Waits (endian_detected o d path) n h s =
      subst (λ o. EntryWaits (detected_in o d (info_or_new n.info) n.content)) (sym h.0)
        (detected_in-Waits d (info_or_new n.info) n.content (new-Waits n.info n.content s))

  step-Waits :
      (path : Str) (e : Event) (n : Entry) → Smooth e → EntryWaits n → EntryWaits (step path e n)
  step-Waits path e n h s = go (concerns path e)
    where
      go : (b : Bool) → EntryWaits (if b then after e n else n)
      go true = after-Waits e n h s
      go false = s

  pub steps-Waits :
      (path : Str) (es : List Event) (n : Entry)
      → AllSmooth es
      → EntryWaits n
      → EntryWaits (steps path es n)
  steps-Waits path [] n h s = s
  steps-Waits path (e ∷ es) n (h, hs) s =
      steps-Waits path es (step path e n) hs (step-Waits path e n h s)
