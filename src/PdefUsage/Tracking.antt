-- ===== src/PdefUsage/Tracking.antt =====
-- The entry of a PDEF file in `_pdef_usage_map` of src/rxcapturemanagerthread.cpp against the messages
-- themselves: it lists the captures that use the file, and holds the byte order first detected.
use rxtracenetcap.Prelude.{
  ℕ, suc, ◌≤◌, ℤ, ◌≡◌, ◌≢◌, refl, sym, subst, ◌∙◌, Bool, true, false, ◌&&◌, not, Option, none, some,
  List, [], ◌∷◌, is_empty, if◌then◌else◌, Str, int_beq, int_beq_iff, arith,
}
use rxtracenetcap.Pdef.Types.{EndianType, endian_type_unknown, endian_type_big, endian_type_little}
use rxtracenetcap.PdefUsage.{
  PdefUsageInfo, FileOutcome, insert_id, erase_id, info_or_new, noted, note_detection, Event,
}
use rxtracenetcap.PdefUsage.Event.{raw_file, filtered_file, endian_detected}
use rxtracenetcap.PdefUsage.Entry.{
  Entry, started, ended, rewritten, replaced, tried, detected_in, after, concerns, step, steps,
}
use rxtracenetcap.PdefUsage.Elsewhere.{entry}
use rxtracenetcap.PdefUsage.Waiting.{Smooth, AllSmooth}

-- The byte order of the first detection among the messages about this file, `o` before them.
abbrev first_of : Option EndianType → EndianType → Option EndianType
first_of none d = some d
first_of (some e) d = some e

abbrev seen : Event → Option EndianType → Option EndianType
seen (raw_file has_filter id path) o = o
seen (filtered_file outcome id path) o = o
seen (endian_detected outcome d path) o = first_of o d

unfoldable pub first_detected : Str → List Event → Option EndianType → Option EndianType
first_detected path [] o = o
first_detected path (e ∷ es) o = first_detected path es (if concerns path e then seen e o else o)

-- Which captures use the file after the messages: those that were handed to the filter thread with it,
-- and whose filtered file has not come since.
abbrev used : Event → (ℤ → Bool) → ℤ → Bool
used (raw_file has_filter id path) uses j = if int_beq id j then has_filter else uses j
used (filtered_file outcome id path) uses j = if int_beq id j then false else uses j
used (endian_detected outcome d path) uses j = uses j

unfoldable pub users : Str → List Event → (ℤ → Bool) → ℤ → Bool
users path [] uses = uses
users path (e ∷ es) uses = users path es (if concerns path e then used e uses else uses)

abbrev pub count : ℤ → List ℤ → ℕ
count j [] = 0
count j (x ∷ xs) = if int_beq x j then suc (count j xs) else count j xs

abbrev pub bit : Bool → ℕ
bit true = 1
bit false = 0

bit-le : (b : Bool) → bit b ≤ 1
bit-le true = omega arith
bit-le false = omega arith

count-insert_id_self : (id : ℤ) (ids : List ℤ) → count id ids ≤ 1 → count id (insert_id id ids) ≡ 1
unfolding insert_id
count-insert_id_self id [] h = ground (arith, int_beq_iff id id)
count-insert_id_self id (x ∷ xs) h = ground (arith, h, count-insert_id_self id xs)

count-insert_id_other :
    (id j : ℤ) (ids : List ℤ) → int_beq id j ≡ false → count j (insert_id id ids) ≡ count j ids
unfolding insert_id
count-insert_id_other id j [] h = ground (arith, h)
count-insert_id_other id j (x ∷ xs) h = ground (arith, count-insert_id_other id j xs h)

count-erase_id_self : (id : ℤ) (ids : List ℤ) → count id ids ≤ 1 → count id (erase_id id ids) ≡ 0
unfolding erase_id
count-erase_id_self id [] h = refl
count-erase_id_self id (x ∷ xs) h = ground (arith, h, count-erase_id_self id xs)

count-erase_id_other : (id j : ℤ) (ids : List ℤ) → id ≢ j → count j (erase_id id ids) ≡ count j ids
unfolding erase_id
count-erase_id_other id j [] h = refl
count-erase_id_other id j (x ∷ xs) h =
    ground (arith, h, count-erase_id_other id j xs h, int_beq_iff x id, int_beq_iff x j)

abbrev Notes : Option EndianType → PdefUsageInfo → Type 0
Notes none info =
    (info.detected_endian ≡ endian_type_unknown)
    × (info.writeback_needed ≡ false)
    × (info.writeback_done ≡ false)
Notes (some d) info =
    (info.detected_endian ≡ d) × (info.writeback_needed ≡ true) × (d ≢ endian_type_unknown)

abbrev pub Tracks : Option EndianType → (ℤ → Bool) → Option PdefUsageInfo → Type 0
Tracks o uses none = (o ≡ none) × ((j : ℤ) → uses j ≡ false)
Tracks o uses (some info) =
    ((j : ℤ) → count j info.active_capture_ids ≡ bit (uses j)) × Notes o info

-- The use of the file does not matter to the rest of the entry.
Notes-ids :
    (o : Option EndianType) (info : PdefUsageInfo) (ids : List ℤ)
    → Notes o info
    → Notes o (record info { active_capture_ids = ids })
Notes-ids none info ids n = n
Notes-ids (some d) info ids n = n

Notes-done :
    (o : Option EndianType) (info : PdefUsageInfo)
    → info.writeback_needed ≡ true
    → Notes o info
    → Notes o (record info { writeback_done = true })
Notes-done none info h n = ground (arith, h, n.1)
Notes-done (some d) info h n = n

noted-Notes :
    (o : Option EndianType) (d : EndianType) (info : PdefUsageInfo) (t : EndianType)
    → info.detected_endian ≡ t
    → d ≢ endian_type_unknown
    → Notes o info
    → Notes (first_of o d) (noted t d info)
noted-Notes none d info endian_type_unknown e k n = (refl, refl, k)
noted-Notes none d info endian_type_big e k n = ground (arith, e, n.0)
noted-Notes none d info endian_type_little e k n = ground (arith, e, n.0)
noted-Notes (some f) d info endian_type_unknown e k n = absurd (n.2 (sym n.0 ∙ e))
noted-Notes (some f) d info endian_type_big e k n = n
noted-Notes (some f) d info endian_type_little e k n = n

noted-ids :
    (t d : EndianType) (info : PdefUsageInfo)
    → (noted t d info).active_capture_ids ≡ info.active_capture_ids
noted-ids endian_type_unknown d info = refl
noted-ids endian_type_big d info = refl
noted-ids endian_type_little d info = refl

module _ (o : Option EndianType) (uses : ℤ → Bool) where
  new-Tracks : (i : Option PdefUsageInfo) → Tracks o uses i → Tracks o uses (some (info_or_new i))
  new-Tracks none (e, f) =
      (λ j. rw (f j) refl, subst (λ o. Notes o (info_or_new none)) (sym e) (refl, refl, refl))
  new-Tracks (some info) t = t

  started-Tracks :
      (id : ℤ) (p : Str) (info : PdefUsageInfo)
      → Tracks o uses (some info)
      → Tracks o (used (raw_file true id p) uses) (some (started id info))
  started-Tracks id p info (c, n) =
      (λ j. go j (int_beq id j) refl, Notes-ids o info (insert_id id info.active_capture_ids) n)
    where
      go :
          (j : ℤ) (b : Bool)
          → int_beq id j ≡ b
          → count j (insert_id id info.active_capture_ids) ≡ bit (if b then true else uses j)
      go j true e =
          subst (λ j. count j (insert_id id info.active_capture_ids) ≡ 1) ((int_beq_iff id j).0 e)
            (count-insert_id_self id info.active_capture_ids
              (omega (arith, c id, bit-le (uses id))))
      go j false e = count-insert_id_other id j info.active_capture_ids e ∙ c j

  ended-Tracks :
      (out : FileOutcome) (id : ℤ) (p : Str) (i : Option PdefUsageInfo)
      → Tracks o uses i
      → Tracks o (used (filtered_file out id p) uses) (ended id i)
  ended-Tracks out id p none (e, f) = (e, λ j. go j (int_beq id j))
    where
      go : (j : ℤ) (b : Bool) → (if b then false else uses j) ≡ false
      go j true = refl
      go j false = f j
  ended-Tracks out id p (some info) (c, n) =
      (λ j. go j (int_beq id j) refl, Notes-ids o info (erase_id id info.active_capture_ids) n)
    where
      go :
          (j : ℤ) (b : Bool)
          → int_beq id j ≡ b
          → count j (erase_id id info.active_capture_ids) ≡ bit (if b then false else uses j)
      go j true e =
          subst (λ j. count j (erase_id id info.active_capture_ids) ≡ 0) ((int_beq_iff id j).0 e)
            (count-erase_id_self id info.active_capture_ids (omega (arith, c id, bit-le (uses id))))
      go j false e =
          count-erase_id_other id j info.active_capture_ids
            (λ f. ground (arith, e, int_beq_iff id j, f))
          ∙ c j

  tried-Tracks :
      (out : FileOutcome) (i : Option PdefUsageInfo) (c : Option Str)
      → Tracks o uses i
      → Tracks o uses (tried out i c).info
  tried-Tracks out none c t = t
  tried-Tracks out (some info) c t =
      go (info.writeback_needed) (info.writeback_done) (is_empty info.active_capture_ids)
        (rewritten out info.detected_endian c) refl
    where
      go :
          (a b d : Bool) (new_content : Option Str)
          → info.writeback_needed ≡ a
          → Tracks o uses
              (if a && not b && d then replaced info c new_content else entry (some info) c).info
      go true false true none e = t
      go true false true (some new_content) e = (t.0, Notes-done o info e t.1)
      go true false false nc e = t
      go true true d nc e = t
      go false b d nc e = t

module _ (o : Option EndianType) (uses : ℤ → Bool) where
  detected_in-Tracks :
      (out : FileOutcome) (d : EndianType) (info : PdefUsageInfo) (c : Option Str)
      → d ≢ endian_type_unknown
      → Tracks o uses (some info)
      → Tracks (first_of o d) uses (detected_in out d info c).info
  detected_in-Tracks out d info c k (n, t) = go (info.writeback_done) refl
    where
      done :
          (o : Option EndianType)
          → info.writeback_done ≡ true
          → Notes o info
          → Notes (first_of o d) info
      done none e m = ground (arith, e, m.2)
      done (some f) e m = m

      go :
          (b : Bool)
          → info.writeback_done ≡ b
          → Tracks
              (first_of o d)
              uses
              (if b then entry (some info) c else tried out (some (note_detection d info)) c).info
      go true e = (n, done o e t)
      go false e = tried-Tracks (first_of o d) uses out (some (note_detection d info)) c (
        λ j. rw (noted-ids info.detected_endian d info) (n j),
        noted-Notes o d info info.detected_endian refl k t,
      )

  after-Tracks :
      (e : Event) (n : Entry)
      → Smooth e
      → Tracks o uses n.info
      → Tracks (seen e o) (used e uses) (after e n).info
  after-Tracks (raw_file true id p) n h t =
      started-Tracks o uses id p (info_or_new n.info) (new-Tracks o uses n.info t)
  after-Tracks (raw_file false id p) n h t = ground (arith, h)
  after-Tracks (filtered_file out id p) n h t =
      tried-Tracks o (used (filtered_file out id p) uses) out (ended id n.info) n.content
        (ended-Tracks o uses out id p n.info t)
  after-Tracks (endian_detected out d p) n h t =
      detected_in-Tracks out d (info_or_new n.info) n.content h.1 (new-Tracks o uses n.info t)

step-Tracks :
    (path : Str) (e : Event) (o : Option EndianType) (uses : ℤ → Bool) (n : Entry)
    → Smooth e
    → Tracks o uses n.info
    → Tracks
        (if concerns path e then seen e o else o)
        (if concerns path e then used e uses else uses)
        (step path e n).info
step-Tracks path e o uses n h t = go (concerns path e)
  where
    go :
        (b : Bool)
        → Tracks
            (if b then seen e o else o)
            (if b then used e uses else uses)
            (if b then after e n else n).info
    go true = after-Tracks o uses e n h t
    go false = t

pub steps-Tracks :
    (path : Str) (es : List Event) (o : Option EndianType) (uses : ℤ → Bool) (n : Entry)
    → AllSmooth es
    → Tracks o uses n.info
    → Tracks (first_detected path es o) (users path es uses) (steps path es n).info
unfolding first_detected users
steps-Tracks path [] o uses n h t = t
steps-Tracks path (e ∷ es) o uses n (h, hs) t =
    steps-Tracks path es (if concerns path e then seen e o else o)
      (if concerns path e then used e uses else uses) (step path e n) hs
      (step-Tracks path e o uses n h t)
