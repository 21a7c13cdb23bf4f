-- ===== src/PdefUsage/Safety.antt =====
-- When src/rxcapturemanagerthread.cpp leaves a PDEF file alone: after it has been written back, and
-- while a capture uses it.
use rxtracenetcap.Prelude.{
  ℤ, ◌≡◌, ◌≢◌, refl, ap, ◌∙◌, Bool, true, false, ◌&&◌, not, Option, none, some, List, [], ◌∷◌,
  is_empty, if◌then◌else◌, Str, find, str_eq, int_beq, int_beq_iff, arith,
}
use rxtracenetcap.Pdef.Types.{EndianType, endian_type_unknown, endian_type_big, endian_type_little}
use rxtracenetcap.PdefUsage.{
  PdefUsageInfo, Usage, FileOutcome, tmp_path, insert_id, erase_id, noted, note_detection, Event,
  handle_all,
}
use rxtracenetcap.PdefUsage.Event.{raw_file, filtered_file, endian_detected}
use rxtracenetcap.PdefUsage.Entry.{
  Entry, entry_of, ended, rewritten, replaced, tried, detected_in, after, concerns, step, steps,
}
use rxtracenetcap.PdefUsage.View.{handle_all-steps}
use rxtracenetcap.PdefUsage.Elsewhere.{entry}

-- The entry says that the file has been written back.
abbrev pub IsDone : Option PdefUsageInfo → Type 0
IsDone none = ⊥
IsDone (some info) = info.writeback_done ≡ true

-- Written back, and the content is still this.
abbrev Kept : Option Str → Entry → Type 0
Kept content n = IsDone n.info × (n.content ≡ content)

tried-Kept :
    (o : FileOutcome) (i : Option PdefUsageInfo) (c : Option Str) → IsDone i → Kept c (tried o i c)
tried-Kept o none c h = absurd h
tried-Kept o (some info) c h = go (info.writeback_needed) (info.writeback_done) h
  where
    go :
        (a b : Bool)
        → b ≡ true
        → Kept c (
            if a && not b && is_empty info.active_capture_ids
            then replaced info c (rewritten o info.detected_endian c)
            else entry (some info) c)
    go true true e = (h, refl)
    go false true e = (h, refl)
    go a false e = ground (arith, e)

detected_in-Kept :
    (o : FileOutcome) (d : EndianType) (info : PdefUsageInfo) (c : Option Str)
    → info.writeback_done ≡ true
    → Kept c (detected_in o d info c)
detected_in-Kept o d info c h = go (info.writeback_done) h
  where
    go :
        (b : Bool)
        → b ≡ true
        → Kept c (if b then entry (some info) c else tried o (some (note_detection d info)) c)
    go true e = (h, refl)
    go false e = ground (arith, e)

after-Kept :
    (e : Event) (i : Option PdefUsageInfo) (c : Option Str)
    → IsDone i
    → Kept c (after e (entry i c))
after-Kept e none c h = absurd h
after-Kept (raw_file true id path) (some info) c h = (h, refl)
after-Kept (raw_file false id path) (some info) c h = (h, refl)
after-Kept (filtered_file o id path) (some info) c h = tried-Kept o (ended id (some info)) c h
after-Kept (endian_detected o d path) (some info) c h = detected_in-Kept o d info c h

step-Kept : (path : Str) (e : Event) (n : Entry) → IsDone n.info → Kept n.content (step path e n)
step-Kept path e n h = go (concerns path e)
  where
    go : (b : Bool) → Kept n.content (if b then after e n else n)
    go true = after-Kept e n.info n.content h
    go false = (h, refl)

steps-Kept :
    (path : Str) (es : List Event) (n : Entry) → IsDone n.info → Kept n.content (steps path es n)
steps-Kept path [] n h = (h, refl)
steps-Kept path (e ∷ es) n h =
    let (d, k) = step-Kept path e n h in
    let (d', k') = steps-Kept path es (step path e n) d in (d', k' ∙ k)

-- The file at `path`, where no file of that name is the temporary file of another. Once its entry says
-- that it has been written back, no messages change it any more, whatever they are.
pub handle_all-IsDone :
    (path : Str) (es : List Event) (u : Usage)
    → ((p : Str) → tmp_path p ≢ path)
    → IsDone (find path u.pdef_usage_map)
    → find path (handle_all es u).files ≡ find path u.files
handle_all-IsDone path es u nt h =
    ap (λ (n : Entry). n.content) (handle_all-steps path es u nt)
    ∙ (steps-Kept path es (entry_of path u) h).1

-- A capture uses the file.
abbrev contains : ℤ → List ℤ → Bool
contains id [] = false
contains id (j ∷ ids) = if int_beq j id then true else contains id ids

abbrev InUse : ℤ → Option PdefUsageInfo → Type 0
InUse id none = ⊥
InUse id (some info) = contains id info.active_capture_ids ≡ true

-- The message takes the capture off the file.
abbrev releases : ℤ → Event → Bool
releases id (raw_file true j path) = false
releases id (raw_file false j path) = int_beq j id
releases id (filtered_file o j path) = int_beq j id
releases id (endian_detected o d path) = false

abbrev NoneReleases : ℤ → List Event → Type 0
NoneReleases id [] = Unit {0}
NoneReleases id (e ∷ es) = (releases id e ≡ false) × NoneReleases id es

contains-insert_id :
    (id j : ℤ) (ids : List ℤ) → contains id ids ≡ true → contains id (insert_id j ids) ≡ true
unfolding insert_id
contains-insert_id id j [] h = ground (arith, h)
contains-insert_id id j (k ∷ ids) h = ground (arith, h, contains-insert_id id j ids)

contains-erase_id :
    (id j : ℤ) (ids : List ℤ)
    → int_beq j id ≡ false
    → contains id ids ≡ true
    → contains id (erase_id j ids) ≡ true
unfolding erase_id
contains-erase_id id j [] ne h = h
contains-erase_id id j (k ∷ ids) ne h = ground (
  arith,
  h,
  ne,
  contains-erase_id id j ids ne,
  int_beq_iff k j,
  int_beq_iff k id,
  int_beq_iff j id,
)

contains-is_empty : (id : ℤ) (ids : List ℤ) → contains id ids ≡ true → is_empty ids ≡ false
contains-is_empty id [] h = ground (arith, h)
contains-is_empty id (k ∷ ids) h = refl

-- In use, and the content is still this.
abbrev Waits : ℤ → Option Str → Entry → Type 0
Waits id content n = InUse id n.info × (n.content ≡ content)

tried-Waits :
    (o : FileOutcome) (id : ℤ) (i : Option PdefUsageInfo) (c : Option Str)
    → InUse id i
    → Waits id c (tried o i c)
tried-Waits o id none c h = absurd h
tried-Waits o id (some info) c h =
    go (info.writeback_needed) (info.writeback_done) (is_empty info.active_capture_ids)
      (contains-is_empty id info.active_capture_ids h)
  where
    go :
        (a b e : Bool)
        → e ≡ false
        → Waits id c (
            if a && not b && e
            then replaced info c (rewritten o info.detected_endian c)
            else entry (some info) c)
    go true true e k = (h, refl)
    go true false false k = (h, refl)
    go true false true k = ground (arith, k)
    go false b e k = (h, refl)

noted-active :
    (t d : EndianType) (info : PdefUsageInfo)
    → (noted t d info).active_capture_ids ≡ info.active_capture_ids
noted-active endian_type_unknown d info = refl
noted-active endian_type_big d info = refl
noted-active endian_type_little d info = refl

detected_in-Waits :
    (o : FileOutcome) (d : EndianType) (id : ℤ) (info : PdefUsageInfo) (c : Option Str)
    → InUse id (some info)
    → Waits id c (detected_in o d info c)
detected_in-Waits o d id info c h = go (info.writeback_done)
  where
    go :
        (b : Bool)
        → Waits id c (if b then entry (some info) c else tried o (some (note_detection d info)) c)
    go true = (h, refl)
    go false =
        tried-Waits o id (some (note_detection d info)) c
          (ap (contains id) (noted-active info.detected_endian d info) ∙ h)

after-Waits :
    (e : Event) (id : ℤ) (i : Option PdefUsageInfo) (c : Option Str)
    → releases id e ≡ false
    → InUse id i
    → Waits id c (after e (entry i c))
after-Waits e id none c r h = absurd h
after-Waits (raw_file true j path) id (some info) c r h =
    (contains-insert_id id j info.active_capture_ids h, refl)
after-Waits (raw_file false j path) id (some info) c r h = (
  contains-erase_id id j (insert_id j info.active_capture_ids) r
      (contains-insert_id id j info.active_capture_ids h),
  refl,
)
after-Waits (filtered_file o j path) id (some info) c r h =
    tried-Waits o id (ended j (some info)) c (contains-erase_id id j info.active_capture_ids r h)
after-Waits (endian_detected o d path) id (some info) c r h = detected_in-Waits o d id info c h

step-Waits :
    (path : Str) (e : Event) (id : ℤ) (n : Entry)
    → releases id e ≡ false
    → InUse id n.info
    → Waits id n.content (step path e n)
step-Waits path e id n r h = go (concerns path e)
  where
    go : (b : Bool) → Waits id n.content (if b then after e n else n)
    go true = after-Waits e id n.info n.content r h
    go false = (h, refl)

steps-Waits :
    (path : Str) (es : List Event) (id : ℤ) (n : Entry)
    → NoneReleases id es
    → InUse id n.info
    → Waits id n.content (steps path es n)
steps-Waits path [] id n r h = (h, refl)
steps-Waits path (e ∷ es) id n (r, rs) h =
    let (d, k) = step-Waits path e id n r h in
    let (d', k') = steps-Waits path es id (step path e n) rs d in (d', k' ∙ k)

-- The file at `path`, where no file of that name is the temporary file of another, while a capture is
-- recorded as using it: no messages change its content, as long as none of them is the filtered file
-- of that capture, nor its raw file with no filter thread to take it.
pub handle_all-InUse :
    (path : Str) (es : List Event) (id : ℤ) (u : Usage)
    → ((p : Str) → tmp_path p ≢ path)
    → NoneReleases id es
    → InUse id (find path u.pdef_usage_map)
    → find path (handle_all es u).files ≡ find path u.files
handle_all-InUse path es id u nt r h =
    ap (λ (n : Entry). n.content) (handle_all-steps path es u nt)
    ∙ (steps-Waits path es id (entry_of path u) r h).1
