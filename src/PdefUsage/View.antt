-- ===== src/PdefUsage/View.antt =====
-- The maps of PDEF usage seen from one file: the handlers of src/rxcapturemanagerthread.cpp touch the
-- entry and the content of the file that the message names, and of no other.
use rxtracenetcap.Prelude.{
  ℤ, ◌≡◌, ◌≢◌, refl, sym, ap, subst, ◌∙◌, Bool, true, false, ◌&&◌, not, Option, none, some, List,
  [], ◌∷◌, is_empty, if◌then◌else◌, Str, str_beq, str_beq_iff, Map, find, assign, erase,
  find-assign_self, find-erase_ne, str_eq, arith,
}
use rxtracenetcap.Pdef.Types.{EndianType}
use rxtracenetcap.PdefUsage.{
  PdefUsageInfo, Files, Usage, FileOutcome, edit_endian, tmp_path, replace_file, writeback_content,
  writeback_endian_to_file, erase_id, info_or_new, track_pdef_usage_start, end_usage,
  track_pdef_usage_end, is_due, written_back, try_writeback, try_writeback_pdef_endian,
  note_detection, detect_for, handle_pdef_endian_detected, handle_capture_raw_file_v2,
  usage_of_filtered_file, Event, handle, handle_all,
}
use rxtracenetcap.PdefUsage.FileOutcome.{
  open_fails, tmp_fails, write_fails, rename_fails, all_succeed,
}
use rxtracenetcap.PdefUsage.Event.{raw_file, filtered_file, endian_detected}
use rxtracenetcap.PdefUsage.Entry.{
  Entry, entry_of, started, ended, rewritten, replaced, tried, detected_in, after, path_of, step,
  steps,
}
use rxtracenetcap.PdefUsage.Elsewhere.{
  entry, entry_eq, rewritten-none, try_writeback_pdef_endian-other, track_pdef_usage_start-other,
  track_pdef_usage_end-other, handle_pdef_endian_detected-other,
}

-- The file of the message.
module _ (path : Str) (nonempty : is_empty path ≡ false) (not_tmp : tmp_path path ≢ path) where
  assigned_self :
      (info : PdefUsageInfo) (m : Map Str PdefUsageInfo) (files : Files)
      → entry (find path (assign path info m)) (find path files)
        ≡ entry (some info) (find path files)
  assigned_self info m files = entry_eq (find-assign_self path info m) refl

  failed_self :
      (o : FileOutcome) (info : PdefUsageInfo) (u : Usage) (c nc : Option Str)
      → o ≢ all_succeed
      → find path u.pdef_usage_map ≡ some info
      → find path u.files ≡ c
      → entry_of path (written_back path info u (replace_file o path nc u.files))
        ≡ entry (some info) c
  failed_self open_fails info u c nc ne e f = entry_eq e f
  failed_self tmp_fails info u c nc ne e f = entry_eq e f
  failed_self write_fails info u c none ne e f = entry_eq e f
  failed_self write_fails info u c (some n) ne e f =
      entry_eq e (find-erase_ne (tmp_path path) path u.files not_tmp ∙ f)
  failed_self rename_fails info u c none ne e f = entry_eq e f
  failed_self rename_fails info u c (some n) ne e f =
      entry_eq e (find-erase_ne (tmp_path path) path u.files not_tmp ∙ f)
  failed_self all_succeed info u c nc ne e f = absurd (ne refl)

  renamed_self :
      (info : PdefUsageInfo) (u : Usage) (c nc : Option Str)
      → find path u.pdef_usage_map ≡ some info
      → find path u.files ≡ c
      → entry_of path (written_back path info u (replace_file all_succeed path nc u.files))
        ≡ replaced info c nc
  renamed_self info u c none e f = entry_eq e f
  renamed_self info u c (some n) e f =
      entry_eq (find-assign_self path (record info { writeback_done = true }) u.pdef_usage_map)
        (find-assign_self path n (erase (tmp_path path) u.files))

  written_self :
      (o : FileOutcome) (info : PdefUsageInfo) (u : Usage) (c : Option Str)
      → find path u.pdef_usage_map ≡ some info
      → find path u.files ≡ c
      → entry_of path
          (written_back path info u (writeback_content o path info.detected_endian c u.files))
        ≡ replaced info c (rewritten o info.detected_endian c)
  written_self o info u none e f =
      entry_eq e f ∙ ap (replaced info none) (sym (rewritten-none o info.detected_endian))
  written_self open_fails info u (some c) e f =
      failed_self open_fails info u (some c) (edit_endian c info.detected_endian)
        (λ h. grind (arith, h)) e f
  written_self tmp_fails info u (some c) e f =
      failed_self tmp_fails info u (some c) (edit_endian c info.detected_endian)
        (λ h. grind (arith, h)) e f
  written_self write_fails info u (some c) e f =
      failed_self write_fails info u (some c) (edit_endian c info.detected_endian)
        (λ h. grind (arith, h)) e f
  written_self rename_fails info u (some c) e f =
      failed_self rename_fails info u (some c) (edit_endian c info.detected_endian)
        (λ h. grind (arith, h)) e f
  written_self all_succeed info u (some c) e f =
      renamed_self info u (some c) (edit_endian c info.detected_endian) e f

  writeback_self :
      (o : FileOutcome) (info : PdefUsageInfo) (u : Usage)
      → find path u.pdef_usage_map ≡ some info
      → entry_of path
          (written_back path info u (writeback_endian_to_file o path info.detected_endian u.files))
        ≡ replaced info (find path u.files) (rewritten o info.detected_endian (find path u.files))
  unfolding writeback_endian_to_file
  writeback_self open_fails info u e = entry_eq e refl
  writeback_self tmp_fails info u e = written_self tmp_fails info u (find path u.files) e refl
  writeback_self write_fails info u e = written_self write_fails info u (find path u.files) e refl
  writeback_self rename_fails info u e = written_self rename_fails info u (find path u.files) e refl
  writeback_self all_succeed info u e = written_self all_succeed info u (find path u.files) e refl

  try_self :
      (o : FileOutcome) (u : Usage) (i : Option PdefUsageInfo)
      → find path u.pdef_usage_map ≡ i
      → entry_of path (try_writeback o path u i) ≡ tried o i (find path u.files)
  try_self o u none e = entry_eq e refl
  try_self o u (some info) e = go (is_due info)
    where
      go :
          (b : Bool)
          → entry_of path (
              if b
              then written_back path info u
                  (writeback_endian_to_file o path info.detected_endian u.files)
              else u)
            ≡ (if b
                then replaced info
                    (find path u.files)
                    (rewritten o info.detected_endian (find path u.files))
                else entry (some info) (find path u.files))
      go true = writeback_self o info u e
      go false = entry_eq e refl

  try_writeback_pdef_endian_self :
      (o : FileOutcome) (u : Usage)
      → entry_of path (try_writeback_pdef_endian o path u)
        ≡ tried o (find path u.pdef_usage_map) (find path u.files)
  unfolding try_writeback_pdef_endian
  try_writeback_pdef_endian_self o u = rw nonempty (try_self o u (find path u.pdef_usage_map) refl)

  track_pdef_usage_start_self :
      (id : ℤ) (u : Usage)
      → entry_of path (track_pdef_usage_start id path u)
        ≡ entry (some (started id (info_or_new (find path u.pdef_usage_map)))) (find path u.files)
  unfolding track_pdef_usage_start
  track_pdef_usage_start_self id u = rw nonempty (
      assigned_self (started id (info_or_new (find path u.pdef_usage_map))) u.pdef_usage_map
        u.files)

  end_usage_self :
      (id : ℤ) (u : Usage) (i : Option PdefUsageInfo)
      → find path u.pdef_usage_map ≡ i
      → entry_of path (end_usage id path u i) ≡ entry (ended id i) (find path u.files)
  end_usage_self id u none e = entry_eq e refl
  end_usage_self id u (some info) e =
      assigned_self (record info { active_capture_ids = erase_id id info.active_capture_ids })
        u.pdef_usage_map u.files

  track_pdef_usage_end_self :
      (id : ℤ) (u : Usage)
      → entry_of path (track_pdef_usage_end id path u)
        ≡ entry (ended id (find path u.pdef_usage_map)) (find path u.files)
  unfolding track_pdef_usage_end
  track_pdef_usage_end_self id u =
      rw nonempty (end_usage_self id u (find path u.pdef_usage_map) refl)

  detect_for_self :
      (o : FileOutcome) (d : EndianType) (u : Usage) (info : PdefUsageInfo)
      → entry_of path (detect_for o d path u info) ≡ detected_in o d info (find path u.files)
  detect_for_self o d u info = go (info.writeback_done)
    where
      go :
          (b : Bool)
          → entry_of path (
              if b
              then record u { pdef_usage_map = assign path info u.pdef_usage_map }
              else try_writeback_pdef_endian o path (record u {
                pdef_usage_map = assign path (note_detection d info) u.pdef_usage_map;
              }))
            ≡ (if b
                then entry (some info) (find path u.files)
                else tried o (some (note_detection d info)) (find path u.files))
      go true = assigned_self info u.pdef_usage_map u.files
      go false =
          try_writeback_pdef_endian_self o
            (record u { pdef_usage_map = assign path (note_detection d info) u.pdef_usage_map })
          ∙ ap (λ i. tried o i (find path u.files))
              (find-assign_self path (note_detection d info) u.pdef_usage_map)

  handle_pdef_endian_detected_self :
      (o : FileOutcome) (d : EndianType) (u : Usage)
      → entry_of path (handle_pdef_endian_detected o d path u)
        ≡ detected_in o d (info_or_new (find path u.pdef_usage_map)) (find path u.files)
  unfolding handle_pdef_endian_detected
  handle_pdef_endian_detected_self o d u =
      rw nonempty (detect_for_self o d u (info_or_new (find path u.pdef_usage_map)))

  usage_of_filtered_file_self :
      (o : FileOutcome) (id : ℤ) (u : Usage)
      → entry_of path (usage_of_filtered_file o id path u)
        ≡ tried o (ended id (find path u.pdef_usage_map)) (find path u.files)
  unfolding usage_of_filtered_file
  usage_of_filtered_file_self o id u =
      try_writeback_pdef_endian_self o (track_pdef_usage_end id path u)
      ∙ ap (λ (n : Entry). tried o n.info n.content) (track_pdef_usage_end_self id u)

  handle_capture_raw_file_v2_self :
      (has_filter : Bool) (id : ℤ) (u : Usage)
      → entry_of path (handle_capture_raw_file_v2 has_filter id path u)
        ≡ after (raw_file has_filter id path) (entry_of path u)
  unfolding handle_capture_raw_file_v2
  handle_capture_raw_file_v2_self true id u = track_pdef_usage_start_self id u
  handle_capture_raw_file_v2_self false id u =
      track_pdef_usage_end_self id (track_pdef_usage_start id path u)
      ∙ ap (λ (n : Entry). entry (ended id n.info) n.content) (track_pdef_usage_start_self id u)

handle_self :
    (e : Event) (u : Usage)
    → is_empty (path_of e) ≡ false
    → tmp_path (path_of e) ≢ path_of e
    → entry_of (path_of e) (handle e u) ≡ after e (entry_of (path_of e) u)
unfolding handle
handle_self (raw_file b id path) u ne nt = handle_capture_raw_file_v2_self path ne nt b id u
handle_self (filtered_file o id path) u ne nt = usage_of_filtered_file_self path ne nt o id u
handle_self (endian_detected o d path) u ne nt = handle_pdef_endian_detected_self path ne nt o d u

handle-other :
    (e : Event) (u : Usage) (q : Str)
    → path_of e ≢ q
    → tmp_path (path_of e) ≢ q
    → entry_of q (handle e u) ≡ entry_of q u
unfolding handle handle_capture_raw_file_v2 usage_of_filtered_file
handle-other (raw_file true id path) u q ne nt = track_pdef_usage_start-other path q ne nt id u
handle-other (raw_file false id path) u q ne nt =
    track_pdef_usage_end-other path q ne nt id (track_pdef_usage_start id path u)
    ∙ track_pdef_usage_start-other path q ne nt id u
handle-other (filtered_file o id path) u q ne nt =
    try_writeback_pdef_endian-other path q ne nt o (track_pdef_usage_end id path u)
    ∙ track_pdef_usage_end-other path q ne nt id u
handle-other (endian_detected o d path) u q ne nt =
    handle_pdef_endian_detected-other path q ne nt o d u

-- A message without a path.
handle-empty : (e : Event) (u : Usage) → is_empty (path_of e) ≡ true → handle e u ≡ u
unfolding handle handle_capture_raw_file_v2 usage_of_filtered_file handle_pdef_endian_detected
    track_pdef_usage_start track_pdef_usage_end try_writeback_pdef_endian
handle-empty (raw_file true id path) u h = rw h refl
handle-empty (raw_file false id path) u h = rw h refl
handle-empty (filtered_file o id path) u h = rw h refl
handle-empty (endian_detected o d path) u h = rw h refl

handle-step :
    (path : Str) (e : Event) (u : Usage)
    → ((p : Str) → tmp_path p ≢ path)
    → entry_of path (handle e u) ≡ step path e (entry_of path u)
handle-step path e u nt = go (is_empty (path_of e)) (str_beq (path_of e) path) refl refl
  where
    go :
        (b c : Bool)
        → is_empty (path_of e) ≡ b
        → str_beq (path_of e) path ≡ c
        → entry_of path (handle e u)
          ≡ (if not b && c then after e (entry_of path u) else entry_of path u)
    go true c h k = ap (entry_of path) (handle-empty e u h)
    go false true h k =
        let same = (str_beq_iff (path_of e) path).0 k in
        subst (λ p. entry_of p (handle e u) ≡ after e (entry_of p u)) same
          (handle_self e u h (λ f. nt (path_of e) (f ∙ same)))
    go false false h k =
        handle-other e u path (λ f. ground (arith, k, (str_beq_iff (path_of e) path).1 f))
          (nt (path_of e))

-- The file at `path`, where no file of that name is the temporary file of another: after any sequence of messages, its entry and its content are what the messages with that path make of them, one after the other, whatever the other messages are.
pub handle_all-steps :
    (path : Str) (es : List Event) (u : Usage)
    → ((p : Str) → tmp_path p ≢ path)
    → entry_of path (handle_all es u) ≡ steps path es (entry_of path u)
unfolding handle_all
handle_all-steps path [] u nt = refl
handle_all-steps path (e ∷ es) u nt =
    handle_all-steps path es (handle e u) nt ∙ ap (steps path es) (handle-step path e u nt)
