-- ===== src/PdefUsage/Elsewhere.antt =====
-- The handlers of src/rxcapturemanagerthread.cpp leave the PDEF files alone that their message does not
-- name.
use rxtracenetcap.Prelude.{
  ℤ, ◌≡◌, ◌≢◌, refl, ◌∙◌, Bool, true, false, Option, none, some, is_empty, if◌then◌else◌, Str, Map,
  find, assign, erase, find-assign_ne, find-erase_ne, str_eq,
}
use rxtracenetcap.Pdef.Types.{EndianType}
use rxtracenetcap.PdefUsage.{
  PdefUsageInfo, Files, Usage, FileOutcome, edit_endian, tmp_path, replace_file, writeback_content,
  writeback_endian_to_file, erase_id, info_or_new, track_pdef_usage_start, end_usage,
  track_pdef_usage_end, is_due, written_back, try_writeback, try_writeback_pdef_endian,
  note_detection, detect_for, handle_pdef_endian_detected,
}
use rxtracenetcap.PdefUsage.FileOutcome.{
  open_fails, tmp_fails, write_fails, rename_fails, all_succeed,
}
use rxtracenetcap.PdefUsage.Entry.{Entry, entry_of, started, rewritten}

abbrev pub entry : Option PdefUsageInfo → Option Str → Entry
entry info content = record { info = info; content = content }

pub entry_eq :
    {i j : Option PdefUsageInfo} {c d : Option Str} → i ≡ j → c ≡ d → entry i c ≡ entry j d
entry_eq e f = rw (e, f) refl

pub rewritten-none : (o : FileOutcome) (d : EndianType) → rewritten o d none ≡ none
rewritten-none open_fails d = refl
rewritten-none tmp_fails d = refl
rewritten-none write_fails d = refl
rewritten-none rename_fails d = refl
rewritten-none all_succeed d = refl

-- Another file.
module _ (path q : Str) (ne : path ≢ q) (not_tmp : tmp_path path ≢ q) where
  chosen-other :
      (b : Bool) (x y u : Usage)
      → entry_of q x ≡ entry_of q u
      → entry_of q y ≡ entry_of q u
      → entry_of q (if b then x else y) ≡ entry_of q u
  chosen-other true x y u e f = e
  chosen-other false x y u e f = f

  replace_file-other :
      (o : FileOutcome) (c : Option Str) (files : Files)
      → find q (replace_file o path c files).1 ≡ find q files
  replace_file-other open_fails c files = refl
  replace_file-other tmp_fails c files = refl
  replace_file-other write_fails none files = refl
  replace_file-other write_fails (some c) files = find-erase_ne (tmp_path path) q files not_tmp
  replace_file-other rename_fails none files = refl
  replace_file-other rename_fails (some c) files = find-erase_ne (tmp_path path) q files not_tmp
  replace_file-other all_succeed none files = refl
  replace_file-other all_succeed (some c) files =
      find-assign_ne path q c (erase (tmp_path path) files) ne
      ∙ find-erase_ne (tmp_path path) q files not_tmp

  writeback_content-other :
      (o : FileOutcome) (detected : EndianType) (c : Option Str) (files : Files)
      → find q (writeback_content o path detected c files).1 ≡ find q files
  writeback_content-other o detected none files = refl
  writeback_content-other o detected (some c) files =
      replace_file-other o (edit_endian c detected) files

  writeback_endian_to_file-other :
      (o : FileOutcome) (detected : EndianType) (files : Files)
      → find q (writeback_endian_to_file o path detected files).1 ≡ find q files
  unfolding writeback_endian_to_file
  writeback_endian_to_file-other open_fails d files = refl
  writeback_endian_to_file-other tmp_fails d files =
      writeback_content-other tmp_fails d (find path files) files
  writeback_endian_to_file-other write_fails d files =
      writeback_content-other write_fails d (find path files) files
  writeback_endian_to_file-other rename_fails d files =
      writeback_content-other rename_fails d (find path files) files
  writeback_endian_to_file-other all_succeed d files =
      writeback_content-other all_succeed d (find path files) files

  assigned-other :
      (info : PdefUsageInfo) (m : Map Str PdefUsageInfo) (files : Files)
      → entry (find q (assign path info m)) (find q files) ≡ entry (find q m) (find q files)
  assigned-other info m files = entry_eq (find-assign_ne path q info m ne) refl

  written_back-other :
      (info : PdefUsageInfo) (u : Usage) (r : Bool × Files)
      → find q r.1 ≡ find q u.files
      → entry_of q (written_back path info u r) ≡ entry_of q u
  written_back-other info u (true, files) e =
      entry_eq (find-assign_ne path q (record info { writeback_done = true }) u.pdef_usage_map ne) e
  written_back-other info u (false, files) e = entry_eq refl e

  try_writeback-other :
      (o : FileOutcome) (u : Usage) (i : Option PdefUsageInfo)
      → entry_of q (try_writeback o path u i) ≡ entry_of q u
  try_writeback-other o u none = refl
  try_writeback-other o u (some info) =
      chosen-other (is_due info)
        (written_back path info u (writeback_endian_to_file o path info.detected_endian u.files)) u
        u
        (written_back-other info u (writeback_endian_to_file o path info.detected_endian u.files)
          (writeback_endian_to_file-other o info.detected_endian u.files))
        refl

  pub try_writeback_pdef_endian-other :
      (o : FileOutcome) (u : Usage) → entry_of q (try_writeback_pdef_endian o path u) ≡ entry_of q u
  unfolding try_writeback_pdef_endian
  try_writeback_pdef_endian-other o u =
      chosen-other (is_empty path) u (try_writeback o path u (find path u.pdef_usage_map)) u refl
        (try_writeback-other o u (find path u.pdef_usage_map))

  pub track_pdef_usage_start-other :
      (id : ℤ) (u : Usage) → entry_of q (track_pdef_usage_start id path u) ≡ entry_of q u
  unfolding track_pdef_usage_start
  track_pdef_usage_start-other id u =
      let info = started id (info_or_new (find path u.pdef_usage_map)) in
      chosen-other (is_empty path) u
        (record u { pdef_usage_map = assign path info u.pdef_usage_map }) u refl
        (assigned-other info u.pdef_usage_map u.files)

  end_usage-other :
      (id : ℤ) (u : Usage) (i : Option PdefUsageInfo)
      → entry_of q (end_usage id path u i) ≡ entry_of q u
  end_usage-other id u none = refl
  end_usage-other id u (some info) =
      assigned-other (record info { active_capture_ids = erase_id id info.active_capture_ids })
        u.pdef_usage_map u.files

  pub track_pdef_usage_end-other :
      (id : ℤ) (u : Usage) → entry_of q (track_pdef_usage_end id path u) ≡ entry_of q u
  unfolding track_pdef_usage_end
  track_pdef_usage_end-other id u =
      chosen-other (is_empty path) u (end_usage id path u (find path u.pdef_usage_map)) u refl
        (end_usage-other id u (find path u.pdef_usage_map))

  detect_for-other :
      (o : FileOutcome) (d : EndianType) (u : Usage) (info : PdefUsageInfo)
      → entry_of q (detect_for o d path u info) ≡ entry_of q u
  detect_for-other o d u info =
      let noted = record u {
        pdef_usage_map = assign path (note_detection d info) u.pdef_usage_map;
      } in
      chosen-other (info.writeback_done)
        (record u { pdef_usage_map = assign path info u.pdef_usage_map })
        (try_writeback_pdef_endian o path noted) u (assigned-other info u.pdef_usage_map u.files)
        (try_writeback_pdef_endian-other o noted
          ∙ assigned-other (note_detection d info) u.pdef_usage_map u.files)

  pub handle_pdef_endian_detected-other :
      (o : FileOutcome) (d : EndianType) (u : Usage)
      → entry_of q (handle_pdef_endian_detected o d path u) ≡ entry_of q u
  unfolding handle_pdef_endian_detected
  handle_pdef_endian_detected-other o d u =
      let info = info_or_new (find path u.pdef_usage_map) in
      chosen-other (is_empty path) u (detect_for o d path u info) u refl
        (detect_for-other o d u info)
