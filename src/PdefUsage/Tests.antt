-- ===== src/PdefUsage/Tests.antt =====
-- The theorems on PDEF usage at a concrete file and concrete messages.
use rxtracenetcap.Prelude.{
  ℕ, pos, ◌≡◌, ◌≢◌, refl, ap, true, false, none, some, List, [], ◌∷◌, Str, find, assign, erase,
  str_eq, ◌⊎◌, arith,
}
use rxtracenetcap.Prelude.Text.{codes, find_text, find_text_from}
use rxtracenetcap.Pdef.Types.{EndianType, endian_type_unknown, endian_type_big, endian_type_little}
use rxtracenetcap.PdefUsage.{
  Files, Usage, tmp_path, new_usage, edit_endian, replace_endian, replace_value, insert_line,
  insert_value, endian_text, Event, handle, handle_all, usage_of_filtered_file,
  try_writeback_pdef_endian, track_pdef_usage_end, handle_pdef_endian_detected,
  handle_capture_raw_file_v2, track_pdef_usage_start, insert_id, erase_id, writeback_endian_to_file,
}
use rxtracenetcap.PdefUsage.FileOutcome.{all_succeed}
use rxtracenetcap.PdefUsage.Event.{raw_file, filtered_file, endian_detected}
use rxtracenetcap.PdefUsage.Entry.{entry_of, steps}
use rxtracenetcap.PdefUsage.View.{handle_all-steps}
use rxtracenetcap.PdefUsage.Edit.{IsReplaced, IsInserted, edit_endian-IsReplaced}
use rxtracenetcap.PdefUsage.Safety.{handle_all-IsDone, handle_all-InUse}
use rxtracenetcap.PdefUsage.Tracking.{first_detected, users}
use rxtracenetcap.PdefUsage.Settled.{Settled, handle_all-Settled}

abbrev path : Str
path = codes "a.pdef"

abbrev content : Str
content = codes "@protocol {\n}\n"

abbrev with_endian : Str
with_endian = codes "@protocol {\n endian = auto;\n}\n"

abbrev files : Files
files = (path, content) ∷ []

abbrev last : Str → ℕ
last [] = 0
last (x ∷ []) = x
last (x ∷ (y ∷ s)) = last (y ∷ s)

last-tmp_path : (p : Str) → last (tmp_path p) ≡ b'p'
last-tmp_path [] = refl
last-tmp_path (x ∷ []) = refl
last-tmp_path (x ∷ (y ∷ s)) = last-tmp_path (y ∷ s)

-- `path` ends in another letter than every temporary file.
not_tmp : (p : Str) → tmp_path p ≢ path
not_tmp p e = absurd (grind (arith, ap last e, last-tmp_path p))

content-editable : (d : EndianType) → edit_endian content d ≢ none
unfolding edit_endian insert_value insert_line find_text_from find_text
content-editable endian_type_unknown e = grind (arith, e)
content-editable endian_type_big e = grind (arith, e)
content-editable endian_type_little e = grind (arith, e)

-- One capture with the file, and the byte order that it detects.
abbrev session : List Event
session =
    raw_file true (pos 7) path
    ∷ (endian_detected all_succeed endian_type_big path
        ∷ (filtered_file all_succeed (pos 7) path ∷ []))

abbrev start : Usage
start = record { pdef_usage_map = []; files = files }

-- The file is as it was while the capture runs, and has the byte order afterwards.
session_content :
    find path (handle_all session start).files ≡ some (codes "@protocol {\n    endian = big;\n}\n")
unfolding handle_all edit_endian insert_value insert_line find_text_from find_text find handle
    usage_of_filtered_file try_writeback_pdef_endian track_pdef_usage_end
    handle_pdef_endian_detected handle_capture_raw_file_v2 track_pdef_usage_start assign insert_id
    erase_id writeback_endian_to_file erase
session_content = refl

handle_all-steps_example :
    entry_of path (handle_all session start) ≡ steps path session (entry_of path start)
handle_all-steps_example = handle_all-steps path session start not_tmp

edit_endian-IsReplaced_example :
    IsReplaced (endian_text endian_type_big) with_endian (codes "@protocol {\n endian = big;\n}\n")
    ⊎ IsInserted
        (endian_text endian_type_big)
        with_endian
        (codes "@protocol {\n endian = big;\n}\n")
unfolding edit_endian replace_value replace_endian find_text_from find_text
edit_endian-IsReplaced_example =
    edit_endian-IsReplaced with_endian (codes "@protocol {\n endian = big;\n}\n") endian_type_big
      refl

-- The file after the session above.
abbrev written : Usage
written = record {
  pdef_usage_map =
      (
        path,
        record new_usage {
          detected_endian = endian_type_big;
          writeback_needed = true;
          writeback_done = true;
        },
      )
      ∷ [];
  files = files;
}

handle_all-IsDone_example : find path (handle_all session written).files ≡ find path written.files
unfolding find
handle_all-IsDone_example = handle_all-IsDone path session written not_tmp refl

abbrev in_use : Usage
in_use = record {
  pdef_usage_map = (path, record new_usage { active_capture_ids = pos 3 ∷ [] }) ∷ [];
  files = files;
}

handle_all-InUse_example : find path (handle_all session in_use).files ≡ find path in_use.files
unfolding find
handle_all-InUse_example =
    handle_all-InUse path session (pos 3) in_use not_tmp (refl, (refl, (refl, tt))) refl

big-known : endian_type_big ≢ endian_type_unknown
big-known e = grind (arith, e)

handle_all-Settled_example :
    Settled content
      (first_detected path session none)
      (users path session (λ id. false))
      (find path (handle_all session start).files)
unfolding find
handle_all-Settled_example =
    handle_all-Settled path content session files not_tmp content-editable
      (refl, ((refl, big-known), (refl, tt))) refl
