-- ===== src/PdefUsage/Entry.antt =====
-- What the messages of src/rxcapturemanagerthread.cpp do to one PDEF file: its entry in
-- `_pdef_usage_map` and its content, with no maps.
use rxtracenetcap.Prelude.{
  ℤ, Bool, true, false, ◌&&◌, not, Option, none, some, List, [], ◌∷◌, is_empty, if◌then◌else◌, Str,
  str_beq, find, str_eq,
}
use rxtracenetcap.Pdef.Types.{EndianType}
use rxtracenetcap.PdefUsage.{
  PdefUsageInfo, Usage, FileOutcome, edit_endian, insert_id, erase_id, info_or_new, is_due,
  note_detection, Event,
}
use rxtracenetcap.PdefUsage.FileOutcome.{all_succeed}
use rxtracenetcap.PdefUsage.Event.{raw_file, filtered_file, endian_detected}

-- One file: its entry and its content.
pub record Entry : Type 0 where
  pub info : Option PdefUsageInfo
  pub content : Option Str

abbrev pub entry_of : Str → Usage → Entry
entry_of path u = record { info = find path u.pdef_usage_map; content = find path u.files }

abbrev pub started : ℤ → PdefUsageInfo → PdefUsageInfo
started id info = record info { active_capture_ids = insert_id id info.active_capture_ids }

abbrev pub ended : ℤ → Option PdefUsageInfo → Option PdefUsageInfo
ended id none = none
ended id (some info) =
    some (record info { active_capture_ids = erase_id id info.active_capture_ids })

-- The new content of the file, where the write-back succeeds.
abbrev pub rewritten : FileOutcome → EndianType → Option Str → Option Str
rewritten all_succeed detected (some content) = edit_endian content detected
rewritten _ detected content = none

abbrev pub replaced : PdefUsageInfo → Option Str → Option Str → Entry
replaced info content (some new_content) = record {
  info = some (record info { writeback_done = true });
  content = some new_content;
}
replaced info content none = record { info = some info; content = content }

abbrev pub tried : FileOutcome → Option PdefUsageInfo → Option Str → Entry
tried outcome none content = record { info = none; content = content }
tried outcome (some info) content =
    if is_due info
    then replaced info content (rewritten outcome info.detected_endian content)
    else record { info = some info; content = content }

abbrev pub detected_in : FileOutcome → EndianType → PdefUsageInfo → Option Str → Entry
detected_in outcome detected info content =
    if info.writeback_done
    then record { info = some info; content = content }
    else tried outcome (some (note_detection detected info)) content

abbrev pub after : Event → Entry → Entry
after (raw_file true id path) n = record n { info = some (started id (info_or_new n.info)) }
after (raw_file false id path) n = record n {
  info = ended id (some (started id (info_or_new n.info)));
}
after (filtered_file outcome id path) n = tried outcome (ended id n.info) n.content
after (endian_detected outcome detected path) n =
    detected_in outcome detected (info_or_new n.info) n.content

abbrev pub path_of : Event → Str
path_of (raw_file has_filter id path) = path
path_of (filtered_file outcome id path) = path
path_of (endian_detected outcome detected path) = path

-- The message is about this file.
abbrev pub concerns : Str → Event → Bool
concerns path e = not (is_empty (path_of e)) && str_beq (path_of e) path

abbrev pub step : Str → Event → Entry → Entry
step path e n = if concerns path e then after e n else n

abbrev pub steps : Str → List Event → Entry → Entry
steps path [] n = n
steps path (e ∷ es) n = steps path es (step path e n)
