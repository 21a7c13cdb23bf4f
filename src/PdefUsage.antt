-- ===== src/PdefUsage.antt =====
-- src/rxcapturemanagerthread.cpp: which captures use which PDEF file, and the detected byte order that
-- the manager thread writes back into the file once no capture uses it.
-- A `std::set<int>` is a list without repetitions. The files are a map from paths to contents, and
-- the outcome of each system call on them is given from outside.
use rxtracenetcap.Prelude.{
  ℕ, ◌+◌, ℤ, Bool, true, false, not, ◌&&◌, ◌||◌, Option, none, some, List, [], ◌∷◌, ◌++◌, ltb,
  is_empty, if◌then◌else◌, Str, int_beq, Map, find, assign, erase, take, drop, str_eq,
}
use rxtracenetcap.Prelude.Text.{codes, find_text_from}
use rxtracenetcap.Pdef.Types.{EndianType, endian_type_unknown, endian_type_big, endian_type_little}
pub mod Entry
pub mod Elsewhere
pub mod View
pub mod Edit
pub mod Safety
pub mod Waiting
pub mod Tracking
pub mod Settled
mod Tests

-- `PDEFUsageInfo`
pub record PdefUsageInfo : Type 0 where
  pub active_capture_ids : List ℤ
  pub detected_endian : EndianType
  pub writeback_needed : Bool
  pub writeback_done : Bool

abbrev pub new_usage : PdefUsageInfo
new_usage = record {
  active_capture_ids = [];
  detected_endian = endian_type_unknown;
  writeback_needed = false;
  writeback_done = false;
}

abbrev pub Files : Type 0
Files = Map Str Str

-- `_pdef_usage_map`, and the files that it is about.
pub record Usage : Type 0 where
  pub pdef_usage_map : Map Str PdefUsageInfo
  pub files : Files

-- Which system call of a write-back fails, if any.
pub data FileOutcome : Type 0 where
  open_fails tmp_fails write_fails rename_fails all_succeed : FileOutcome

abbrev pub endian_text : EndianType → Str
endian_text endian_type_big = codes "big"
endian_text _ = codes "little"

-- The limits that `writeback_endian_to_file` puts on the distance of two marks.
abbrev within : ℕ → Option ℕ → Option ℕ
within limit none = none
within limit (some p) = if ltb limit p then none else some p

-- The value after the first `endian` is replaced, from its `=` to its `;`.
unfoldable pub replace_endian : Str → Str → ℕ → ℕ → Str
replace_endian content value eq_pos semi_pos =
    take (eq_pos + 1) content ++ (codes " " ++ (value ++ drop semi_pos content))

unfoldable pub replace_value : Str → Str → Option ℕ → Option Str
replace_value content value none = none
replace_value content value (some eq_pos) =
    elim (within (eq_pos + 50) (find_text_from (codes ";") content eq_pos)) [
      | none ↦ none
      | some semi_pos ↦ some (replace_endian content value eq_pos semi_pos)
    ]

-- A line with the value is inserted after the line of the opening brace.
abbrev pub insert_pos : Str → ℕ → ℕ
insert_pos content brace_open = elim (find_text_from (codes "\n") content brace_open) [
  | none ↦ brace_open + 1
  | some p ↦ p + 1
]

unfoldable pub insert_line : Str → Str → ℕ → Str
insert_line content value at =
    take at content ++ (codes "    endian = " ++ (value ++ (codes ";\n" ++ drop at content)))

unfoldable pub insert_value : Str → Str → Option ℕ → Option Str
insert_value content value none = none
insert_value content value (some protocol_pos) =
    elim (find_text_from (codes "{") content protocol_pos) [
      | none ↦ none
      | some brace_open ↦ some (insert_line content value (insert_pos content brace_open))
    ]

-- The new content of the file, or `none` where the function gives up.
unfoldable pub edit_endian : Str → EndianType → Option Str
edit_endian content detected_endian = elim (find_text_from (codes "endian") content 0) [
  | some endian_pos ↦
      replace_value content (endian_text detected_endian)
        (within (endian_pos + 20) (find_text_from (codes "=") content endian_pos))
  | none ↦
      insert_value content (endian_text detected_endian)
        (find_text_from (codes "@protocol") content 0)
]

abbrev pub tmp_path : Str → Str
tmp_path path = path ++ codes ".tmp"

-- The part of `writeback_endian_to_file` after the new content is known: a failed write or rename
-- removes the temporary file, and a rename replaces the file as a whole.
abbrev pub replace_file : FileOutcome → Str → Option Str → Files → Bool × Files
replace_file all_succeed path (some new_content) files =
    (true, assign path new_content (erase (tmp_path path) files))
replace_file write_fails path (some new_content) files = (false, erase (tmp_path path) files)
replace_file rename_fails path (some new_content) files = (false, erase (tmp_path path) files)
replace_file _ path new_content files = (false, files)

abbrev pub writeback_content : FileOutcome → Str → EndianType → Option Str → Files → Bool × Files
writeback_content outcome path detected_endian none files = (false, files)
writeback_content outcome path detected_endian (some content) files =
    replace_file outcome path (edit_endian content detected_endian) files

unfoldable pub writeback_endian_to_file : FileOutcome → Str → EndianType → Files → Bool × Files
writeback_endian_to_file open_fails path detected_endian files = (false, files)
writeback_endian_to_file outcome path detected_endian files =
    writeback_content outcome path detected_endian (find path files) files

-- `insert` and `erase` of a set.
unfoldable pub insert_id : ℤ → List ℤ → List ℤ
insert_id id [] = id ∷ []
insert_id id (j ∷ ids) = if int_beq j id then j ∷ ids else j ∷ insert_id id ids

unfoldable pub erase_id : ℤ → List ℤ → List ℤ
erase_id id [] = []
erase_id id (j ∷ ids) = if int_beq j id then ids else j ∷ erase_id id ids

abbrev pub info_or_new : Option PdefUsageInfo → PdefUsageInfo
info_or_new none = new_usage
info_or_new (some info) = info

unfoldable pub track_pdef_usage_start : ℤ → Str → Usage → Usage
track_pdef_usage_start id path u =
    if is_empty path
    then u
    else let info = info_or_new (find path u.pdef_usage_map) in
      record u {
        pdef_usage_map =
            assign path (record info { active_capture_ids = insert_id id info.active_capture_ids })
              u.pdef_usage_map;
      }

abbrev pub end_usage : ℤ → Str → Usage → Option PdefUsageInfo → Usage
end_usage id path u none = u
end_usage id path u (some info) = record u {
  pdef_usage_map =
      assign path (record info { active_capture_ids = erase_id id info.active_capture_ids })
        u.pdef_usage_map;
}

unfoldable pub track_pdef_usage_end : ℤ → Str → Usage → Usage
track_pdef_usage_end id path u =
    if is_empty path then u else end_usage id path u (find path u.pdef_usage_map)

-- The condition under which the write-back is tried.
abbrev pub is_due : PdefUsageInfo → Bool
is_due info = info.writeback_needed && not info.writeback_done && is_empty info.active_capture_ids

abbrev pub written_back : Str → PdefUsageInfo → Usage → Bool × Files → Usage
written_back path info u (true, files) = record {
  pdef_usage_map = assign path (record info { writeback_done = true }) u.pdef_usage_map;
  files = files;
}
written_back path info u (false, files) = record u { files = files }

abbrev pub try_writeback : FileOutcome → Str → Usage → Option PdefUsageInfo → Usage
try_writeback outcome path u none = u
try_writeback outcome path u (some info) =
    if is_due info
    then written_back path info u
        (writeback_endian_to_file outcome path info.detected_endian u.files)
    else u

unfoldable pub try_writeback_pdef_endian : FileOutcome → Str → Usage → Usage
try_writeback_pdef_endian outcome path u =
    if is_empty path then u else try_writeback outcome path u (find path u.pdef_usage_map)

-- What a detection leaves in the entry; the first one counts.
abbrev pub noted : EndianType → EndianType → PdefUsageInfo → PdefUsageInfo
noted endian_type_unknown detected info = record info {
  detected_endian = detected;
  writeback_needed = true;
}
noted _ detected info = info

abbrev pub note_detection : EndianType → PdefUsageInfo → PdefUsageInfo
note_detection detected info = noted info.detected_endian detected info

abbrev pub detect_for : FileOutcome → EndianType → Str → Usage → PdefUsageInfo → Usage
detect_for outcome detected path u info =
    if info.writeback_done
    then record u { pdef_usage_map = assign path info u.pdef_usage_map }
    else try_writeback_pdef_endian outcome path
        (record u { pdef_usage_map = assign path (note_detection detected info) u.pdef_usage_map })

unfoldable pub handle_pdef_endian_detected : FileOutcome → EndianType → Str → Usage → Usage
handle_pdef_endian_detected outcome detected path u =
    if is_empty path
    then u
    else detect_for outcome detected path u (info_or_new (find path u.pdef_usage_map))

-- The parts of two message handlers that concern the usage. `has_filter` says that there is a filter
-- thread, which then gets the file.
unfoldable pub handle_capture_raw_file_v2 : Bool → ℤ → Str → Usage → Usage
handle_capture_raw_file_v2 has_filter id path u =
    if has_filter
    then track_pdef_usage_start id path u
    else track_pdef_usage_end id path (track_pdef_usage_start id path u)

unfoldable pub usage_of_filtered_file : FileOutcome → ℤ → Str → Usage → Usage
usage_of_filtered_file outcome id path u =
    try_writeback_pdef_endian outcome path (track_pdef_usage_end id path u)

-- The messages that concern the usage, in the order in which the thread handles them.
pub data Event : Type 0 where
  raw_file : Bool → ℤ → Str → Event
  filtered_file : FileOutcome → ℤ → Str → Event
  endian_detected : FileOutcome → EndianType → Str → Event

unfoldable pub handle : Event → Usage → Usage
handle (raw_file has_filter id path) u = handle_capture_raw_file_v2 has_filter id path u
handle (filtered_file outcome id path) u = usage_of_filtered_file outcome id path u
handle (endian_detected outcome detected path) u =
    handle_pdef_endian_detected outcome detected path u

unfoldable pub handle_all : List Event → Usage → Usage
handle_all [] u = u
handle_all (e ∷ es) u = handle_all es (handle e u)
