-- ===== src/Manager/Duplicates.antt =====
-- The request to start a capture, its key, and the search of src/rxcapturemanagerthread.cpp for an active
-- capture that it repeats.
use rxtracenetcap.Prelude.{
  ℕ, zero, suc, ℤ, pos, Bool, true, false, Option, none, some, [], ◌++◌, if◌then◌else◌, is_empty,
  is_pos, take, Str, Run, ok, ◌>>=◌,
}
use rxtracenetcap.Prelude.Text.{codes, int_text}
use rxtracenetcap.Task.{
  ObjId, CaptureMode, interface, process, pid, container, TaskStatus, pending, resolving, running,
  completed, failed, stopped,
}
use rxtracenetcap.TaskTable.{TaskSnapshot}
use rxtracenetcap.TaskMgr.{
  SafeTaskMgr, query_task, query_task_by_key, is_key_active, query_active_task_by_signature,
}

-- `SRxStartCaptureMsg`, with a mode that is one of the four.
pub record StartCaptureMsg : Type 0 where
  pub capture_mode : CaptureMode
  pub iface : Str
  pub proc_name : Str
  pub target_pid : ℤ
  pub container_id : Str
  pub netns_path : Str
  pub filter : Str
  pub protocol_filter : Str
  pub ip_filter : Str
  pub port_filter : ℤ
  pub category : Str
  pub file_pattern : Str
  pub duration_sec : ℤ
  pub max_bytes : ℤ
  pub max_packets : ℤ
  pub reply_target : ObjId
  pub client_ip : Str
  pub request_user : Str

-- The fields of `SProcessInfo` that the task gets.
pub record ProcessInfo : Type 0 where
  pub pid : ℤ
  pub netns_path : Str

-- `snprintf` into a buffer of this size.
abbrev pub printed : ℕ → Str → Str
printed zero text = []
printed (suc size) text = take size text

unfoldable pub generate_task_key : StartCaptureMsg → Str
generate_task_key msg = elim (msg.capture_mode) [
  | interface ↦ printed 512 (codes "iface:" ++ msg.iface ++ codes ":" ++ msg.filter)
  | process ↦ printed 512 (
      codes "proc:"
      ++ msg.proc_name
      ++ codes ":"
      ++ msg.filter
      ++ codes ":"
      ++ int_text msg.port_filter)
  | pid ↦ printed 512 (codes "pid:" ++ int_text msg.target_pid)
  | container ↦ printed 512 (codes "container:" ++ msg.container_id ++ codes ":" ++ msg.filter)
]

unfoldable pub capture_status_to_string : TaskStatus → Str
capture_status_to_string pending = codes "pending"
capture_status_to_string resolving = codes "resolving"
capture_status_to_string running = codes "running"
capture_status_to_string completed = codes "completed"
capture_status_to_string failed = codes "failed"
capture_status_to_string stopped = codes "stopped"

unfoldable pub capture_mode_to_string : CaptureMode → Str
capture_mode_to_string interface = codes "interface"
capture_mode_to_string process = codes "process"
capture_mode_to_string pid = codes "pid"
capture_mode_to_string container = codes "container"

-- What is known of the capture that a request repeats.
pub record Duplicate : Type 0 where
  pub key : Str
  pub sid : Str
  pub existing_id : ℤ
  pub status : Str

abbrev pub or_text : Str → Str → Str
or_text text default = if is_empty text then default else text

abbrev duplicate_of : Str → Str → ℤ → Str → Option TaskSnapshot → Duplicate
duplicate_of key sid id status none = record {
  key = key;
  sid = sid;
  existing_id = id;
  status = status;
}
duplicate_of key sid id status (some snapshot) = record {
  key = or_text snapshot.key key;
  sid = or_text snapshot.sid sid;
  existing_id = id;
  status = status;
}

-- The outputs of `check_task_duplicate` after the key was found active.
abbrev existing : Option TaskSnapshot → ℤ × Str
existing none = (pos 0, codes "unknown")
existing (some snapshot) = (snapshot.capture_id, capture_status_to_string snapshot.status)

abbrev pub active_duplicate : Str → SafeTaskMgr → Bool → Run (Option (ℤ × Str))
active_duplicate key t true = query_task_by_key key t >>= λ found. ok (some (existing found))
active_duplicate key t false = ok none

unfoldable pub check_task_duplicate : Str → SafeTaskMgr → Run (Option (ℤ × Str))
check_task_duplicate key t = is_key_active key t >>= active_duplicate key t

unfoldable pub query_if : Bool → ℤ → SafeTaskMgr → Run (Option TaskSnapshot)
query_if asked id t = if asked then query_task id t else ok none

abbrev pub key_duplicate : Str → Str → SafeTaskMgr → Option (ℤ × Str) → Run (Option Duplicate)
key_duplicate key sid t none = ok none
key_duplicate key sid t (some (id, status)) = do
  snapshot ← query_if (is_pos id) id t
  ok (some (duplicate_of key sid id status snapshot))

abbrev pub signature_duplicate :
    Str → Str → SafeTaskMgr → Option TaskSnapshot → Run (Option Duplicate)
signature_duplicate key sid t none = check_task_duplicate key t >>= key_duplicate key sid t
signature_duplicate key sid t (some snapshot) = ok (
    some (
      duplicate_of key sid snapshot.capture_id (capture_status_to_string snapshot.status)
        (some snapshot)))

-- An active capture with the same signature, or else with the same key.
unfoldable pub find_duplicate : Str → Str → Str → SafeTaskMgr → Run (Option Duplicate)
find_duplicate key signature sid t =
    query_active_task_by_signature signature t >>= signature_duplicate key sid t
