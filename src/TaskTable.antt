-- ===== src/TaskTable.antt =====
-- src/rxsafetaskmgr.h: the tables of the task manager and the operations on one table.
-- Tasks live on a heap, since the tables hold bare pointers: a pointer is an address, NULL is `none`.
-- An operation that reads or frees through a dead pointer is `ub`. `Work` is what an operation of the
-- manager works on: the table that it writes, and the store that all tables share.
use rxtracenetcap.Prelude.{
  ℕ, ◌+◌, ◌-◌, ◌%◌, ◌^◌, ℤ, Bool, Option, none, some, List, if◌then◌else◌, is_empty, Str, int_beq,
  Map, find, assign, erase, Run, ok, ◌>>=◌, deref, nat_eq, str_eq, int_eq,
}
use rxtracenetcap.Task.{
  TaskStatus, pending, resolving, running, completed, failed, stopped, CaptureMode, CaptureFileInfo,
  CaptureArchiveInfo, CaptureTask, is_active_status,
}

abbrev pub Ptr : Type 0
Ptr = Option ℕ

abbrev pub Heap : Type 0
Heap = Map ℕ CaptureTask

pub record TaskTable : Type 0 where
  pub slots : Map ℤ Ptr
  pub key_to_id : Map Str ℤ
  pub signature_to_id : Map Str ℤ
  pub sid_to_id : Map Str ℤ

-- The status counters; each is a `size_t`.
pub record TaskStats : Type 0 where
  pub total_count : ℕ
  pub pending_count : ℕ
  pub resolving_count : ℕ
  pub running_count : ℕ
  pub completed_count : ℕ
  pub failed_count : ℕ
  pub stopped_count : ℕ

pub record Store : Type 0 where
  pub heap : Heap
  pub next_addr : ℕ
  pub stats : TaskStats
  pub pending_deletes : List ℕ

pub record Work : Type 0 where
  pub table : TaskTable
  pub store : Store

pub record TaskSnapshot : Type 0 where
  pub capture_id : ℤ
  pub key : Str
  pub signature : Str
  pub sid : Str
  pub status : TaskStatus
  pub capture_mode : CaptureMode
  pub iface : Str
  pub proc_name : Str
  pub target_pid : ℤ
  pub worker_thread_index : ℕ
  pub stop_requested : Bool
  pub cancel_requested : Bool
  pub filter : Str
  pub port_filter : ℤ
  pub duration_sec : ℤ
  pub start_time : ℤ
  pub end_time : ℤ
  pub packet_count : ℕ
  pub bytes_captured : ℕ
  pub error_message : Str
  pub client_ip : Str
  pub request_user : Str
  pub captured_files : List CaptureFileInfo
  pub archives : List CaptureArchiveInfo

-- `__sync_fetch_and_add` and `__sync_fetch_and_sub` by one on a `size_t`
abbrev pub fetch_add : ℕ → ℕ
fetch_add n = (n + 1) % 2 ^ 64

abbrev pub fetch_sub : ℕ → ℕ
fetch_sub n = (n + (2 ^ 64 - 1)) % 2 ^ 64

-- The counter that the `switch` of both functions selects.
adjust : (ℕ → ℕ) → TaskStatus → TaskStats → TaskStats
adjust f pending c = record c { pending_count = f c.pending_count }
adjust f resolving c = record c { resolving_count = f c.resolving_count }
adjust f running c = record c { running_count = f c.running_count }
adjust f completed c = record c { completed_count = f c.completed_count }
adjust f failed c = record c { failed_count = f c.failed_count }
adjust f stopped c = record c { stopped_count = f c.stopped_count }

unfoldable pub increment_status_count : TaskStatus → TaskStats → TaskStats
unfolding adjust
increment_status_count s c = adjust fetch_add s (record c { total_count = fetch_add c.total_count })

unfoldable pub decrement_status_count : TaskStatus → TaskStats → TaskStats
unfolding adjust
decrement_status_count s c = adjust fetch_sub s (record c { total_count = fetch_sub c.total_count })

unfoldable pub snapshot_of : CaptureTask → TaskSnapshot
snapshot_of task = record {
  capture_id = task.capture_id;
  key = task.key;
  signature = task.signature;
  sid = task.sid;
  status = task.status;
  capture_mode = task.capture_mode;
  iface = task.iface;
  proc_name = task.proc_name;
  target_pid = task.target_pid;
  worker_thread_index = task.worker_thread_index;
  stop_requested = task.stop_requested;
  cancel_requested = task.cancel_requested;
  filter = task.filter;
  port_filter = task.port_filter;
  duration_sec = task.duration_sec;
  start_time = task.start_time;
  end_time = task.end_time;
  packet_count = task.packet_count;
  bytes_captured = task.bytes_captured;
  error_message = task.error_message;
  client_ip = task.client_ip;
  request_user = task.request_user;
  captured_files = task.captured_files;
  archives = task.archives;
}

-- `none` is the return value `false`.
snapshot_ptr : Heap → Ptr → Run (Option TaskSnapshot)
snapshot_ptr heap none = ok none
snapshot_ptr heap (some p) = do task ← deref (find p heap); ok (some (snapshot_of task))

unfoldable pub query_task : Heap → TaskTable → ℤ → Run (Option TaskSnapshot)
unfolding snapshot_ptr
query_task heap t id = elim (find id t.slots) [ none ↦ ok none | some ptr ↦ snapshot_ptr heap ptr ]

-- `query_task_by_key`, `query_task_by_signature` and `query_task_by_sid` differ in the index only.
unfoldable pub query_by : Heap → TaskTable → Map Str ℤ → Str → Run (Option TaskSnapshot)
query_by heap t index name = elim (find name index) [
  | none ↦ ok none
  | some id ↦ query_task heap t id
]

-- `it = index.find(name); if (it != end && it->second == id) index.erase(it);`
unfoldable pub unindex : Str → ℤ → Map Str ℤ → Map Str ℤ
unindex name id index = elim (find name index) [
  | none ↦ index
  | some j ↦ if int_beq j id then erase name index else index
]

-- The indices after `remove_task` took this task out.
forget : ℤ → CaptureTask → TaskTable → TaskTable
unfolding unindex
forget id task t = record t {
  key_to_id = erase task.key t.key_to_id;
  signature_to_id =
      if is_empty task.signature
      then t.signature_to_id
      else unindex task.signature id t.signature_to_id;
  sid_to_id = if is_empty task.sid then t.sid_to_id else unindex task.sid id t.sid_to_id;
}

drop_slot : ℤ → Ptr → Heap → TaskTable → Run (Ptr × TaskTable)
unfolding forget
drop_slot id none heap t = ok (none, record t { slots = erase id t.slots })
drop_slot id (some p) heap t = do
  task ← deref (find p heap)
  ok (some p, record (forget id task t) { slots = erase id t.slots })

-- `TaskTable::remove_task`: the pointer that the slot held, and the table without the slot.
unfoldable pub table_remove_task : ℤ → Heap → TaskTable → Run (Ptr × TaskTable)
unfolding drop_slot
table_remove_task id heap t = elim (find id t.slots) [
  | none ↦ ok (none, t)
  | some ptr ↦ drop_slot id ptr heap t
]

-- The indices after `add_task`: the signature counts for an active task only.
enlist : ℤ → Str → Str → Str → TaskStatus → ℕ → TaskTable → TaskTable
enlist id key signature sid status p t = record {
  slots = assign id (some p) t.slots;
  key_to_id = assign key id t.key_to_id;
  signature_to_id =
      if is_empty signature
      then t.signature_to_id
      else if is_active_status status
      then assign signature id t.signature_to_id
      else t.signature_to_id;
  sid_to_id = if is_empty sid then t.sid_to_id else assign sid id t.sid_to_id;
}

-- `TaskTable::add_task`
unfoldable pub table_add_task : ℤ → Str → Str → Str → ℕ → Work → Run Work
unfolding enlist
table_add_task id key signature sid p w = do
  task ← deref (find p w.store.heap)
  let task' = record task { signature = signature; sid = sid }
  ok (record {
    table = enlist id key signature sid task'.status p w.table;
    store = record (w.store) { heap = assign p task' w.store.heap };
  })
