-- ===== src/TaskMgr.antt =====
-- src/rxsafetaskmgr.h: `CRxSafeTaskMgr`, the double-buffered task manager.
-- Its writers run on the manager thread one after the other, so an operation is one step. Readers
-- on other threads are the subject of TaskMgr/Readers. `operator new` is a counter of addresses that
-- are never given out twice.
pub mod Balance
pub mod Steps
pub mod Rewrite
pub mod Deletes
pub mod Ownership
pub mod Destroy
pub mod Updates
pub mod Readers
pub mod Lookup
pub mod Added
pub mod Samples
mod Tests
use rxtracenetcap.Prelude.{
  ℕ, zero, suc, ◌+◌, ◌-◌, ℤ, pos, Bool, true, false, not, ◌&&◌, Option, none, some, List, [], ◌∷◌,
  ◌++◌, if◌then◌else◌, length, is_empty, Str, int_beq, Map, find, assign, erase, Run, ok, ◌>>=◌,
  deref, nat_eq, str_eq, int_eq,
}
use rxtracenetcap.Task.{
  TaskStatus, running, completed, failed, CaptureFileInfo, CaptureArchiveInfo, CaptureTask,
  is_active_status, status_eq, updater_start, updater_progress, updater_finished, updater_failed,
  append_files, archive_recorder,
}
use rxtracenetcap.TaskTable.{
  Ptr, TaskTable, TaskStats, Store, Work, TaskSnapshot, increment_status_count,
  decrement_status_count, query_by, unindex, table_remove_task, table_add_task,
}
use rxtracenetcap.TaskTable

-- `_tables[2]`, `_curr` and the rest.
pub record SafeTaskMgr : Type 0 where
  pub table0 : TaskTable
  pub table1 : TaskTable
  pub curr : ℕ
  pub store : Store

-- `_tables[i]`
abbrev pub table_at : SafeTaskMgr → ℕ → TaskTable
table_at m zero = m.table0
table_at m (suc i) = m.table1

abbrev pub set_table : ℕ → TaskTable → SafeTaskMgr → SafeTaskMgr
set_table zero t m = record m { table0 = t }
set_table (suc i) t m = record m { table1 = t }

abbrev pub current : SafeTaskMgr → TaskTable
current m = table_at m m.curr

abbrev pub empty_table : TaskTable
empty_table = record { slots = []; key_to_id = []; signature_to_id = []; sid_to_id = [] }

abbrev pub no_stats : TaskStats
no_stats = record {
  total_count = 0;
  pending_count = 0;
  resolving_count = 0;
  running_count = 0;
  completed_count = 0;
  failed_count = 0;
  stopped_count = 0;
}

-- The constructor, on a heap that holds no task.
pub new_safe_task_mgr : SafeTaskMgr
new_safe_task_mgr = record {
  table0 = empty_table;
  table1 = empty_table;
  curr = 0;
  store = record { heap = []; next_addr = 0; stats = no_stats; pending_deletes = [] };
}

-- `new SRxCaptureTask(task)`
unfoldable pub new_task : CaptureTask → Store → ℕ × Store
new_task task s =
    (s.next_addr, record s { heap = assign s.next_addr task s.heap; next_addr = suc s.next_addr })

-- `if (old_task) { decrement_status_count(old_task->status); _pending_deletes.push_back(old_task); }`
unfoldable pub retire : Ptr → Store → Run Store
retire none s = ok s
retire (some p) s = do
  task ← deref (find p s.heap)
  ok (record s {
    stats = decrement_status_count task.status s.stats;
    pending_deletes = s.pending_deletes ++ p ∷ [];
  })

-- The first block of `add_task`: the slot of a reused id is emptied and stays in the table.
unfoldable pub vacate : ℤ → Work → Run Work
vacate id w = elim (find id w.table.slots) [
  | none ↦ ok w
  | some old ↦ do
    s ← retire old w.store
    ok (record { table = record (w.table) { slots = assign id none w.table.slots }; store = s })
]

-- `old_task = table.remove_task(id); if (old_task) …`
unfoldable pub remove_and_retire : ℤ → Work → Run Work
remove_and_retire id w = do
  (old, t) ← table_remove_task id w.store.heap w.table
  s ← retire old w.store
  ok (record { table = t; store = s })

-- The other blocks of `add_task`: a different task under the same key, signature or sid goes.
unfoldable pub evict : Option ℤ → ℤ → Work → Run Work
evict none id w = ok w
evict (some j) id w = if int_beq j id then ok w else remove_and_retire j w

abbrev pub guarded : Str → Option ℤ → Option ℤ
guarded name found = if is_empty name then none else found

-- `increment_status_count(task->status)`
count_in : ℕ → Work → Run Work
count_in p w = do
  task ← deref (find p w.store.heap)
  ok (record w {
    store = record (w.store) { stats = increment_status_count task.status w.store.stats };
  })

-- The body of `add_task` between the copy of the table and its publication.
unfoldable pub add_steps : ℤ → Str → Str → Str → ℕ → Work → Run Work
unfolding count_in
add_steps id key signature sid p w = do
  w₁ ← vacate id w
  w₂ ← evict (find key w₁.table.key_to_id) id w₁
  w₃ ← evict (guarded signature (find signature w₂.table.signature_to_id)) id w₂
  w₄ ← evict (guarded sid (find sid w₃.table.sid_to_id)) id w₃
  w₅ ← table_add_task id key signature sid p w₄
  count_in p w₅

abbrev pub work_of : SafeTaskMgr → Work
work_of m = record { table = current m; store = m.store }

-- The write to the idle table and the switch to it.
unfoldable pub publish : SafeTaskMgr → Work → SafeTaskMgr
publish m w = record (set_table (1 - m.curr) w.table m) { curr = 1 - m.curr; store = w.store }

-- The write to the current table.
unfoldable pub commit : SafeTaskMgr → Work → SafeTaskMgr
commit m w = record (set_table m.curr w.table m) { store = w.store }

unfoldable pub add_task : ℤ → Str → Str → Str → Ptr → SafeTaskMgr → Run (Bool × SafeTaskMgr)
add_task id key signature sid none m = ok (false, m)
add_task id key signature sid (some p) m = do
  w ← add_steps id key signature sid p (work_of m)
  ok (true, publish m w)

unfoldable pub remove_task : ℤ → SafeTaskMgr → Run SafeTaskMgr
remove_task id m = do w ← remove_and_retire id (work_of m); ok (publish m w)

-- The indices after a task under `id` was rewritten to this one.
unfoldable pub reindex : ℤ → CaptureTask → TaskTable → TaskTable
reindex id task t = record t {
  signature_to_id =
      if is_empty task.signature
      then t.signature_to_id
      else if is_active_status task.status
      then assign task.signature id t.signature_to_id
      else unindex task.signature id t.signature_to_id;
  sid_to_id = if is_empty task.sid then t.sid_to_id else assign task.sid id t.sid_to_id;
}

-- `update_status` counts the change in any case, `update_task` only where the status differs.
pub data CountRule : Type 0 where
  always on_change : CountRule

pub recount : CountRule → TaskStatus → TaskStatus → TaskStats → TaskStats
recount always old new c = increment_status_count new (decrement_status_count old c)
recount on_change old new c =
    if status_eq old new then c else increment_status_count new (decrement_status_count old c)

-- What the two updates share: copy the task, change the copy, index it, put it in the slot.
pub rewrite_steps : CountRule → (CaptureTask → CaptureTask) → ℤ → ℕ → Work → Run Work
unfolding recount
rewrite_steps rule f id old w = do
  task ← deref (find old w.store.heap)
  let task' = f task
  let (q, s) = new_task task' w.store
  let t = reindex id task' w.table
  ok (record {
    table = record t { slots = assign id (some q) t.slots };
    store = record s {
      stats = recount rule task.status task'.status s.stats;
      pending_deletes = s.pending_deletes ++ old ∷ [];
    };
  })

pub rewrite_slot :
    CountRule → (CaptureTask → CaptureTask) → ℤ → Ptr → SafeTaskMgr → Run (Bool × SafeTaskMgr)
unfolding rewrite_steps
rewrite_slot rule f id none m = ok (false, m)
rewrite_slot rule f id (some old) m = do
  w ← rewrite_steps rule f id old (work_of m)
  ok (true, commit m w)

pub rewrite_task :
    CountRule → (CaptureTask → CaptureTask) → ℤ → SafeTaskMgr → Run (Bool × SafeTaskMgr)
unfolding rewrite_slot
rewrite_task rule f id m = elim (find id (current m).slots) [
  | none ↦ ok (false, m)
  | some ptr ↦ rewrite_slot rule f id ptr m
]

unfoldable pub update_status : ℤ → TaskStatus → SafeTaskMgr → Run (Bool × SafeTaskMgr)
unfolding rewrite_task
update_status id new_status = rewrite_task always (λ task. record task { status = new_status }) id

unfoldable pub update_task :
    ℤ → (CaptureTask → CaptureTask) → SafeTaskMgr → Run (Bool × SafeTaskMgr)
unfolding rewrite_task
update_task id updater = rewrite_task on_change updater id

-- `if (updated) update_status(capture_id, status);`
unfoldable pub update_then_status :
    ℤ → (CaptureTask → CaptureTask) → TaskStatus → SafeTaskMgr → Run (Bool × SafeTaskMgr)
update_then_status id updater status m = do
  (updated, m₁) ← update_task id updater m
  let after = update_status id status m₁
  if updated then (do (_, m₂) ← after; ok (true, m₂)) else ok (false, m₁)

unfoldable pub set_capture_started : ℤ → ℤ → ℤ → Str → SafeTaskMgr → Run (Bool × SafeTaskMgr)
unfolding update_then_status
set_capture_started id start_ts_usec capture_pid output_file =
    update_then_status id (updater_start start_ts_usec capture_pid output_file) running

unfoldable pub set_capture_finished : ℤ → ℤ → ℕ → ℕ → Str → SafeTaskMgr → Run (Bool × SafeTaskMgr)
unfolding update_then_status
set_capture_finished id finish_ts_usec packets bytes final_path =
    update_then_status id (updater_finished finish_ts_usec packets bytes final_path) completed

unfoldable pub set_capture_failed : ℤ → ℤ → Str → SafeTaskMgr → Run (Bool × SafeTaskMgr)
unfolding update_then_status
set_capture_failed now id error_message =
    update_then_status id (updater_failed now error_message) failed

unfoldable pub append_capture_files :
    ℤ → List CaptureFileInfo → SafeTaskMgr → Run (Bool × SafeTaskMgr)
append_capture_files id files m =
    if is_empty files then ok (false, m) else update_task id (append_files files) m

unfoldable pub record_archive : ℤ → CaptureArchiveInfo → SafeTaskMgr → Run (Bool × SafeTaskMgr)
record_archive id archive = update_task id (archive_recorder archive)

unfoldable pub update_progress : ℤ → ℕ → ℕ → ℤ → SafeTaskMgr → Run (Bool × SafeTaskMgr)
update_progress id packets bytes last_ts_usec =
    update_task id (updater_progress packets bytes last_ts_usec)

-- `delete p`
pub delete : ℕ → Store → Run Store
delete p s = do task ← deref (find p s.heap); ok (record s { heap = erase p s.heap })

pub delete_all : List ℕ → Store → Run Store
unfolding delete
delete_all [] s = ok s
delete_all (p ∷ ps) s = delete p s >>= delete_all ps

unfoldable pub cleanup_store : Store → Run Store
unfolding delete_all
cleanup_store s = do s' ← delete_all s.pending_deletes s; ok (record s' { pending_deletes = [] })

unfoldable pub cleanup_pending_deletes : SafeTaskMgr → Run SafeTaskMgr
unfolding cleanup_store
cleanup_pending_deletes m = do s ← cleanup_store m.store; ok (record m { store = s })

pub pending_delete_count : SafeTaskMgr → ℕ
pending_delete_count m = length m.store.pending_deletes

-- The pointers that the destructor's loop over the slots takes out.
pub slot_ptrs : Map ℤ Ptr → List ℕ
slot_ptrs [] = []
slot_ptrs ((id, none) ∷ slots) = slot_ptrs slots
slot_ptrs ((id, some p) ∷ slots) = p ∷ slot_ptrs slots

-- `~CRxSafeTaskMgr`: the heap that is left.
unfoldable pub destroy : SafeTaskMgr → Run Store
unfolding delete_all slot_ptrs cleanup_store
destroy m = delete_all (slot_ptrs (current m).slots) m.store >>= cleanup_store

unfoldable pub query_task : ℤ → SafeTaskMgr → Run (Option TaskSnapshot)
query_task id m = TaskTable.query_task m.store.heap (current m) id

unfoldable pub query_task_by_key : Str → SafeTaskMgr → Run (Option TaskSnapshot)
query_task_by_key key m = query_by m.store.heap (current m) (current m).key_to_id key

unfoldable pub query_task_by_signature : Str → SafeTaskMgr → Run (Option TaskSnapshot)
query_task_by_signature signature m =
    query_by m.store.heap (current m) (current m).signature_to_id signature

unfoldable pub query_task_by_sid : Str → SafeTaskMgr → Run (Option TaskSnapshot)
query_task_by_sid sid m = query_by m.store.heap (current m) (current m).sid_to_id sid

-- The tests that the `is_…_active` and `query_active_…` functions share.
abbrev pub found_active : Option TaskSnapshot → Bool
found_active none = false
found_active (some snapshot) = is_active_status snapshot.status

abbrev pub keep_active : Option TaskSnapshot → Option TaskSnapshot
keep_active none = none
keep_active (some snapshot) = if is_active_status snapshot.status then some snapshot else none

unfoldable pub is_key_active : Str → SafeTaskMgr → Run Bool
is_key_active key m = do found ← query_task_by_key key m; ok (found_active found)

unfoldable pub is_signature_active : Str → SafeTaskMgr → Run Bool
is_signature_active signature m = do
  found ← query_task_by_signature signature m
  ok (found_active found)

unfoldable pub is_sid_active : Str → SafeTaskMgr → Run Bool
is_sid_active sid m = do found ← query_task_by_sid sid m; ok (found_active found)

unfoldable pub query_active_task_by_signature : Str → SafeTaskMgr → Run (Option TaskSnapshot)
query_active_task_by_signature signature m = do
  found ← query_task_by_signature signature m
  ok (keep_active found)

unfoldable pub query_active_task_by_sid : Str → SafeTaskMgr → Run (Option TaskSnapshot)
query_active_task_by_sid sid m = do found ← query_task_by_sid sid m; ok (keep_active found)

unfoldable pub get_stats : SafeTaskMgr → TaskStats
get_stats m = m.store.stats
