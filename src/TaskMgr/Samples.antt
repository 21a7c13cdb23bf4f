-- ===== src/TaskMgr/Samples.antt =====
-- A task manager that holds one task.
use rxtracenetcap.Prelude.Text.{codes}
use rxtracenetcap.Prelude.{
  ◌≡◌, refl, ◌≢◌, pos, some, [], ◌∷◌, find, assign, ok, Returns-ok, Str, nat_eq, int_eq, str_eq,
}
use rxtracenetcap.Task.{CaptureTask, new_capture_task}
use rxtracenetcap.TaskTable.{
  TaskTable, snapshot_of, increment_status_count, decrement_status_count, table_add_task,
  table_remove_task,
}
use rxtracenetcap.TaskTable
use rxtracenetcap.TaskMgr.{
  SafeTaskMgr, new_safe_task_mgr, empty_table, no_stats, add_task, add_steps, vacate, evict,
  publish, new_task, query_task,
}
use rxtracenetcap.TaskMgr.Ownership.{Call, adds, IsValid, run, step, run_new-IsValid}

abbrev pub web_key : Str
web_key = codes "iface:eth0:port 80"

abbrev pub web_signature : Str
web_signature = b's' ∷ []

abbrev pub web_sid : Str
web_sid = b'i' ∷ []

abbrev pub web_task : CaptureTask
web_task = record new_capture_task {
  capture_id = pos 7;
  key = web_key;
  request_user = codes "module:web";
}

abbrev pub web_entry : CaptureTask
web_entry = record web_task { signature = web_signature; sid = web_sid }

-- The manager after the first `add_task`.
abbrev pub one_task : SafeTaskMgr
one_task = record {
  table0 = empty_table;
  table1 = record {
    slots = (pos 7, some 0) ∷ [];
    key_to_id = (web_key, pos 7) ∷ [];
    signature_to_id = (web_signature, pos 7) ∷ [];
    sid_to_id = (web_sid, pos 7) ∷ [];
  };
  curr = 1;
  store = record {
    heap = (0, web_entry) ∷ [];
    next_addr = 1;
    stats = record no_stats { total_count = 1; pending_count = 1 };
    pending_deletes = [];
  };
}

abbrev pub first_call : Call
first_call = adds (pos 7) web_key web_signature web_sid web_task

add_first : run (first_call ∷ []) new_safe_task_mgr ≡ ok one_task
unfolding run step new_safe_task_mgr new_task add_task add_steps vacate evict publish table_add_task
    increment_status_count find assign
add_first = refl

pub one_task-IsValid : IsValid [] one_task
one_task-IsValid =
    Returns-ok (IsValid []) (run (first_call ∷ []) new_safe_task_mgr) one_task
      (run_new-IsValid (first_call ∷ [])) add_first

pub one_task_query : query_task (pos 7) one_task ≡ ok (some (snapshot_of web_entry))
unfolding query_task TaskTable.query_task find
one_task_query = refl

pub other_id : pos 7 ≢ pos 8
other_id e = cc
