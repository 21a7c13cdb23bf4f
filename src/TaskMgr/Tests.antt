-- ===== src/TaskMgr/Tests.antt =====
-- The task manager on a concrete task, and the theorems at concrete inputs.
use rxtracenetcap.Prelude.{
  ◌≡◌, refl, pos, true, false, none, some, [], ◌∷◌, find, assign, ok, Returns, nat_eq, int_eq,
  str_eq,
}
use rxtracenetcap.Task.{running, completed, CaptureTask, updater_start}
use rxtracenetcap.TaskTable.{
  TaskTable, snapshot_of, increment_status_count, decrement_status_count, table_add_task,
  table_remove_task,
}
use rxtracenetcap.TaskTable
use rxtracenetcap.TaskMgr.{
  SafeTaskMgr, new_safe_task_mgr, add_task, new_task, query_task, update_status, update_task,
  remove_task, destroy, cleanup_pending_deletes, query_task_by_key, query_task_by_signature,
  query_task_by_sid,
}
use rxtracenetcap.TaskMgr.Ownership.{
  sets_status, cleans, removes, IsValid, run, run_new-IsValid, new_task-IsValid, new-IsValid,
}
use rxtracenetcap.TaskMgr.Destroy.{IsEmptied, destroy-IsEmptied}
use rxtracenetcap.TaskMgr.Updates.{
  update_status-query_task, update_task-query_task, update-query_task-none,
}
use rxtracenetcap.TaskMgr.Samples.{
  web_key, web_signature, web_sid, web_task, web_entry, one_task, first_call, one_task-IsValid,
  one_task_query, other_id,
}
use rxtracenetcap.TaskMgr.Readers.{reader_dangles}
use rxtracenetcap.TaskMgr.Lookup.{remove_task-query_task}
use rxtracenetcap.TaskMgr.Added.{add_task-query_task}

run_new-IsValid_example : Returns (IsValid []) (
    run
      (first_call ∷ sets_status (pos 7) running ∷ cleans ∷ removes (pos 7) ∷ [])
      new_safe_task_mgr)
run_new-IsValid_example =
    run_new-IsValid (first_call ∷ sets_status (pos 7) running ∷ cleans ∷ removes (pos 7) ∷ [])

destroy-IsEmptied_example : Returns IsEmptied (destroy one_task)
destroy-IsEmptied_example = destroy-IsEmptied one_task one_task-IsValid

update_status-query_task_example :
    Returns
      (λ r.
        (r.0 ≡ true)
        × (query_task (pos 7) r.1
            ≡ ok (some (record (snapshot_of web_entry) { status = completed })))
        × (query_task (pos 8) r.1 ≡ query_task (pos 8) one_task))
      (update_status (pos 7) completed one_task)
update_status-query_task_example =
    update_status-query_task [] one_task (pos 7) (pos 8) completed (snapshot_of web_entry)
      one_task-IsValid one_task_query other_id

update_task-query_task_example :
    (task : CaptureTask) × (snapshot_of task ≡ snapshot_of web_entry)
    × Returns
        (λ r.
          (r.0 ≡ true)
          × (query_task (pos 7) r.1
              ≡ ok (some (snapshot_of (updater_start (pos 5) (pos 9) [] task))))
          × (query_task (pos 8) r.1 ≡ query_task (pos 8) one_task))
        (update_task (pos 7) (updater_start (pos 5) (pos 9) []) one_task)
update_task-query_task_example =
    update_task-query_task [] one_task (pos 7) (pos 8) (updater_start (pos 5) (pos 9) [])
      (snapshot_of web_entry) one_task-IsValid one_task_query other_id

reader_dangles_example :
    Returns
      (λ r. Returns (λ m'. find 0 m'.store.heap ≡ none) (cleanup_pending_deletes r.1))
      (update_task (pos 7) (updater_start (pos 5) (pos 9) []) one_task)
unfolding find
reader_dangles_example =
    reader_dangles [] one_task (pos 7) 0 (updater_start (pos 5) (pos 9) []) one_task-IsValid refl

missing_id : query_task (pos 8) one_task ≡ ok none
unfolding query_task TaskTable.query_task find
missing_id = refl

update-query_task-none_example :
    (update_status (pos 8) completed one_task ≡ ok (false, one_task))
    × (update_task (pos 8) (updater_start (pos 5) (pos 9) []) one_task ≡ ok (false, one_task))
update-query_task-none_example =
    update-query_task-none one_task (pos 8) completed (updater_start (pos 5) (pos 9) []) missing_id

remove_task-query_task_example :
    Returns
      (λ m'.
        (query_task (pos 7) m' ≡ ok none) × (query_task (pos 8) m' ≡ query_task (pos 8) one_task))
      (remove_task (pos 7) one_task)
remove_task-query_task_example =
    remove_task-query_task [] one_task (pos 7) (pos 8) one_task-IsValid other_id

-- A caller has allocated the task and not yet added it.
abbrev handed : SafeTaskMgr
handed = record new_safe_task_mgr { store = (new_task web_task new_safe_task_mgr.store).1 }

handed-IsValid : IsValid (0 ∷ []) handed
unfolding new_safe_task_mgr
handed-IsValid = new_task-IsValid web_task new-IsValid

handed_live : find 0 handed.store.heap ≡ some web_task
unfolding new_safe_task_mgr new_task find assign
handed_live = refl

add_task-query_task_example :
    Returns
      (λ r.
        (r.0 ≡ true)
        × (query_task (pos 7) r.1 ≡ ok (some (snapshot_of web_entry)))
        × (query_task_by_key web_key r.1 ≡ ok (some (snapshot_of web_entry)))
        × (query_task_by_signature web_signature r.1 ≡ ok (some (snapshot_of web_entry)))
        × (query_task_by_sid web_sid r.1 ≡ ok (some (snapshot_of web_entry))))
      (add_task (pos 7) web_key web_signature web_sid (some 0) handed)
add_task-query_task_example =
    add_task-query_task [] handed (pos 7) web_key web_signature web_sid 0 web_task handed-IsValid
      handed_live refl refl refl
