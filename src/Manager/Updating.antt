-- ===== src/Manager/Updating.antt =====
-- What `handle_task_update` of src/rxcapturemanagerthread.cpp makes of a message with statistics.
use rxtracenetcap.Prelude.{
  ◌≡◌, ◌≢◌, refl, ap, ℤ, pos, negsuc, true, false, some, [], if◌then◌else◌, ok, Returns,
  Returns-bind, Returns-mono, arith,
}
use rxtracenetcap.Task.{
  TaskStatus, pending, resolving, running, completed, failed, stopped, status_eq, updater_progress,
}
use rxtracenetcap.TaskTable.{TaskSnapshot, snapshot_of}
use rxtracenetcap.TaskMgr.{SafeTaskMgr, query_task, update_task, update_progress}
use rxtracenetcap.TaskMgr.Ownership.{IsValid}
use rxtracenetcap.TaskMgr.Updates.{update_task-query_task}
use rxtracenetcap.Manager.Messages.{TaskUpdateMsg}
use rxtracenetcap.Manager.Handlers.{
  to_usec, update_started, update_stats, update_ended, update_rest, handle_task_update,
}
use rxtracenetcap.Manager.State.{Manager, World}
use rxtracenetcap.Manager.Invariant.{ManagerIsValid}

-- A status that neither the first nor the third call of the handler is about.
abbrev pub IsOther : TaskStatus → Type 0
IsOther running = ⊥
IsOther completed = ⊥
IsOther failed = ⊥
IsOther _ = Unit {0}

abbrev NoneTests : TaskStatus → Type 0
NoneTests s =
    (status_eq s running ≡ false) × (status_eq s completed ≡ false) × (status_eq s failed ≡ false)

other_tests : (s : TaskStatus) → IsOther s → NoneTests s
other_tests pending h = (refl, refl, refl)
other_tests resolving h = (refl, refl, refl)
other_tests running h = absurd h
other_tests completed h = absurd h
other_tests failed h = absurd h
other_tests stopped h = (refl, refl, refl)

module _ (world : World) (msg : TaskUpdateMsg) (t : SafeTaskMgr)
    (h : NoneTests msg.new_status) where
  update_started_other : update_started msg t ≡ ok (false, t)
  unfolding update_started
  update_started_other = rw h.0 refl

  update_ended_other : update_ended world msg t ≡ ok (false, t)
  unfolding update_ended
  update_ended_other = rw (h.1, h.2) refl

-- A query finds the task with this status.
abbrev pub HasStatus : ℤ → TaskStatus → SafeTaskMgr → Type 0
HasStatus id s t = (shown : TaskSnapshot) × (query_task id t ≡ ok (some shown)) × (shown.status ≡ s)

other_id : ℤ → ℤ
other_id (pos n) = negsuc n
other_id (negsuc n) = pos n

other_id-ne : (id : ℤ) → id ≢ other_id id
unfolding other_id
other_id-ne (pos n) e = grind (arith, e)
other_id-ne (negsuc n) e = grind (arith, e)

update_stats-HasStatus :
    (msg : TaskUpdateMsg) (t : SafeTaskMgr) (snapshot : TaskSnapshot)
    → IsValid [] t
    → msg.update_stats ≡ true
    → query_task msg.capture_id t ≡ ok (some snapshot)
    → Returns
        (λ r. (r.0 ≡ true) × HasStatus msg.capture_id snapshot.status r.1)
        (update_stats msg t)
unfolding update_stats update_progress updater_progress snapshot_of
update_stats-HasStatus msg t snapshot v e found =
    let f =
      updater_progress msg.packet_count msg.bytes_captured
        (if msg.update_end_time then to_usec msg.end_time else pos 0) in
    let (task, shows, r) =
      update_task-query_task [] t msg.capture_id (other_id msg.capture_id) f snapshot v found
        (other_id-ne msg.capture_id) in
    rw e (
      Returns-mono _ _ (update_task msg.capture_id f t) r
        (λ p h. (h.0, (snapshot_of (f task), h.1, ap (λ (x : TaskSnapshot). x.status) shows))))

-- A task update with statistics, for a task that a query finds, whose new status is pending, resolving
-- or stopped: the handler returns, and a query finds the task with the status that it had before.
pub handle_task_update-query_task :
    (world : World) (msg : TaskUpdateMsg) (m : Manager) (snapshot : TaskSnapshot)
    → ManagerIsValid m
    → IsOther msg.new_status
    → msg.update_stats ≡ true
    → query_task msg.capture_id m.task_mgr ≡ ok (some snapshot)
    → Returns
        (λ m'. HasStatus msg.capture_id snapshot.status m'.task_mgr)
        (handle_task_update world msg m)
unfolding handle_task_update update_rest
handle_task_update-query_task world msg m snapshot v other stats found =
    let h = other_tests msg.new_status other in
    rw (update_started_other world msg m.task_mgr h) (
      Returns-bind (λ r. (r.0 ≡ true) × HasStatus msg.capture_id snapshot.status r.1) _
        (update_stats msg m.task_mgr) _
        (update_stats-HasStatus msg m.task_mgr snapshot v.tasks stats found)
        (λ r k. rw (update_ended_other world msg r.1 h, k.0) k.1))
