-- ===== src/TaskMgr/Readers.antt =====
-- A reader thread loads a task pointer from the current table and goes on using it while the manager
-- thread works. Deleted tasks are kept only until the manager's next `cleanup_pending_deletes`; the
-- readers are not asked.
use rxtracenetcap.Prelude.{
  ℕ, ◌≤◌, ◌≡◌, refl, ℤ, none, some, List, [], ◌∷◌, arith, find, Returns, Returns-bind, Returns-both,
  Returns-mono, IfReturns, IfReturns-after, ==_iff, deref, nat_eq, int_eq,
}
use rxtracenetcap.Task.{CaptureTask}
use rxtracenetcap.TaskTable.{Store, Work}
use rxtracenetcap.TaskMgr.{
  SafeTaskMgr, current, work_of, commit, new_task, CountRule, on_change, rewrite_steps,
  rewrite_task, update_task, delete_all, cleanup_store, cleanup_pending_deletes,
}
use rxtracenetcap.TaskMgr.Balance.{alive-le-one, occurs, occurs-append, Balanced}
use rxtracenetcap.TaskMgr.Steps.{Good}
use rxtracenetcap.TaskMgr.Rewrite.{rewrite_steps-Good}
use rxtracenetcap.TaskMgr.Deletes.{cleanup_store-Balanced}
use rxtracenetcap.TaskMgr.Ownership.{IsValid, commit-IsValid}

-- The task is to be deleted, and the manager is valid otherwise.
abbrev Doomed : List ℕ → ℕ → SafeTaskMgr → Type 0
Doomed ext p m = IsValid ext m × (1 ≤ occurs p m.store.pending_deletes)

rewrite_steps-dooms :
    (rule : CountRule) (f : CaptureTask → CaptureTask) (id : ℤ) (p : ℕ) (w : Work)
    → IfReturns (λ w'. 1 ≤ occurs p w'.store.pending_deletes) (rewrite_steps rule f id p w)
unfolding rewrite_steps new_task
rewrite_steps-dooms rule f id p w =
    IfReturns-after (λ (w' : Work). 1 ≤ occurs p w'.store.pending_deletes)
      (deref (find p w.store.heap)) _
      (λ t. ground (arith, occurs-append p w.store.pending_deletes (p ∷ []), ==_iff p p))

update_task-Doomed :
    (ext : List ℕ) (m : SafeTaskMgr) (id : ℤ) (p : ℕ) (f : CaptureTask → CaptureTask)
    → IsValid ext m
    → find id (current m).slots ≡ some (some p)
    → Returns (λ r. Doomed ext p r.1) (update_task id f m)
unfolding update_task rewrite_task commit
update_task-Doomed ext m id p f v held =
    rw (held, rewrite_task)
      (Returns-bind (λ w. Good ext w × (1 ≤ occurs p w.store.pending_deletes))
        (λ r. Doomed ext p r.1) (rewrite_steps on_change f id p (work_of m)) _
        (Returns-both (Good ext) _ (rewrite_steps on_change f id p (work_of m))
          (rewrite_steps-Good on_change f id p (work_of m) held v.good)
          (rewrite_steps-dooms on_change f id p (work_of m)))
        (λ w h. (commit-IsValid w v h.0, h.1)))

cleanup_store-cleared : (s : Store) → IfReturns (λ s'. s'.pending_deletes ≡ []) (cleanup_store s)
unfolding cleanup_store
cleanup_store-cleared s =
    IfReturns-after (λ (s' : Store). s'.pending_deletes ≡ []) (delete_all s.pending_deletes s) _
      (λ s'. refl)

cleanup-kills :
    (ext : List ℕ) (p : ℕ) (m : SafeTaskMgr)
    → Doomed ext p m
    → Returns (λ m'. find p m'.store.heap ≡ none) (cleanup_pending_deletes m)
unfolding cleanup_pending_deletes
cleanup-kills ext p m d =
    Returns-bind (λ s. Balanced ext (current m).slots s × (s.pending_deletes ≡ []))
      (λ m'. find p m'.store.heap ≡ none) (cleanup_store m.store) _
      (Returns-both (Balanced ext (current m).slots) _ (cleanup_store m.store)
        (cleanup_store-Balanced d.0.good.balanced) (cleanup_store-cleared m.store))
      (λ s h.
        ground
          (arith, h.0.owns.owned p, d.0.good.balanced.owns.owned p, alive-le-one p m.store.heap))

-- The pointer `p` that a reader found in the slot of `id` is dangling as soon as the manager has
-- updated that task, in whatever way, and then cleaned up: the task at `p` has been freed.
pub reader_dangles :
    (ext : List ℕ) (m : SafeTaskMgr) (id : ℤ) (p : ℕ) (updater : CaptureTask → CaptureTask)
    → IsValid ext m
    → find id (current m).slots ≡ some (some p)
    → Returns
        (λ r. Returns (λ m'. find p m'.store.heap ≡ none) (cleanup_pending_deletes r.1))
        (update_task id updater m)
reader_dangles ext m id p updater v held =
    Returns-mono _ _ (update_task id updater m) (update_task-Doomed ext m id p updater v held)
      (λ r d. cleanup-kills ext p r.1 d)
