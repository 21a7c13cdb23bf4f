-- ===== src/TaskMgr/Updates.antt =====
-- What readers see after an update of one task: the new copy under its id, every other task as before.
use rxtracenetcap.Prelude.{
  ℕ, ◌≡◌, refl, ◌≢◌, sym, ◌∙◌, ℤ, Bool, true, false, Option, none, some, List, arith, find,
  find-assign_self, find-assign_ne, IfReturns, Run, ok, ◌>>=◌, deref, Returns, Returns-bind,
  Returns-both, Returns-mono, ap, subst, nat_eq, int_eq, str_eq,
}
use rxtracenetcap.Task.{TaskStatus, CaptureTask}
use rxtracenetcap.TaskTable.{Ptr, Heap, TaskTable, Store, Work, TaskSnapshot, snapshot_of}
use rxtracenetcap.TaskTable
use rxtracenetcap.TaskMgr.{
  SafeTaskMgr, current, work_of, new_task, reindex, CountRule, always, on_change, rewrite_steps,
  rewrite_task, update_status, update_task, query_task,
}
use rxtracenetcap.TaskMgr.Balance.{Balanced-slot_live}
use rxtracenetcap.TaskMgr.Steps.{Good, assign-Extends}
use rxtracenetcap.TaskMgr.Rewrite.{rewrite_steps-Good}
use rxtracenetcap.TaskMgr.Ownership.{IsValid, work_of-commit}

-- `query_task` reads the current table and the heap.
query_task-work :
    (j : ℤ) (m : SafeTaskMgr) (w : Work)
    → work_of m ≡ w
    → query_task j m ≡ TaskTable.query_task w.store.heap w.table j
unfolding query_task
query_task-work j m w e = λ i. TaskTable.query_task ((e i).store.heap) ((e i).table) j

-- A task is found if its slot holds a pointer to it.
pub query_found :
    (h : Heap) (t : TaskTable) (j : ℤ) (p : ℕ) (task : CaptureTask)
    → find j t.slots ≡ some (some p)
    → find p h ≡ some task
    → TaskTable.query_task h t j ≡ ok (some (snapshot_of task))
unfolding TaskTable.query_task
query_found h t j p task held live = rw (held, TaskTable.query_task) (rw live)

-- A task looks as before if its slot and its memory are as before.
pub query_same :
    (h h' : Heap) (t t' : TaskTable) (j : ℤ)
    → find j t'.slots ≡ find j t.slots
    → ((p : ℕ) → find j t.slots ≡ some (some p) → find p h' ≡ find p h)
    → TaskTable.query_task h' t' j ≡ TaskTable.query_task h t j
unfolding TaskTable.query_task
query_same h h' t t' j slot memory = go (find j t.slots) refl
  where
    go :
        (found : Option Ptr)
        → find j t.slots ≡ found
        → TaskTable.query_task h' t' j ≡ TaskTable.query_task h t j
    go none e = rw (slot ∙ e, e, TaskTable.query_task)
    go (some none) e = rw (slot ∙ e, e, TaskTable.query_task)
    go (some (some p)) e = rw (slot ∙ e, e, TaskTable.query_task) (rw (memory p e))

-- The task under `id` now reads as `task`, every other task reads as before.
abbrev pub Shows : ℤ → CaptureTask → Work → Work → Type 0
Shows id task w w' =
    (TaskTable.query_task w'.store.heap w'.table id ≡ ok (some (snapshot_of task)))
    × ((j : ℤ)
        → id ≢ j
        → TaskTable.query_task w'.store.heap w'.table j
          ≡ TaskTable.query_task w.store.heap w.table j)

-- A pointer of a slot is not the next address of the allocator.
slot-ne-next :
    {ext : List ℕ} {w : Work} (j : ℤ) (p : ℕ)
    → Good ext w
    → find j w.table.slots ≡ some (some p)
    → w.store.next_addr ≢ p
slot-ne-next {w = w} j p g held fresh =
    let (t, live) = Balanced-slot_live _ p (assign-Extends j p w.table.slots held) g.balanced in
    ground (arith, g.balanced.owns.fresh p)

rewrite_steps-Shows :
    {ext : List ℕ} (rule : CountRule) (f : CaptureTask → CaptureTask) (id : ℤ) (old : ℕ) (w : Work)
    (t : CaptureTask)
    → find old w.store.heap ≡ some t
    → Good ext w
    → IfReturns (Shows id (f t) w) (rewrite_steps rule f id old w)
unfolding rewrite_steps new_task reindex
rewrite_steps-Shows rule f id old w t live g = rw live (
  query_found _ _ id w.store.next_addr (f t) (find-assign_self id _ w.table.slots)
      (find-assign_self w.store.next_addr (f t) w.store.heap),
  λ j ne.
      query_same _ _ _ _ j (find-assign_ne id j _ w.table.slots ne)
        (λ p held. find-assign_ne w.store.next_addr p (f t) w.store.heap (slot-ne-next j p g held)),
)

-- What a query that finds a task says of the table and the heap.
record Stored (id : ℤ) (w : Work) (snapshot : TaskSnapshot) : Type 0 where
  addr : ℕ
  task : CaptureTask
  held : find id w.table.slots ≡ some (some addr)
  live : find addr w.store.heap ≡ some task
  shown : snapshot_of task ≡ snapshot

query_live :
    (id : ℤ) (w : Work) (snapshot : TaskSnapshot) (p : ℕ) (found : Option CaptureTask)
    → find id w.table.slots ≡ some (some p)
    → find p w.store.heap ≡ found
    → (deref found >>= λ task. ok (some (snapshot_of task))) ≡ ok (some snapshot)
    → Stored id w snapshot
query_live id w snapshot p none held live e = absurd (ground (arith, e))
query_live id w snapshot p (some task) held live e = record {
  addr = p;
  task = task;
  held = held;
  live = live;
  shown = ground (arith, e);
}

query_task-Stored :
    (id : ℤ) (m : SafeTaskMgr) (snapshot : TaskSnapshot)
    → query_task id m ≡ ok (some snapshot)
    → Stored id (work_of m) snapshot
unfolding query_task TaskTable.query_task
query_task-Stored id m snapshot e = go (find id (current m).slots) refl
  where
    go : (found : Option Ptr) → find id (current m).slots ≡ found → Stored id (work_of m) snapshot
    go none e' = absurd (ground (arith, e, e'))
    go (some none) e' = absurd (ground (arith, e, e'))
    go (some (some p)) e' =
        query_live id (work_of m) snapshot p (find p m.store.heap) e' refl
          (rw (e', query_task, TaskTable.query_task) at e)

-- A query of a valid manager reads no dead task.
pub query_task-Returns :
    {ext : List ℕ} (id : ℤ) (m : SafeTaskMgr)
    → IsValid ext m
    → Returns (λ found. Unit {0}) (query_task id m)
unfolding query_task TaskTable.query_task
query_task-Returns {ext} id m v = go (find id (current m).slots) refl
  where
    go :
        (found : Option Ptr)
        → find id (current m).slots ≡ found
        → Returns (λ found. Unit {0}) (TaskTable.query_task m.store.heap (current m) id)
    go none e = rw (e, TaskTable.query_task) tt
    go (some none) e = rw (e, TaskTable.query_task) tt
    go (some (some p)) e =
        let (t, live) =
          Balanced-slot_live _ p (assign-Extends id p (current m).slots e) v.good.balanced in
        rw (e, TaskTable.query_task) (rw live tt)

-- The update of a task that a query finds.
abbrev Updated : ℤ → CaptureTask → SafeTaskMgr → Bool × SafeTaskMgr → Type 0
Updated id task m r = (r.0 ≡ true) × Shows id task (work_of m) (work_of r.1)

rewrite_task-Updated :
    {ext : List ℕ} (rule : CountRule) (f : CaptureTask → CaptureTask) (id : ℤ) (m : SafeTaskMgr)
    (p : ℕ) (t : CaptureTask)
    → find id (current m).slots ≡ some (some p)
    → find p m.store.heap ≡ some t
    → IsValid ext m
    → Returns (Updated id (f t) m) (rewrite_task rule f id m)
unfolding rewrite_task
rewrite_task-Updated {ext} rule f id m p t held live v =
    rw (held, rewrite_task)
      (Returns-bind (λ w. Good ext w × Shows id (f t) (work_of m) w) (Updated id (f t) m)
        (rewrite_steps rule f id p (work_of m)) _
        (Returns-both (Good ext) _ (rewrite_steps rule f id p (work_of m))
          (rewrite_steps-Good rule f id p (work_of m) held v.good)
          (rewrite_steps-Shows rule f id p (work_of m) t live v.good))
        (λ w h.
          (refl, subst (Shows id (f t) (work_of m)) (sym (work_of-commit m w m.curr refl)) h.1)))

-- `update_status` of a task that `query_task` finds returns `true`; from then on a query of that id
-- reports the new status and every other field as before, and a query of any other id what it
-- reported before.
pub update_status-query_task :
    (ext : List ℕ) (m : SafeTaskMgr) (id j : ℤ) (status : TaskStatus) (snapshot : TaskSnapshot)
    → IsValid ext m
    → query_task id m ≡ ok (some snapshot)
    → id ≢ j
    → Returns
        (λ r.
          (r.0 ≡ true)
          × (query_task id r.1 ≡ ok (some (record snapshot { status = status })))
          × (query_task j r.1 ≡ query_task j m))
        (update_status id status m)
unfolding update_status query_task snapshot_of
update_status-query_task ext m id j status snapshot v found ne =
    let s = query_task-Stored id m snapshot found in
    Returns-mono _ _ (update_status id status m)
      (rewrite_task-Updated always (λ task. record task { status = status }) id m s.addr s.task
        s.held s.live v)
      (λ r u. (
        u.0,
        u.1.0 ∙ ap (λ (shown : TaskSnapshot). ok (some (record shown { status = status }))) s.shown,
        u.1.1 j ne,
      ))

-- `update_task` runs the updater on a copy of the task that `query_task` reported: afterwards a query
-- of that id reports the updated copy, and a query of any other id what it reported before.
pub update_task-query_task :
    (ext : List ℕ) (m : SafeTaskMgr) (id j : ℤ) (updater : CaptureTask → CaptureTask)
    (snapshot : TaskSnapshot)
    → IsValid ext m
    → query_task id m ≡ ok (some snapshot)
    → id ≢ j
    → (task : CaptureTask) × (snapshot_of task ≡ snapshot)
      × Returns
          (λ r.
            (r.0 ≡ true)
            × (query_task id r.1 ≡ ok (some (snapshot_of (updater task))))
            × (query_task j r.1 ≡ query_task j m))
          (update_task id updater m)
unfolding update_task query_task
update_task-query_task ext m id j updater snapshot v found ne =
    let s = query_task-Stored id m snapshot found in
    (
      s.task,
      s.shown,
      Returns-mono _ _ (update_task id updater m)
          (rewrite_task-Updated on_change updater id m s.addr s.task s.held s.live v)
          (λ r u. (u.0, u.1.0, u.1.1 j ne)),
    )

live_is_found :
    (found : Option CaptureTask)
    → ◌≡◌ {A = Run (Option TaskSnapshot)}
        (deref found >>= λ task. ok (some (snapshot_of task)))
        (ok none)
    → ⊥
live_is_found none e = ground (arith, e)
live_is_found (some task) e = ground (arith, e)

-- An update of an id that no query finds returns `false` and leaves the manager as it is.
pub update-query_task-none :
    (m : SafeTaskMgr) (id : ℤ) (status : TaskStatus) (updater : CaptureTask → CaptureTask)
    → query_task id m ≡ ok none
    → (update_status id status m ≡ ok (false, m)) × (update_task id updater m ≡ ok (false, m))
unfolding update_status update_task rewrite_task query_task TaskTable.query_task
update-query_task-none m id status updater missing = go (find id (current m).slots) refl
  where
    go :
        (found : Option Ptr)
        → find id (current m).slots ≡ found
        → (update_status id status m ≡ ok (false, m)) × (update_task id updater m ≡ ok (false, m))
    go none e = (rw (e, update_status, rewrite_task), rw (e, update_task, rewrite_task))
    go (some none) e = (rw (e, update_status, rewrite_task), rw (e, update_task, rewrite_task))
    go (some (some p)) e =
        absurd (
          live_is_found (find p m.store.heap) (rw (e, query_task, TaskTable.query_task) at missing))
