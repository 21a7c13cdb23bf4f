-- ===== src/TaskMgr/Rewrite.antt =====
-- The step of `update_status` and `update_task`: a copy of the task replaces it in its slot.
use rxtracenetcap.Prelude.{
  ℕ, ◌≡◌, refl, ℤ, true, none, some, List, inl, inr, arith, ==_iff, Map, is_empty, find, assign,
  tally-assign, find-assign, find-assign_self, assign-Uniq, Bool-cases, Returns, nat_eq, int_eq,
  str_eq,
}
use rxtracenetcap.Task.{
  TaskStatus, pending, resolving, running, completed, failed, stopped, CaptureTask,
  is_active_status, status_eq,
}
use rxtracenetcap.TaskTable.{
  Ptr, Heap, TaskTable, TaskStats, Store, Work, increment_status_count, decrement_status_count,
}
use rxtracenetcap.TaskMgr.{new_task, reindex, CountRule, always, on_change, recount, rewrite_steps}
use rxtracenetcap.TaskMgr.Balance.{
  Balanced, Balanced-slot_live, Counted, Extends, retired, retired-Balanced, place-Balanced,
  new_task-Balanced, increment-decrement,
}
use rxtracenetcap.TaskMgr.Steps.{Good, IsMapped, assign-Extends, unindex-Uniq, if-Uniq}

status_eq-eq : (a b : TaskStatus) → status_eq a b ≡ true → a ≡ b
status_eq-eq pending b h = ground arith
status_eq-eq resolving b h = ground arith
status_eq-eq running b h = ground arith
status_eq-eq completed b h = ground arith
status_eq-eq failed b h = ground arith
status_eq-eq stopped b h = ground arith

-- Both rules leave the counters that a decrement and an increment leave.
recount_lem :
    (rule : CountRule) (old new : TaskStatus) (slots : Map ℤ Ptr) (h : Heap) (c : TaskStats)
    → Counted slots h c
    → recount rule old new c ≡ increment_status_count new (decrement_status_count old c)
unfolding recount
recount_lem always old new slots h c k = refl
recount_lem on_change old new slots h c k = elim (Bool-cases (status_eq old new)) [
  | inl same ↦ rw (same, ← status_eq-eq old new same, increment-decrement old slots h c k)
  | inr changed ↦ rw changed
]

-- A slot that held `p` and now holds `q` is the emptied slot with `q` in it.
refill-Extends :
    (id : ℤ) (q : ℕ) (slots : Map ℤ Ptr)
    → Extends q (assign id none slots) (assign id (some q) slots)
refill-Extends id q slots f z =
    omega (arith, tally-assign f id none slots, tally-assign f id (some q) slots)

reindex-IsMapped :
    (id : ℤ) (ptr : Ptr) (t : CaptureTask) (table : TaskTable)
    → IsMapped table
    → IsMapped (record (reindex id t table) { slots = assign id ptr (reindex id t table).slots })
unfolding reindex
reindex-IsMapped id ptr t table u = record {
  slots_uniq = assign-Uniq id ptr table.slots u.slots_uniq;
  keys_uniq = u.keys_uniq;
  signatures_uniq = if-Uniq (is_empty t.signature) _ _ u.signatures_uniq (
      if-Uniq (is_active_status t.status) _ _
        (assign-Uniq t.signature id table.signature_to_id u.signatures_uniq)
        (unindex-Uniq t.signature id table.signature_to_id u.signatures_uniq));
  sids_uniq =
      if-Uniq (is_empty t.sid) _ _ u.sids_uniq (assign-Uniq t.sid id table.sid_to_id u.sids_uniq);
}

-- The balance of the store that the step leaves, with the counters of `always`.
rewritten-Balanced :
    {ext : List ℕ} {slots : Map ℤ Ptr} {s : Store} (id : ℤ) (old : ℕ) (t t' : CaptureTask)
    → find old s.heap ≡ some t
    → find id slots ≡ some (some old)
    → Balanced ext slots s
    → Balanced ext (assign id (some s.next_addr) slots) (record (retired old t (new_task t' s).1) {
      stats = increment_status_count t'.status (decrement_status_count t.status s.stats);
    })
unfolding new_task
rewritten-Balanced {ext} {slots} {s} id old t t' live held b =
    place-Balanced _ s.next_addr t' (find-assign_self s.next_addr t' s.heap)
      (refill-Extends id s.next_addr slots)
      (retired-Balanced (assign id none slots) old t still_live (assign-Extends id old slots held)
        (new_task-Balanced t' b))
  where
    still_live : find old (assign s.next_addr t' s.heap) ≡ some t
    still_live = ground (
      arith,
      find-assign s.next_addr old t' s.heap,
      b.owns.fresh s.next_addr,
      ==_iff s.next_addr old,
    )

rewrite_live-Good :
    {ext : List ℕ} (rule : CountRule) (f : CaptureTask → CaptureTask) (id : ℤ) (old : ℕ) (w : Work)
    (t : CaptureTask)
    → find old w.store.heap ≡ some t
    → find id w.table.slots ≡ some (some old)
    → Good ext w
    → Returns (Good ext) (rewrite_steps rule f id old w)
unfolding rewrite_steps new_task reindex
rewrite_live-Good {ext} rule f id old w t live held g = rw live (record {
  mapped = reindex-IsMapped id (some w.store.next_addr) (f t) w.table g.mapped;
  balanced =
      rw
        (recount_lem rule t.status (f t).status w.table.slots w.store.heap w.store.stats
          g.balanced.counts)
        (rewritten-Balanced id old t (f t) live held g.balanced);
})

-- The step returns, and keeps the balance, whatever the updater does to the copy.
pub rewrite_steps-Good :
    {ext : List ℕ} (rule : CountRule) (f : CaptureTask → CaptureTask) (id : ℤ) (old : ℕ) (w : Work)
    → find id w.table.slots ≡ some (some old)
    → Good ext w
    → Returns (Good ext) (rewrite_steps rule f id old w)
rewrite_steps-Good rule f id old w held g =
    let (t, live) =
      Balanced-slot_live _ old (assign-Extends id old w.table.slots held) g.balanced in
    rewrite_live-Good rule f id old w t live held g
