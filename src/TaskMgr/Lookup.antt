-- ===== src/TaskMgr/Lookup.antt =====
-- What readers see after `add_task` and `remove_task`.
use rxtracenetcap.Prelude.{
  ℕ, ◌≡◌, refl, sym, subst, ◌≢◌, ℤ, Option, none, some, List, Map, find, erase, Uniq, find-erase,
  find-erase_ne, Bool-cases, inl, inr, ok, deref, Returns, Returns-bind, Returns-both, IfReturns,
  IfReturns-after, IfReturns-bind, int_beq, int_beq_iff, nat_eq, int_eq, str_eq,
}
use rxtracenetcap.TaskTable.{
  Ptr, Heap, TaskTable, Store, Work, TaskSnapshot, snapshot_of, table_remove_task, table_add_task,
  query_by,
}
use rxtracenetcap.TaskTable
use rxtracenetcap.TaskMgr.{
  SafeTaskMgr, current, work_of, retire, vacate, remove_and_retire, evict, remove_task, query_task,
}
use rxtracenetcap.TaskMgr.Steps.{Good, IsMapped, remove_and_retire-Good}
use rxtracenetcap.TaskMgr.Updates.{query_same}
use rxtracenetcap.TaskMgr.Ownership.{IsValid, work_of-publish}

-- No step of these operations but the last one of `add_task` writes to a task.
heap-retire : (ptr : Ptr) (s : Store) → IfReturns (λ s'. s'.heap ≡ s.heap) (retire ptr s)
unfolding retire
heap-retire none s = refl
heap-retire (some p) s =
    IfReturns-after (λ (s' : Store). s'.heap ≡ s.heap) (deref (find p s.heap)) _ (λ t. refl)

abbrev pub SameHeap : Work → Work → Type 0
SameHeap w w' = w'.store.heap ≡ w.store.heap

pub heap-vacate : (id : ℤ) (w : Work) → IfReturns (SameHeap w) (vacate id w)
unfolding vacate
heap-vacate id w = go (find id w.table.slots) refl
  where
    go : (found : Option Ptr) → find id w.table.slots ≡ found → IfReturns (SameHeap w) (vacate id w)
    go none e = rw (e, vacate) refl
    go (some old) e =
        rw (e, vacate)
          (IfReturns-bind (λ s'. s'.heap ≡ w.store.heap) (SameHeap w) (retire old w.store) _
            (heap-retire old w.store) (λ s h. h))

heap-remove_and_retire : (id : ℤ) (w : Work) → IfReturns (SameHeap w) (remove_and_retire id w)
unfolding remove_and_retire
heap-remove_and_retire id w =
    IfReturns-after (SameHeap w) (table_remove_task id w.store.heap w.table) _ (λ r.
      IfReturns-bind (λ s'. s'.heap ≡ w.store.heap) (SameHeap w) (retire r.0 w.store) _
        (heap-retire r.0 w.store) (λ s h. h))

pub heap-evict : (found : Option ℤ) (id : ℤ) (w : Work) → IfReturns (SameHeap w) (evict found id w)
unfolding evict
heap-evict none id w = refl
heap-evict (some j) id w = elim (Bool-cases (int_beq j id)) [
  | inl same ↦ rw (same, evict) refl
  | inr other ↦ rw (other, evict) (heap-remove_and_retire j w)
]

-- `remove_task` takes the slot of `id` out and leaves the others.
abbrev Without : ℤ → Map ℤ Ptr → Map ℤ Ptr → Type 0
Without id slots slots' =
    (find id slots' ≡ none) × ((j : ℤ) → id ≢ j → find j slots' ≡ find j slots)

erase-Without : (id : ℤ) (slots : Map ℤ Ptr) → Uniq slots → Without id slots (erase id slots)
erase-Without id slots u =
    (rw (find-erase id id slots u, (int_beq_iff id id).1 refl), λ j ne. find-erase_ne id j slots ne)

table_remove_task-Without :
    (id : ℤ) (h : Heap) (t : TaskTable)
    → IsMapped t
    → IfReturns (λ r. Without id t.slots r.1.slots) (table_remove_task id h t)
unfolding table_remove_task
table_remove_task-Without id h t u = go (find id t.slots) refl
  where
    go :
        (found : Option Ptr)
        → find id t.slots ≡ found
        → IfReturns (λ r. Without id t.slots r.1.slots) (table_remove_task id h t)
    go none e = rw (e, table_remove_task) (e, λ j ne. refl)
    go (some none) e = rw (e, table_remove_task) (erase-Without id t.slots u.slots_uniq)
    go (some (some p)) e =
        rw (e, table_remove_task)
          (IfReturns-after (λ (r : Ptr × TaskTable). Without id t.slots r.1.slots)
            (deref (find p h)) _ (λ task. erase-Without id t.slots u.slots_uniq))

remove_and_retire-Without :
    (id : ℤ) (w : Work)
    → IsMapped w.table
    → IfReturns (λ w'. Without id w.table.slots w'.table.slots) (remove_and_retire id w)
unfolding remove_and_retire
remove_and_retire-Without id w u =
    IfReturns-bind (λ r. Without id w.table.slots r.1.slots)
      (λ w'. Without id w.table.slots w'.table.slots) _ _
      (table_remove_task-Without id w.store.heap w.table u)
      (λ r h.
        IfReturns-after (λ (w' : Work). Without id w.table.slots w'.table.slots)
          (retire r.0 w.store) _ (λ s. h))

query_absent :
    (h : Heap) (t : TaskTable) (j : ℤ)
    → find j t.slots ≡ none
    → TaskTable.query_task h t j ≡ ok none
unfolding TaskTable.query_task
query_absent h t j e = rw (e, TaskTable.query_task)

abbrev QueryWithout : ℤ → ℤ → Work → Work → Type 0
QueryWithout id j w w' =
    (TaskTable.query_task w'.store.heap w'.table id ≡ ok none)
    × (TaskTable.query_task w'.store.heap w'.table j ≡ TaskTable.query_task w.store.heap w.table j)

-- After `remove_task` a query finds no task of that id, and of any other id what it found before.
-- The call returns also where there is no such task.
pub remove_task-query_task :
    (ext : List ℕ) (m : SafeTaskMgr) (id j : ℤ)
    → IsValid ext m
    → id ≢ j
    → Returns
        (λ m'. (query_task id m' ≡ ok none) × (query_task j m' ≡ query_task j m))
        (remove_task id m)
unfolding remove_task query_task
remove_task-query_task ext m id j v ne =
    Returns-bind
      (λ w. (Good ext w × SameHeap (work_of m) w) × Without id (current m).slots w.table.slots) _
      (remove_and_retire id (work_of m)) _
      (Returns-both _ (λ w. Without id (current m).slots w.table.slots)
        (remove_and_retire id (work_of m))
        (Returns-both (Good ext) (SameHeap (work_of m)) (remove_and_retire id (work_of m))
          (remove_and_retire-Good id (work_of m) v.good) (heap-remove_and_retire id (work_of m)))
        (remove_and_retire-Without id (work_of m) v.good.mapped))
      (λ w h.
        subst (QueryWithout id j (work_of m)) (sym (work_of-publish m w m.curr refl v.curr_le)) (
          query_absent w.store.heap w.table id h.1.0,
          query_same m.store.heap w.store.heap (current m) w.table j (h.1.1 j ne)
              (λ p held. rw h.0.1),
        ))
