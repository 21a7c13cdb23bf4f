-- ===== src/TaskMgr/Destroy.antt =====
-- What the destructor of src/rxsafetaskmgr.h leaves.
use rxtracenetcap.Prelude.{
  ℕ, ◌≡◌, refl, ℤ, none, some, [], ◌∷◌, arith, Map, find, tally, Returns, Returns-bind, nat_eq,
  int_eq,
}
use rxtracenetcap.TaskTable.{Ptr, Store}
use rxtracenetcap.TaskMgr.{SafeTaskMgr, current, destroy, delete_all, cleanup_store, slot_ptrs}
use rxtracenetcap.TaskMgr.Balance.{Owned, Owned-congr, points_to, occurs}
use rxtracenetcap.TaskMgr.Deletes.{Freed, delete_all-Freed}
use rxtracenetcap.TaskMgr.Ownership.{IsValid}

-- The loop over the slots takes out each pointer as often as the slots hold it.
occurs-slot_ptrs :
    (a : ℕ) (slots : Map ℤ Ptr) → occurs a (slot_ptrs slots) ≡ tally (points_to a) slots
unfolding slot_ptrs tally
occurs-slot_ptrs a [] = refl
occurs-slot_ptrs a ((id, none) ∷ slots) = omega (arith, occurs-slot_ptrs a slots)
occurs-slot_ptrs a ((id, some p) ∷ slots) = omega (arith, occurs-slot_ptrs a slots)

abbrev pub IsEmptied : Store → Type 0
IsEmptied s = (a : ℕ) → find a s.heap ≡ none

emptied : (s : Store) → Owned (λ a. 0) s.heap s.next_addr → IsEmptied s
emptied s o a = ground (arith, o.owned a)

-- The destructor of a valid manager whose tasks are all handed over returns, having freed every task
-- that is still on the heap, each exactly once.
pub destroy-IsEmptied : (m : SafeTaskMgr) → IsValid [] m → Returns IsEmptied (destroy m)
unfolding destroy cleanup_store
destroy-IsEmptied m v =
    Returns-bind (Freed pending m.store) IsEmptied _ cleanup_store
      (delete_all-Freed pending (slot_ptrs (current m).slots) m.store (
        Owned-congr _ _ (λ a. omega (arith, occurs-slot_ptrs a (current m).slots))
          v.good.balanced.owns))
      (λ s f.
        Returns-bind (Freed (λ a. 0) s) IsEmptied (delete_all s.pending_deletes s) _
          (delete_all-Freed (λ a. 0) s.pending_deletes s
            (Owned-congr pending _ (λ a. rw f.1 (omega arith)) f.0))
          (λ s' g. emptied s' g.0))
  where
    pending : ℕ → ℕ
    pending a = occurs a m.store.pending_deletes
