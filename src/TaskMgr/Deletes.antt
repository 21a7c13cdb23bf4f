-- ===== src/TaskMgr/Deletes.antt =====
-- `cleanup_pending_deletes` and the destructor free each task once.
use rxtracenetcap.Prelude.{
  ℕ, ◌+◌, ◌≤◌, ◌≡◌, refl, ◌∙◌, ℤ, some, List, [], ◌∷◌, arith, ==_iff, Map, find, Uniq, tally,
  find-erase, erase-Uniq, deref, Returns, Returns-bind, Returns-both, Returns-mono, IfReturns,
  IfReturns-bind, IfReturns-after, nat_eq, int_eq,
}
use rxtracenetcap.Task.{CaptureTask}
use rxtracenetcap.TaskTable.{Ptr, Store}
use rxtracenetcap.TaskMgr.{delete, delete_all, cleanup_store}
use rxtracenetcap.TaskMgr.Balance.{
  one, alive-le-one, occurs, points_to, Owned, Owned-congr, Owned-live, Owned-erase, Counted,
  Counted-heap, Balanced,
}

-- Freeing a list of pointers, each of which is owned once more than `r` says.
abbrev pub Freed : (ℕ → ℕ) → Store → Store → Type 0
Freed r s s' = Owned r s'.heap s'.next_addr × (s'.pending_deletes ≡ s.pending_deletes)

delete_live-Freed :
    (r : ℕ → ℕ) (p : ℕ) (s : Store) (t : CaptureTask)
    → find p s.heap ≡ some t
    → Owned (λ a. one p a + r a) s.heap s.next_addr
    → Returns (Freed r s) (delete p s)
unfolding delete
delete_live-Freed r p s t live o = rw live (Owned-erase r p o, refl)

delete-Freed :
    (r : ℕ → ℕ) (p : ℕ) (s : Store)
    → Owned (λ a. one p a + r a) s.heap s.next_addr
    → Returns (Freed r s) (delete p s)
delete-Freed r p s o =
    let (t, live) = Owned-live _ p o (ground (arith, ==_iff p p)) in
    delete_live-Freed r p s t live o

pub delete_all-Freed :
    (r : ℕ → ℕ) (ps : List ℕ) (s : Store)
    → Owned (λ a. occurs a ps + r a) s.heap s.next_addr
    → Returns (Freed r s) (delete_all ps s)
unfolding delete_all
delete_all-Freed r [] s o = (Owned-congr _ r (λ a. omega arith) o, refl)
delete_all-Freed r (p ∷ ps) s o =
    Returns-bind (Freed (λ a. occurs a ps + r a) s) (Freed r s) (delete p s) (delete_all ps)
      (delete-Freed (λ a. occurs a ps + r a) p s (Owned-congr _ _ (λ a. omega arith) o))
      (λ s₁ f.
        Returns-mono (Freed r s₁) (Freed r s) (delete_all ps s₁) (delete_all-Freed r ps s₁ f.0)
          (λ s₂ g. (g.0, g.1 ∙ f.1)))

-- Freeing tasks that no slot holds leaves the census alone.
pub delete_all-Counted :
    (slots : Map ℤ Ptr) (ps : List ℕ) (s : Store)
    → ((a : ℕ) → 1 ≤ occurs a ps → tally (points_to a) slots ≡ 0)
    → Uniq s.heap
    → Counted slots s.heap s.stats
    → IfReturns (λ s'. Counted slots s'.heap s'.stats) (delete_all ps s)
unfolding delete_all delete
delete_all-Counted slots [] s away u k = k
delete_all-Counted slots (p ∷ ps) s away u k =
    IfReturns-bind (λ s₁. Uniq s₁.heap × Counted slots s₁.heap s₁.stats) _ (delete p s)
      (delete_all ps)
      (IfReturns-after (λ (s₁ : Store). Uniq s₁.heap × Counted slots s₁.heap s₁.stats)
        (deref (find p s.heap)) _
        (λ t. (
          erase-Uniq p s.heap u,
          Counted-heap p slots s.heap _ s.stats
              (λ a. ground (arith, find-erase p a s.heap u, ==_iff p a))
              (away p (ground (arith, ==_iff p p))) k,
        )))
      (λ s₁ h. delete_all-Counted slots ps s₁ (λ a m. away a (omega arith)) h.0 h.1)

pub cleanup_store-Balanced :
    {ext : List ℕ} {slots : Map ℤ Ptr} {s : Store}
    → Balanced ext slots s
    → Returns (Balanced ext slots) (cleanup_store s)
unfolding cleanup_store
cleanup_store-Balanced {ext} {slots} {s} b =
    Returns-bind (λ s'. Freed r s s' × Counted slots s'.heap s'.stats) (Balanced ext slots) _ _
      (Returns-both (Freed r s) _ (delete_all s.pending_deletes s)
        (delete_all-Freed r s.pending_deletes s (Owned-congr _ _ (λ a. omega arith) b.owns))
        (delete_all-Counted slots s.pending_deletes s away b.owns.heap_uniq b.counts))
      (λ s' h. record { owns = Owned-congr r _ (λ a. omega arith) h.0.0; counts = h.1 })
  where
    r : ℕ → ℕ
    r a = tally (points_to a) slots + occurs a ext

    away : (a : ℕ) → 1 ≤ occurs a s.pending_deletes → tally (points_to a) slots ≡ 0
    away a m = omega (arith, b.owns.owned a, alive-le-one a s.heap)
