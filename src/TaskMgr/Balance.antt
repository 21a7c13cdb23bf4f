-- ===== src/TaskMgr/Balance.antt =====
-- What the manager owes its heap and its counters: every live task is reachable in exactly one way,
-- and each counter is the number of slots whose task has that status, modulo 2 ^ 64.
use rxtracenetcap.Prelude.{
  ℕ, suc, ◌+◌, ◌%◌, ◌^◌, ◌≤◌, ◌≡◌, refl, ℤ, none, some, List, [], ◌∷◌, ◌++◌, ◌⊎◌, inl, inr, arith,
  if◌then◌else◌, ◌==◌, ==_iff, Map, find, assign, erase, Uniq, weigh, tally, Returns, find-assign,
  find-erase, assign-Uniq, erase-Uniq, Option-cases, nat_eq, int_eq,
}
use rxtracenetcap.Task.{
  TaskStatus, pending, resolving, running, completed, failed, stopped, CaptureTask, status_eq,
}
use rxtracenetcap.TaskTable.{
  Ptr, Heap, TaskStats, Store, increment_status_count, decrement_status_count,
}
use rxtracenetcap.TaskMgr.{retire, new_task}

abbrev pub one : ℕ → ℕ → ℕ
one p a = if p == a then 1 else 0

-- How often `a` stands in a list of pointers, and in a slot.
abbrev pub occurs : ℕ → List ℕ → ℕ
occurs a [] = 0
occurs a (p ∷ ps) = one p a + occurs a ps

abbrev pub points_to : ℕ → Ptr → ℕ
points_to a none = 0
points_to a (some p) = one p a

abbrev pub alive : ℕ → Heap → ℕ
alive a h = weigh (λ _. 1) (find a h)

pub alive-le-one : (a : ℕ) (h : Heap) → alive a h ≤ 1
alive-le-one a h = ground arith

pub occurs-append : (a : ℕ) (ps qs : List ℕ) → occurs a (ps ++ qs) ≡ occurs a ps + occurs a qs
occurs-append a [] qs = omega arith
occurs-append a (p ∷ ps) qs = omega (arith, occurs-append a ps qs)

-- `refs a` pointers lead to the task at `a`, and it is there if and only if one does.
pub record Owned (refs : ℕ → ℕ) (h : Heap) (next : ℕ) : Type 0 where
  pub heap_uniq : Uniq h
  pub fresh : (a : ℕ) → next ≤ a → find a h ≡ none
  pub owned : (a : ℕ) → refs a ≡ alive a h

pub Owned-congr :
    {h : Heap} {next : ℕ} (refs refs' : ℕ → ℕ)
    → ((a : ℕ) → refs' a ≡ refs a)
    → Owned refs h next
    → Owned refs' h next
Owned-congr refs refs' same o = record {
  heap_uniq = o.heap_uniq;
  fresh = o.fresh;
  owned = λ a. omega (arith, same a, o.owned a);
}

-- What a pointer of the manager leads to is alive.
pub Owned-live :
    {h : Heap} {next : ℕ} (refs : ℕ → ℕ) (p : ℕ)
    → Owned refs h next
    → 1 ≤ refs p
    → (t : CaptureTask) × (find p h ≡ some t)
Owned-live {h} refs p o one_ref = elim (Option-cases (find p h)) [
  | inl dead ↦ absurd (ground (arith, o.owned p))
  | inr live ↦ live
]

pub Owned-new :
    {h : Heap} {next : ℕ} (refs : ℕ → ℕ) (t : CaptureTask)
    → Owned refs h next
    → Owned (λ a. one next a + refs a) (assign next t h) (suc next)
Owned-new {h} {next} refs t o = record {
  heap_uniq = assign-Uniq next t h o.heap_uniq;
  fresh = λ a above. ground (arith, find-assign next a t h, o.fresh a);
  owned = λ a. ground (arith, find-assign next a t h, o.owned a, o.fresh next, ==_iff next a);
}

pub Owned-assign :
    {h : Heap} {next : ℕ} (refs : ℕ → ℕ) (p : ℕ) (t t' : CaptureTask)
    → find p h ≡ some t
    → Owned refs h next
    → Owned refs (assign p t' h) next
Owned-assign {h} refs p t t' live o = record {
  heap_uniq = assign-Uniq p t' h o.heap_uniq;
  fresh = λ a above. ground (arith, find-assign p a t' h, o.fresh a, ==_iff p a);
  owned = λ a. ground (arith, find-assign p a t' h, o.owned a, ==_iff p a);
}

pub Owned-erase :
    {h : Heap} {next : ℕ} (refs : ℕ → ℕ) (p : ℕ)
    → Owned (λ a. one p a + refs a) h next
    → Owned refs (erase p h) next
Owned-erase {h} refs p o = record {
  heap_uniq = erase-Uniq p h o.heap_uniq;
  fresh = λ a above. ground (arith, find-erase p a h o.heap_uniq, o.fresh a);
  owned = λ a. ground (arith, find-erase p a h o.heap_uniq, o.owned a, Option-cases (find a h));
}

abbrev pub counter : TaskStatus → TaskStats → ℕ
counter pending c = c.pending_count
counter resolving c = c.resolving_count
counter running c = c.running_count
counter completed c = c.completed_count
counter failed c = c.failed_count
counter stopped c = c.stopped_count

abbrev pub hit : TaskStatus → TaskStatus → ℕ
hit s r = if status_eq s r then 1 else 0

abbrev pub has_status : Heap → TaskStatus → Ptr → ℕ
has_status h r none = 0
has_status h r (some p) = weigh (λ t. hit t.status r) (find p h)

abbrev pub holds : Ptr → ℕ
holds none = 0
holds (some p) = 1

pub record Counted (slots : Map ℤ Ptr) (h : Heap) (c : TaskStats) : Type 0 where
  pub counted : (r : TaskStatus) → counter r c ≡ tally (has_status h r) slots % 2 ^ 64
  pub totalled : c.total_count ≡ tally holds slots % 2 ^ 64

counter-increment :
    (s r : TaskStatus) (c : TaskStats) (x : ℕ)
    → counter r c ≡ x % 2 ^ 64
    → counter r (increment_status_count s c) ≡ (x + hit s r) % 2 ^ 64
unfolding increment_status_count
counter-increment pending r c x h = ground arith
counter-increment resolving r c x h = ground arith
counter-increment running r c x h = ground arith
counter-increment completed r c x h = ground arith
counter-increment failed r c x h = ground arith
counter-increment stopped r c x h = ground arith

counter-decrement :
    (s r : TaskStatus) (c : TaskStats) (x : ℕ)
    → counter r c ≡ (x + hit s r) % 2 ^ 64
    → counter r (decrement_status_count s c) ≡ x % 2 ^ 64
unfolding decrement_status_count
counter-decrement pending r c x h = ground arith
counter-decrement resolving r c x h = ground arith
counter-decrement running r c x h = ground arith
counter-decrement completed r c x h = ground arith
counter-decrement failed r c x h = ground arith
counter-decrement stopped r c x h = ground arith

total-increment :
    (s : TaskStatus) (c : TaskStats) (x : ℕ)
    → c.total_count ≡ x % 2 ^ 64
    → (increment_status_count s c).total_count ≡ (x + 1) % 2 ^ 64
unfolding increment_status_count
total-increment pending c x h = omega arith
total-increment _ c x h = omega arith

total-decrement :
    (s : TaskStatus) (c : TaskStats) (x : ℕ)
    → c.total_count ≡ (x + 1) % 2 ^ 64
    → (decrement_status_count s c).total_count ≡ x % 2 ^ 64
unfolding decrement_status_count
total-decrement pending c x h = omega arith
total-decrement _ c x h = omega arith

-- Changing the heap at an address that no slot holds leaves the census alone.
tally-has_status_away :
    (h h' : Heap) (r : TaskStatus) (p : ℕ) (slots : Map ℤ Ptr)
    → ((a : ℕ) → (p ≡ a) ⊎ (find a h' ≡ find a h))
    → tally (points_to p) slots ≡ 0
    → tally (has_status h' r) slots ≡ tally (has_status h r) slots
unfolding tally
tally-has_status_away h h' r p [] same away = refl
tally-has_status_away h h' r p ((id, none) ∷ slots) same away =
    omega (arith, tally-has_status_away h h' r p slots same (omega arith))
tally-has_status_away h h' r p ((id, some q) ∷ slots) same away =
    ground (arith, same q, tally-has_status_away h h' r p slots same, ==_iff q p, ==_iff p q)

-- `slots'` is `slots` with one more slot that holds `p`.
abbrev pub Extends : ℕ → Map ℤ Ptr → Map ℤ Ptr → Type 0
Extends p slots slots' = (f : Ptr → ℕ) → f none ≡ 0 → tally f slots' ≡ tally f slots + f (some p)

pub Counted-place :
    (p : ℕ) (t : CaptureTask) (slots slots' : Map ℤ Ptr) (h : Heap) (c : TaskStats)
    → find p h ≡ some t
    → Extends p slots slots'
    → Counted slots h c
    → Counted slots' h (increment_status_count t.status c)
Counted-place p t slots slots' h c live ext k = record {
  counted =
      λ r. rw (ext (has_status h r) refl, live) (counter-increment t.status r c _ (k.counted r));
  totalled = rw (ext holds refl) (total-increment t.status c _ k.totalled);
}

pub Counted-drop :
    (p : ℕ) (t : CaptureTask) (slots slots' : Map ℤ Ptr) (h : Heap) (c : TaskStats)
    → find p h ≡ some t
    → Extends p slots' slots
    → Counted slots h c
    → Counted slots' h (decrement_status_count t.status c)
Counted-drop p t slots slots' h c live ext k = record {
  counted = λ r.
      counter-decrement t.status r c _ (ground (arith, ext (has_status h r) refl, k.counted r));
  totalled = total-decrement t.status c _ (rw (← ext holds refl) k.totalled);
}

pub Counted-heap :
    (p : ℕ) (slots : Map ℤ Ptr) (h h' : Heap) (c : TaskStats)
    → ((a : ℕ) → (p ≡ a) ⊎ (find a h' ≡ find a h))
    → tally (points_to p) slots ≡ 0
    → Counted slots h c
    → Counted slots h' c
Counted-heap p slots h h' c same away k = record {
  counted = λ r. rw (tally-has_status_away h h' r p slots same away) (k.counted r);
  totalled = k.totalled;
}

-- The whole balance, with the pointers `ext` that callers still hold.
abbrev pub refs : List ℕ → Map ℤ Ptr → List ℕ → ℕ → ℕ
refs ext slots dels a = tally (points_to a) slots + occurs a dels + occurs a ext

pub record Balanced (ext : List ℕ) (slots : Map ℤ Ptr) (s : Store) : Type 0 where
  pub owns : Owned (refs ext slots s.pending_deletes) s.heap s.next_addr
  pub counts : Counted slots s.heap s.stats

-- A pointer in a slot leads to a live task.
pub Balanced-slot_live :
    {ext : List ℕ} {slots : Map ℤ Ptr} {s : Store} (slots' : Map ℤ Ptr) (p : ℕ)
    → Extends p slots' slots
    → Balanced ext slots s
    → (t : CaptureTask) × (find p s.heap ≡ some t)
Balanced-slot_live slots' p ext' b = Owned-live _ p b.owns (ground (arith, ext' (points_to p) refl))

-- The store after `retire` of a pointer to the task `t`.
abbrev pub retired : ℕ → CaptureTask → Store → Store
retired p t s = record s {
  stats = decrement_status_count t.status s.stats;
  pending_deletes = s.pending_deletes ++ p ∷ [];
}

-- The task leaves its slot for the list of pending deletes.
pub retired-Balanced :
    {ext : List ℕ} {slots : Map ℤ Ptr} {s : Store} (slots' : Map ℤ Ptr) (p : ℕ) (t : CaptureTask)
    → find p s.heap ≡ some t
    → Extends p slots' slots
    → Balanced ext slots s
    → Balanced ext slots' (retired p t s)
retired-Balanced {ext} {slots} {s} slots' p t live ext' b = record {
  owns =
      Owned-congr _ _
        (λ a. omega (arith, ext' (points_to a) refl, occurs-append a s.pending_deletes (p ∷ [])))
        b.owns;
  counts = Counted-drop p t slots slots' s.heap s.stats live ext' b.counts;
}

pub retire-Balanced :
    {ext : List ℕ} {slots : Map ℤ Ptr} {s : Store} (slots' : Map ℤ Ptr) (p : ℕ)
    → Extends p slots' slots
    → Balanced ext slots s
    → Returns (Balanced ext slots') (retire (some p) s)
unfolding retire
retire-Balanced slots' p ext' b =
    let (t, live) = Balanced-slot_live slots' p ext' b in
    rw (live, retire) (retired-Balanced slots' p t live ext' b)

-- The caller's pointer `p` goes into a slot, and its task is counted.
pub place-Balanced :
    {ext : List ℕ} {slots : Map ℤ Ptr} {s : Store} (slots' : Map ℤ Ptr) (p : ℕ) (t : CaptureTask)
    → find p s.heap ≡ some t
    → Extends p slots slots'
    → Balanced (p ∷ ext) slots s
    → Balanced ext slots' (record s { stats = increment_status_count t.status s.stats })
place-Balanced {ext} {slots} {s} slots' p t live ext' b = record {
  owns = Owned-congr _ _ (λ a. omega (arith, ext' (points_to a) refl)) b.owns;
  counts = Counted-place p t slots slots' s.heap s.stats live ext' b.counts;
}

-- `new`: the caller holds the new task.
pub new_task-Balanced :
    {ext : List ℕ} {slots : Map ℤ Ptr} {s : Store} (t : CaptureTask)
    → Balanced ext slots s
    → Balanced (s.next_addr ∷ ext) slots (new_task t s).1
unfolding new_task
new_task-Balanced {ext} {slots} {s} t b = record {
  owns = Owned-congr _ _ (λ a. omega arith) (Owned-new _ t b.owns);
  counts =
      Counted-heap s.next_addr slots s.heap _ s.stats
        (λ a. ground (arith, find-assign s.next_addr a t s.heap, ==_iff s.next_addr a))
        (ground (arith, b.owns.owned s.next_addr, b.owns.fresh s.next_addr)) b.counts;
}

-- The caller rewrites a task that only it holds.
pub assign-Balanced :
    {ext : List ℕ} {slots : Map ℤ Ptr} {s : Store} (p : ℕ) (t t' : CaptureTask)
    → find p s.heap ≡ some t
    → Balanced (p ∷ ext) slots s
    → Balanced (p ∷ ext) slots (record s { heap = assign p t' s.heap })
assign-Balanced {ext} {slots} {s} p t t' live b = record {
  owns = Owned-assign _ p t t' live b.owns;
  counts =
      Counted-heap p slots s.heap _ s.stats
        (λ a. ground (arith, find-assign p a t' s.heap, ==_iff p a))
        (ground (arith, b.owns.owned p, ==_iff p p)) b.counts;
}

-- A decrement and an increment of the same counter cancel.
pub increment-decrement :
    (st : TaskStatus) (slots : Map ℤ Ptr) (h : Heap) (c : TaskStats)
    → Counted slots h c
    → increment_status_count st (decrement_status_count st c) ≡ c
unfolding increment_status_count decrement_status_count
increment-decrement pending slots h c k = ground (arith, k.counted pending, k.totalled)
increment-decrement resolving slots h c k = ground (arith, k.counted resolving, k.totalled)
increment-decrement running slots h c k = ground (arith, k.counted running, k.totalled)
increment-decrement completed slots h c k = ground (arith, k.counted completed, k.totalled)
increment-decrement failed slots h c k = ground (arith, k.counted failed, k.totalled)
increment-decrement stopped slots h c k = ground (arith, k.counted stopped, k.totalled)
