-- ===== src/TaskMgr/Steps.antt =====
-- The steps of the manager's operations keep the balance of pointers and counters, and never touch
-- a dead task.
use rxtracenetcap.Prelude.{
  ℕ, ◌+◌, ◌≡◌, refl, ℤ, Bool, true, false, Option, none, some, List, ◌∷◌, ◌⊎◌, inl, inr, arith,
  if◌then◌else◌, ==_iff, Map, Str, is_empty, int_beq, find, assign, erase, Uniq, weigh, tally,
  tally-assign, tally-erase, find-assign, find-assign_self, find-erase, assign-Uniq, erase-Uniq,
  Option-cases, Bool-cases, ◌>>=◌, deref, Returns, Returns-bind, IfReturns, IfReturns-after,
  IfReturns-bind, int_beq_iff, Returns-both, Returns-mono, nat_eq, int_eq, str_eq,
}
use rxtracenetcap.Task.{CaptureTask, is_active_status}
use rxtracenetcap.TaskTable.{
  Ptr, Heap, TaskTable, Store, Work, unindex, table_remove_task, table_add_task,
}
use rxtracenetcap.TaskMgr.{retire, vacate, remove_and_retire, evict, count_in, add_steps}
use rxtracenetcap.TaskMgr.Balance.{
  points_to, Owned-congr, Extends, Balanced, Balanced-slot_live, retire-Balanced, retired-Balanced,
  place-Balanced, assign-Balanced, Owned-live,
}

-- Each of the four maps holds a key once.
pub record IsMapped (t : TaskTable) : Type 0 where
  pub slots_uniq : Uniq t.slots
  pub keys_uniq : Uniq t.key_to_id
  pub signatures_uniq : Uniq t.signature_to_id
  pub sids_uniq : Uniq t.sid_to_id

pub record Good (ext : List ℕ) (w : Work) : Type 0 where
  pub mapped : IsMapped w.table
  pub balanced : Balanced ext w.table.slots w.store

Balanced-same :
    {ext : List ℕ} {slots : Map ℤ Ptr} {s : Store} (slots' : Map ℤ Ptr)
    → ((f : Ptr → ℕ) → f none ≡ 0 → tally f slots' ≡ tally f slots)
    → Balanced ext slots s
    → Balanced ext slots' s
Balanced-same slots' same b = record {
  owns = Owned-congr _ _ (λ a. omega (arith, same (points_to a) refl)) b.owns;
  counts = record {
    counted = λ r. rw (same _ refl) (b.counts.counted r);
    totalled = rw (same _ refl) b.counts.totalled;
  };
}

-- What the two ways to empty a slot, and a write to it, do to every sum over the slots.
pub assign-Extends :
    (id : ℤ) (p : ℕ) (slots : Map ℤ Ptr)
    → find id slots ≡ some (some p)
    → Extends p (assign id none slots) slots
assign-Extends id p slots held f zero_none = ground (arith, tally-assign f id none slots)

erase-Extends :
    (id : ℤ) (p : ℕ) (slots : Map ℤ Ptr)
    → find id slots ≡ some (some p)
    → Extends p (erase id slots) slots
erase-Extends id p slots held f zero_none = ground (arith, tally-erase f id slots)

fill-Extends :
    (id : ℤ) (p : ℕ) (slots : Map ℤ Ptr)
    → (f : Ptr → ℕ) → f none ≡ 0
    → weigh f (find id slots) ≡ 0
    → tally f (assign id (some p) slots) ≡ tally f slots + f (some p)
fill-Extends id p slots f zero_none vacant = omega (arith, tally-assign f id (some p) slots)

pub unindex-Uniq : (name : Str) (id : ℤ) (m : Map Str ℤ) → Uniq m → Uniq (unindex name id m)
unfolding unindex
unindex-Uniq name id m u = elim (Option-cases (find name m)) [
  | inl e ↦ rw (e, unindex) u
  | inr (j, e) ↦ elim (Bool-cases (int_beq j id)) [
    | inl same ↦ rw (e, unindex, same) (erase-Uniq name m u)
    | inr other ↦ rw (e, unindex, other) u
  ]
]

pub if-Uniq : (b : Bool) (m m' : Map Str ℤ) → Uniq m → Uniq m' → Uniq (if b then m else m')
if-Uniq true m m' u u' = u
if-Uniq false m m' u u' = u'

-- The first block of `add_task`.
vacate-Good : {ext : List ℕ} (id : ℤ) (w : Work) → Good ext w → Returns (Good ext) (vacate id w)
unfolding vacate retire
vacate-Good {ext} id w g = go (find id w.table.slots) refl
  where
    slots' : Map ℤ Ptr
    slots' = assign id none w.table.slots

    mapped' : IsMapped (record (w.table) { slots = slots' })
    mapped' = record {
      slots_uniq = assign-Uniq id none w.table.slots g.mapped.slots_uniq;
      keys_uniq = g.mapped.keys_uniq;
      signatures_uniq = g.mapped.signatures_uniq;
      sids_uniq = g.mapped.sids_uniq;
    }

    go : (found : Option Ptr) → find id w.table.slots ≡ found → Returns (Good ext) (vacate id w)
    go none e = rw (e, vacate) g
    go (some none) e =
        rw (e, vacate)
          (record {
            mapped = mapped';
            balanced =
                Balanced-same slots' (λ f z. ground (arith, tally-assign f id none w.table.slots))
                  g.balanced;
          })
    go (some (some p)) e =
        rw (e, vacate)
          (Returns-bind (Balanced ext slots') (Good ext) (retire (some p) w.store) _
            (retire-Balanced slots' p (assign-Extends id p w.table.slots e) g.balanced)
            (λ s b. record { mapped = mapped'; balanced = b }))

-- `table.remove_task(id)` and what the manager does with the pointer that it returns.
pub remove_and_retire-Good :
    {ext : List ℕ} (id : ℤ) (w : Work) → Good ext w → Returns (Good ext) (remove_and_retire id w)
unfolding remove_and_retire table_remove_task retire
remove_and_retire-Good {ext} id w g = go (find id w.table.slots) refl
  where
    slots' : Map ℤ Ptr
    slots' = erase id w.table.slots

    go :
        (found : Option Ptr)
        → find id w.table.slots ≡ found
        → Returns (Good ext) (remove_and_retire id w)
    go none e = rw (e, remove_and_retire, table_remove_task) g
    go (some none) e =
        rw (e, remove_and_retire, table_remove_task)
          (record {
            mapped = record {
              slots_uniq = erase-Uniq id w.table.slots g.mapped.slots_uniq;
              keys_uniq = g.mapped.keys_uniq;
              signatures_uniq = g.mapped.signatures_uniq;
              sids_uniq = g.mapped.sids_uniq;
            };
            balanced =
                Balanced-same slots' (λ f z. ground (arith, tally-erase f id w.table.slots))
                  g.balanced;
          })
    go (some (some p)) e =
        let gone = erase-Extends id p w.table.slots e in
        let (t, live) = Balanced-slot_live slots' p gone g.balanced in
        rw (e, remove_and_retire, table_remove_task)
          (rw live (
            rw (live, retire)
              (record {
                mapped = record {
                  slots_uniq = erase-Uniq id w.table.slots g.mapped.slots_uniq;
                  keys_uniq = erase-Uniq t.key w.table.key_to_id g.mapped.keys_uniq;
                  signatures_uniq = if-Uniq (is_empty t.signature) _ _ g.mapped.signatures_uniq (
                      unindex-Uniq t.signature id w.table.signature_to_id g.mapped.signatures_uniq);
                  sids_uniq =
                      if-Uniq (is_empty t.sid) _ _ g.mapped.sids_uniq
                        (unindex-Uniq t.sid id w.table.sid_to_id g.mapped.sids_uniq);
                };
                balanced = retired-Balanced slots' p t live gone g.balanced;
              })))

-- The slot of `id` is absent or NULL.
abbrev pub VacantIn : ℤ → Map ℤ Ptr → Type 0
VacantIn id slots = (find id slots ≡ none) ⊎ (find id slots ≡ some none)

abbrev pub Vacant : ℤ → Work → Type 0
Vacant id w = VacantIn id w.table.slots

vacate-Vacant : (id : ℤ) (w : Work) → IfReturns (Vacant id) (vacate id w)
unfolding vacate
vacate-Vacant id w = go (find id w.table.slots) refl
  where
    go : (found : Option Ptr) → find id w.table.slots ≡ found → IfReturns (Vacant id) (vacate id w)
    go none e = rw (e, vacate) (inl e)
    go (some old) e =
        rw (e, vacate)
          (IfReturns-after (Vacant id) (retire old w.store) _
            (λ s. inr (rw (find-assign id id none w.table.slots, (int_beq_iff id id).1 refl))))

erase-Vacant :
    (id j : ℤ) (slots : Map ℤ Ptr) → Uniq slots → VacantIn id slots → VacantIn id (erase j slots)
erase-Vacant id j slots u v = elim (Bool-cases (int_beq j id)) [
  | inl same ↦ inl (rw (find-erase j id slots u, same))
  | inr other ↦ rw (find-erase j id slots u, other) v
]

table_remove_task-Vacant :
    (id j : ℤ) (h : Heap) (t : TaskTable)
    → Uniq t.slots
    → VacantIn id t.slots
    → IfReturns (λ r. VacantIn id r.1.slots) (table_remove_task j h t)
unfolding table_remove_task
table_remove_task-Vacant id j h t u v = go (find j t.slots) refl
  where
    go :
        (found : Option Ptr)
        → find j t.slots ≡ found
        → IfReturns (λ r. VacantIn id r.1.slots) (table_remove_task j h t)
    go none e = rw (e, table_remove_task) v
    go (some none) e = rw (e, table_remove_task) (erase-Vacant id j t.slots u v)
    go (some (some p)) e =
        rw (e, table_remove_task)
          (IfReturns-after (λ (r : Ptr × TaskTable). VacantIn id r.1.slots) (deref (find p h)) _
            (λ task. erase-Vacant id j t.slots u v))

remove_and_retire-Vacant :
    (id j : ℤ) (w : Work)
    → IsMapped w.table
    → Vacant id w
    → IfReturns (Vacant id) (remove_and_retire j w)
unfolding remove_and_retire
remove_and_retire-Vacant id j w u v =
    IfReturns-bind (λ r. VacantIn id r.1.slots) (Vacant id) _ _
      (table_remove_task-Vacant id j w.store.heap w.table u.slots_uniq v)
      (λ r vacant. IfReturns-after (Vacant id) (retire r.0 w.store) _ (λ s. vacant))

-- What holds between the blocks of `add_task`: the caller holds `p`, and the slot is free for it.
pub record Ready (ext : List ℕ) (p : ℕ) (id : ℤ) (w : Work) : Type 0 where
  pub good : Good (p ∷ ext) w
  pub vacant : Vacant id w

Vacant-weigh :
    (id : ℤ) (slots : Map ℤ Ptr) (f : Ptr → ℕ)
    → f none ≡ 0
    → VacantIn id slots
    → weigh f (find id slots) ≡ 0
Vacant-weigh id slots f z (inl e) = rw e
Vacant-weigh id slots f z (inr e) = rw e z

module _ {ext : List ℕ} (p : ℕ) (id : ℤ) where
  vacate-Ready : (w : Work) → Good (p ∷ ext) w → Returns (Ready ext p id) (vacate id w)
  vacate-Ready w g =
      Returns-mono _ _ (vacate id w)
        (Returns-both (Good (p ∷ ext)) (Vacant id) _ (vacate-Good id w g) (vacate-Vacant id w))
        (λ a h. record { good = h.0; vacant = h.1 })

  evict-Ready :
      (found : Option ℤ) (w : Work) → Ready ext p id w → Returns (Ready ext p id) (evict found id w)
  unfolding evict
  evict-Ready none w r = r
  evict-Ready (some j) w r = elim (Bool-cases (int_beq j id)) [
    | inl same ↦ rw (same, evict) r
    | inr other ↦
        rw (other, evict)
          (Returns-mono _ _ (remove_and_retire j w)
            (Returns-both (Good (p ∷ ext)) (Vacant id) _ (remove_and_retire-Good j w r.good)
              (remove_and_retire-Vacant id j w r.good.mapped r.vacant))
            (λ a h. record { good = h.0; vacant = h.1 }))
  ]

  enlist_live-Good :
      (key signature sid : Str) (w : Work) (t : CaptureTask)
      → find p w.store.heap ≡ some t
      → Ready ext p id w
      → Returns (Good ext) (table_add_task id key signature sid p w >>= count_in p)
  unfolding table_add_task count_in
  enlist_live-Good key signature sid w t live r =
      let t' : CaptureTask = record t { signature = signature; sid = sid } in
      rw live (
        rw (find-assign_self p t' w.store.heap) (record {
          mapped = record {
            slots_uniq = assign-Uniq id (some p) w.table.slots r.good.mapped.slots_uniq;
            keys_uniq = assign-Uniq key id w.table.key_to_id r.good.mapped.keys_uniq;
            signatures_uniq = if-Uniq (is_empty signature) _ _ r.good.mapped.signatures_uniq (
                if-Uniq (is_active_status t.status) _ _
                  (assign-Uniq signature id w.table.signature_to_id r.good.mapped.signatures_uniq)
                  r.good.mapped.signatures_uniq);
            sids_uniq =
                if-Uniq (is_empty sid) _ _ r.good.mapped.sids_uniq
                  (assign-Uniq sid id w.table.sid_to_id r.good.mapped.sids_uniq);
          };
          balanced =
              place-Balanced _ p t' (find-assign_self p t' w.store.heap)
                (λ f z.
                  fill-Extends id p w.table.slots f z (Vacant-weigh id w.table.slots f z r.vacant))
                (assign-Balanced p t t' live r.good.balanced);
        }))

  -- `add_task` of the table, and the count of the new task.
  enlist-Good :
      (key signature sid : Str) (w : Work)
      → Ready ext p id w
      → Returns (Good ext) (table_add_task id key signature sid p w >>= count_in p)
  enlist-Good key signature sid w r =
      let (t, live) = Owned-live _ p r.good.balanced.owns (ground (arith, ==_iff p p)) in
      enlist_live-Good key signature sid w t live r

  -- The body of `add_task` takes over the caller's pointer.
  pub add_steps-Good :
      (key signature sid : Str) (w : Work)
      → Good (p ∷ ext) w
      → Returns (Good ext) (add_steps id key signature sid p w)
  unfolding add_steps
  add_steps-Good key signature sid w g =
      Returns-bind (Ready ext p id) (Good ext) _ _ (vacate-Ready w g) λ w₁ r₁.
        Returns-bind (Ready ext p id) (Good ext) _ _ (evict-Ready _ w₁ r₁) λ w₂ r₂.
          Returns-bind (Ready ext p id) (Good ext) _ _ (evict-Ready _ w₂ r₂) λ w₃ r₃.
            Returns-bind (Ready ext p id) (Good ext) _ _ (evict-Ready _ w₃ r₃)
              λ w₄ r₄. enlist-Good key signature sid w₄ r₄
