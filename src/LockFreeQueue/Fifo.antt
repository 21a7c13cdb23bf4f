-- ===== src/LockFreeQueue/Fifo.antt =====
-- Any interleaving of one thread in `lfq_push` with one in `lfq_pop`, of src/rxlockfreequeue.c.
use rxtracenetcap.Prelude.{
  ℕ, zero, suc, ◌+◌, ◌-◌, ◌%◌, ◌^◌, ◌≤◌, ◌<◌, ◌≡◌, refl, ap, subst, ◌∙◌, true, some, List, [], ◌∷◌,
  take, length, arith,
}
use rxtracenetcap.LockFreeQueue.{
  PacketNode, LockFreeQueue, System, Step, push_test, push_bytes, push_rest, push_publish, pop_test,
  pop_bytes, pop_rest, pop_publish, step, steps, start,
}
use rxtracenetcap.LockFreeQueue.Slots.{mask_of}
use rxtracenetcap.LockFreeQueue.Copies.{Fits, take-get_elem?}
use rxtracenetcap.LockFreeQueue.{lfq_create, next_power_of_2, created}
use rxtracenetcap.Prelude.Options.{some_injective}
use rxtracenetcap.LockFreeQueue.Ordered.{IsOrdered, still}
use rxtracenetcap.LockFreeQueue.Pushing.{
  push_test-IsOrdered, push_bytes-IsOrdered, push_rest-IsOrdered, push_publish-IsOrdered,
}
use rxtracenetcap.LockFreeQueue.Popping.{
  pop_test-IsOrdered, pop_bytes-IsOrdered, pop_rest-IsOrdered, pop_publish-IsOrdered,
}

-- The packet of the step, if it pushes one, has as many bytes as it says.
abbrev pub StepFits : Step → Type 0
StepFits (push_test item) = Fits item
StepFits _ = Unit

abbrev pub AllFit : List Step → Type 0
AllFit [] = Unit
AllFit (x ∷ xs) = StepFits x × AllFit xs

step-IsOrdered :
    (k n : ℕ) (x : Step) (s : System)
    → StepFits x
    → n + 1 < 2 ^ 64
    → IsOrdered k n s
    → IsOrdered k (n + 1) (step x s)
unfolding step
step-IsOrdered k n (push_test item) s f small v =
    still k n (step (push_test item) s)
      (push_test-IsOrdered k n item s.producer s refl f (omega (arith, small)) v)
step-IsOrdered k n push_bytes s f small v =
    still k n (step push_bytes s) (push_bytes-IsOrdered k n s.producer s v.of_producer v)
step-IsOrdered k n push_rest s f small v =
    still k n (step push_rest s) (push_rest-IsOrdered k n s.producer s v.of_producer v)
step-IsOrdered k n push_publish s f small v =
    push_publish-IsOrdered k n s.producer s refl v.of_producer small v
step-IsOrdered k n pop_test s f small v =
    still k n (step pop_test s) (pop_test-IsOrdered k n s.consumer s v)
step-IsOrdered k n (pop_bytes item) s f small v =
    still k n (step (pop_bytes item) s) (pop_bytes-IsOrdered k n item s.consumer s v.of_consumer v)
step-IsOrdered k n pop_rest s f small v =
    still k n (step pop_rest s) (pop_rest-IsOrdered k n s.consumer s v.of_consumer v)
step-IsOrdered k n pop_publish s f small v =
    still k n (step pop_publish s)
      (pop_publish-IsOrdered k n s.consumer s v.of_consumer (omega (arith, small)) v)

steps-IsOrdered :
    (k n : ℕ) (xs : List Step) (s : System)
    → AllFit xs
    → n + length xs < 2 ^ 64
    → IsOrdered k n s
    → IsOrdered k (n + length xs) (steps xs s)
unfolding steps
steps-IsOrdered k n [] s f small v =
    subst (λ j. IsOrdered k j s) {x = n} {y = n + 0} (omega arith) v
steps-IsOrdered k n (x ∷ xs) s f small v =
    subst (λ j. IsOrdered k j (steps xs (step x s))) {x = n + 1 + length xs}
      {y = n + suc (length xs)} (omega arith)
      (steps-IsOrdered k (n + 1) xs (step x s) f.1 (omega (arith, small))
        (step-IsOrdered k n x s f.0 (omega (arith, small)) v))

start-IsOrdered :
    (k : ℕ) (q : LockFreeQueue)
    → q.capacity ≡ suc (mask_of k)
    → q.mask ≡ mask_of k
    → q.write_pos ≡ 0
    → q.read_pos ≡ 0
    → IsOrdered k 0 (start q)
start-IsOrdered k q c m w r = record {
  capacity_is = c;
  mask_is = m;
  write_pos_is = w;
  read_pos_is = r;
  read_le = omega (arith, w, r);
  write_le = omega (arith, w, r);
  few = omega (arith, w);
  front = λ i h. absurd (omega (arith, h, r));
  held = λ i l h. absurd (omega (arith, h, w));
  of_producer = tt;
  of_consumer = tt;
}

created-IsOrdered :
    (garbage : ℕ → PacketNode) (n k : ℕ)
    → next_power_of_2 (suc n) ≡ suc (mask_of k)
    → suc (mask_of k) < 2 ^ 32
    → IsOrdered k 0 (start (created garbage (suc n)))
created-IsOrdered garbage n k e small =
    start-IsOrdered k (created garbage (suc n)) e
      (ap (λ (j : ℕ). (j + 2 ^ 32 - 1) % 2 ^ 32) e ∙ omega (arith, small)) refl refl

pub reached-IsOrdered :
    (garbage : ℕ → PacketNode) (capacity k : ℕ) (q : LockFreeQueue) (xs : List Step)
    → lfq_create true true garbage capacity ≡ some q
    → next_power_of_2 capacity ≡ suc (mask_of k)
    → suc (mask_of k) < 2 ^ 32
    → AllFit xs
    → length xs < 2 ^ 64
    → IsOrdered k (length xs) (steps xs (start q))
unfolding lfq_create
reached-IsOrdered garbage zero k q xs e p small f l = cc e
reached-IsOrdered garbage (suc n) k q xs e p small f l =
    subst (λ j. IsOrdered k j (steps xs (start q))) {x = 0 + length xs} {y = length xs}
      (omega arith)
      (steps-IsOrdered k 0 xs (start q) f (omega (arith, l)) (
        subst (λ r. IsOrdered k 0 (start r)) (some_injective e)
          (created-IsOrdered garbage n k p small)))

-- A queue that `lfq_create` has made of a capacity that it rounds up to a power of two: after any
-- interleaving of fewer than 2 ^ 64 steps of one thread that calls `lfq_push` and of one that calls
-- `lfq_pop`, if no packet claims more bytes than it has, the packets that `lfq_pop` has returned are
-- the first of those that `lfq_push` has published, in the same order and with the same contents, and
-- no more than the rounded capacity are still between the two.
pub steps-take :
    (garbage : ℕ → PacketNode) (capacity k : ℕ) (q : LockFreeQueue) (xs : List Step)
    → lfq_create true true garbage capacity ≡ some q
    → next_power_of_2 capacity ≡ suc (mask_of k)
    → suc (mask_of k) < 2 ^ 32
    → AllFit xs
    → length xs < 2 ^ 64
    → ((steps xs (start q)).popped
        ≡ take (length (steps xs (start q)).popped) (steps xs (start q)).pushed)
      × (length (steps xs (start q)).popped ≤ length (steps xs (start q)).pushed)
      × (length (steps xs (start q)).pushed
          ≤ length (steps xs (start q)).popped + next_power_of_2 capacity)
steps-take garbage capacity k q xs e p small f l = (
  take-get_elem? after.popped after.pushed le (λ i h. v.front i (omega (arith, h, v.read_pos_is))),
  le,
  omega (arith, v.write_le, v.read_pos_is, v.write_pos_is, p),
)
  where
    after : System
    after = steps xs (start q)

    v : IsOrdered k (length xs) after
    v = reached-IsOrdered garbage capacity k q xs e p small f l

    le : length after.popped ≤ length after.pushed
    le = omega (arith, v.read_le, v.read_pos_is, v.write_pos_is)
