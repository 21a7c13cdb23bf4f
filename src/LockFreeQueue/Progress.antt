-- ===== src/LockFreeQueue/Progress.antt =====
-- A call of `lfq_push` into a ring with room, and of `lfq_pop` on a ring with a packet, of
-- src/rxlockfreequeue.c, succeeds, whatever the threads did before.
use rxtracenetcap.Prelude.{
  ℕ, zero, suc, ◌+◌, ◌%◌, ◌^◌, ◌<◌, ◌≡◌, refl, sym, ap, ◌∙◌, true, false, some, List, [], ◌∷◌, ◌++◌,
  length, get_elem?, arith,
}
use rxtracenetcap.Prelude.Options.{some_injective}
use rxtracenetcap.LockFreeQueue.{
  PacketNode, LockFreeQueue, value_of, Producer, Consumer, System, Step, push_test, push_bytes,
  push_rest, push_publish, pop_test, pop_bytes, pop_rest, pop_publish, step, steps, start,
  lfq_create, next_power_of_2, lfq_is_full, nothing_to_read, read_slot, copy_bytes, copy_rest,
}
use rxtracenetcap.LockFreeQueue.Slots.{mask_of}
use rxtracenetcap.LockFreeQueue.Copies.{Fits, copy_bytes-HasBytes, value_of-copy_rest, read_slot_is}
use rxtracenetcap.LockFreeQueue.Ordered.{IsOrdered}
use rxtracenetcap.LockFreeQueue.Fifo.{AllFit, reached-IsOrdered}

-- One call of `lfq_push`, and one of `lfq_pop` into `item`.
abbrev pub push_steps : PacketNode → List Step
push_steps item = push_test item ∷ push_bytes ∷ push_rest ∷ push_publish ∷ []

abbrev pub pop_steps : PacketNode → List Step
pop_steps item = pop_test ∷ pop_bytes item ∷ pop_rest ∷ pop_publish ∷ []

pushes :
    (item : PacketNode) (s : System)
    → s.producer ≡ Producer.out
    → lfq_is_full s.queue ≡ false
    → (steps (push_steps item) s).pushed ≡ s.pushed ++ value_of item ∷ []
unfolding steps step
pushes item s e f = rw (e, f) refl

pops :
    (item : PacketNode) (s : System)
    → s.consumer ≡ Consumer.out
    → nothing_to_read s.queue ≡ false
    → (steps (pop_steps item) s).popped
      ≡ s.popped
        ++ value_of (
            copy_rest
              (read_slot s.queue.read_pos s.queue)
              (copy_bytes (read_slot s.queue.read_pos s.queue) item))
          ∷ []
unfolding steps step
pops item s e f = rw (e, f) refl

get_elem?-lt :
    (xs : List PacketNode) (i : ℕ) (x : PacketNode) → get_elem? xs i ≡ some x → i < length xs
get_elem?-lt [] i x e = cc e
get_elem?-lt (y ∷ xs) zero x e = omega arith
get_elem?-lt (y ∷ xs) (suc i) x e = omega (arith, get_elem?-lt xs i x e)

not_full :
    (k n : ℕ) (s : System)
    → IsOrdered k n s
    → n < 2 ^ 64
    → length s.pushed < length s.popped + suc (mask_of k)
    → lfq_is_full s.queue ≡ false
unfolding lfq_is_full
not_full k n s v small h =
    rw v.capacity_is (ground (arith, v.write_pos_is, v.read_pos_is, v.read_le, v.few, small, h))

some_left : (s : System) → s.queue.read_pos < s.queue.write_pos → nothing_to_read s.queue ≡ false
unfolding nothing_to_read
some_left s h = ground (arith, h)

pop_reads :
    (k n : ℕ) (item x : PacketNode) (s : System)
    → IsOrdered k n s
    → get_elem? s.pushed (length s.popped) ≡ some x
    → value_of (
        copy_rest
          (read_slot s.queue.read_pos s.queue)
          (copy_bytes (read_slot s.queue.read_pos s.queue) item))
      ≡ x
pop_reads k n item x s v e =
    ap (λ (y : PacketNode). value_of (copy_rest y (copy_bytes y item)))
      (read_slot_is s.queue k v.mask_is s.queue.read_pos)
    ∙ value_of-copy_rest slot (copy_bytes slot item) (copy_bytes-HasBytes slot item here.1)
    ∙ some_injective (sym here.0 ∙ ap (get_elem? s.pushed) v.read_pos_is ∙ e)
  where
    slot : PacketNode
    slot = s.queue.buffer (s.queue.read_pos % suc (mask_of k))

    here :
        (get_elem? s.pushed s.queue.read_pos
          ≡ some (value_of (s.queue.buffer (s.queue.read_pos % suc (mask_of k)))))
        × Fits (s.queue.buffer (s.queue.read_pos % suc (mask_of k)))
    here =
        v.held s.queue.read_pos (omega arith) (
          omega (arith, get_elem?-lt s.pushed (length s.popped) x e, v.read_pos_is, v.write_pos_is))

module _ (garbage : ℕ → PacketNode) (capacity k : ℕ) (q : LockFreeQueue) (xs : List Step)
    (created_as : lfq_create true true garbage capacity ≡ some q)
    (rounded : next_power_of_2 capacity ≡ suc (mask_of k)) (in_range : suc (mask_of k) < 2 ^ 32)
    (fits : AllFit xs) (few : length xs < 2 ^ 64) where
  ordered : IsOrdered k (length xs) (steps xs (start q))
  ordered = reached-IsOrdered garbage capacity k q xs created_as rounded in_range fits few

  -- A queue that `lfq_create` has made of a capacity that it rounds up to a power of two, after fewer
  -- than 2 ^ 64 steps of the two threads, none with a packet that claims more bytes than it has: if the
  -- reader is outside `lfq_pop` and `x` is the first packet published and not yet returned, then the
  -- next call of `lfq_pop` returns `x`, whatever its buffer held.
  pub steps-pop_steps :
      (item x : PacketNode)
      → (steps xs (start q)).consumer ≡ Consumer.out
      → get_elem? (steps xs (start q)).pushed (length (steps xs (start q)).popped) ≡ some x
      → (steps (pop_steps item) (steps xs (start q))).popped ≡ (steps xs (start q)).popped ++ x ∷ []
  steps-pop_steps item x out next =
      let s : System = steps xs (start q) in
      let lt = get_elem?-lt s.pushed (length s.popped) x next in
      pops item s out (some_left s (omega (arith, lt, ordered.write_pos_is, ordered.read_pos_is)))
      ∙ ap (λ (y : PacketNode). s.popped ++ y ∷ []) (pop_reads k (length xs) item x s ordered next)

  -- A queue that `lfq_create` has made of a capacity that it rounds up to a power of two, after fewer
  -- than 2 ^ 64 steps of the two threads, none with a packet that claims more bytes than it has: if the
  -- writer is outside `lfq_push` and fewer packets than the rounded capacity are published and not yet
  -- returned, then the next call of `lfq_push` publishes its packet.
  pub steps-push_steps :
      (item : PacketNode)
      → (steps xs (start q)).producer ≡ Producer.out
      → length (steps xs (start q)).pushed
        < length (steps xs (start q)).popped + next_power_of_2 capacity
      → (steps (push_steps item) (steps xs (start q))).pushed
        ≡ (steps xs (start q)).pushed ++ value_of item ∷ []
  steps-push_steps item out h =
      pushes item (steps xs (start q)) out
        (not_full k (length xs) (steps xs (start q)) ordered few (omega (arith, h, rounded)))
