-- ===== src/LockFreeQueue/Calls.antt =====
-- The steps of `lfq_push` and `lfq_pop` of src/rxlockfreequeue.c, run one after the other, are the functions.
use rxtracenetcap.Prelude.{◌≡◌, refl, Bool, true, false, [], ◌∷◌, if◌then◌else◌}
use rxtracenetcap.LockFreeQueue.{
  PacketNode, Producer, Consumer, System, push_test, push_bytes, push_rest, push_publish, pop_test,
  pop_bytes, pop_rest, pop_publish, may_write, may_read, steps, step, lfq_push, lfq_pop,
  lfq_is_full, nothing_to_read, publish_write, publish_read, write_slot, read_slot, copy_bytes,
  copy_rest, LockFreeQueue, at_push_bytes, at_push_rest, at_push_publish, at_pop_bytes, at_pop_rest,
  at_pop_publish,
}

-- The steps of one call of `lfq_push`, with no step of the other thread between them, leave the queue
-- that `lfq_push` leaves.
steps-lfq_push :
    (item : PacketNode) (s : System)
    → s.producer ≡ Producer.out
    → (steps (push_test item ∷ push_bytes ∷ push_rest ∷ push_publish ∷ []) s).queue
      ≡ (lfq_push item s.queue).1
unfolding steps step lfq_push
steps-lfq_push item s e = rw e (go (lfq_is_full s.queue))
  where
    tested : Bool → System
    tested b =
        if b
        then record s { producer = Producer.out }
        else record s { producer = may_write s.queue.write_pos item }

    half : Bool → System
    half b = at_push_bytes (tested b).producer (tested b)

    copied : Bool → System
    copied b = at_push_rest (half b).producer (half b)

    called : Bool → Bool × LockFreeQueue
    called b = if b then (false, s.queue) else (
      true,
      publish_write s.queue.write_pos (
          write_slot s.queue.write_pos (copy_rest item)
            (write_slot s.queue.write_pos (copy_bytes item) s.queue)),
    )

    go : (b : Bool) → (at_push_publish (copied b).producer (copied b)).queue ≡ (called b).1
    go true = refl
    go false = refl

-- The same of `lfq_pop`.
steps-lfq_pop :
    (item : PacketNode) (s : System)
    → s.consumer ≡ Consumer.out
    → (steps (pop_test ∷ pop_bytes item ∷ pop_rest ∷ pop_publish ∷ []) s).queue
      ≡ (lfq_pop item s.queue).2
unfolding steps step lfq_pop
steps-lfq_pop item s e = rw e (go (nothing_to_read s.queue))
  where
    slot : PacketNode
    slot = read_slot s.queue.read_pos s.queue

    tested : Bool → System
    tested b =
        if b
        then record s { consumer = Consumer.out }
        else record s { consumer = may_read s.queue.read_pos }

    half : Bool → System
    half b = at_pop_bytes item (tested b).consumer (tested b)

    copied : Bool → System
    copied b = at_pop_rest (half b).consumer (half b)

    called : Bool → Bool × PacketNode × LockFreeQueue
    called b =
        if b
        then (false, item, s.queue)
        else (true, copy_rest slot (copy_bytes slot item), publish_read s.queue.read_pos s.queue)

    go : (b : Bool) → (at_pop_publish (copied b).consumer (copied b)).queue ≡ (called b).2
    go true = refl
    go false = refl
