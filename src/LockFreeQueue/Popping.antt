-- ===== src/LockFreeQueue/Popping.antt =====
-- The steps of `lfq_pop` of src/rxlockfreequeue.c keep the invariant of the ring.
use rxtracenetcap.Prelude.{
  ℕ, suc, ◌+◌, ◌-◌, ◌%◌, ◌^◌, ◌≤◌, ◌<◌, ◌≡◌, refl, sym, ap, subst, ◌∙◌, Bool, true, false, some, [],
  ◌∷◌, ◌++◌, if◌then◌else◌, ltb, take, length-append, get_elem?, ◌⊎◌, inl, inr, Bool-cases, arith,
}
use rxtracenetcap.Prelude.Options.{some_injective}
use rxtracenetcap.LockFreeQueue.{
  PacketNode, LockFreeQueue, value_of, Producer, may_write, wrote_bytes, wrote, Consumer, may_read,
  has_bytes, has_read, copy_bytes, copy_rest, read_slot, System, nothing_to_read, at_pop_test,
  at_pop_bytes, at_pop_rest, at_pop_publish,
}
use rxtracenetcap.LockFreeQueue.Slots.{mask_of}
use rxtracenetcap.LockFreeQueue.Copies.{
  HasBytes, copy_bytes-HasBytes, value_of-copy_rest, read_slot_is, get_elem?-append, get_elem?-last,
}
use rxtracenetcap.LockFreeQueue.Pushing.{next_position}
use rxtracenetcap.LockFreeQueue.Ordered.{GotBytes, OfProducer, OfConsumer, IsOrdered}

pub pop_test-IsOrdered :
    (k n : ℕ) (c : Consumer) (s : System) → IsOrdered k n s → IsOrdered k n (at_pop_test c s)
unfolding nothing_to_read
pop_test-IsOrdered k n Consumer.out s v = go (nothing_to_read s.queue) refl
  where
    go :
        (b : Bool)
        → nothing_to_read s.queue ≡ b
        → IsOrdered k n (if b then s else record s { consumer = may_read s.queue.read_pos })
    go true _ = v
    go false g = record {
      capacity_is = v.capacity_is;
      mask_is = v.mask_is;
      write_pos_is = v.write_pos_is;
      read_pos_is = v.read_pos_is;
      read_le = v.read_le;
      write_le = v.write_le;
      few = v.few;
      front = v.front;
      held = v.held;
      of_producer = v.of_producer;
      of_consumer = (refl, ground (arith, g));
    }
pop_test-IsOrdered k n (may_read _) s v = v
pop_test-IsOrdered k n (has_bytes _ _) s v = v
pop_test-IsOrdered k n (has_read _ _) s v = v

-- A step of the reader inside its function.
read-IsOrdered :
    (k n : ℕ) (c : Consumer) (s : System)
    → OfConsumer c s.queue s.pushed
    → IsOrdered k n s
    → IsOrdered k n (record s { consumer = c })
read-IsOrdered k n c s o v = record {
  capacity_is = v.capacity_is;
  mask_is = v.mask_is;
  write_pos_is = v.write_pos_is;
  read_pos_is = v.read_pos_is;
  read_le = v.read_le;
  write_le = v.write_le;
  few = v.few;
  front = v.front;
  held = v.held;
  of_producer = v.of_producer;
  of_consumer = o;
}

pub pop_bytes-IsOrdered :
    (k n : ℕ) (item : PacketNode) (c : Consumer) (s : System)
    → OfConsumer c s.queue s.pushed
    → IsOrdered k n s
    → IsOrdered k n (at_pop_bytes item c s)
pop_bytes-IsOrdered k n item Consumer.out s o v = v
pop_bytes-IsOrdered k n item (may_read r) s o v =
    let slot = s.queue.buffer (r % suc (mask_of k)) in
    let here = v.held r (omega (arith, o.0)) o.1 in
    read-IsOrdered k n (has_bytes r (copy_bytes (read_slot r s.queue) item)) s
      (
        o.0,
        o.1,
        subst (λ (x : PacketNode). GotBytes r (copy_bytes x item) s.pushed)
            (sym (read_slot_is s.queue k v.mask_is r))
            (
              value_of slot,
              here.0,
              (copy_bytes-HasBytes slot item here.1).0,
              (copy_bytes-HasBytes slot item here.1).1,
            ),
      )
      v
pop_bytes-IsOrdered k n item (has_bytes _ _) s o v = v
pop_bytes-IsOrdered k n item (has_read _ _) s o v = v

pub pop_rest-IsOrdered :
    (k n : ℕ) (c : Consumer) (s : System)
    → OfConsumer c s.queue s.pushed
    → IsOrdered k n s
    → IsOrdered k n (at_pop_rest c s)
pop_rest-IsOrdered k n Consumer.out s o v = v
pop_rest-IsOrdered k n (may_read r) s o v = v
pop_rest-IsOrdered k n (has_bytes r node) s o v =
    let slot = s.queue.buffer (r % suc (mask_of k)) in
    let here = v.held r (omega (arith, o.0)) o.1 in
    let (x, at, heads, bytes) = o.2 in
    let same : x ≡ value_of slot = some_injective (sym at ∙ here.0) in
    let has : HasBytes slot node =
      subst
        (λ (y : PacketNode).
          (node.header ≡ y.header) × (take y.header.caplen node.node_bytes ≡ y.node_bytes))
        same (heads, bytes) in
    read-IsOrdered k n (has_read r (copy_rest (read_slot r s.queue) node)) s
      (
        o.0,
        o.1,
        here.0
            ∙ ap some (
                sym (value_of-copy_rest slot node has)
                ∙ ap (λ (y : PacketNode). value_of (copy_rest y node))
                    (sym (read_slot_is s.queue k v.mask_is r))),
      )
      v
pop_rest-IsOrdered k n (has_read _ _) s o v = v

OfProducer-read :
    (k r : ℕ) (p : Producer) (q : LockFreeQueue)
    → q.read_pos ≤ r
    → OfProducer k p q
    → OfProducer k p (record q { read_pos = r })
OfProducer-read k r Producer.out q h o = tt
OfProducer-read k r (may_write w item) q h o = (o.0, omega (arith, o.1, h), o.2)
OfProducer-read k r (wrote_bytes w item) q h o = (o.0, omega (arith, o.1, h), o.2)
OfProducer-read k r (wrote w item) q h o = (o.0, omega (arith, o.1, h), o.2)

pub pop_publish-IsOrdered :
    (k n : ℕ) (c : Consumer) (s : System)
    → OfConsumer c s.queue s.pushed
    → n < 2 ^ 64 - 1
    → IsOrdered k n s
    → IsOrdered k n (at_pop_publish c s)
pop_publish-IsOrdered k n Consumer.out s o small v = v
pop_publish-IsOrdered k n (may_read _) s o small v = v
pop_publish-IsOrdered k n (has_bytes _ _) s o small v = v
pop_publish-IsOrdered k n (has_read r node) s o small v = record {
  capacity_is = v.capacity_is;
  mask_is = v.mask_is;
  write_pos_is = v.write_pos_is;
  read_pos_is =
      next ∙ ap suc v.read_pos_is ∙ omega (arith, length-append s.popped (value_of node ∷ []));
  read_le = omega (arith, next, o.0, o.1);
  write_le = omega (arith, next, v.write_le);
  few = v.few;
  front = λ i h. front' i (Bool-cases (ltb i s.queue.read_pos)) (omega (arith, h, next));
  held = λ i h l. v.held i (omega (arith, h, next)) l;
  of_producer =
      OfProducer-read k ((r + 1) % 2 ^ 64) s.producer s.queue (omega (arith, next)) v.of_producer;
  of_consumer = tt;
}
  where
    next : (r + 1) % 2 ^ 64 ≡ suc s.queue.read_pos
    next =
        ap (λ (j : ℕ). (j + 1) % 2 ^ 64) o.0
        ∙ next_position s.queue.read_pos n (omega (arith, v.read_le, v.few)) small

    front' :
        (i : ℕ)
        → (ltb i s.queue.read_pos ≡ true) ⊎ (ltb i s.queue.read_pos ≡ false)
        → i < suc s.queue.read_pos
        → get_elem? (s.popped ++ value_of node ∷ []) i ≡ get_elem? s.pushed i
    front' i (inl f) l =
        get_elem?-append s.popped (value_of node ∷ []) i (ground (arith, f, v.read_pos_is))
        ∙ v.front i (ground (arith, f))
    front' i (inr f) l =
        subst (λ j. get_elem? (s.popped ++ value_of node ∷ []) j ≡ get_elem? s.pushed j)
          {x = s.queue.read_pos} {y = i} (ground (arith, f, l))
          (ap (get_elem? (s.popped ++ value_of node ∷ [])) v.read_pos_is
            ∙ get_elem?-last s.popped (value_of node)
            ∙ sym o.2
            ∙ ap (get_elem? s.pushed) o.0)
