-- ===== src/LockFreeQueue/Pushing.antt =====
-- The steps of `lfq_push` of src/rxlockfreequeue.c keep the invariant of the ring.
use rxtracenetcap.Prelude.{
  ℕ, suc, ◌+◌, ◌-◌, ◌%◌, ◌^◌, ◌≤◌, ◌<◌, ◌≡◌, refl, sym, ap, subst, ◌∙◌, Bool, true, false, some,
  List, [], ◌∷◌, ◌++◌, if◌then◌else◌, leb, ltb, length, length-append, get_elem?, ◌⊎◌, inl, inr,
  Bool-cases, arith,
}
use rxtracenetcap.LockFreeQueue.{
  PacketNode, LockFreeQueue, write_slot, value_of, Producer, may_write, wrote_bytes, wrote,
  Consumer, may_read, has_bytes, has_read, copy_bytes, copy_rest, System, lfq_is_full, at_push_test,
  at_push_bytes, at_push_rest, at_push_publish,
}
use rxtracenetcap.LockFreeQueue.Slots.{mask_of, slots_ne}
use rxtracenetcap.LockFreeQueue.Copies.{
  Fits, copy_bytes-HasBytes, copy_bytes-Fits, value_of-copy_rest, write_slot_self, write_slot_other,
  get_elem?-append, get_elem?-last,
}
use rxtracenetcap.LockFreeQueue.Ordered.{Holds, OfProducer, OfConsumer, IsOrdered, still}

room : (w r c : ℕ) → r ≤ w → w < 2 ^ 64 → leb c ((w + 2 ^ 64 - r) % 2 ^ 64) ≡ false → w < r + c
room w r c h small e = ground (arith, e)

-- A position that has not yet wrapped.
pub next_position : (w n : ℕ) → w ≤ n → n < 2 ^ 64 - 1 → (w + 1) % 2 ^ 64 ≡ suc w
next_position w n h small = omega (arith, h, small)

pub push_test-IsOrdered :
    (k n : ℕ) (item : PacketNode) (p : Producer) (s : System)
    → s.producer ≡ p
    → Fits item
    → n < 2 ^ 64
    → IsOrdered k n s
    → IsOrdered k n (at_push_test item p s)
unfolding lfq_is_full
push_test-IsOrdered k n item Producer.out s e f small v = go (lfq_is_full s.queue) refl
  where
    go :
        (b : Bool)
        → lfq_is_full s.queue ≡ b
        → IsOrdered k n (if b then s else record s { producer = may_write s.queue.write_pos item })
    go true _ = v
    go false g = record {
      capacity_is = v.capacity_is;
      mask_is = v.mask_is;
      write_pos_is = v.write_pos_is;
      read_pos_is = v.read_pos_is;
      read_le = v.read_le;
      write_le = v.write_le;
      few = v.few;
      front = v.front;
      held = v.held;
      of_producer = (
        refl,
        room s.queue.write_pos s.queue.read_pos (suc (mask_of k)) v.read_le
            (omega (arith, small, v.few))
            (ap (λ c. leb c ((s.queue.write_pos + 2 ^ 64 - s.queue.read_pos) % 2 ^ 64))
                (sym v.capacity_is)
              ∙ g),
        f,
      );
      of_consumer = v.of_consumer;
    }
push_test-IsOrdered k n item (may_write _ _) s e f small v = v
push_test-IsOrdered k n item (wrote_bytes _ _) s e f small v = v
push_test-IsOrdered k n item (wrote _ _) s e f small v = v

OfConsumer-buffer :
    (c : Consumer) (q : LockFreeQueue) (xs : List PacketNode) (buffer : ℕ → PacketNode)
    → OfConsumer c q xs
    → OfConsumer c (record q { buffer = buffer }) xs
OfConsumer-buffer Consumer.out q xs buffer o = tt
OfConsumer-buffer (may_read r) q xs buffer o = o
OfConsumer-buffer (has_bytes r node) q xs buffer o = o
OfConsumer-buffer (has_read r node) q xs buffer o = o

-- A change of the slot that the next packet goes to.
written-IsOrdered :
    (k n w : ℕ) (change : PacketNode → PacketNode) (p : Producer) (s : System)
    → w ≡ s.queue.write_pos
    → w < s.queue.read_pos + suc (mask_of k)
    → OfProducer k p (write_slot w change s.queue)
    → IsOrdered k n s
    → IsOrdered k n (record s { queue = write_slot w change s.queue; producer = p })
unfolding write_slot
written-IsOrdered k n w change p s at room o v = record {
  capacity_is = v.capacity_is;
  mask_is = v.mask_is;
  write_pos_is = v.write_pos_is;
  read_pos_is = v.read_pos_is;
  read_le = v.read_le;
  write_le = v.write_le;
  few = v.few;
  front = v.front;
  held = λ i h l.
      rw
        (write_slot_other s.queue k v.mask_is w change (i % suc (mask_of k))
          (slots_ne i w (mask_of k) (omega (arith, at, l)) (omega (arith, room, h))))
        (v.held i h l);
  of_producer = o;
  of_consumer =
      OfConsumer-buffer s.consumer s.queue s.pushed (write_slot w change s.queue).buffer
        v.of_consumer;
}

pub push_bytes-IsOrdered :
    (k n : ℕ) (p : Producer) (s : System)
    → OfProducer k p s.queue
    → IsOrdered k n s
    → IsOrdered k n (at_push_bytes p s)
unfolding write_slot
push_bytes-IsOrdered k n Producer.out s o v = v
push_bytes-IsOrdered k n (may_write w item) s o v =
    let slot = s.queue.buffer (w % suc (mask_of k)) in
    written-IsOrdered k n w (copy_bytes item) (wrote_bytes w item) s o.0 o.1
      (
        o.0,
        o.1,
        (
          rw (write_slot_self s.queue k v.mask_is w (copy_bytes item))
              (copy_bytes-HasBytes item slot o.2),
          rw (write_slot_self s.queue k v.mask_is w (copy_bytes item))
              (copy_bytes-Fits item slot o.2),
        ),
      )
      v
push_bytes-IsOrdered k n (wrote_bytes _ _) s o v = v
push_bytes-IsOrdered k n (wrote _ _) s o v = v

pub push_rest-IsOrdered :
    (k n : ℕ) (p : Producer) (s : System)
    → OfProducer k p s.queue
    → IsOrdered k n s
    → IsOrdered k n (at_push_rest p s)
unfolding write_slot
push_rest-IsOrdered k n Producer.out s o v = v
push_rest-IsOrdered k n (may_write _ _) s o v = v
push_rest-IsOrdered k n (wrote_bytes w item) s o v =
    let slot = s.queue.buffer (w % suc (mask_of k)) in
    written-IsOrdered k n w (copy_rest item) (wrote w item) s o.0 o.1
      (
        o.0,
        o.1,
        (
          rw (write_slot_self s.queue k v.mask_is w (copy_rest item))
              (value_of-copy_rest item slot o.2.0),
          rw (write_slot_self s.queue k v.mask_is w (copy_rest item)) o.2.1,
        ),
      )
      v
push_rest-IsOrdered k n (wrote _ _) s o v = v

OfConsumer-append :
    (c : Consumer) (q : LockFreeQueue) (xs ys : List PacketNode) (w : ℕ)
    → q.write_pos ≡ length xs
    → q.write_pos ≤ w
    → OfConsumer c q xs
    → OfConsumer c (record q { write_pos = w }) (xs ++ ys)
OfConsumer-append Consumer.out q xs ys w l h o = tt
OfConsumer-append (may_read r) q xs ys w l h o = (o.0, omega (arith, o.1, h))
OfConsumer-append (has_bytes r node) q xs ys w l h o =
    let (x, e, f, g) = o.2 in
    (o.0, omega (arith, o.1, h), (x, get_elem?-append xs ys r (omega (arith, l, o.1)) ∙ e, f, g))
OfConsumer-append (has_read r node) q xs ys w l h o =
    (o.0, omega (arith, o.1, h), get_elem?-append xs ys r (omega (arith, l, o.1)) ∙ o.2)

pub push_publish-IsOrdered :
    (k n : ℕ) (p : Producer) (s : System)
    → s.producer ≡ p
    → OfProducer k p s.queue
    → n + 1 < 2 ^ 64
    → IsOrdered k n s
    → IsOrdered k (n + 1) (at_push_publish p s)
push_publish-IsOrdered k n Producer.out s e o small v = still k n s v
push_publish-IsOrdered k n (may_write _ _) s e o small v = still k n s v
push_publish-IsOrdered k n (wrote_bytes _ _) s e o small v = still k n s v
push_publish-IsOrdered k n (wrote w item) s e o small v = record {
  capacity_is = v.capacity_is;
  mask_is = v.mask_is;
  write_pos_is =
      next ∙ ap suc v.write_pos_is ∙ omega (arith, length-append s.pushed (value_of item ∷ []));
  read_pos_is = v.read_pos_is;
  read_le = omega (arith, next, v.read_le);
  write_le = omega (arith, next, o.0, o.1);
  few = omega (arith, next, v.few);
  front = λ i h.
      v.front i h
      ∙ sym (
          get_elem?-append s.pushed (value_of item ∷ []) i
            (omega (arith, h, v.read_le, v.write_pos_is)));
  held = λ i h l. held' i h (Bool-cases (ltb i s.queue.write_pos)) (omega (arith, l, next));
  of_producer = tt;
  of_consumer =
      OfConsumer-append s.consumer s.queue s.pushed (value_of item ∷ []) ((w + 1) % 2 ^ 64)
        v.write_pos_is (omega (arith, next)) v.of_consumer;
}
  where
    next : (w + 1) % 2 ^ 64 ≡ suc s.queue.write_pos
    next =
        ap (λ (j : ℕ). (j + 1) % 2 ^ 64) o.0
        ∙ next_position s.queue.write_pos n v.few (omega (arith, small))

    at_write :
        (get_elem? (s.pushed ++ value_of item ∷ []) s.queue.write_pos
          ≡ some (value_of (s.queue.buffer (s.queue.write_pos % suc (mask_of k)))))
        × Fits (s.queue.buffer (s.queue.write_pos % suc (mask_of k)))
    at_write =
        let filled : Holds k item s.queue.write_pos s.queue =
          subst (λ j. Holds k item j s.queue) o.0 o.2 in
        (
          ap (get_elem? (s.pushed ++ value_of item ∷ [])) v.write_pos_is
              ∙ get_elem?-last s.pushed (value_of item)
              ∙ ap some (sym filled.0),
          filled.1,
        )

    held' :
        (i : ℕ)
        → s.queue.read_pos ≤ i
        → (ltb i s.queue.write_pos ≡ true) ⊎ (ltb i s.queue.write_pos ≡ false)
        → i < suc s.queue.write_pos
        → (get_elem? (s.pushed ++ value_of item ∷ []) i
            ≡ some (value_of (s.queue.buffer (i % suc (mask_of k)))))
          × Fits (s.queue.buffer (i % suc (mask_of k)))
    held' i h (inl f) l =
        let old = v.held i h (ground (arith, f)) in
        (
          get_elem?-append s.pushed (value_of item ∷ []) i (ground (arith, f, v.write_pos_is))
              ∙ old.0,
          old.1,
        )
    held' i h (inr f) l =
        subst
          (λ j.
            (get_elem? (s.pushed ++ value_of item ∷ []) j
              ≡ some (value_of (s.queue.buffer (j % suc (mask_of k)))))
            × Fits (s.queue.buffer (j % suc (mask_of k))))
          {x = s.queue.write_pos} {y = i} (ground (arith, f, l)) at_write
