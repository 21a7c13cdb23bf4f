-- ===== src/LockFreeQueue/Ordered.antt =====
-- The invariant of the ring of src/rxlockfreequeue.c between two steps of its threads: the two positions,
-- the slots between them and what each thread has seen.
use rxtracenetcap.Prelude.{
  ℕ, suc, ◌+◌, ◌%◌, ◌≤◌, ◌<◌, ◌≡◌, some, List, length, take, get_elem?, arith,
}
use rxtracenetcap.LockFreeQueue.{
  PacketNode, LockFreeQueue, value_of, Producer, may_write, wrote_bytes, wrote, Consumer, may_read,
  has_bytes, has_read, System,
}
use rxtracenetcap.LockFreeQueue.Slots.{mask_of}
use rxtracenetcap.LockFreeQueue.Copies.{Fits, HasBytes}

-- The slot of position `i` holds `node`.
abbrev pub Holds : ℕ → PacketNode → ℕ → LockFreeQueue → Type 0
Holds k node i q =
    (value_of (q.buffer (i % suc (mask_of k))) ≡ value_of node)
    × Fits (q.buffer (i % suc (mask_of k)))

-- The slot of position `i` holds the first part of `node`.
abbrev pub HoldsBytes : ℕ → PacketNode → ℕ → LockFreeQueue → Type 0
HoldsBytes k node i q =
    HasBytes node (q.buffer (i % suc (mask_of k))) × Fits (q.buffer (i % suc (mask_of k)))

-- `node` has the first part of the packet that is at `i` in the list.
abbrev pub GotBytes : ℕ → PacketNode → List PacketNode → Type 0
GotBytes i node xs =
    (x : PacketNode) × (get_elem? xs i ≡ some x)
    × (node.header ≡ x.header)
    × (take x.header.caplen node.node_bytes ≡ x.node_bytes)

abbrev pub OfProducer : ℕ → Producer → LockFreeQueue → Type 0
OfProducer k Producer.out q = Unit
OfProducer k (may_write w item) q =
    (w ≡ q.write_pos) × (w < q.read_pos + suc (mask_of k)) × Fits item
OfProducer k (wrote_bytes w item) q =
    (w ≡ q.write_pos) × (w < q.read_pos + suc (mask_of k)) × HoldsBytes k item w q
OfProducer k (wrote w item) q =
    (w ≡ q.write_pos) × (w < q.read_pos + suc (mask_of k)) × Holds k item w q

abbrev pub OfConsumer : Consumer → LockFreeQueue → List PacketNode → Type 0
OfConsumer Consumer.out q xs = Unit
OfConsumer (may_read r) q xs = (r ≡ q.read_pos) × (r < q.write_pos)
OfConsumer (has_bytes r node) q xs = (r ≡ q.read_pos) × (r < q.write_pos) × GotBytes r node xs
OfConsumer (has_read r node) q xs =
    (r ≡ q.read_pos) × (r < q.write_pos) × (get_elem? xs r ≡ some (value_of node))

-- After at most `n` pushes through a ring of 2 ^ k slots.
pub record IsOrdered (k n : ℕ) (s : System) : Type 0 where
  pub capacity_is : s.queue.capacity ≡ suc (mask_of k)
  pub mask_is : s.queue.mask ≡ mask_of k
  pub write_pos_is : s.queue.write_pos ≡ length s.pushed
  pub read_pos_is : s.queue.read_pos ≡ length s.popped
  pub read_le : s.queue.read_pos ≤ s.queue.write_pos
  pub write_le : s.queue.write_pos ≤ s.queue.read_pos + suc (mask_of k)
  pub few : s.queue.write_pos ≤ n
  pub front : (i : ℕ) → i < s.queue.read_pos → get_elem? s.popped i ≡ get_elem? s.pushed i
  pub held :
      (i : ℕ)
      → s.queue.read_pos ≤ i
      → i < s.queue.write_pos
      → (get_elem? s.pushed i ≡ some (value_of (s.queue.buffer (i % suc (mask_of k)))))
        × Fits (s.queue.buffer (i % suc (mask_of k)))
  pub of_producer : OfProducer k s.producer s.queue
  pub of_consumer : OfConsumer s.consumer s.queue s.pushed

pub still : (k n : ℕ) (s : System) → IsOrdered k n s → IsOrdered k (n + 1) s
still k n s v = record {
  capacity_is = v.capacity_is;
  mask_is = v.mask_is;
  write_pos_is = v.write_pos_is;
  read_pos_is = v.read_pos_is;
  read_le = v.read_le;
  write_le = v.write_le;
  few = omega (arith, v.few);
  front = v.front;
  held = v.held;
  of_producer = v.of_producer;
  of_consumer = v.of_consumer;
}
