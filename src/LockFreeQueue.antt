-- ===== src/LockFreeQueue.antt =====
-- src/rxlockfreequeue.c: a ring of packets between one producer thread and one consumer thread.
-- Each function is cut into the steps between which the other thread may run: the loads and the test,
-- the copy of the header and the bytes, the copy of the other fields, and the store that publishes it.
-- A packet's `app_data` is its offset in the packet's data. `node_bytes` are the bytes of `data` from its
-- start, as many as are looked at: a copy of more than the 65536 of `data` is outside of the model.
pub mod Slots
pub mod Copies
pub mod Ordered
pub mod Pushing
pub mod Popping
pub mod Fifo
pub mod Progress
pub mod Calls
mod Tests
use rxtracenetcap.Prelude.{
  ℕ, zero, suc, ◌+◌, ◌-◌, ◌%◌, ◌^◌, Bool, true, false, Option, none, some, List, [], ◌∷◌, ◌++◌,
  if◌then◌else◌, leb, ◌&&◌, ◌==◌, take, drop, bit_and, ◌/◌,
}
use Prim.Native.Nat.{bit_or}

-- `struct pcap_pkthdr` of libpcap, as its manual documents it.
pub record PcapHeader : Type 0 where
  pub ts_sec : ℕ
  pub ts_usec : ℕ
  pub caplen : ℕ
  pub len : ℕ

pub record PacketNode : Type 0 where
  pub header : PcapHeader
  pub node_bytes : List ℕ
  pub src_port : ℕ
  pub dst_port : ℕ
  pub app_data : Option ℕ
  pub app_len : ℕ
  pub valid : Bool

pub record LockFreeQueue : Type 0 where
  pub write_pos : ℕ
  pub read_pos : ℕ
  pub capacity : ℕ
  pub mask : ℕ
  pub buffer : ℕ → PacketNode

-- The smallest power of two that is at least `n`, of a `uint32_t`.
unfoldable pub next_power_of_2 : ℕ → ℕ
next_power_of_2 zero = 1
next_power_of_2 (suc n) =
    let n1 = bit_or n (n / 2) in
    let n2 = bit_or n1 (n1 / 4) in
    let n4 = bit_or n2 (n2 / 16) in
    let n8 = bit_or n4 (n4 / 256) in let n16 = bit_or n8 (n8 / 65536) in (n16 + 1) % 2 ^ 32

-- The queue as `lfq_create` leaves it; `garbage` is what the memory of the slots holds.
abbrev pub created : (ℕ → PacketNode) → ℕ → LockFreeQueue
created garbage capacity =
    let real_capacity = next_power_of_2 capacity in
    record {
      write_pos = 0;
      read_pos = 0;
      capacity = real_capacity;
      mask = (real_capacity + 2 ^ 32 - 1) % 2 ^ 32;
      buffer = garbage;
    }

-- `have_queue` and `have_buffer`: whether the two calls of `malloc` return memory.
unfoldable pub lfq_create : Bool → Bool → (ℕ → PacketNode) → ℕ → Option LockFreeQueue
lfq_create have_queue have_buffer garbage zero = none
lfq_create have_queue have_buffer garbage (suc n) =
    if have_queue && have_buffer then some (created garbage (suc n)) else none

-- The copy of a node into another, in two parts. `memcpy` of `caplen` bytes leaves the rest of the
-- bytes alone.
abbrev pub copy_bytes : PacketNode → PacketNode → PacketNode
copy_bytes item slot = record slot {
  header = item.header;
  node_bytes = take item.header.caplen item.node_bytes ++ drop item.header.caplen slot.node_bytes;
}

abbrev pub copy_rest : PacketNode → PacketNode → PacketNode
copy_rest item slot = record slot {
  src_port = item.src_port;
  dst_port = item.dst_port;
  app_data = if item.valid then item.app_data else none;
  app_len = item.app_len;
  valid = item.valid;
}

unfoldable pub set_slot : ℕ → PacketNode → (ℕ → PacketNode) → ℕ → PacketNode
set_slot i node buffer j = if i == j then node else buffer j

-- `write_pos - read_pos` of two `uint64_t`
abbrev pub lfq_used : LockFreeQueue → ℕ
lfq_used q = (q.write_pos + 2 ^ 64 - q.read_pos) % 2 ^ 64

unfoldable pub lfq_is_full : LockFreeQueue → Bool
lfq_is_full q = leb q.capacity (lfq_used q)

-- The test of `lfq_pop`.
unfoldable pub nothing_to_read : LockFreeQueue → Bool
nothing_to_read q = leb q.write_pos q.read_pos

-- A change of the slot of a position.
unfoldable pub write_slot : ℕ → (PacketNode → PacketNode) → LockFreeQueue → LockFreeQueue
write_slot pos change q =
    let i = bit_and pos q.mask in record q { buffer = set_slot i (change (q.buffer i)) q.buffer }

unfoldable pub read_slot : ℕ → LockFreeQueue → PacketNode
read_slot pos q = q.buffer (bit_and pos q.mask)

abbrev pub publish_write : ℕ → LockFreeQueue → LockFreeQueue
publish_write pos q = record q { write_pos = (pos + 1) % 2 ^ 64 }

abbrev pub publish_read : ℕ → LockFreeQueue → LockFreeQueue
publish_read pos q = record q { read_pos = (pos + 1) % 2 ^ 64 }

-- The functions, run without the other thread.
unfoldable pub lfq_push : PacketNode → LockFreeQueue → Bool × LockFreeQueue
lfq_push item q = if lfq_is_full q then (false, q) else (
  true,
  publish_write q.write_pos
      (write_slot q.write_pos (copy_rest item) (write_slot q.write_pos (copy_bytes item) q)),
)

unfoldable pub lfq_pop : PacketNode → LockFreeQueue → Bool × PacketNode × LockFreeQueue
lfq_pop item q =
    if nothing_to_read q
    then (false, item, q)
    else let slot = read_slot q.read_pos q in
      (true, copy_rest slot (copy_bytes slot item), publish_read q.read_pos q)

unfoldable pub lfq_size : LockFreeQueue → ℕ
lfq_size q = lfq_used q % 2 ^ 32

unfoldable pub lfq_is_empty : LockFreeQueue → Bool
lfq_is_empty q = lfq_size q == 0

-- Where a thread is in its function: outside, past the test, past the copy of the bytes, or past the
-- copy of the rest.
pub data Producer : Type 0 where
  out : Producer
  may_write wrote_bytes wrote : ℕ → PacketNode → Producer

pub data Consumer : Type 0 where
  out : Consumer
  may_read : ℕ → Consumer
  has_bytes has_read : ℕ → PacketNode → Consumer

-- The packets that `lfq_push` has published and those that `lfq_pop` has returned, in their order.
pub record System : Type 0 where
  pub queue : LockFreeQueue
  pub producer : Producer
  pub consumer : Consumer
  pub pushed : List PacketNode
  pub popped : List PacketNode

pub data Step : Type 0 where
  push_test : PacketNode → Step
  push_bytes push_rest push_publish pop_test : Step
  pop_bytes : PacketNode → Step
  pop_rest pop_publish : Step

-- What the two sides mean by a packet: its bytes up to `caplen`, and `app_data` if it is valid.
abbrev pub value_of : PacketNode → PacketNode
value_of node = record node {
  node_bytes = take node.header.caplen node.node_bytes;
  app_data = if node.valid then node.app_data else none;
}

abbrev pub at_push_test : PacketNode → Producer → System → System
at_push_test item Producer.out s =
    if lfq_is_full s.queue then s else record s { producer = may_write s.queue.write_pos item }
at_push_test item _ s = s

abbrev pub at_push_bytes : Producer → System → System
at_push_bytes (may_write w item) s = record s {
  queue = write_slot w (copy_bytes item) s.queue;
  producer = wrote_bytes w item;
}
at_push_bytes _ s = s

abbrev pub at_push_rest : Producer → System → System
at_push_rest (wrote_bytes w item) s = record s {
  queue = write_slot w (copy_rest item) s.queue;
  producer = wrote w item;
}
at_push_rest _ s = s

abbrev pub at_push_publish : Producer → System → System
at_push_publish (wrote w item) s = record s {
  queue = publish_write w s.queue;
  producer = Producer.out;
  pushed = s.pushed ++ value_of item ∷ [];
}
at_push_publish _ s = s

abbrev pub at_pop_test : Consumer → System → System
at_pop_test Consumer.out s =
    if nothing_to_read s.queue then s else record s { consumer = may_read s.queue.read_pos }
at_pop_test _ s = s

abbrev pub at_pop_bytes : PacketNode → Consumer → System → System
at_pop_bytes item (may_read r) s = record s {
  consumer = has_bytes r (copy_bytes (read_slot r s.queue) item);
}
at_pop_bytes item _ s = s

abbrev pub at_pop_rest : Consumer → System → System
at_pop_rest (has_bytes r node) s = record s {
  consumer = has_read r (copy_rest (read_slot r s.queue) node);
}
at_pop_rest _ s = s

abbrev pub at_pop_publish : Consumer → System → System
at_pop_publish (has_read r node) s = record s {
  queue = publish_read r s.queue;
  consumer = Consumer.out;
  popped = s.popped ++ value_of node ∷ [];
}
at_pop_publish _ s = s

-- One step of either thread; a thread that is elsewhere in its function does nothing.
unfoldable pub step : Step → System → System
step (push_test item) s = at_push_test item s.producer s
step push_bytes s = at_push_bytes s.producer s
step push_rest s = at_push_rest s.producer s
step push_publish s = at_push_publish s.producer s
step pop_test s = at_pop_test s.consumer s
step (pop_bytes item) s = at_pop_bytes item s.consumer s
step pop_rest s = at_pop_rest s.consumer s
step pop_publish s = at_pop_publish s.consumer s

-- Any interleaving of the two threads.
unfoldable pub steps : List Step → System → System
steps [] s = s
steps (x ∷ xs) s = steps xs (step x s)

-- Both threads outside their functions.
abbrev pub start : LockFreeQueue → System
start q = record {
  queue = q;
  producer = Producer.out;
  consumer = Consumer.out;
  pushed = [];
  popped = [];
}
