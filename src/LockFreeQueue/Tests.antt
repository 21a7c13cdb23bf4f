-- ===== src/LockFreeQueue/Tests.antt =====
-- Runs of the queue of src/rxlockfreequeue.c on concrete packets.
use rxtracenetcap.Prelude.{
  ℕ, suc, ◌+◌, ◌≤◌, ◌<◌, ◌≡◌, refl, true, some, List, [], ◌∷◌, take, length, arith, ◌++◌, get_elem?,
}
use rxtracenetcap.LockFreeQueue.{
  PacketNode, Producer, Consumer, value_of, step, Step, push_test, push_bytes, push_rest,
  push_publish, pop_test, pop_bytes, pop_rest, pop_publish, start, steps, next_power_of_2,
  lfq_create, created, lfq_is_full, nothing_to_read, write_slot, read_slot, set_slot,
}
use rxtracenetcap.LockFreeQueue.Progress.{push_steps, pop_steps, steps-pop_steps, steps-push_steps}
use rxtracenetcap.LockFreeQueue.Slots.{mask_of}
use rxtracenetcap.LockFreeQueue.Fifo.{AllFit, steps-take}

abbrev packet : List ℕ → ℕ → PacketNode
packet bytes port = record {
  header = record { ts_sec = 1; ts_usec = 0; caplen = length bytes; len = length bytes };
  node_bytes = bytes;
  src_port = port;
  dst_port = 80;
  app_data = some 1;
  app_len = 2;
  valid = true;
}

abbrev empty_slots : ℕ → PacketNode
empty_slots i = packet [] 0

-- The reader tests before, between and after the steps of the writer.
abbrev run_steps : List Step
run_steps =
    pop_test
    ∷ push_test (packet (1 ∷ 2 ∷ 3 ∷ []) 5)
    ∷ push_bytes
    ∷ pop_test
    ∷ push_rest
    ∷ push_publish
    ∷ push_test (packet (4 ∷ 5 ∷ []) 6)
    ∷ pop_test
    ∷ push_bytes
    ∷ pop_bytes (packet [] 0)
    ∷ push_rest
    ∷ pop_rest
    ∷ push_publish
    ∷ pop_publish
    ∷ []

next_power_of_2-test : next_power_of_2 1000 ≡ 1024
unfolding next_power_of_2
next_power_of_2-test = refl

-- A capacity above 2 ^ 31 is rounded to nothing.
next_power_of_2-wraps : next_power_of_2 2147483649 ≡ 0
unfolding next_power_of_2
next_power_of_2-wraps = refl

three_rounded : next_power_of_2 3 ≡ suc (mask_of 2)
unfolding next_power_of_2
three_rounded = refl

three_created : lfq_create true true empty_slots 3 ≡ some (created empty_slots 3)
unfolding lfq_create
three_created = refl

run_steps-Fits : AllFit run_steps
run_steps-Fits = (
  tt,
  (
    omega arith,
    (tt, (tt, (tt, (tt, (omega arith, (tt, (tt, (tt, (tt, (tt, (tt, (tt, tt)))))))))))),
  ),
)

steps-take_example :
    ((steps run_steps (start (created empty_slots 3))).popped
      ≡ take
          (length (steps run_steps (start (created empty_slots 3))).popped)
          (steps run_steps (start (created empty_slots 3))).pushed)
    × (length (steps run_steps (start (created empty_slots 3))).popped
        ≤ length (steps run_steps (start (created empty_slots 3))).pushed)
    × (length (steps run_steps (start (created empty_slots 3))).pushed
        ≤ length (steps run_steps (start (created empty_slots 3))).popped + next_power_of_2 3)
steps-take_example =
    steps-take empty_slots 3 2 (created empty_slots 3) run_steps three_created three_rounded
      (omega arith) run_steps-Fits (omega arith)

reader_out : (steps run_steps (start (created empty_slots 3))).consumer ≡ Consumer.out
unfolding steps step lfq_is_full nothing_to_read write_slot read_slot set_slot next_power_of_2
reader_out = refl

second_next :
    get_elem?
      (steps run_steps (start (created empty_slots 3))).pushed
      (length (steps run_steps (start (created empty_slots 3))).popped)
    ≡ some (packet (4 ∷ 5 ∷ []) 6)
unfolding steps step lfq_is_full nothing_to_read write_slot read_slot set_slot next_power_of_2
second_next = refl

steps-pop_steps_example :
    (steps (pop_steps (packet [] 9)) (steps run_steps (start (created empty_slots 3)))).popped
    ≡ (steps run_steps (start (created empty_slots 3))).popped ++ packet (4 ∷ 5 ∷ []) 6 ∷ []
steps-pop_steps_example =
    steps-pop_steps empty_slots 3 2 (created empty_slots 3) run_steps three_created three_rounded
      (omega arith) run_steps-Fits (omega arith) (packet [] 9) (packet (4 ∷ 5 ∷ []) 6) reader_out
      second_next

writer_out : (steps run_steps (start (created empty_slots 3))).producer ≡ Producer.out
unfolding steps step lfq_is_full nothing_to_read write_slot read_slot set_slot next_power_of_2
writer_out = refl

has_room :
    length (steps run_steps (start (created empty_slots 3))).pushed
    < length (steps run_steps (start (created empty_slots 3))).popped + next_power_of_2 3
unfolding steps step lfq_is_full nothing_to_read write_slot read_slot set_slot next_power_of_2
has_room = omega arith

steps-push_steps_example :
    (steps
      (push_steps (packet (7 ∷ []) 8))
      (steps run_steps (start (created empty_slots 3)))).pushed
    ≡ (steps run_steps (start (created empty_slots 3))).pushed ++ value_of (packet (7 ∷ []) 8) ∷ []
steps-push_steps_example =
    steps-push_steps empty_slots 3 2 (created empty_slots 3) run_steps three_created three_rounded
      (omega arith) run_steps-Fits (omega arith) (packet (7 ∷ []) 8) writer_out has_room
