-- ===== src/LockFreeQueue/Copies.antt =====
-- A packet that src/rxlockfreequeue.c copies into a slot, and out of it, is the same packet.
use rxtracenetcap.Prelude.{
  ℕ, zero, suc, ◌%◌, ◌≤◌, ◌<◌, ◌≡◌, ◌≢◌, refl, ap, ◌∙◌, Bool, true, false, Option, none, some, List,
  [], ◌∷◌, ◌++◌, if◌then◌else◌, ==_iff, take, drop, length, length-append, get_elem?, bit_and,
  arith,
}
use rxtracenetcap.Prelude.Options.{some_injective}
use rxtracenetcap.LockFreeQueue.{
  PacketNode, LockFreeQueue, copy_bytes, copy_rest, set_slot, write_slot, read_slot, value_of,
}
use rxtracenetcap.LockFreeQueue.Slots.{mask_of, bit_and-mask_of}

-- The packet has as many bytes as it says.
abbrev pub Fits : PacketNode → Type 0
Fits node = node.header.caplen ≤ length node.node_bytes

take_again : (n : ℕ) (xs ys : List ℕ) → n ≤ length xs → take n (take n xs ++ ys) ≡ take n xs
take_again zero xs ys h = refl
take_again (suc n) [] ys h = absurd (omega (arith, h))
take_again (suc n) (x ∷ xs) ys h = ap (λ l. x ∷ l) (take_again n xs ys (omega (arith, h)))

length-take : (n : ℕ) (xs : List ℕ) → n ≤ length xs → length (take n xs) ≡ n
length-take zero xs h = refl
length-take (suc n) [] h = absurd (omega (arith, h))
length-take (suc n) (x ∷ xs) h = ap suc (length-take n xs (omega (arith, h)))

app_twice :
    (b : Bool) (o : Option ℕ)
    → (if b then (if b then o else none) else none) ≡ (if b then o else none)
app_twice true o = refl
app_twice false o = refl

-- The first part of the copy of `x` is in `node`.
abbrev pub HasBytes : PacketNode → PacketNode → Type 0
HasBytes x node =
    (node.header ≡ x.header)
    × (take x.header.caplen node.node_bytes ≡ take x.header.caplen x.node_bytes)

pub copy_bytes-HasBytes :
    (item slot : PacketNode) → Fits item → HasBytes item (copy_bytes item slot)
copy_bytes-HasBytes item slot h = (
  refl,
  take_again item.header.caplen item.node_bytes (drop item.header.caplen slot.node_bytes) h,
)

pub copy_bytes-Fits : (item slot : PacketNode) → Fits item → Fits (copy_bytes item slot)
copy_bytes-Fits item slot h = omega (
  arith,
  h,
  length-append (take item.header.caplen item.node_bytes) (drop item.header.caplen slot.node_bytes),
  length-take item.header.caplen item.node_bytes h,
)

-- The second part completes it.
pub value_of-copy_rest :
    (item slot : PacketNode) → HasBytes item slot → value_of (copy_rest item slot) ≡ value_of item
value_of-copy_rest item slot (e, f) = cc (e, f, app_twice item.valid item.app_data)

module _ (q : LockFreeQueue) (k : ℕ) (mask_is : q.mask ≡ mask_of k) (w : ℕ) where
  slot_is : bit_and w q.mask ≡ w % suc (mask_of k)
  slot_is = ap (bit_and w) mask_is ∙ bit_and-mask_of w k

  pub write_slot_self :
      (change : PacketNode → PacketNode)
      → (write_slot w change q).buffer (w % suc (mask_of k))
        ≡ change (q.buffer (w % suc (mask_of k)))
  unfolding write_slot set_slot
  write_slot_self change =
      rw slot_is (rw ((==_iff (w % suc (mask_of k)) (w % suc (mask_of k))).1 refl) refl)

  pub write_slot_other :
      (change : PacketNode → PacketNode) (j : ℕ)
      → j ≢ w % suc (mask_of k)
      → (write_slot w change q).buffer j ≡ q.buffer j
  unfolding write_slot set_slot
  write_slot_other change j ne = rw slot_is (ground (arith, ne))

  pub read_slot_is : read_slot w q ≡ q.buffer (w % suc (mask_of k))
  unfolding read_slot
  read_slot_is = ap q.buffer slot_is

pub get_elem?-append :
    (xs ys : List PacketNode) (i : ℕ) → i < length xs → get_elem? (xs ++ ys) i ≡ get_elem? xs i
get_elem?-append [] ys i h = absurd (omega (arith, h))
get_elem?-append (x ∷ xs) ys zero h = refl
get_elem?-append (x ∷ xs) ys (suc i) h = get_elem?-append xs ys i (omega (arith, h))

pub get_elem?-last :
    (xs : List PacketNode) (x : PacketNode) → get_elem? (xs ++ x ∷ []) (length xs) ≡ some x
get_elem?-last [] x = refl
get_elem?-last (x ∷ xs) y = get_elem?-last xs y

-- A list that agrees with another wherever it has an element is the front of the other.
pub take-get_elem? :
    (xs ys : List PacketNode)
    → length xs ≤ length ys
    → ((i : ℕ) → i < length xs → get_elem? xs i ≡ get_elem? ys i)
    → xs ≡ take (length xs) ys
take-get_elem? [] ys h same = refl
take-get_elem? (x ∷ xs) [] h same = absurd (omega (arith, h))
take-get_elem? (x ∷ xs) (y ∷ ys) h same = cc (
  some_injective (same 0 (omega (arith, h))),
  take-get_elem? xs ys (omega (arith, h)) (λ i k. same (suc i) (omega (arith, k))),
)
