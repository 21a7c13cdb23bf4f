-- ===== src/FilterThread/Parsing.antt =====
-- Bounds of `parse_packet_data` of src/rxfilterthread.cpp.
use rxtracenetcap.Prelude.{
  ℕ, zero, suc, ◌+◌, ◌*◌, ◌/◌, ◌%◌, ◌^◌, ◌≤◌, ◌<◌, ◌≡◌, ◌≢◌, refl, sym, subst, Bool, true, false,
  not, ◌||◌, none, some, List, [], ◌∷◌, Run, ok, ub, ◌>>=◌, length, ltb, leb, ◌==◌, if◌then◌else◌,
  Returns, arith,
}
use rxtracenetcap.Bytes.{byte_at}
use rxtracenetcap.FilterThread.{
  ParsedPacket, no_packet, with_ports, parse_ports, parse_by_type, port_at, payload,
  parse_transport, parse_ip, parse_packet_data,
}

-- The payload of a valid packet ends with the packet, and one that is not valid has none.
abbrev pub WithinPacket : List ℕ → ParsedPacket → Type 0
WithinPacket bytes p = elim (p.app_data) [
  | none ↦ (p.valid ≡ false) × (p.app_len ≡ 0)
  | some offset ↦ (p.valid ≡ true) × (offset + p.app_len ≡ length bytes) × (offset < length bytes)
]

byte_at-inside : (bytes : List ℕ) (i : ℕ) → i < length bytes → (b : ℕ) × (byte_at bytes i ≡ ok b)
unfolding byte_at
byte_at-inside [] i h = absurd (omega (arith, h))
byte_at-inside (x ∷ bytes) zero h = (x, refl)
byte_at-inside (x ∷ bytes) (suc i) h = byte_at-inside bytes i (omega (arith, h))

byte_at-outside : (bytes : List ℕ) (i : ℕ) → length bytes ≤ i → byte_at bytes i ≡ ub
unfolding byte_at
byte_at-outside [] i h = refl
byte_at-outside (x ∷ bytes) zero h = absurd (omega (arith, h))
byte_at-outside (x ∷ bytes) (suc i) h = byte_at-outside bytes i (omega (arith, h))

if-Returns :
    {A : Type 0} (P : A → Type 0) (b : Bool) (x y : Run A)
    → (b ≡ true → Returns P x)
    → (b ≡ false → Returns P y)
    → Returns P (if b then x else y)
if-Returns P true x y h k = h refl
if-Returns P false x y h k = k refl

after-Returns :
    {A : Type 0} {B : Type 0} (P : B → Type 0) (m : Run A) (f : A → Run B)
    → (a : A) × (m ≡ ok a)
    → ((a : A) → m ≡ ok a → Returns P (f a))
    → Returns P (m >>= f)
after-Returns P m f (a, e) k = subst (λ x. Returns P (x >>= f)) (sym e) (k a e)

port_at-inside :
    (bytes : List ℕ) (i : ℕ) → i + 1 < length bytes → (v : ℕ) × (port_at bytes i ≡ ok v)
port_at-inside bytes i h =
    (let (hi, e) = byte_at-inside bytes i (omega (arith, h)) in
      let (lo, f) = byte_at-inside bytes (i + 1) h in (hi * 2 ^ 8 + lo, rw (e, f) refl))

payload-WithinPacket :
    (bytes : List ℕ) (offset src dst : ℕ)
    → WithinPacket bytes (payload (length bytes) offset (with_ports src dst))
payload-WithinPacket bytes offset src dst = go (leb (length bytes) offset) refl
  where
    go :
        (b : Bool)
        → leb (length bytes) offset ≡ b
        → WithinPacket bytes (payload (length bytes) offset (with_ports src dst))
    go true e = rw (e) (refl, refl)
    go false e = rw (e) (ground (arith, e), ground (arith, e), ground (arith, e))

long_enough : (b : Bool) (n : ℕ) → (b || ltb n 34) ≡ false → 34 ≤ n
long_enough true n e = ground (arith, e)
long_enough false n e = ground (arith, e)

or_short : (n m : ℕ) → (ltb n m || ltb n (m + 4)) ≡ false → m + 4 ≤ n
or_short n m e = ground (arith, e)

transport-WithinPacket :
    (bytes : List ℕ) (protocol start src dst : ℕ)
    → length bytes ≢ start + 12
    → Returns (WithinPacket bytes) (parse_transport bytes protocol start (with_ports src dst))
unfolding parse_transport
transport-WithinPacket bytes protocol start src dst h =
    if-Returns (WithinPacket bytes) (protocol == 6)
      (if ltb (length bytes) (start + 12)
        then ok (with_ports src dst)
        else (byte_at bytes (start + 12) >>= tcp))
      (if protocol == 17
        then ok (payload (length bytes) (start + 8) (with_ports src dst))
        else ok (with_ports src dst))
      (λ e.
        if-Returns (WithinPacket bytes) (ltb (length bytes) (start + 12)) (ok (with_ports src dst))
          (byte_at bytes (start + 12) >>= tcp) (λ f. (refl, refl))
          (λ f.
            after-Returns (WithinPacket bytes) (byte_at bytes (start + 12)) tcp
              (byte_at-inside bytes (start + 12) (beyond (length bytes) (start + 12) h f))
              (λ b q. payload-WithinPacket bytes (start + b / 16 % 16 * 4) src dst)))
      (λ e.
        if-Returns (WithinPacket bytes) (protocol == 17)
          (ok (payload (length bytes) (start + 8) (with_ports src dst))) (ok (with_ports src dst))
          (λ f. payload-WithinPacket bytes (start + 8) src dst) (λ f. (refl, refl)))
  where
    tcp : ℕ → Run ParsedPacket
    tcp b = ok (payload (length bytes) (start + b / 16 % 16 * 4) (with_ports src dst))

    beyond : (n m : ℕ) → n ≢ m → ltb n m ≡ false → m < n
    beyond n m ne e = ground (arith, ne, e)

ports-WithinPacket :
    (bytes : List ℕ) (protocol start : ℕ)
    → length bytes ≢ start + 12
    → Returns (WithinPacket bytes) (parse_ports bytes protocol start)
unfolding parse_ports
ports-WithinPacket bytes protocol start h =
    if-Returns (WithinPacket bytes) (ltb (length bytes) start || ltb (length bytes) (start + 4))
      (ok no_packet)
      (port_at bytes start >>= (λ src.
        port_at bytes (start + 2)
        >>= (λ dst. parse_transport bytes protocol start (with_ports src dst))))
      (λ e. (refl, refl))
      (λ e.
        after-Returns (WithinPacket bytes) (port_at bytes start)
          (λ src.
            port_at bytes (start + 2)
            >>= (λ dst. parse_transport bytes protocol start (with_ports src dst)))
          (port_at-inside bytes start (omega (arith, or_short (length bytes) start e)))
          (λ src q.
            after-Returns (WithinPacket bytes) (port_at bytes (start + 2))
              (λ dst. parse_transport bytes protocol start (with_ports src dst))
              (port_at-inside bytes (start + 2) (omega (arith, or_short (length bytes) start e)))
              (λ dst r. transport-WithinPacket bytes protocol start src dst h)))

ip-WithinPacket :
    (bytes : List ℕ)
    → ((first : ℕ) → byte_at bytes 14 ≡ ok first → length bytes ≢ 14 + first % 16 * 4 + 12)
    → 34 ≤ length bytes
    → Returns (WithinPacket bytes) (parse_ip bytes)
unfolding parse_ip parse_ports
ip-WithinPacket bytes h long =
    after-Returns (WithinPacket bytes) (byte_at bytes 14)
      (λ first. byte_at bytes 23 >>= (λ protocol. parse_ports bytes protocol (14 + first % 16 * 4)))
      (byte_at-inside bytes 14 (omega (arith, long)))
      (λ first q.
        after-Returns (WithinPacket bytes) (byte_at bytes 23)
          (λ protocol. parse_ports bytes protocol (14 + first % 16 * 4))
          (byte_at-inside bytes 23 (omega (arith, long)))
          (λ protocol r. ports-WithinPacket bytes protocol (14 + first % 16 * 4) (h first q)))

-- A packet that does not end exactly 12 bytes after the start of its transport header is parsed
-- without a read outside of it. The payload of a packet that is found
-- valid ends with the packet and is not empty, and one that is not valid has none.
pub parse_packet_data-WithinPacket :
    (bytes : List ℕ)
    → ((first : ℕ) → byte_at bytes 14 ≡ ok first → length bytes ≢ 14 + first % 16 * 4 + 12)
    → Returns (WithinPacket bytes) (parse_packet_data bytes)
unfolding parse_packet_data parse_ip parse_ports parse_transport
parse_packet_data-WithinPacket bytes h =
    if-Returns (WithinPacket bytes) (ltb (length bytes) 14) (ok no_packet)
      (port_at bytes 12 >>= parse_by_type bytes) (λ e. (refl, refl))
      (λ e.
        after-Returns (WithinPacket bytes) (port_at bytes 12) (parse_by_type bytes)
          (port_at-inside bytes 12 (ground (arith, e)))
          (λ eth_type q.
            if-Returns (WithinPacket bytes) (not (eth_type == 2048) || ltb (length bytes) 34)
              (ok no_packet) (parse_ip bytes) (λ f. (refl, refl))
              (λ f.
                ip-WithinPacket bytes h (long_enough (not (eth_type == 2048)) (length bytes) f))))

not_less : (n m : ℕ) → m ≤ n → ltb n m ≡ false
not_less n m h = ground (arith, h)

-- A TCP packet over IPv4 of at least 34 bytes that ends exactly 12 bytes after the start of its
-- transport header is read one byte past its end.
pub parse_packet_data-ub :
    (bytes : List ℕ) (first : ℕ)
    → port_at bytes 12 ≡ ok 2048
    → byte_at bytes 14 ≡ ok first
    → byte_at bytes 23 ≡ ok 6
    → length bytes ≡ 14 + first % 16 * 4 + 12
    → 34 ≤ length bytes
    → parse_packet_data bytes ≡ ub
unfolding parse_packet_data parse_ip parse_ports parse_transport
parse_packet_data-ub bytes first e₁ e₂ e₃ len long =
    (let start = 14 + first % 16 * 4 in
      let (src, s_ok) = port_at-inside bytes start (omega (arith, len)) in
      let (dst, d_ok) = port_at-inside bytes (start + 2) (omega (arith, len)) in
      rw
        (
          not_less (length bytes) 14 (omega (arith, long)),
          e₁,
          not_less (length bytes) 34 long,
          e₂,
          e₃,
          not_less (length bytes) start (omega (arith, len)),
          not_less (length bytes) (start + 4) (omega (arith, len)),
          s_ok,
          d_ok,
          not_less (length bytes) (start + 12) (omega (arith, len)),
          byte_at-outside bytes (start + 12) (omega (arith, len)),
        )
        refl)
