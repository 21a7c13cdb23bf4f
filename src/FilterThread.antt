-- ===== src/FilterThread.antt =====
-- src/rxfilterthread.cpp: the filter thread, which keeps the packets of a capture that match a PDEF
-- protocol. A packet is the list of its captured bytes; pcap_next_ex hands them over in order, and
-- what is written to the output file is the list of the kept ones. Log output is left out.
pub mod Parsing
pub mod Keeping
mod Tests
use rxtracenetcap.Prelude.{
  ℕ, suc, ◌+◌, ◌-◌, ◌*◌, ◌/◌, ◌%◌, ◌^◌, Bool, true, false, not, ◌||◌, Option, none, some, List, [],
  ◌∷◌, ◌++◌, Run, ok, ◌>>=◌, drop, length, ltb, leb, ◌==◌, if◌then◌else◌,
}
use rxtracenetcap.Bytes.{byte_at}
use rxtracenetcap.Pdef.Types.{ProtocolDef}
use rxtracenetcap.Pdef.Protocol.{packet_filter_match}

-- `app_data` is given by its offset in the packet.
pub record ParsedPacket : Type 0 where
  pub app_data : Option ℕ
  pub app_len : ℕ
  pub src_port : ℕ
  pub dst_port : ℕ
  pub valid : Bool

abbrev pub no_packet : ParsedPacket
no_packet = record { app_data = none; app_len = 0; src_port = 0; dst_port = 0; valid = false }

abbrev pub with_ports : ℕ → ℕ → ParsedPacket
with_ports src_port dst_port = record no_packet { src_port = src_port; dst_port = dst_port }

-- `(hi << 8) | lo`
abbrev pub port_at : List ℕ → ℕ → Run ℕ
port_at bytes offset = do
  hi ← byte_at bytes offset
  lo ← byte_at bytes (offset + 1)
  ok (hi * 2 ^ 8 + lo)

-- The end of `parse_packet_data`: what follows the three headers.
abbrev pub payload : ℕ → ℕ → ParsedPacket → ParsedPacket
payload len offset result = if leb len offset then result else record result {
  app_data = some offset;
  app_len = len - offset;
  valid = ltb 0 (len - offset);
}

-- From the branch on the protocol on, where the transport header starts at `start`.
unfoldable pub parse_transport : List ℕ → ℕ → ℕ → ParsedPacket → Run ParsedPacket
parse_transport bytes protocol start result =
    if protocol == 6
    then (if ltb (length bytes) (start + 12) then ok result else do
      b ← byte_at bytes (start + 12)
      ok (payload (length bytes) (start + b / 16 % 16 * 4) result))
    else if protocol == 17
    then ok (payload (length bytes) (start + 8) result)
    else ok result

-- The ports, in a transport header that starts at `start`, and what follows.
unfoldable pub parse_ports : List ℕ → ℕ → ℕ → Run ParsedPacket
parse_ports bytes protocol start =
    if ltb (length bytes) start || ltb (length bytes) (start + 4) then ok no_packet else do
      src_port ← port_at bytes start
      dst_port ← port_at bytes (start + 2)
      parse_transport bytes protocol start (with_ports src_port dst_port)

-- From the IP header on, for a packet of at least 34 bytes.
unfoldable pub parse_ip : List ℕ → Run ParsedPacket
parse_ip bytes = do
  first ← byte_at bytes 14
  protocol ← byte_at bytes 23
  parse_ports bytes protocol (14 + first % 16 * 4)

abbrev pub parse_by_type : List ℕ → ℕ → Run ParsedPacket
parse_by_type bytes eth_type =
    if not (eth_type == 2048) || ltb (length bytes) 34 then ok no_packet else parse_ip bytes

unfoldable pub parse_packet_data : List ℕ → Run ParsedPacket
parse_packet_data bytes =
    if ltb (length bytes) 14 then ok no_packet else (port_at bytes 12 >>= parse_by_type bytes)

-- A second attempt where the first one fails.
abbrev pub or_again :
    (ProtocolDef → Run (Bool × ProtocolDef)) → Bool × ProtocolDef → Run (Bool × ProtocolDef)
or_again next (true, pdef) = ok (true, pdef)
or_again next (false, pdef) = next pdef

-- `packet_filter_match` on the destination port and then on the source port.
unfoldable pub match_either_port :
    ℕ → List ℕ → ParsedPacket → ProtocolDef → Run (Bool × ProtocolDef)
match_either_port fuel app p pdef =
    packet_filter_match fuel app p.dst_port pdef
    >>= or_again (packet_filter_match fuel app p.src_port)

abbrev pub app_bytes : List ℕ → Option ℕ → List ℕ
app_bytes bytes none = []
app_bytes bytes (some offset) = drop offset bytes

unfoldable pub filter_parsed : ℕ → List ℕ → ProtocolDef → ParsedPacket → Run (Bool × ProtocolDef)
filter_parsed fuel bytes pdef p =
    if not p.valid || p.app_len == 0
    then ok (false, pdef)
    else match_either_port fuel (app_bytes bytes p.app_data) p pdef

-- One packet of the loop of `handle_raw_file`.
unfoldable pub filter_packet : ℕ → List ℕ → ProtocolDef → Run (Bool × ProtocolDef)
filter_packet fuel bytes pdef = do p ← parse_packet_data bytes; filter_parsed fuel bytes pdef p

-- What the loop has so far: the output file and its counters, of type `unsigned long`.
pub record Progress : Type 0 where
  pub kept : List (List ℕ)
  pub total : ℕ
  pub matched : ℕ
  pub pdef : ProtocolDef

abbrev pub count : List ℕ → Progress → Bool × ProtocolDef → Progress
count bytes s (true, pdef) = record {
  kept = s.kept ++ bytes ∷ [];
  total = (s.total + 1) % 2 ^ 64;
  matched = (s.matched + 1) % 2 ^ 64;
  pdef = pdef;
}
count bytes s (false, pdef) = record s { total = (s.total + 1) % 2 ^ 64; pdef = pdef }

-- The loop over the packets of the raw file.
unfoldable pub filter_packets : ℕ → List (List ℕ) → Progress → Run Progress
filter_packets fuel [] s = ok s
filter_packets fuel (bytes ∷ packets) s = do
  result ← filter_packet fuel bytes s.pdef
  filter_packets fuel packets (count bytes s result)
