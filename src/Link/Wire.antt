-- ===== src/Link/Wire.antt =====
-- The datagrams of a response and of its acknowledgements on their way through the router.
use mathlib.Core.Option.{some-injective}
use comp6461_computer_networ.Base.{ℕ, zero, suc, ◌+◌, ◌*◌, ◌≤◌, ◌<◌, ◌≡◌, refl, ap, ◌∙◌, arith, sym}
use comp6461_computer_networ.Base.{Option, some, List, [], ◌∷◌, ◌++◌, ◌^◌, length, get_elem?, ok}
use comp6461_computer_networ.Base.{get_elem?-map, >>=-of_ok, false}
use comp6461_computer_networ.Packet.{UdpAddr, Packet, raw_to, raw, max_payload}
use comp6461_computer_networ.Packet.PacketType
use comp6461_computer_networ.Packet.RoundTrip.{IsUdp4, IsWire, arrived}
use comp6461_computer_networ.Router
use comp6461_computer_networ.Router.Relay.{relay_lem}
use comp6461_computer_networ.Endpoint.{control}
use comp6461_computer_networ.Endpoint.Segments.{data_packets, request_packets, request_chunks}
use comp6461_computer_networ.Endpoint.Arrival.{ack_bytes}
use comp6461_computer_networ.Endpoint.Delivery.{incoming, part}
use comp6461_computer_networ.Endpoint.Content.{incoming-IsArrival}
use comp6461_computer_networ.Link.{relayed}

-- What the router lets through, the other side parses as it was sent.
pub relayed-raw_to :
    (p : Packet) (from to : UdpAddr)
    → IsUdp4 from
    → IsUdp4 to
    → IsWire p
    → p.to_addr ≡ some to
    → relayed from (raw_to p to) ≡ ok (some (arrived p from))
unfolding relayed raw
relayed-raw_to p from to f t w at =
    let (bytes, routed, parsed) = relay_lem Router.start p from to (omega arith) f t w at in
    let written : raw p ≡ ok (raw_to p to) = rw at in
    let out = sym (>>=-of_ok (raw p) (Router.receive 0 false Router.start from) written) ∙ routed in
    rw (out, parsed)

-- The acknowledgement of packet number `seq`, as it arrives.
abbrev pub answer : ℕ → UdpAddr → UdpAddr → Packet
answer seq from to = arrived (control PacketType.ack seq (some to)) from

pub relayed-ack_bytes :
    (seq : ℕ) (from to : UdpAddr)
    → IsUdp4 from
    → IsUdp4 to
    → seq < 2 ^ 32
    → relayed from (ack_bytes seq to) ≡ ok (some (answer seq from to))
relayed-ack_bytes seq from to f t lt =
    relayed-raw_to (control PacketType.ack seq (some to)) from to f t
      (record { type_byte = omega arith; seq_u32 = lt; payload_fits = omega arith }) refl

packets_to_addr :
    (to : Option UdpAddr) (seq last : ℕ) (cs : List (List ℕ)) (k : ℕ) (p : Packet)
    → get_elem? (data_packets to seq cs ++ (control PacketType.deliver last to ∷ [])) k ≡ some p
    → p.to_addr ≡ to
unfolding data_packets
packets_to_addr to seq last [] zero p at = ap (λ q. q.to_addr) (sym (some-injective _ p at))
packets_to_addr to seq last [] (suc k) p at = cc
packets_to_addr to seq last (c ∷ cs) zero p at = ap (λ q. q.to_addr) (sym (some-injective _ p at))
packets_to_addr to seq last (c ∷ cs) (suc k) p at = packets_to_addr to (seq + 1) last cs k p at

-- The `k`th packet of a response from `a` to `c`.
pub record IsPacket (a c : UdpAddr) (resp : List ℕ) (k : ℕ) (p : Packet) : Type 0 where
  pub comes : get_elem? (incoming a (some c) resp) k ≡ some (arrived p a)
  pub wire : IsWire p
  pub to : p.to_addr ≡ some c
  pub number : p.seq_num ≡ suc k
  pub place : k ≤ length (request_chunks resp)

pub request_packets-IsPacket :
    (a c : UdpAddr) (resp : List ℕ) (k : ℕ) (p : Packet)
    → length resp ≤ 1022 * max_payload
    → get_elem? (request_packets (some c) 1 resp) k ≡ some p
    → IsPacket a c resp k p
unfolding request_packets
request_packets-IsPacket a c resp k p small at =
    let comes : get_elem? (incoming a (some c) resp) k ≡ some (arrived p a) =
      get_elem?-map (request_packets (some c) 1 resp) (λ q. arrived q a) k p at in
    let q = part a (some c) resp k (arrived p a) comes in
    let w = (incoming-IsArrival a (some c) resp k (arrived p a) small comes).wire in
    record {
      comes = comes;
      wire = record { type_byte = w.type_byte; seq_u32 = w.seq_u32; payload_fits = w.payload_fits };
      to = packets_to_addr (some c) 1 _ (request_chunks resp) k p at;
      number = omega (arith, q.number);
      place = ground (arith, q.place);
    }
