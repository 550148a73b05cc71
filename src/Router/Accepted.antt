-- ===== src/Router/Accepted.antt =====
-- What an event adds to the router's work: the datagrams of the packets that it takes on.
use comp6461_computer_networ.Base.{ℕ, ◌+◌, ◌-◌, ◌%◌, ◌^◌, ◌≡◌, refl}
use comp6461_computer_networ.Base.{none, some, List, [], ◌∷◌, ◌++◌}
use comp6461_computer_networ.Base.{ok, arith, length}
use comp6461_computer_networ.Base.{ltb, Bool-cases, if◌then◌else◌, inl, inr}
use comp6461_computer_networ.Base.Bytes.{join_u16, join_u32}
use comp6461_computer_networ.Packet.{
  v4, UdpAddr, Packet, ParseError, too_short, exceeded_max_length,
}
use comp6461_computer_networ.Router.{
  Router, Datagram, Event, arrival, timer, raw_from, parse_packet,
}
use comp6461_computer_networ.Router.{send}
use comp6461_computer_networ.Router.{resolve_to}

-- What the router writes for a packet.
abbrev pub datagram : Packet → Datagram
datagram p = (p.to_addr, elim p.from_addr [ none ↦ [] | some from ↦ raw_from p from ])

-- The datagrams of the packets that an event adds: a packet that parses and is not dropped.
abbrev pub accepted : Event → List Datagram
accepted (arrival drop from bytes) = elim (parse_packet from bytes) [
  | ok (some p, none) ↦ if drop then [] else datagram p ∷ []
  | _ ↦ []
]
accepted (timer i) = []

abbrev pub all_accepted : List Event → List Datagram
all_accepted [] = []
all_accepted (e ∷ es) = accepted e ++ all_accepted es

abbrev pub HasSender : Packet → Type 0
HasSender p = (a : UdpAddr) × (p.from_addr ≡ some a)

pub send_lem :
    (r : Router) (p : Packet)
    → HasSender p
    → send r p
      ≡ ok (record r {
        queue_size = (r.queue_size + 2 ^ 32 - 1) % 2 ^ 32;
        written = r.written ++ (datagram p ∷ []);
      })
unfolding send
send_lem r p (a, e) = rw e

-- The parser never panics, and names the sender.
pub data Parsed (from : UdpAddr) (bytes : List ℕ) : Type 0 where
  packet :
      (p : Packet) → parse_packet from bytes ≡ ok (some p, none) → HasSender p → Parsed from bytes
  error : (e : ParseError) → parse_packet from bytes ≡ ok (none, some e) → Parsed from bytes

pub parse_packet-Parsed : (from : UdpAddr) (bytes : List ℕ) → Parsed from bytes
unfolding parse_packet
parse_packet-Parsed from (t ∷ a ∷ b ∷ c ∷ d ∷ e ∷ f ∷ g ∷ h ∷ i ∷ j ∷ rest) =
    elim (Bool-cases (ltb 1024 (length rest + 11))) [
      | inl long ↦ error (exceeded_max_length (length rest + 11)) (ground arith)
      | inr fits ↦
          packet
            (record {
              type = t;
              seq_num = join_u32 a b c d;
              to_addr = some (resolve_to from (record { ip = v4 e f g h; port = join_u16 i j }));
              from_addr = some from;
              payload = rest;
            })
            (ground arith) (from, refl)
    ]
parse_packet-Parsed from bytes = error (too_short (length bytes)) (ground arith)
