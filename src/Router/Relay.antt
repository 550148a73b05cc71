-- ===== src/Router/Relay.antt =====
-- What becomes of one packet on its way from one program through the router to the other.
use comp6461_computer_networ.Base.{ℕ, ◌+◌, ◌-◌, ◌%◌, ◌^◌, ◌≡◌, false, none, some}
use comp6461_computer_networ.Base.{List, [], ◌∷◌, ◌++◌, ok, ◌>>=◌, arith}
use comp6461_computer_networ.Base.Bytes.{IsU16, IsU32, join_u16-split, join_u32-split}
use comp6461_computer_networ.Packet
use comp6461_computer_networ.Packet.RoundTrip
use comp6461_computer_networ.Packet.{Ip, v4, v6, UdpAddr, Packet}
use comp6461_computer_networ.Packet.RoundTrip.{IsV4, IsUdp4, IsWire, arrived}
use comp6461_computer_networ.Router.{
  Router, resolve_to, raw_from, parse_packet, send, process, receive,
}

-- The packet that the router reads from `p`, sent by `from` to `to`.
abbrev pub routed : Packet → UdpAddr → UdpAddr → Packet
routed p from to = record p { to_addr = some (resolve_to from to); from_addr = some from }

pub parse_packet-raw_to :
    (p : Packet) (from : UdpAddr) (ip : Ip) (port : ℕ)
    → IsV4 ip
    → IsU16 port
    → IsWire p
    → parse_packet from (Packet.raw_to p (record { ip = ip; port = port }))
      ≡ ok (some (routed p from (record { ip = ip; port = port })), none)
unfolding parse_packet
parse_packet-raw_to p from (v6 bytes) port v hp w = absurd v
parse_packet-raw_to p from (v4 a b c d) port v hp w =
    ground (arith, join_u32-split p.seq_num, join_u16-split port)

incr-decr : (q : ℕ) → IsU32 q → ((q + 1) % 2 ^ 32 + 2 ^ 32 - 1) % 2 ^ 32 ≡ q
incr-decr q h = omega arith

receive_at_once :
    (r : Router) (p : Packet) (from to : UdpAddr)
    → IsU32 r.queue_size
    → IsUdp4 to
    → IsWire p
    → receive 0 false r from (Packet.raw_to p to)
      ≡ ok (record r { written = r.written ++ ((some (resolve_to from to), raw_from p from) ∷ []) })
unfolding receive process send
receive_at_once r p from to q t w =
    rw (parse_packet-raw_to p from to.ip to.port t.ip_v4 t.port_u16 w, incr-decr r.queue_size q)

pub relay_lem :
    (r : Router) (p : Packet) (from to : UdpAddr)
    → IsU32 r.queue_size
    → IsUdp4 from
    → IsUdp4 to
    → IsWire p
    → p.to_addr ≡ some to
    → (bytes : List ℕ) × ((Packet.raw p >>= receive 0 false r from)
        ≡ ok (record r { written = r.written ++ ((some (resolve_to from to), bytes) ∷ []) }))
      × (Packet.parse_packet bytes ≡ ok (some (arrived p from), none))
unfolding Packet.raw
relay_lem r p from to q f t w e = (
  raw_from p from,
  rw e (receive_at_once r p from to q t w),
  RoundTrip.parse_packet-raw_to p from.ip from.port f.ip_v4 f.port_u16 w,
)
