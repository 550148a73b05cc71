-- ===== src/Endpoint/Signal.antt =====
-- The datagrams of the handshake: packets with no payload and with number 0.
use comp6461_computer_networ.Base.{ℕ, ◌<◌, ◌≡◌, none, some, List, ok, arith}
use comp6461_computer_networ.Packet.{UdpAddr, raw_to, parse_packet}
use comp6461_computer_networ.Packet.RoundTrip.{IsUdp4, arrived, parse_packet-raw_to}
use comp6461_computer_networ.Endpoint.{control}

-- The datagram of such a packet in which `a` stands as the address.
abbrev pub signal : ℕ → UdpAddr → List ℕ
signal type a = raw_to (control type 0 none) a

-- The receiver reads it as a packet of `a`.
pub parse_packet-signal :
    (type : ℕ) (a : UdpAddr)
    → IsUdp4 a
    → type < 256
    → parse_packet (signal type a) ≡ ok (some (arrived (control type 0 none) a), none)
parse_packet-signal type a v small =
    parse_packet-raw_to (control type 0 none) a.ip a.port v.ip_v4 v.port_u16
      (record { type_byte = small; seq_u32 = omega arith; payload_fits = omega arith })
