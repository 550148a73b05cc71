-- ===== src/Network/Carried.antt =====
-- A datagram of one program on its way through the router to the other.
use comp6461_computer_networ.Base.{ℕ, ◌^◌, ◌<◌, ◌≡◌, refl, sym, ◌∙◌, arith, none, some, List, ok}
use comp6461_computer_networ.Base.{false, >>=-of_ok}
use comp6461_computer_networ.Packet.{UdpAddr, Packet, raw, raw_to, parse_packet}
use comp6461_computer_networ.Packet.RoundTrip.{IsUdp4, IsWire, arrived}
use comp6461_computer_networ.Endpoint.{control}
use comp6461_computer_networ.Router
use comp6461_computer_networ.Router.Relay.{relay_lem}
use comp6461_computer_networ.Network.{carried}

-- What comes out for a packet reads as the packet that was sent.
pub carried-raw_to :
    (p : Packet) (from to : UdpAddr)
    → IsUdp4 from
    → IsUdp4 to
    → IsWire p
    → p.to_addr ≡ some to
    → (out : List ℕ) × (carried from (raw_to p to) ≡ ok (some out))
      × (parse_packet out ≡ ok (some (arrived p from), none))
unfolding carried raw
carried-raw_to p from to f t w at =
    let (bytes, routed, parsed) = relay_lem Router.start p from to (omega arith) f t w at in
    let written : raw p ≡ ok (raw_to p to) = rw at in
    let out = sym (>>=-of_ok (raw p) (Router.receive 0 false Router.start from) written) ∙ routed in
    (bytes, rw out refl, parsed)

-- A packet without a payload.
pub carried-control :
    (type seq : ℕ) (from to : UdpAddr)
    → IsUdp4 from
    → IsUdp4 to
    → type < 256
    → seq < 2 ^ 32
    → (out : List ℕ) × (carried from (raw_to (control type seq (some to)) to) ≡ ok (some out))
      × (parse_packet out ≡ ok (some (arrived (control type seq (some to)) from), none))
carried-control type seq from to f t byte word =
    carried-raw_to (control type seq (some to)) from to f t
      (record { type_byte = byte; seq_u32 = word; payload_fits = omega arith }) refl
