-- ===== src/Endpoint/Content.antt =====
-- The packets of a request on the wire: each fits a datagram, and the receiver's parser reads it
-- back as the packet that arrives.
use mathlib.Core.Path.{subst}
use mathlib.Core.Option.{some-injective}
use comp6461_computer_networ.Base.{ℕ, zero, suc, ◌+◌, ◌*◌, ◌≤◌, ◌<◌, ◌≡◌, refl, ap, ◌∙◌, arith}
use comp6461_computer_networ.Base.{
  true, Option, none, some, List, [], ◌∷◌, ◌++◌, ◌^◌, length, get_elem?,
}
use comp6461_computer_networ.Base.{All, ok}
use comp6461_computer_networ.Packet.{UdpAddr, Packet, raw_to, parse_packet, max_payload}
use comp6461_computer_networ.Packet.PacketType
use comp6461_computer_networ.Packet.RoundTrip.{IsUdp4, IsWire, arrived, parse_packet-raw_to}
use comp6461_computer_networ.Endpoint.{control, is_content}
use comp6461_computer_networ.Endpoint.Segments.{
  data_packets, request_packets, request_chunks, chunks-IsPiece, length-chunks, IsPiece,
}
use comp6461_computer_networ.Endpoint.Reassembly.{arrivals}
use comp6461_computer_networ.Endpoint.Receiver.{Event, arrives, checks}
use comp6461_computer_networ.Endpoint.Delivery.{IsOneOf, incoming}

-- A DATA or DELIVER packet as it arrives from `from`.
pub record IsArrival (from : UdpAddr) (q : Packet) : Type 0 where
  pub wire : IsWire q
  pub whole : arrived q from ≡ q
  pub content : is_content q ≡ true

arrivals-IsArrival :
    (from : UdpAddr) (to : Option UdpAddr) (seq last : ℕ) (cs : List (List ℕ)) (k : ℕ) (q : Packet)
    → All IsPiece cs
    → seq + length cs < 2 ^ 32
    → last < 2 ^ 32
    → get_elem?
        (arrivals from (data_packets to seq cs ++ (control PacketType.deliver last to ∷ [])))
        k
      ≡ some q
    → IsArrival from q
unfolding data_packets
arrivals-IsArrival from to seq last [] zero q fits s l at =
    subst (IsArrival from) (some-injective _ q at) (record {
      wire = record { type_byte = omega arith; seq_u32 = l; payload_fits = omega arith };
      whole = refl;
      content = refl;
    })
arrivals-IsArrival from to seq last [] (suc k) q fits s l at = cc
arrivals-IsArrival from to seq last (c ∷ cs) zero q fits s l at =
    subst (IsArrival from) (some-injective _ q at) (record {
      wire = record { type_byte = omega arith; seq_u32 = omega arith; payload_fits = fits.0.1 };
      whole = refl;
      content = refl;
    })
arrivals-IsArrival from to seq last (c ∷ cs) (suc k) q fits s l at =
    arrivals-IsArrival from to (seq + 1) last cs k q fits.1 (omega arith) l at

-- Every packet of a request that the windows have room for.
pub incoming-IsArrival :
    (from : UdpAddr) (to : Option UdpAddr) (req : List ℕ) (k : ℕ) (q : Packet)
    → length req ≤ 1022 * max_payload
    → get_elem? (incoming from to req) k ≡ some q
    → IsArrival from q
unfolding request_packets request_chunks
incoming-IsArrival from to req k q small at =
    arrivals-IsArrival from to 1 _ (request_chunks req) k q (chunks-IsPiece (length req) req)
      (omega (arith, length-chunks (length req) req))
      (omega (arith, length-chunks (length req) req)) at

pub parse_packet-arrival :
    (from : UdpAddr) (q : Packet)
    → IsUdp4 from
    → IsArrival from q
    → parse_packet (raw_to q from) ≡ ok (some q, none)
parse_packet-arrival from q v h =
    parse_packet-raw_to q from.ip from.port v.ip_v4 v.port_u16 h.wire
    ∙ ap (λ x. ok (some x, none)) h.whole

-- What arrives is content of `from`.
abbrev pub IsContent : UdpAddr → Event → Type 0
IsContent from (arrives q) = IsArrival from q
IsContent from checks = Unit

pub incoming-IsContent :
    (from : UdpAddr) (to : Option UdpAddr) (req : List ℕ) (vs : List Event)
    → length req ≤ 1022 * max_payload
    → All (IsOneOf (incoming from to req)) vs
    → All (IsContent from) vs
incoming-IsContent from to req [] small h = tt
incoming-IsContent from to req (arrives q ∷ vs) small ((k, at), h) =
    (incoming-IsArrival from to req k q small at, incoming-IsContent from to req vs small h)
incoming-IsContent from to req (checks ∷ vs) small (_, h) =
    (tt, incoming-IsContent from to req vs small h)
