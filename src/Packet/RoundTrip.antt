-- ===== src/Packet/RoundTrip.antt =====
-- `Raw` and `ParsePacket` against each other, and the lengths that `ParsePacket` takes.
use comp6461_computer_networ.Base.{ℕ, ◌+◌, ◌≤◌, ◌<◌, ◌≡◌, ◌⊎◌, inl, inr, arith}
use comp6461_computer_networ.Base.{Option, none, some, List, ◌∷◌, ok, length, All}
use comp6461_computer_networ.Base.{ltb, Bool-cases, ◌>>=◌}
use comp6461_computer_networ.Base.Bytes.{
  IsByte, IsU16, IsU32, join_u16, join_u32, join_u16-split, join_u32-split,
}
use comp6461_computer_networ.Base.Bytes.{split-join_u16, split-join_u32}
use comp6461_computer_networ.Packet.{min_len, max_len, max_payload, Ip, v4, v6, UdpAddr, Packet}
use comp6461_computer_networ.Packet.{
  raw_to, raw, ParseError, too_short, exceeded_max_length, parse_packet,
}

abbrev pub IsV4 : Ip → Type 0
IsV4 (v4 a b c d) = IsByte a × IsByte b × IsByte c × IsByte d
IsV4 (v6 _) = ⊥

-- An IPv4 address with a port of 16 bits.
pub record IsUdp4 (a : UdpAddr) : Type 0 where
  pub ip_v4 : IsV4 a.ip
  pub port_u16 : IsU16 a.port

-- The fields of a packet fit the Go types, and it fits one datagram.
pub record IsWire (p : Packet) : Type 0 where
  pub type_byte : IsByte p.type
  pub seq_u32 : IsU32 p.seq_num
  pub payload_fits : length p.payload ≤ max_payload

-- The packet that the peer's parser makes of `p` when `a` stands in the address field.
abbrev pub arrived : Packet → UdpAddr → Packet
arrived p a = record p { to_addr = none; from_addr = some a }

pub parse_packet-raw_to :
    (p : Packet) (ip : Ip) (port : ℕ)
    → IsV4 ip
    → IsU16 port
    → IsWire p
    → parse_packet (raw_to p (record { ip = ip; port = port }))
      ≡ ok (some (arrived p (record { ip = ip; port = port })), none)
unfolding parse_packet
parse_packet-raw_to p (v6 bytes) port v hp w = absurd v
parse_packet-raw_to p (v4 a b c d) port v hp w =
    ground (arith, join_u32-split p.seq_num, join_u16-split port)

-- What a packet writes whose fields fit the Go types, with an IPv4 destination and a payload of at
-- most 1013 bytes, the parser reads back: the same type, number and payload, the destination as
-- FromAddr, and no error.
pub parse_packet-raw :
    (p : Packet) (a : UdpAddr)
    → p.to_addr ≡ some a
    → IsUdp4 a
    → IsWire p
    → (raw p >>= parse_packet) ≡ ok (some (arrived p a), none)
unfolding raw
parse_packet-raw p a to v w = rw to (parse_packet-raw_to p a.ip a.port v.ip_v4 v.port_u16 w)

abbrev Rejects : List ℕ → ParseError → Type 0
Rejects bytes e = parse_packet bytes ≡ ok (none, some e)

-- `ParsePacket` never panics. Under 11 bytes it answers with the too-short error, over 1024 bytes
-- with the too-long error, each with the length and no packet; on all other inputs it answers
-- with no error and a packet whose payload is all but 11 of the bytes.
pub parse_packet_outcome :
    (bytes : List ℕ)
    → ((length bytes < min_len) × Rejects bytes (too_short (length bytes)))
      ⊎ ((max_len < length bytes) × Rejects bytes (exceeded_max_length (length bytes)))
      ⊎ ((p : Packet) × (min_len ≤ length bytes)
          × (length bytes ≤ max_len)
          × (parse_packet bytes ≡ ok (some p, none))
          × (length p.payload + min_len ≡ length bytes))
unfolding parse_packet
parse_packet_outcome (t ∷ a ∷ b ∷ c ∷ d ∷ e ∷ f ∷ g ∷ h ∷ i ∷ j ∷ rest) =
    elim (Bool-cases (ltb max_len (length rest + 11))) [
      | inl long ↦ inr (inl (ground arith, ground arith))
      | inr fits ↦ inr (inr (read, ground arith, ground arith, ground arith, ground arith))
    ]
  where
    read : Packet
    read = record {
      type = t;
      seq_num = join_u32 a b c d;
      to_addr = none;
      from_addr = some (record { ip = v4 e f g h; port = join_u16 i j });
      payload = rest;
    }
parse_packet_outcome _ = inl (ground arith, ground arith)

-- On bytes the parser loses nothing: a packet that it accepts, sent back to where it says it came
-- from, writes the very bytes that were parsed.
pub raw-parse_packet :
    (bytes : List ℕ) {p : Packet}
    → All IsByte bytes
    → parse_packet bytes ≡ ok (some p, none)
    → raw (record p { to_addr = p.from_addr }) ≡ ok bytes
unfolding raw parse_packet
raw-parse_packet (t ∷ a ∷ b ∷ c ∷ d ∷ e ∷ f ∷ g ∷ h ∷ i ∷ j ∷ rest) bs parsed =
    ground (arith, split-join_u32 a b c d, split-join_u16 i j)
raw-parse_packet _ bs parsed = ground arith

-- A packet that is parsed has a sender, and no destination.
pub parse_packet-from_addr :
    (bytes : List ℕ) (p : Packet) {err : Option ParseError}
    → parse_packet bytes ≡ ok (some p, err)
    → ((a : UdpAddr) × (p.from_addr ≡ some a)) × (p.to_addr ≡ none)
unfolding parse_packet
parse_packet-from_addr (t ∷ a ∷ b ∷ c ∷ d ∷ e ∷ f ∷ g ∷ h ∷ i ∷ j ∷ rest) p parsed =
    ((record { ip = v4 e f g h; port = join_u16 i j }, ground arith), ground arith)
parse_packet-from_addr _ p parsed = ground arith
