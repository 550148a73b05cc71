-- ===== src/Packet.antt =====
-- lab3/lib/packet.go: the packet that client, server and router exchange, and its wire form.
-- A `*net.UDPAddr` or `*Packet` that may be nil is an `Option`; `Raw` on a nil ToAddr panics.
pub mod PacketType
pub mod RoundTrip
use comp6461_computer_networ.Base.{ℕ, ◌-◌, ◌/◌, ◌%◌, ◌^◌, Option, none, some, List, [], ◌∷◌, ◌++◌}
use comp6461_computer_networ.Base.{Go, ok, panic, slice_out_of_range, deref, ◌>>=◌}
use comp6461_computer_networ.Base.{length, ltb, if◌then◌else◌}
use comp6461_computer_networ.Base.Bytes.{join_u16, join_u32}

abbrev pub min_len : ℕ
min_len = 11

abbrev pub max_len : ℕ
max_len = 1024

abbrev pub max_payload : ℕ
max_payload = max_len - min_len

-- `v6` is any address that `To4` has no 4-byte form for.
pub data Ip : Type 0 where
  v4 : ℕ → ℕ → ℕ → ℕ → Ip
  v6 : List ℕ → Ip

pub record UdpAddr : Type 0 where
  pub ip : Ip
  pub port : ℕ

pub record Packet : Type 0 where
  pub type : ℕ  -- uint8
  pub seq_num : ℕ  -- uint32
  pub to_addr : Option UdpAddr
  pub from_addr : Option UdpAddr
  pub payload : List ℕ

-- `IP.To4()`: four bytes, or nil, of which binary.Write makes no byte.
abbrev pub to4 : Ip → List ℕ
to4 (v4 a b c d) = a ∷ b ∷ c ∷ d ∷ []
to4 (v6 bytes) = []

-- The bytes of `Raw` for a destination address that is not nil.
abbrev pub raw_to : Packet → UdpAddr → List ℕ
raw_to p to =
    p.type
    ∷ (p.seq_num / 2 ^ 24 % 256)
    ∷ (p.seq_num / 2 ^ 16 % 256)
    ∷ (p.seq_num / 2 ^ 8 % 256)
    ∷ (p.seq_num % 256)
    ∷ (to4 to.ip ++ ((to.port % 2 ^ 16 / 2 ^ 8 % 256) ∷ (to.port % 2 ^ 16 % 256) ∷ p.payload))

unfoldable pub raw : Packet → Go (List ℕ)
raw p = do to ← deref p.to_addr; ok (raw_to p to)

-- The error carries the length that it reports.
pub data ParseError : Type 0 where
  too_short : ℕ → ParseError
  exceeded_max_length : ℕ → ParseError

-- The reads by `next(n)`, each a slice of `data` from `curr` on, which panics past the end.
-- The text that net.IP and the port print as is an address that ResolveUDPAddr reads back.
parse_fields : List ℕ → Go Packet
parse_fields (t ∷ s1 ∷ s2 ∷ s3 ∷ s4 ∷ a ∷ b ∷ c ∷ d ∷ p1 ∷ p2 ∷ payload) = ok (record {
  type = t;
  seq_num = join_u32 s1 s2 s3 s4;
  to_addr = none;
  from_addr = some (record { ip = v4 a b c d; port = join_u16 p1 p2 });
  payload = payload;
})
parse_fields _ = panic slice_out_of_range

-- Go's pair of a `*Packet` and an `error`.
unfoldable pub parse_packet : List ℕ → Go (Option Packet × Option ParseError)
unfolding parse_fields
parse_packet bytes =
    if ltb (length bytes) min_len
    then ok (none, some (too_short (length bytes)))
    else if ltb max_len (length bytes)
    then ok (none, some (exceeded_max_length (length bytes)))
    else do p ← parse_fields bytes; ok (some p, none)
