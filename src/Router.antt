-- ===== src/Router.antt =====
-- handout/router/source/router.go: the router that client and server send all packets through.
-- It drops a packet, sends it on at once, or keeps it for a while, and puts the sender's address
-- in the place of the destination's. The random draws and the order in which the timers of
-- `time.AfterFunc` fire are the events' choice. A `Packet` has the fields of lab3/lib/packet.go's.
pub mod Relay
pub mod Accepted
pub mod Conservation
pub mod Order
use comp6461_computer_networ.Base.{ℕ, zero, suc, ◌+◌, ◌-◌, ◌/◌, ◌%◌, ◌^◌, Bool, true, false}
use comp6461_computer_networ.Base.{Option, none, some, List, [], ◌∷◌, ◌++◌, get_elem?, length}
use comp6461_computer_networ.Base.{Go, ok, panic, slice_out_of_range, deref, ◌>>=◌}
use comp6461_computer_networ.Base.{ltb, ◌==◌, if◌then◌else◌}
use comp6461_computer_networ.Base.Bytes.{join_u16, join_u32}
use comp6461_computer_networ.Packet.{Ip, v4, v6, UdpAddr, Packet, to4, ParseError, too_short}
use comp6461_computer_networ.Packet.{exceeded_max_length}

abbrev pub min_len : ℕ
min_len = 11

abbrev pub max_len : ℕ
max_len = 1024

-- The bytes of `Raw`: the address that it writes is the sender's.
abbrev pub raw_from : Packet → UdpAddr → List ℕ
raw_from p from =
    p.type
    ∷ (p.seq_num / 2 ^ 24 % 256)
    ∷ (p.seq_num / 2 ^ 16 % 256)
    ∷ (p.seq_num / 2 ^ 8 % 256)
    ∷ (p.seq_num % 256)
    ∷ (to4 from.ip ++ ((from.port % 2 ^ 16 / 2 ^ 8 % 256) ∷ (from.port % 2 ^ 16 % 256) ∷ p.payload))

unfoldable pub raw : Packet → Go (List ℕ)
raw p = do from ← deref p.from_addr; ok (raw_from p from)

-- `IP.IsLoopback()`, on an address that was read from four bytes.
abbrev pub is_loopback : Ip → Bool
is_loopback (v4 a b c d) = a == 127
is_loopback (v6 bytes) = false

-- A loopback destination means a program on the sender's host.
abbrev pub resolve_to : UdpAddr → UdpAddr → UdpAddr
resolve_to from to = if is_loopback to.ip then record to { ip = from.ip } else to

parse_fields : UdpAddr → List ℕ → Go Packet
parse_fields from (t ∷ s1 ∷ s2 ∷ s3 ∷ s4 ∷ a ∷ b ∷ c ∷ d ∷ p1 ∷ p2 ∷ payload) = ok (record {
  type = t;
  seq_num = join_u32 s1 s2 s3 s4;
  to_addr = some (resolve_to from (record { ip = v4 a b c d; port = join_u16 p1 p2 }));
  from_addr = some from;
  payload = payload;
})
parse_fields from _ = panic slice_out_of_range

unfoldable pub parse_packet : UdpAddr → List ℕ → Go (Option Packet × Option ParseError)
unfolding parse_fields
parse_packet from bytes =
    if ltb (length bytes) min_len
    then ok (none, some (too_short (length bytes)))
    else if ltb max_len (length bytes)
    then ok (none, some (exceeded_max_length (length bytes)))
    else do p ← parse_fields from bytes; ok (some p, none)

-- A datagram as it is handed to `WriteToUDP`: the address and the bytes.
abbrev pub Datagram : Type 0
Datagram = Option UdpAddr × List ℕ

-- `queue_size` is an int32 as its bit pattern. `pending` holds the packets whose timers run.
pub record Router : Type 0 where
  pub queue_size : ℕ
  pub pending : List Packet
  pub written : List Datagram

abbrev pub incr_queue : Router → Router
incr_queue r = record r { queue_size = (r.queue_size + 1) % 2 ^ 32 }

abbrev pub decr_queue : Router → Router
decr_queue r = record r { queue_size = (r.queue_size + 2 ^ 32 - 1) % 2 ^ 32 }

-- A failed write is logged and nothing else.
unfoldable pub send : Router → Packet → Go Router
unfolding raw
send r p = do
  bytes ← raw p
  ok (record (decr_queue r) { written = r.written ++ ((p.to_addr, bytes) ∷ []) })

-- `drop` is the outcome of `rand.Float64() < *dropRate`; a duration of 0 stands for all that are
-- not positive.
unfoldable pub process : ℕ → Bool → Router → Packet → Go Router
process max_delay drop r p =
    if drop
    then ok r
    else if max_delay == 0
    then send (incr_queue r) p
    else ok (record (incr_queue r) { pending = r.pending ++ (p ∷ []) })

-- One round of the loop of `main`, on a datagram of `from`.
unfoldable pub receive : ℕ → Bool → Router → UdpAddr → List ℕ → Go Router
receive max_delay drop r from bytes = do
  (p, err) ← parse_packet from bytes
  elim err [ some _ ↦ ok r | none ↦ do q ← deref p; process max_delay drop r q ]

abbrev pub remove : List Packet → ℕ → List Packet
remove [] i = []
remove (p ∷ ps) zero = ps
remove (p ∷ ps) (suc i) = p ∷ remove ps i

-- The timer of the `i`th pending packet fires; if there is none, no timer does.
unfoldable pub fire : Router → ℕ → Go Router
fire r i = elim (get_elem? r.pending i) [
  | none ↦ ok r
  | some p ↦ send (record r { pending = remove r.pending i }) p
]

pub data Event : Type 0 where
  arrival : Bool → UdpAddr → List ℕ → Event
  timer : ℕ → Event

abbrev pub step : ℕ → Router → Event → Go Router
step max_delay r (arrival drop from bytes) = receive max_delay drop r from bytes
step max_delay r (timer i) = fire r i

unfoldable pub run : ℕ → Router → List Event → Go Router
run max_delay r [] = ok r
run max_delay r (e ∷ es) = do r' ← step max_delay r e; run max_delay r' es

-- The state in which `main` enters its loop.
abbrev pub start : Router
start = record { queue_size = 0; pending = []; written = [] }
