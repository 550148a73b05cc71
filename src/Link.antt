-- ===== src/Link.antt =====
-- The transport between two programs of lab3 over a network that loses, repeats, delays and reorders
-- datagrams: the endpoint of the server (lab3/httpfs/httpfs.go), in the wait at the end of `send`,
-- the endpoint of the client (lab3/httpc/httpc.go), which receives, and the router
-- (handout/router/source/router.go) in between. `written` of an endpoint is every datagram that was
-- handed to the network; each of them may come out at any time, any number of times, or never.
pub mod Wire
pub mod Invariant
pub mod Sender
pub mod Resends
pub mod Receives
pub mod Moves
pub mod Safety
pub mod Settles
pub mod Progress
use comp6461_computer_networ.Base.{
  ℕ, false, Option, none, some, List, [], ◌∷◌, get_elem?, Go, ok, deref,
}
use comp6461_computer_networ.Base.{◌>>=◌}
use comp6461_computer_networ.Packet.{UdpAddr, Packet, parse_packet}
use comp6461_computer_networ.Endpoint.{Endpoint, send_request, retransmit}
use comp6461_computer_networ.Endpoint.Receiver
use comp6461_computer_networ.Endpoint.Receiver.{Receiver, arrives, checks}
use comp6461_computer_networ.Endpoint.Complete.{fresh}
use comp6461_computer_networ.Server.{receive_ack, expire_slot}
use comp6461_computer_networ.Router

pub record Link : Type 0 where
  pub sender : Endpoint
  pub receiver : Receiver

-- A datagram of `from` that the router neither drops nor delays, as it is parsed where it arrives.
unfoldable pub relayed : UdpAddr → List ℕ → Go (Option Packet)
relayed from bytes = do
  r ← Router.receive 0 false Router.start from bytes
  elim (get_elem? r.written 0) [
    | none ↦ ok none
    | some (to, out) ↦ do (p, err) ← parse_packet out; q ← deref p; ok (some q)
  ]

pub data Move : Type 0 where
  -- The `i`th datagram of the sender arrives.
  deliver : ℕ → Move
  -- The `i`th datagram of the receiver arrives.
  acknowledge : ℕ → Move
  -- The timer of a packet fires.
  expire : ℕ → Move
  -- A scan of `retransmission`.
  scan : Move
  -- A round of `checkForDeliver`.
  check : Move

module _ (a c : UdpAddr) where
  abbrev pub receive_data : Link → Option Packet → Go Link
  receive_data l none = ok l
  receive_data l (some p) = do
    r ← Receiver.step l.receiver (arrives p)
    ok (record l { receiver = r })

  abbrev pub receive_answer : Link → Option Packet → Go Link
  receive_answer l none = ok l
  receive_answer l (some p) = do e ← receive_ack l.sender p; ok (record l { sender = e })

  unfoldable pub step : Link → Move → Go Link
  step l (deliver i) = elim (get_elem? l.sender.written i) [
    | none ↦ ok l
    | some bytes ↦ relayed a bytes >>= receive_data l
  ]
  step l (acknowledge i) = elim (get_elem? l.receiver.endpoint.written i) [
    | none ↦ ok l
    | some bytes ↦ relayed c bytes >>= receive_answer l
  ]
  step l (expire i) = ok (record l { sender = expire_slot l.sender i })
  step l scan = do e ← retransmit l.sender; ok (record l { sender = e })
  step l check = do r ← Receiver.step l.receiver checks; ok (record l { receiver = r })

  unfoldable pub run : Link → List Move → Go Link
  run l [] = ok l
  run l (m ∷ ms) = do l' ← step l m; run l' ms

-- `s` sends a response, and `r` is ready for it. What they wrote before is of other requests.
unfoldable pub start : Endpoint → Endpoint → List ℕ → Go Link
start s r resp = do
  e ← send_request (record s { written = [] }) resp
  ok (record { sender = e; receiver = fresh (record r { written = [] }) })
