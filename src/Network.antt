-- ===== src/Network.antt =====
-- The client and the server of lab3 (lab3/httpc/httpc.go, lab3/httpfs/httpfs.go) with the router
-- (handout/router/source/router.go) between them, from their starts on, with all their goroutines
-- taking turns in any order. Each datagram that a program wrote may come out of the network at any
-- time, any number of times, or never.
pub mod Polls
pub mod Flow
pub mod Arrivals
pub mod Invariant
pub mod ServerTurns
pub mod ServerMain
pub mod Carried
pub mod ServerHears
pub mod ClientTurns
pub mod ClientMain
pub mod ClientHears
pub mod Start
pub mod Hears
pub mod Steps
pub mod Safety
pub mod Schedule
pub mod Rounds
pub mod Completes
pub mod Post
use comp6461_computer_networ.Base.{
  ℕ, Bool, true, false, Option, none, some, List, [], ◌∷◌, get_elem?, Go, ok, ◌>>=◌, if◌then◌else◌,
}
use comp6461_computer_networ.Packet.{UdpAddr}
use comp6461_computer_networ.Router
use comp6461_computer_networ.Server
use comp6461_computer_networ.Server.{System, Phase, await_acks}
use comp6461_computer_networ.Client
use comp6461_computer_networ.Client.{Session}

pub record Network (W : Type 0) : Type 0 where
  pub server : System W
  pub client : Session

-- The turns of a program in which no datagram is read.
pub data Turn : Type 0 where
  check scan timeout main_turn : Turn
  expiry : ℕ → Turn

-- The `i`th datagram of the other program arrives, or a program has a turn.
pub data Move : Type 0 where
  to_server to_client : ℕ → Move
  serve ask : Turn → Move

-- What the router makes of a datagram of `from` that it neither drops nor delays.
unfoldable pub carried : UdpAddr → List ℕ → Go (Option (List ℕ))
carried from bytes = do
  r ← Router.receive 0 false Router.start from bytes
  elim (get_elem? r.written 0) [ none ↦ ok none | some (to, out) ↦ ok (some out) ]

abbrev pub server_event : Turn → Server.Event
server_event check = Server.check
server_event scan = Server.scan
server_event timeout = Server.timeout
server_event main_turn = Server.main_turn
server_event (expiry i) = Server.expiry i

abbrev pub client_event : Turn → Client.Event
client_event check = Client.check
client_event scan = Client.scan
client_event timeout = Client.timeout
client_event main_turn = Client.main_turn
client_event (expiry i) = Client.expiry i

-- The turn of the server's main that may end the connection.
abbrev pub is_last : Phase → Turn → Bool
is_last await_acks main_turn = true
is_last _ _ = false

module _ {W : Type 0} (handle_request : W → List ℕ → Go (List ℕ × W)) (a c : UdpAddr) where
  abbrev pub at_server : Network W → Option (List ℕ) → Go (Network W)
  at_server n none = ok n
  at_server n (some bytes) = do
    y ← Server.step handle_request n.server (Server.datagram bytes)
    ok (record n { server = y })

  abbrev pub at_client : Network W → Option (List ℕ) → Go (Network W)
  at_client n none = ok n
  at_client n (some bytes) = do
    y ← Client.step n.client (Client.datagram bytes)
    ok (record n { client = y })

  -- A run is followed up to the turn that may end the connection, which is looked at by itself.
  unfoldable pub step : Network W → Move → Go (Network W)
  step n (to_server i) = elim (get_elem? n.client.client.endpoint.written i) [
    | none ↦ ok n
    | some bytes ↦ carried c bytes >>= at_server n
  ]
  step n (to_client i) = elim (get_elem? n.server.server.endpoint.written i) [
    | none ↦ ok n
    | some bytes ↦ carried a bytes >>= at_client n
  ]
  step n (serve t) = if is_last n.server.phase t then ok n else (do
    y ← Server.step handle_request n.server (server_event t)
    ok (record n { server = y }))
  step n (ask t) = do y ← Client.step n.client (client_event t); ok (record n { client = y })

  unfoldable pub run : Network W → List Move → Go (Network W)
  run n [] = ok n
  run n (m ∷ ms) = do n' ← step n m; run n' ms

-- Both programs start; the client is to send `request` to the server at `a`.
unfoldable pub start : {W : Type 0} → UdpAddr → W → List ℕ → Go (Network W)
start a world request = do
  y ← Client.boot a request
  ok (record { server = Server.boot world; client = y })
