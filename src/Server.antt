-- ===== src/Server.antt =====
-- lab3/httpfs/httpfs.go: the server over the reliable transport. The goroutines (receive,
-- retransmission, checkForDeliver and main) take turns in any order; each turn is one event. What
-- `handleRequest` does with a request is a parameter here, over a state `W` of its own.
pub mod Receive
pub mod Acks
pub mod Windows
pub mod Sending
pub mod Invariant
pub mod Reachable
pub mod Safety
pub mod Transfer
pub mod Answer
pub mod Handshake
pub mod Shift
pub mod Restart
use comp6461_computer_networ.Base.{
  ℕ, zero, ◌+◌, ◌%◌, ◌^◌, Bool, true, false, not, ◌&&◌, Option, none,
}
use comp6461_computer_networ.Base.{
  some, List, [], Go, ok, deref, ◌>>=◌, is_nil, ◌==◌, if◌then◌else◌,
}
use comp6461_computer_networ.Base.{get_elem?, set, ◌∷◌}
use comp6461_computer_networ.Packet.{UdpAddr, Packet, ParseError, parse_packet}
use comp6461_computer_networ.Packet.PacketType
use comp6461_computer_networ.Window.{WindowElement, Timer, stop, expire, make_window, index, store}
use comp6461_computer_networ.Endpoint.{
  Endpoint, control, write, send_request, is_blocked, retransmit,
}
use comp6461_computer_networ.Endpoint.{receive_content, Checker, looking, poll, get_packets}

-- The two handshake channels, of capacity 1, are variables of the package.
pub record HttpServer : Type 0 where
  pub endpoint : Endpoint
  pub connect : Bool
  pub handshake_syn : Option Packet
  pub handshake_ack : Option Packet

unfoldable pub init_endpoint : Endpoint
init_endpoint = record {
  seq_num = 0;
  peer = none;
  receiver_window = make_window;
  sender_window = make_window;
  delivery_message = false;
  written = [];
}

unfoldable pub init_http_server : HttpServer
unfolding init_endpoint
init_http_server = record {
  endpoint = init_endpoint;
  connect = false;
  handshake_syn = none;
  handshake_ack = none;
}

abbrev pub connected : HttpServer → HttpServer
connected s = record s { connect = true }

abbrev pub disconnected : HttpServer → HttpServer
disconnected s = record s { connect = false }

-- Without a connection `receive` takes the packets of the handshake, while their channels are empty.
abbrev pub receive_syn : HttpServer → Packet → HttpServer
receive_syn s p =
    if p.type == PacketType.syn && is_nil s.handshake_syn
    then record s { handshake_syn = some p }
    else s

abbrev pub receive_handshake_ack : HttpServer → Packet → HttpServer
receive_handshake_ack s p =
    if p.type == PacketType.ack && p.seq_num == 0 && is_nil s.handshake_ack
    then record s { handshake_ack = some p }
    else s

abbrev pub receive_handshake : HttpServer → Packet → HttpServer
receive_handshake s p = if s.connect then s else receive_handshake_ack (receive_syn s p) p

-- `Timer.Stop()` and the send to the channel of the element.
abbrev pub acknowledged : WindowElement → Timer → Packet → WindowElement
acknowledged w t p = record w { timer = some (stop t); ack = some p }

abbrev pub acknowledge : Endpoint → Packet → WindowElement → Go Endpoint
acknowledge e p w = elim w.ack [
  | some _ ↦ ok e
  | none ↦ elim w.timer [
    | none ↦ ok e
    | some t ↦ do
      sw ← store e.sender_window p.seq_num (some (acknowledged w t p))
      ok (record e { sender_window = sw })
  ]
]

-- The branch of `receive` on ACK.
unfoldable pub receive_ack : Endpoint → Packet → Go Endpoint
receive_ack e p =
    if p.type == PacketType.ack && not (p.seq_num == 0)
    then (do
      slot ← index e.sender_window p.seq_num
      elim slot [ none ↦ ok e | some w ↦ acknowledge e p w ])
    else ok e

-- `receive` on a packet.
unfoldable pub receive_packet : HttpServer → Packet → Go HttpServer
receive_packet s p = do
  e ← receive_ack s.endpoint p
  e' ← receive_content e p
  ok (record (receive_handshake s p) { endpoint = e' })

-- One round of `receive`: after an error of ParsePacket, which is only logged, `p` is nil, and the
-- next thing that is read is its type.
unfoldable pub receive : HttpServer → List ℕ → Go HttpServer
receive s bytes = do (p, err) ← parse_packet bytes; q ← deref p; receive_packet s q

-- `reset`, but for the new goroutine, which `main_turn` starts.
unfoldable pub reset : HttpServer → HttpServer
reset s = record s {
  endpoint = record (s.endpoint) {
    seq_num = 0;
    peer = none;
    receiver_window = make_window;
    sender_window = make_window;
    delivery_message = false;
  };
  handshake_syn = none;
  handshake_ack = none;
}

-- Where `main` waits: in establishConnection for a SYN and for an ACK, for the message of
-- checkForDeliver, and at the end of `send` for the acknowledgements.
pub data Phase : Type 0 where
  await_syn await_ack await_delivery await_acks : Phase

pub record System (W : Type 0) : Type 0 where
  pub server : HttpServer
  pub checker : Checker
  pub phase : Phase
  pub world : W

pub data Event : Type 0 where
  datagram : List ℕ → Event
  check : Event
  scan : Event
  expiry : ℕ → Event
  timeout : Event
  main_turn : Event

abbrev pub send_synack : HttpServer → Go HttpServer
send_synack s = do
  e ← write s.endpoint (control PacketType.synack s.endpoint.seq_num s.endpoint.peer)
  ok (record s { endpoint = e })

abbrev pub set_client : HttpServer → Packet → HttpServer
set_client s p = record s {
  endpoint = record (s.endpoint) {
    peer = elim s.endpoint.peer [ none ↦ p.from_addr | some a ↦ some a ];
  };
  handshake_syn = none;
}

-- A timer of the sender window fires.
unfoldable pub expire_slot : Endpoint → ℕ → Endpoint
expire_slot e i = elim (get_elem? e.sender_window i) [
  | none ↦ e
  | some none ↦ e
  | some (some w) ↦ record e {
    sender_window =
        set e.sender_window i
          (some (record w { timer = elim w.timer [ none ↦ none | some t ↦ some (expire t) ] }));
  }
]

module _ {W : Type 0} (handle_request : W → List ℕ → Go (List ℕ × W)) where
  -- `main` goes on if what it waits for is there.
  unfoldable pub proceed : Phase → System W → Go (System W)
  proceed await_syn y = elim y.server.handshake_syn [
    | none ↦ ok y
    | some p ↦ do
      s ← send_synack (set_client y.server p)
      ok (record y { server = s; phase = await_ack })
  ]
  proceed await_ack y = elim y.server.handshake_ack [
    | none ↦ ok y
    | some p ↦
        let s = y.server in
        ok (record y {
          server = connected (record s {
            endpoint = record (s.endpoint) { seq_num = (s.endpoint.seq_num + 1) % 2 ^ 32 };
            handshake_ack = none;
          });
          phase = await_delivery;
        })
  ]
  proceed await_delivery y =
      if y.server.endpoint.delivery_message
      then (do
        request ← get_packets y.server.endpoint.receiver_window
        (response, world) ← handle_request y.world request
        e ← send_request (record (y.server.endpoint) { delivery_message = false }) response
        ok (record y {
          server = record (y.server) { endpoint = e };
          phase = await_acks;
          world = world;
        }))
      else ok y
  proceed await_acks y = do
    blocked ← is_blocked y.server.endpoint
    ok (
        if blocked then y else record y {
          server = reset (disconnected y.server);
          checker = looking none;
          phase = await_syn;
        })

  -- The timeout of establishConnection: the SYN-ACK is sent again.
  unfoldable pub resend_synack : Phase → System W → Go (System W)
  resend_synack await_ack y = do s ← send_synack y.server; ok (record y { server = s })
  resend_synack _ y = ok y

  unfoldable pub step : System W → Event → Go (System W)
  step y (datagram bytes) = do s ← receive y.server bytes; ok (record y { server = s })
  step y check = do
    (e, c) ← poll y.server.endpoint y.checker
    ok (record y { server = record (y.server) { endpoint = e }; checker = c })
  step y scan =
      if y.server.connect
      then (do
        e ← retransmit y.server.endpoint
        ok (record y { server = record (y.server) { endpoint = e } }))
      else ok y
  step y (expiry i) =
      ok (record y { server = record (y.server) { endpoint = expire_slot y.server.endpoint i } })
  step y timeout = resend_synack y.phase y
  step y main_turn = proceed y.phase y

  unfoldable pub run : System W → List Event → Go (System W)
  run y [] = ok y
  run y (v ∷ vs) = do y' ← step y v; run y' vs

unfoldable pub boot : {W : Type 0} → W → System W
unfolding init_http_server
boot world = record {
  server = init_http_server;
  checker = looking none;
  phase = await_syn;
  world = world;
}
