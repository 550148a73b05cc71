-- ===== src/Network/Schedule.antt =====
-- Moves of the network whose turns and arrivals are known for one program, while the other program
-- stays as it is.
use comp6461_computer_networ.Base.{
  ℕ, suc, ◌+◌, ◌≡◌, refl, ap, ◌∙◌, arith, false, none, some, List, [], ◌∷◌, ◌++◌, map, get_elem?,
  Go, ok, All, >>=-eq-ok, ok_injective, sym,
}
use comp6461_computer_networ.Packet.{UdpAddr, Packet, raw_to, parse_packet}
use comp6461_computer_networ.Packet.RoundTrip.{IsUdp4, IsWire, arrived, parse_packet-raw_to}
use comp6461_computer_networ.Endpoint.Receiver
use comp6461_computer_networ.Endpoint.Receiver.{arrives}
use comp6461_computer_networ.Endpoint.Reassembly.{arrivals}
use comp6461_computer_networ.Server
use comp6461_computer_networ.Server.{
  System, HttpServer, await_syn, await_ack, await_delivery, await_acks,
}
use comp6461_computer_networ.Server.Transfer.{turn as server_turn}
use comp6461_computer_networ.Client
use comp6461_computer_networ.Client.{Session, HttpClient}
use comp6461_computer_networ.Client.Transfer.{turn as client_turn}
use comp6461_computer_networ.Network.{
  Network, Turn, Move, to_server, to_client, serve, ask, check, server_event, client_event, is_last,
  step, run,
}
use comp6461_computer_networ.Network.Carried.{carried-raw_to}

pub is_last-check : (p : Server.Phase) → is_last p check ≡ false
is_last-check await_syn = refl
is_last-check await_ack = refl
is_last-check await_delivery = refl
is_last-check await_acks = refl

-- The packets from place `i` on come out of the network in order.
abbrev pub to_servers : ℕ → List Packet → List Move
to_servers i [] = []
to_servers i (p ∷ ps) = to_server i ∷ to_servers (suc i) ps

abbrev pub to_clients : ℕ → List Packet → List Move
to_clients i [] = []
to_clients i (p ∷ ps) = to_client i ∷ to_clients (suc i) ps

-- A packet that goes to `to`.
pub record IsSent (to : UdpAddr) (p : Packet) : Type 0 where
  pub wire : IsWire p
  pub to_addr : p.to_addr ≡ some to

-- The packets stand from place `i` on among what was written.
abbrev pub StandsAt : UdpAddr → List (List ℕ) → ℕ → List Packet → Type 0
StandsAt to written i ps =
    (j k : ℕ) (p : Packet)
    → j ≡ i + k
    → get_elem? ps k ≡ some p
    → get_elem? written j ≡ some (raw_to p to)

StandsAt-tail :
    (to : UdpAddr) (written : List (List ℕ)) (i : ℕ) (p : Packet) (ps : List Packet)
    → StandsAt to written i (p ∷ ps)
    → StandsAt to written (suc i) ps
StandsAt-tail to written i p ps h j k q e at = h j (suc k) q (omega arith) at

parse_packet-arrived :
    (p : Packet) (from : UdpAddr)
    → IsUdp4 from
    → IsWire p
    → parse_packet (raw_to (arrived p from) from) ≡ ok (some (arrived p from), none)
parse_packet-arrived p from v w =
    parse_packet-raw_to (arrived p from) from.ip from.port v.ip_v4 v.port_u16
      (record { type_byte = w.type_byte; seq_u32 = w.seq_u32; payload_fits = w.payload_fits })

module _ {W : Type 0} (handle_request : W → List ℕ → Go (List ℕ × W)) (a c : UdpAddr)
    (va : IsUdp4 a) (vc : IsUdp4 c) where
  pub run-append :
      (ms ws : List Move) (n m : Network W)
      → run handle_request a c n ms ≡ ok m
      → run handle_request a c n (ms ++ ws) ≡ run handle_request a c m ws
  unfolding run
  run-append [] ws n m done = ap (λ x. run handle_request a c x ws) (ok_injective n m done)
  run-append (v ∷ ms) ws n m done =
      let (x, first, rest) = >>=-eq-ok (step handle_request a c n v) _ done in
      rw first (run-append ms ws x m rest)

  pub step-serve :
      (n : Network W) (t : Turn) (y : System W)
      → is_last n.server.phase t ≡ false
      → Server.step handle_request n.server (server_event t) ≡ ok y
      → step handle_request a c n (serve t) ≡ ok (record n { server = y })
  unfolding step
  step-serve n t y on done = rw (on, done) refl

  pub step-ask :
      (n : Network W) (t : Turn) (y : Session)
      → Client.step n.client (client_event t) ≡ ok y
      → step handle_request a c n (ask t) ≡ ok (record n { client = y })
  unfolding step
  step-ask n t y done = rw done refl

  server_hears :
      (y : System W) (b b' : List ℕ)
      → parse_packet b ≡ parse_packet b'
      → Server.step handle_request y (Server.datagram b)
        ≡ Server.step handle_request y (Server.datagram b')
  unfolding Server.step Server.receive
  server_hears y b b' same = rw same refl

  client_hears :
      (y : Session) (b b' : List ℕ)
      → parse_packet b ≡ parse_packet b'
      → Client.step y (Client.datagram b) ≡ Client.step y (Client.datagram b')
  unfolding Client.step Client.receive
  client_hears y b b' same = rw same refl

  pub step-to_server :
      (n : Network W) (i : ℕ) (p : Packet) (y : System W)
      → get_elem? n.client.client.endpoint.written i ≡ some (raw_to p a)
      → IsSent a p
      → Server.step handle_request n.server (Server.datagram (raw_to (arrived p c) c)) ≡ ok y
      → step handle_request a c n (to_server i) ≡ ok (record n { server = y })
  unfolding step
  step-to_server n i p y at sent done =
      let (out, routed, parsed) = carried-raw_to p c a vc va sent.wire sent.to_addr in
      let heard =
        server_hears n.server out _ (parsed ∙ sym (parse_packet-arrived p c vc sent.wire)) ∙ done in
      rw (step, at, routed, heard) refl

  pub step-to_client :
      (n : Network W) (i : ℕ) (p : Packet) (y : Session)
      → get_elem? n.server.server.endpoint.written i ≡ some (raw_to p c)
      → IsSent c p
      → Client.step n.client (Client.datagram (raw_to (arrived p a) a)) ≡ ok y
      → step handle_request a c n (to_client i) ≡ ok (record n { client = y })
  unfolding step
  step-to_client n i p y at sent done =
      let (out, routed, parsed) = carried-raw_to p a c va vc sent.wire sent.to_addr in
      let heard =
        client_hears n.client out _ (parsed ∙ sym (parse_packet-arrived p a va sent.wire)) ∙ done in
      rw (step, at, routed, heard) refl

  -- The server gets the packets, and then the events of `rest`, of which the network has seen none.
  pub run-to_servers :
      (ps : List Packet) (i : ℕ) (n : Network W) (z : System W) (rest : List Receiver.Event)
      → StandsAt a n.client.client.endpoint.written i ps
      → All (IsSent a) ps
      → Server.run handle_request n.server
          (map (server_turn c) (map arrives (arrivals c ps) ++ rest))
        ≡ ok z
      → (y : System W) × (run handle_request a c n (to_servers i ps) ≡ ok (record n { server = y }))
        × (Server.run handle_request y (map (server_turn c) rest) ≡ ok z)
  unfolding run Server.run
  run-to_servers [] i n z rest stands sent done = (n.server, refl, done)
  run-to_servers (p ∷ ps) i n z rest stands sent done =
      let (x, first, more) = >>=-eq-ok (Server.step handle_request n.server _) _ done in
      let (y, ran, last) =
        run-to_servers ps (suc i) (record n { server = x }) z rest
          (StandsAt-tail a n.client.client.endpoint.written i p ps stands) sent.1 more in
      (y, rw (step-to_server n i p x (stands i 0 p (omega arith) refl) sent.0 first) ran, last)

  pub run-to_clients :
      (ps : List Packet) (i : ℕ) (n : Network W) (z : Session) (rest : List Receiver.Event)
      → StandsAt c n.server.server.endpoint.written i ps
      → All (IsSent c) ps
      → Client.run n.client (map (client_turn a) (map arrives (arrivals a ps) ++ rest)) ≡ ok z
      → (y : Session) × (run handle_request a c n (to_clients i ps) ≡ ok (record n { client = y }))
        × (Client.run y (map (client_turn a) rest) ≡ ok z)
  unfolding run Client.run
  run-to_clients [] i n z rest stands sent done = (n.client, refl, done)
  run-to_clients (p ∷ ps) i n z rest stands sent done =
      let (x, first, more) = >>=-eq-ok (Client.step n.client _) _ done in
      let (y, ran, last) =
        run-to_clients ps (suc i) (record n { client = x }) z rest
          (StandsAt-tail c n.server.server.endpoint.written i p ps stands) sent.1 more in
      (y, rw (step-to_client n i p x (stands i 0 p (omega arith) refl) sent.0 first) ran, last)
