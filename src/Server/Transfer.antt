-- ===== src/Server/Transfer.antt =====
-- The turns of a connected server in which content arrives or checkForDeliver looks do what the
-- receiver of Endpoint/Receiver does, on the endpoint that the server holds.
use comp6461_computer_networ.Base.{ℕ, ◌≡◌, ap, arith, true}
use comp6461_computer_networ.Base.{List, [], ◌∷◌, map, Go, ok, All, >>=-eq-ok, ok_injective}
use comp6461_computer_networ.Packet.{UdpAddr, Packet, raw_to}
use comp6461_computer_networ.Packet.RoundTrip.{IsUdp4}
use comp6461_computer_networ.Endpoint.{Endpoint, is_content, receive_content, poll}
use comp6461_computer_networ.Endpoint.Receiver
use comp6461_computer_networ.Endpoint.Receiver.{Receiver, arrives, checks}
use comp6461_computer_networ.Endpoint.Content.{IsContent, parse_packet-arrival}
use comp6461_computer_networ.Server.{HttpServer, System, Event, datagram, check}
use comp6461_computer_networ.Server.{
  receive_ack, receive_handshake, receive_packet, receive, step, run,
}

-- The turn of an event: the datagram that the router writes for a packet of `from`, or a check.
abbrev pub turn : UdpAddr → Receiver.Event → Event
turn from (arrives q) = datagram (raw_to q from)
turn from checks = check

module _ {W : Type 0} (handle_request : W → List ℕ → Go (List ℕ × W)) where
  abbrev pub view : System W → Receiver
  view y = record { endpoint = y.server.endpoint; checker = y.checker }

  -- The system with another receiver.
  abbrev pub holding : System W → Receiver → System W
  holding y r = record y {
    server = record (y.server) { endpoint = r.endpoint };
    checker = r.checker;
  }

  receive_ack-content : (e : Endpoint) (p : Packet) → is_content p ≡ true → receive_ack e p ≡ ok e
  unfolding receive_ack
  receive_ack-content e p is = ground arith

  receive_handshake_connected :
      (s : HttpServer) (p : Packet) → s.connect ≡ true → receive_handshake s p ≡ s
  receive_handshake_connected s p on = ground arith

  receive_packet-content :
      (s : HttpServer) (p : Packet) {e : Endpoint}
      → s.connect ≡ true
      → is_content p ≡ true
      → receive_content s.endpoint p ≡ ok e
      → receive_packet s p ≡ ok (record s { endpoint = e })
  unfolding receive_packet
  receive_packet-content s p {e} on is kept =
      let with_endpoint : HttpServer → Go HttpServer = λ t. ok (record t { endpoint = e }) in
      rw (receive_ack-content s.endpoint p is, kept)
        (ap with_endpoint (receive_handshake_connected s p on))

  -- One turn.
  step-turn :
      (from : UdpAddr) (y : System W) (v : Receiver.Event) (r : Receiver)
      → IsUdp4 from
      → y.server.connect ≡ true
      → IsContent from v
      → Receiver.step (view y) v ≡ ok r
      → step handle_request y (turn from v) ≡ ok (holding y r)
  unfolding step Receiver.step receive
  step-turn from y (arrives q) r u on h done =
      let (e, kept, same) = >>=-eq-ok (receive_content y.server.endpoint q) _ done in
      rw (parse_packet-arrival from q u h, receive_packet-content y.server q on h.content kept)
        (ap (λ x. ok (holding y x)) (ok_injective _ r same))
  step-turn from y checks r u on h done =
      let ((e, c), looked, same) = >>=-eq-ok (poll y.server.endpoint y.checker) _ done in
      rw looked (ap (λ x. ok (holding y x)) (ok_injective _ r same))

  -- If a server is connected, and the receiver gets from the server's endpoint and check to another
  -- one by any steps in which content of an IPv4 address arrives or the check makes a round, then
  -- the server's turns on the datagrams of these packets and on the checks return, with that
  -- receiver in place of the server's, and with all else as it was.
  pub run-turns :
      (from : UdpAddr) (vs : List Receiver.Event) (y : System W) (r : Receiver)
      → IsUdp4 from
      → y.server.connect ≡ true
      → All (IsContent from) vs
      → Receiver.run (view y) vs ≡ ok r
      → run handle_request y (map (turn from) vs) ≡ ok (holding y r)
  unfolding run Receiver.run
  run-turns from [] y r u on h done = ap (λ x. ok (holding y x)) (ok_injective (view y) r done)
  run-turns from (v ∷ vs) y r u on (h, hs) done =
      let (x, first, rest) = >>=-eq-ok (Receiver.step (view y) v) _ done in
      rw (step-turn from y v x u on h first) (run-turns from vs (holding y x) r u on hs rest)
