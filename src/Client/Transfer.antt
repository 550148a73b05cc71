-- ===== src/Client/Transfer.antt =====
-- The turns of the client in which content arrives or checkForDeliver looks do what the receiver of
-- Endpoint/Receiver does, on the endpoint that the client holds.
use comp6461_computer_networ.Base.{◌≡◌, ap, arith, List, [], ◌∷◌, map, ok, All}
use comp6461_computer_networ.Base.{true, >>=-eq-ok, ok_injective}
use comp6461_computer_networ.Packet.{UdpAddr, Packet, raw_to}
use comp6461_computer_networ.Packet.RoundTrip.{IsUdp4}
use comp6461_computer_networ.Endpoint.{Endpoint, is_content, receive_content, poll}
use comp6461_computer_networ.Endpoint.Receiver
use comp6461_computer_networ.Endpoint.Receiver.{Receiver, arrives, checks}
use comp6461_computer_networ.Endpoint.Content.{IsContent, parse_packet-arrival}
use comp6461_computer_networ.Client.{HttpClient, Session, Event, datagram, check}
use comp6461_computer_networ.Client.{
  receive_synack, receive_ack, receive_packet, receive, step, run,
}

-- The turn of an event: the datagram that the router writes for a packet of `from`, or a check.
abbrev pub turn : UdpAddr → Receiver.Event → Event
turn from (arrives q) = datagram (raw_to q from)
turn from checks = check

abbrev pub view : Session → Receiver
view y = record { endpoint = y.client.endpoint; checker = y.checker }

-- The session with another receiver.
abbrev pub holding : Session → Receiver → Session
holding y r = record y { client = record (y.client) { endpoint = r.endpoint }; checker = r.checker }

receive_synack-content :
    (c : HttpClient) (p : Packet) → is_content p ≡ true → receive_synack c p ≡ ok c
unfolding receive_synack
receive_synack-content c p is = ground arith

receive_ack-content : (e : Endpoint) (p : Packet) → is_content p ≡ true → receive_ack e p ≡ ok e
unfolding receive_ack
receive_ack-content e p is = ground arith

receive_packet-content :
    (c : HttpClient) (p : Packet) {e : Endpoint}
    → is_content p ≡ true
    → receive_content c.endpoint p ≡ ok e
    → receive_packet c p ≡ ok (record c { endpoint = e })
unfolding receive_packet
receive_packet-content c p is kept =
    rw (receive_synack-content c p is, receive_ack-content c.endpoint p is, kept)

-- One turn.
step-turn :
    (from : UdpAddr) (y : Session) (v : Receiver.Event) (r : Receiver)
    → IsUdp4 from
    → IsContent from v
    → Receiver.step (view y) v ≡ ok r
    → step y (turn from v) ≡ ok (holding y r)
unfolding step Receiver.step receive
step-turn from y (arrives q) r u h done =
    let (e, kept, same) = >>=-eq-ok (receive_content y.client.endpoint q) _ done in
    rw (parse_packet-arrival from q u h, receive_packet-content y.client q h.content kept)
      (ap (λ x. ok (holding y x)) (ok_injective _ r same))
step-turn from y checks r u h done =
    let ((e, c), looked, same) = >>=-eq-ok (poll y.client.endpoint y.checker) _ done in
    rw looked (ap (λ x. ok (holding y x)) (ok_injective _ r same))

-- Any number of turns.
pub run-turns :
    (from : UdpAddr) (vs : List Receiver.Event) (y : Session) (r : Receiver)
    → IsUdp4 from
    → All (IsContent from) vs
    → Receiver.run (view y) vs ≡ ok r
    → run y (map (turn from) vs) ≡ ok (holding y r)
unfolding run Receiver.run
run-turns from [] y r u h done = ap (λ x. ok (holding y x)) (ok_injective (view y) r done)
run-turns from (v ∷ vs) y r u (h, hs) done =
    let (x, first, rest) = >>=-eq-ok (Receiver.step (view y) v) _ done in
    rw (step-turn from y v x u h first) (run-turns from vs (holding y x) r u hs rest)
