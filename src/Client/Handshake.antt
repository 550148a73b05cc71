-- ===== src/Client/Handshake.antt =====
-- The three-way handshake as the client sees it: establishConnection, the answer of receive to the
-- SYN-ACK, and the request that main sends then.
use comp6461_computer_networ.Base.{ℕ, ◌+◌, ◌*◌, ◌≤◌, ◌≡◌, refl, arith}
use comp6461_computer_networ.Base.{none, some, List, [], ◌∷◌, map, false}
use comp6461_computer_networ.Base.{length, get_elem?, ok, ◌>>=◌}
use comp6461_computer_networ.Packet.{UdpAddr, Packet, max_payload, raw, raw_to}
use comp6461_computer_networ.Packet.PacketType
use comp6461_computer_networ.Packet.RoundTrip.{IsUdp4}
use comp6461_computer_networ.Window.{WindowElement, new_window_element, make_window}
use comp6461_computer_networ.Endpoint.{Endpoint, write, send_request, receive_content, looking}
use comp6461_computer_networ.Endpoint.Segments.{request_packets}
use comp6461_computer_networ.Endpoint.Segments.{length-request_chunks, length-request_packets}
use comp6461_computer_networ.Window.{length-make_window}
use comp6461_computer_networ.Endpoint.Signal.{signal, parse_packet-signal}
use comp6461_computer_networ.Endpoint.Send.{sent_all, sent_all_fields, sent_all_slots}
use comp6461_computer_networ.Endpoint.Request.{send_request_ok}
use comp6461_computer_networ.Client.{
  Session, Event, datagram, main_turn, await_delivery, boot, run, step, send_syn, init_http_client,
}
use comp6461_computer_networ.Client.{receive, receive_packet, receive_synack, receive_ack, proceed}

-- The endpoint when the handshake is over.
abbrev pub ready : UdpAddr → Endpoint
ready a = record {
  seq_num = 1;
  peer = some a;
  receiver_window = make_window;
  sender_window = make_window;
  delivery_message = false;
  written = signal PacketType.syn a ∷ signal PacketType.ack a ∷ [];
}

-- The session after the handshake, with the request sent from the endpoint `e`.
abbrev pub sent_session : List ℕ → Endpoint → Session
sent_session req e = record {
  client = record { endpoint = e; handshake_synack = none };
  checker = looking none;
  phase = await_delivery;
  request = req;
}

pub run-connect :
    (a : UdpAddr) (req : List ℕ) (e : Endpoint) (vs : List Event)
    → IsUdp4 a
    → send_request (ready a) req ≡ ok e
    → (boot a req >>= λ y. run y (datagram (signal PacketType.synack a) ∷ main_turn ∷ vs))
      ≡ run (sent_session req e) vs
unfolding boot send_syn init_http_client write raw run step receive receive_packet receive_synack
    receive_ack receive_content proceed
run-connect a req e vs v sends = rw (parse_packet-signal PacketType.synack a v (omega arith), sends)

-- The request goes out from there.
pub send_request-ready :
    (a : UdpAddr) (req : List ℕ)
    → length req ≤ 1022 * max_payload
    → send_request (ready a) req ≡ ok (sent_all a (ready a) (request_packets (some a) 1 req))
send_request-ready a req small =
    send_request_ok a (ready a) req refl
      (omega (arith, length-make_window WindowElement, length-request_chunks req small))
      (omega (arith, length-make_window WindowElement))

-- Take an IPv4 server address and a request of at most 1022 times 1013 bytes. The client starts,
-- the server's SYN-ACK comes in, and main has a turn: nothing panics; the client has written the
-- SYN, the ACK and then the packets of the request from number 1 on; each of these stands under its
-- number, with a running timer and no acknowledgement; and main waits for the response.
pub client_connects :
    (a : UdpAddr) (req : List ℕ)
    → IsUdp4 a
    → length req ≤ 1022 * max_payload
    → (y : Session) × ((boot a req >>= λ z.
          run z (datagram (signal PacketType.synack a) ∷ main_turn ∷ []))
        ≡ ok y)
      × (y.phase ≡ await_delivery)
      × (y.client.endpoint.written
          ≡ signal PacketType.syn a
            ∷ signal PacketType.ack a
            ∷ map (λ p. raw_to p a) (request_packets (some a) 1 req))
      × ((k : ℕ) (p : Packet)
          → get_elem? (request_packets (some a) 1 req) k ≡ some p
          → get_elem? y.client.endpoint.sender_window (1 + k) ≡ some (some (new_window_element p)))
unfolding run
client_connects a req v small =
    let ps = request_packets (some a) 1 req in
    let few = length-request_chunks req small in
    let count = length-request_packets (some a) 1 req in
    let size = length-make_window WindowElement in
    let (_, _, _, _, wrote) = sent_all_fields a ps (ready a) (omega arith) in
    (
      _,
      run-connect a req (sent_all a (ready a) ps) [] v (send_request-ready a req small),
      refl,
      wrote,
      λ k p at. sent_all_slots a ps (ready a) k p (omega arith) (omega arith) at,
    )
