-- ===== src/Server/Handshake.antt =====
-- The three-way handshake as the server sees it: receive and establishConnection.
use mathlib.Core.List.{append_assoc, append-nil}
use comp6461_computer_networ.Base.{ℕ, zero, suc, ◌≡◌, refl, sym, ap, ◌∙◌, arith, true}
use comp6461_computer_networ.Base.{none, some, List, [], ◌∷◌, ◌++◌, Go, ok}
use comp6461_computer_networ.Packet.{UdpAddr, raw}
use comp6461_computer_networ.Packet.PacketType
use comp6461_computer_networ.Packet.RoundTrip.{IsUdp4}
use comp6461_computer_networ.Endpoint.{write, receive_content, looking}
use comp6461_computer_networ.Endpoint.Signal.{signal, parse_packet-signal}
use comp6461_computer_networ.Server.{
  System, Event, datagram, timeout, main_turn, await_ack, await_delivery, boot, run, step, proceed,
}
use comp6461_computer_networ.Server.{
  init_http_server, init_endpoint, receive, receive_packet, receive_ack, resend_synack,
}

-- `n` SYN-ACKs.
abbrev pub synacks : UdpAddr → ℕ → List (List ℕ)
synacks a zero = []
synacks a (suc n) = signal PacketType.synack a ∷ synacks a n

abbrev pub timeouts : ℕ → List Event
timeouts zero = []
timeouts (suc n) = timeout ∷ timeouts n

-- The SYN of `a`, `n` timeouts, the ACK of `a`, and what comes after.
abbrev pub handshake : UdpAddr → ℕ → List Event → List Event
handshake a n vs =
    datagram (signal PacketType.syn a)
    ∷ main_turn
    ∷ (timeouts n ++ (datagram (signal PacketType.ack a) ∷ main_turn ∷ vs))

module _ {W : Type 0} (handle_request : W → List ℕ → Go (List ℕ × W)) where
  -- The server that has written `out` and waits for the ACK of `a`.
  unfoldable pub greeted : W → UdpAddr → List (List ℕ) → System W
  unfolding init_http_server
  greeted world a out = record {
    server = record init_http_server {
      endpoint = record init_endpoint { peer = some a; written = out };
    };
    checker = looking none;
    phase = await_ack;
    world = world;
  }

  -- The same server once it is connected.
  unfoldable pub linked : W → UdpAddr → List (List ℕ) → System W
  unfolding init_http_server
  linked world a out = record {
    server = record init_http_server {
      endpoint = record init_endpoint { seq_num = 1; peer = some a; written = out };
      connect = true;
    };
    checker = looking none;
    phase = await_delivery;
    world = world;
  }

  pub run-syn :
      (world : W) (a : UdpAddr) (vs : List Event)
      → IsUdp4 a
      → run handle_request (boot world) (datagram (signal PacketType.syn a) ∷ main_turn ∷ vs)
        ≡ run handle_request (greeted world a (synacks a 1)) vs
  unfolding run step receive receive_packet receive_ack receive_content proceed write raw boot
      init_http_server init_endpoint greeted
  run-syn world a vs v = rw (parse_packet-signal PacketType.syn a v (omega arith))

  run-timeouts :
      (world : W) (a : UdpAddr) (out : List (List ℕ)) (n : ℕ) (vs : List Event)
      → run handle_request (greeted world a out) (timeouts n ++ vs)
        ≡ run handle_request (greeted world a (out ++ synacks a n)) vs
  unfolding run step resend_synack write raw init_http_server init_endpoint greeted
  run-timeouts world a out zero vs =
      ap (λ o. run handle_request (greeted world a o) vs) (sym (append-nil out))
  run-timeouts world a out (suc n) vs =
      run-timeouts world a (out ++ (signal PacketType.synack a ∷ [])) n vs
      ∙ ap (λ o. run handle_request (greeted world a o) vs) (append_assoc out _ (synacks a n))

  pub run-ack :
      (world : W) (a : UdpAddr) (out : List (List ℕ)) (vs : List Event)
      → IsUdp4 a
      → run handle_request
          (greeted world a out)
          (datagram (signal PacketType.ack a) ∷ main_turn ∷ vs)
        ≡ run handle_request (linked world a out) vs
  unfolding run step receive receive_packet receive_ack receive_content proceed init_http_server
      init_endpoint greeted linked
  run-ack world a out vs v = rw (parse_packet-signal PacketType.ack a v (omega arith))

  -- The turns of a handshake with `n` timeouts, and what comes after it.
  pub run-handshake :
      (world : W) (a : UdpAddr) (n : ℕ) (vs : List Event)
      → IsUdp4 a
      → run handle_request (boot world) (handshake a n vs)
        ≡ run handle_request (linked world a (synacks a (suc n))) vs
  run-handshake world a n vs v =
      run-syn world a _ v ∙ run-timeouts world a (synacks a 1) n _ ∙ run-ack world a _ vs v

  -- From its start the server gets the SYN of an IPv4 address, waits through any number of
  -- timeouts, and gets the ACK: nothing panics; it has written one SYN-ACK, and one more for each
  -- timeout, to that address; it is connected, its next number is 1, and main waits for a request.
  pub server_connects :
      (world : W) (a : UdpAddr) (n : ℕ)
      → IsUdp4 a
      → (y : System W) × (run handle_request (boot world) (handshake a n []) ≡ ok y)
        × (y.server.connect ≡ true)
        × (y.phase ≡ await_delivery)
        × (y.server.endpoint.seq_num ≡ 1)
        × (y.server.endpoint.peer ≡ some a)
        × (y.server.endpoint.written ≡ synacks a (suc n))
  unfolding linked run
  server_connects world a n v = (
    linked world a (synacks a (suc n)),
    run-handshake world a n [] v,
    refl,
    refl,
    refl,
    refl,
    refl,
  )
