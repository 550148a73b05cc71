-- ===== src/Tests/Networks.antt =====
-- The theorem on client, server and network together, at concrete data.
use comp6461_computer_networ.Base.{ℕ, ◌≡◌, ◌⊎◌, refl, arith, List, [], ◌∷◌, Go, ok, ◌>>=◌}
use comp6461_computer_networ.Packet.{raw, parse_packet}
use comp6461_computer_networ.Window.{make_window}
use comp6461_computer_networ.Router
use comp6461_computer_networ.Endpoint.{
  is_blocked, is_blocked_from, send_request, send_loop, send_packet, write, retransmit,
  retransmit_from, retransmit_slot, receive_content, poll, check_for_deliver, find_deliver,
  is_filled, get_packets, get_packets_loop,
}
use comp6461_computer_networ.Server
use comp6461_computer_networ.Packet.PacketType
use comp6461_computer_networ.Base.{some, none, false, true}
use comp6461_computer_networ.Endpoint.{looking}
use comp6461_computer_networ.Endpoint.Signal.{signal}
use comp6461_computer_networ.Server.{await_acks, System}
use comp6461_computer_networ.Server.Shift.{mapped}
use comp6461_computer_networ.Server.Restart.{system_after, run-restarted}
use comp6461_computer_networ.Client
use comp6461_computer_networ.Network
use comp6461_computer_networ.Network.{
  Network, Move, to_server, to_client, serve, ask, check, scan, timeout, main_turn, expiry, run,
  start, carried,
}
use comp6461_computer_networ.Network.Safety.{Ends, exchange_safe}
use comp6461_computer_networ.Tests.Sessions.{mirror}
use comp6461_computer_networ.Tests.Exchange.{near, far, near-IsUdp4, far-IsUdp4, greeting}

-- The first SYN-ACK is lost, the notices come before the data, and some datagrams come twice.
abbrev eventful : List Move
eventful =
    to_server 0
    ∷ serve main_turn
    ∷ serve timeout
    ∷ to_client 1
    ∷ ask main_turn
    ∷ to_server 1
    ∷ to_server 1
    ∷ serve main_turn
    ∷ to_server 3
    ∷ serve check
    ∷ to_server 2
    ∷ to_server 3
    ∷ serve check
    ∷ serve main_turn
    ∷ to_client 6
    ∷ ask check
    ∷ to_client 5
    ∷ ask check
    ∷ ask main_turn
    ∷ []

exchange_safe_example :
    (n : Network ℕ) × ((start near 0 greeting >>= λ m. run mirror near far m eventful) ≡ ok n)
    × ((text : List ℕ) → n.client.phase ≡ Client.received text → text ≡ greeting)
    × ((n.server.world ≡ 0) ⊎ ((n.server.phase ≡ await_acks) × (n.server.world ≡ 1)))
    × (n.server.phase ≡ await_acks → Ends mirror near far greeting greeting 0 1 n)
exchange_safe_example =
    exchange_safe mirror near far greeting greeting 0 1 eventful near-IsUdp4 far-IsUdp4
      (omega arith) (omega arith) refl

abbrev client_phase : Go (Network ℕ) → Go Client.Phase
client_phase g = do n ← g; ok n.client.phase

-- The client has the response then.
eventful_ends :
    client_phase (start near 0 greeting >>= λ m. run mirror near far m eventful)
    ≡ ok (Client.received greeting)
unfolding start run Network.step carried Client.boot Server.boot Server.init_http_server
    Server.init_endpoint Client.init_http_client Client.send_syn Client.step Server.step
    Client.receive Client.receive_packet Client.receive_synack Client.receive_ack Client.proceed
    Client.resend_syn Server.receive Server.receive_packet Server.receive_ack Server.proceed
    Server.resend_synack send_request send_loop send_packet write raw is_blocked is_blocked_from
    retransmit retransmit_from retransmit_slot receive_content poll check_for_deliver find_deliver
    is_filled get_packets get_packets_loop parse_packet make_window Router.receive
    Router.parse_packet Router.process Router.send Router.raw
eventful_ends = refl

-- A server in the wait for acknowledgements, after four requests.
abbrev busy : System ℕ
busy = record {
  server = record {
    endpoint = record {
      seq_num = 2;
      peer = some far;
      receiver_window = make_window;
      sender_window = make_window;
      delivery_message = false;
      written = greeting ∷ [];
    };
    connect = true;
    handshake_syn = none;
    handshake_ack = none;
  };
  checker = looking none;
  phase = await_acks;
  world = 4;
}

-- The SYN of a client arrives, and the ACK is lost for some time.
abbrev next_client : List Server.Event
next_client =
    Server.datagram (signal PacketType.syn far)
    ∷ Server.main_turn
    ∷ Server.timeout
    ∷ Server.scan
    ∷ Server.datagram (signal PacketType.ack far)
    ∷ Server.main_turn
    ∷ []

-- The response is acknowledged, and the turn of main ends the connection.
abbrev waiting : System ℕ
waiting = record busy {
  server = record (busy.server) { endpoint = Server.init_endpoint; connect = false };
  phase = Server.await_syn;
}

abbrev free : System ℕ
free = record waiting {
  server = record (waiting.server) {
    endpoint = record (waiting.server.endpoint) { written = greeting ∷ [] };
  };
}

busy_ends : Server.step mirror busy Server.main_turn ≡ ok free
unfolding Server.step Server.proceed Server.reset is_blocked is_blocked_from make_window
    Server.init_endpoint
busy_ends = refl

run-restarted_example :
    Server.run mirror free next_client
    ≡ mapped (system_after (greeting ∷ [])) (Server.run mirror (Server.boot 4) next_client)
run-restarted_example = run-restarted mirror busy free next_client refl busy_ends refl
