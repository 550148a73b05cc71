-- ===== src/Tests/Programs.antt =====
-- The theorems on the router and on the server, at concrete data.
use mathlib.Core.List.{Perm}
use comp6461_computer_networ.Base.{ℕ, ◌+◌, ◌%◌, ◌^◌, ◌≤◌, ◌<◌, ◌≡◌, ◌≢◌, refl, ◌⊎◌}
use comp6461_computer_networ.Base.{true, false, none, some, List, [], ◌∷◌, ◌++◌, map}
use comp6461_computer_networ.Base.{
  length, get_elem?, ok, panic, nil_dereference, index_out_of_range, Go,
}
use comp6461_computer_networ.Packet
use comp6461_computer_networ.Packet.{v4, UdpAddr, Packet, raw, parse_packet, min_len, max_len}
use comp6461_computer_networ.Packet.PacketType
use comp6461_computer_networ.Router.{Router, Event, arrival, timer, start, receive, run}
use comp6461_computer_networ.Router.Accepted.{datagram, all_accepted}
use comp6461_computer_networ.Router.Conservation.{run-conserves}
use comp6461_computer_networ.Router.Order.{run-keeps_order}
use comp6461_computer_networ.Window.{WindowElement, make_window, new_window_element}
use comp6461_computer_networ.Endpoint.{
  Endpoint, control, is_unacked, looking, write, receive_content,
}
use comp6461_computer_networ.Endpoint.Due.{IsSent, is_due}
use comp6461_computer_networ.Server
use comp6461_computer_networ.Server.{
  HttpServer, System, await_syn, receive_packet, receive_ack, boot, step, init_http_server,
}
use comp6461_computer_networ.Server.Receive.{is_ack, uses_window, receive_outcome}
use comp6461_computer_networ.Server.Acks.{receive_ack_settles}
use comp6461_computer_networ.Server.Invariant.{IsRunning}
use comp6461_computer_networ.Server.Safety.{IsBackground, reachable_safe}

abbrev here : UdpAddr
here = record { ip = v4 127 0 0 1; port = 8007 }

abbrev there : UdpAddr
there = record { ip = v4 10 0 0 7; port = 55341 }

abbrev greeting : Packet
greeting = record {
  type = PacketType.data_type;
  seq_num = 70000;
  to_addr = some here;
  from_addr = none;
  payload = 72 ∷ 105 ∷ [];
}

-- The datagrams of a SYN and of an ACK to `here`; three bytes that are no packet.
abbrev syn_bytes : List ℕ
syn_bytes = 1 ∷ 0 ∷ 0 ∷ 0 ∷ 0 ∷ 127 ∷ 0 ∷ 0 ∷ 1 ∷ 31 ∷ 71 ∷ []

abbrev ack_bytes : List ℕ
ack_bytes = 2 ∷ 0 ∷ 0 ∷ 0 ∷ 0 ∷ 127 ∷ 0 ∷ 0 ∷ 1 ∷ 31 ∷ 71 ∷ []

abbrev no_packet : List ℕ
no_packet = 1 ∷ 2 ∷ 3 ∷ []

abbrev traffic : List Event
traffic =
    arrival false there syn_bytes
    ∷ arrival false here no_packet
    ∷ arrival false there ack_bytes
    ∷ timer 1
    ∷ arrival true there syn_bytes
    ∷ []

run-conserves_example :
    (r : Router) × (run 5 start traffic ≡ ok r)
    × Perm (r.written ++ map datagram r.pending) (all_accepted traffic)
    × (r.queue_size ≡ length r.pending % 2 ^ 32)
run-conserves_example = run-conserves 5 traffic

run-keeps_order_example :
    (r : Router) × (run 0 start traffic ≡ ok r)
    × (r.written ≡ all_accepted traffic)
    × (r.pending ≡ [])
run-keeps_order_example = run-keeps_order traffic

-- A server with windows of three slots, which has sent packet 1.
abbrev first : Packet
first = control PacketType.deliver 1 (some there)

abbrev sender : Endpoint
sender = record {
  seq_num = 2;
  peer = some there;
  receiver_window = none ∷ none ∷ none ∷ [];
  sender_window = none ∷ some (new_window_element first) ∷ none ∷ [];
  delivery_message = false;
  written = [];
}

abbrev answering : HttpServer
answering = record { endpoint = sender; connect = true; handshake_syn = none; handshake_ack = none }

receive_outcome_example :
    (((length syn_bytes < min_len) ⊎ (max_len < length syn_bytes))
      × (Server.receive answering syn_bytes ≡ panic nil_dereference))
    ⊎ ((p : Packet) × (parse_packet syn_bytes ≡ ok (some p, none))
        × (uses_window p ≡ true)
        × (3 ≤ p.seq_num)
        × (Server.receive answering syn_bytes ≡ panic index_out_of_range))
    ⊎ ((p : Packet) × (parse_packet syn_bytes ≡ ok (some p, none))
        × ((uses_window p ≡ false) ⊎ (p.seq_num < 3))
        × ((s' : HttpServer) × (Server.receive answering syn_bytes ≡ ok s')))
receive_outcome_example = receive_outcome 3 answering syn_bytes refl refl

abbrev first_ack : Packet
first_ack = record (control PacketType.ack 1 none) { from_addr = some there }

first-IsSent : IsSent (new_window_element first)
first-IsSent = record {
  packet = first;
  to = there;
  timer = record { running = true; fired = false };
  has_packet = refl;
  has_to = refl;
  has_timer = refl;
}

receive_ack_settles_example :
    (e' : Endpoint) × (w' : WindowElement) × (receive_ack sender first_ack ≡ ok e')
    × (e' ≡ record sender { sender_window = e'.sender_window })
    × (get_elem? e'.sender_window 1 ≡ some (some w'))
    × (is_unacked (some w') ≡ false)
    × (is_due w' ≡ false)
    × ((j : ℕ) → 1 ≢ j → get_elem? e'.sender_window j ≡ get_elem? sender.sender_window j)
    × ((q : Packet) → is_ack q ≡ true → q.seq_num ≡ 1 → receive_ack e' q ≡ ok e')
receive_ack_settles_example =
    receive_ack_settles sender first_ack (new_window_element first) refl refl first-IsSent refl

-- A server that answers every request with its bytes.
abbrev echo : ℕ → List ℕ → Go (List ℕ × ℕ)
echo world request = ok (request, world + 1)

-- It gets a SYN, takes it up, and gets the last ACK of the handshake.
abbrev handshake : List Server.Event
handshake =
    Server.datagram syn_bytes ∷ Server.main_turn ∷ Server.datagram ack_bytes ∷ Server.main_turn ∷ []

abbrev connected : System ℕ
connected = record {
  server = record {
    endpoint = record (Server.init_endpoint) {
      seq_num = 1;
      peer = some here;
      written = (3 ∷ 0 ∷ 0 ∷ 0 ∷ 0 ∷ 127 ∷ 0 ∷ 0 ∷ 1 ∷ 31 ∷ 71 ∷ []) ∷ [];
    };
    connect = true;
    handshake_syn = none;
    handshake_ack = none;
  };
  checker = looking none;
  phase = Server.await_delivery;
  world = 0;
}

run-handshake : Server.run echo (boot 0) handshake ≡ ok connected
unfolding Server.run step Server.proceed Server.receive receive_packet receive_ack receive_content
    write raw parse_packet boot init_http_server Server.init_endpoint make_window
run-handshake = refl

reachable_safe_example :
    IsRunning connected
    × ((v : Server.Event)
        → IsBackground echo connected.phase v
        → (y' : System ℕ) × (step echo connected v ≡ ok y'))
reachable_safe_example = reachable_safe echo 0 handshake {y = connected} run-handshake
