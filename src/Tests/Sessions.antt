-- ===== src/Tests/Sessions.antt =====
-- The theorems on the client and on the handshake, at concrete data.
use comp6461_computer_networ.Base.{
  ℕ, ◌+◌, ◌≤◌, ◌<◌, ◌≡◌, refl, arith, ◌⊎◌, ◌>>=◌, ◌||◌, true, false, none, some, List, [], ◌∷◌,
  ◌++◌, map, length, get_elem?, Go, ok, panic, nil_dereference, index_out_of_range,
}
use comp6461_computer_networ.Base.Bytes.{codes}
use comp6461_computer_networ.Text.{itoa}
use comp6461_computer_networ.Packet.{v4, UdpAddr, Packet, raw_to, parse_packet, min_len, max_len}
use comp6461_computer_networ.Packet.PacketType
use comp6461_computer_networ.Packet.RoundTrip.{IsUdp4}
use comp6461_computer_networ.Window.{WindowElement, new_window_element}
use comp6461_computer_networ.Endpoint.{is_content}
use comp6461_computer_networ.Endpoint.Segments.{request_packets}
use comp6461_computer_networ.Endpoint.Signal.{signal}
use comp6461_computer_networ.Server
use comp6461_computer_networ.Server.{System}
use comp6461_computer_networ.Server.Handshake.{synacks, timeouts, server_connects}
use comp6461_computer_networ.Client.{
  HttpClient, Session, datagram, main_turn, await_delivery, boot, run, receive, receive_packet,
  receive_synack, receive_ack, post_request, get_request, header_lines,
}
use comp6461_computer_networ.Client.Receive.{is_client_ack, client_outcome}
use comp6461_computer_networ.Client.Handshake.{client_connects}

abbrev host : UdpAddr
host = record { ip = v4 10 0 0 7; port = 8007 }

host-IsUdp4 : IsUdp4 host
host-IsUdp4 = record {
  ip_v4 = (omega arith, omega arith, omega arith, omega arith);
  port_u16 = omega arith;
}

-- A client with windows of three slots that has sent nothing.
abbrev quiet : HttpClient
quiet = record {
  endpoint = record {
    seq_num = 1;
    peer = some host;
    receiver_window = none ∷ none ∷ none ∷ [];
    sender_window = none ∷ none ∷ none ∷ [];
    delivery_message = false;
    written = [];
  };
  handshake_synack = none;
}

abbrev stray_ack : List ℕ
stray_ack = 2 ∷ 0 ∷ 0 ∷ 0 ∷ 1 ∷ 10 ∷ 0 ∷ 0 ∷ 7 ∷ 31 ∷ 71 ∷ []

client_outcome_example :
    (((length stray_ack < min_len) ⊎ (max_len < length stray_ack))
      × (receive quiet stray_ack ≡ panic nil_dereference))
    ⊎ ((p : Packet) × (parse_packet stray_ack ≡ ok (some p, none))
        × (is_client_ack p || is_content p ≡ true)
        × (3 ≤ p.seq_num)
        × (receive quiet stray_ack ≡ panic index_out_of_range))
    ⊎ ((p : Packet) × (parse_packet stray_ack ≡ ok (some p, none))
        × (is_client_ack p ≡ true)
        × (get_elem? quiet.endpoint.sender_window p.seq_num ≡ some none)
        × (receive quiet stray_ack ≡ panic nil_dereference))
    ⊎ ((p : Packet) × (parse_packet stray_ack ≡ ok (some p, none))
        × ((is_content p ≡ false) ⊎ (p.seq_num < 3))
        × ((is_client_ack p ≡ false)
            ⊎ ((w : WindowElement) × (get_elem? quiet.endpoint.sender_window p.seq_num
                  ≡ some (some w))))
        × ((c' : HttpClient) × (receive quiet stray_ack ≡ ok c')))
client_outcome_example = client_outcome 3 quiet host stray_ack refl refl refl

-- An ACK for a packet that was never sent stops the client.
stray_ack_stops : receive quiet stray_ack ≡ panic nil_dereference
unfolding receive receive_packet receive_synack receive_ack parse_packet
stray_ack_stops = refl

abbrev ping : List ℕ
ping = 71 ∷ 69 ∷ 84 ∷ 32 ∷ 47 ∷ []

client_connects_example :
    (y : Session) × ((boot host ping >>= λ z.
    run z (datagram (signal PacketType.synack host) ∷ main_turn ∷ []))
      ≡ ok y)
    × (y.phase ≡ await_delivery)
    × (y.client.endpoint.written
        ≡ signal PacketType.syn host
          ∷ signal PacketType.ack host
          ∷ map (λ p. raw_to p host) (request_packets (some host) 1 ping))
    × ((k : ℕ) (p : Packet)
        → get_elem? (request_packets (some host) 1 ping) k ≡ some p
        → get_elem? y.client.endpoint.sender_window (1 + k) ≡ some (some (new_window_element p)))
client_connects_example = client_connects host ping host-IsUdp4 (omega arith)

-- A server that answers every request with its bytes.
abbrev pub mirror : ℕ → List ℕ → Go (List ℕ × ℕ)
mirror world request = ok (request, world + 1)

server_connects_example :
    (y : System ℕ) × (Server.run mirror (Server.boot 0) (
        Server.datagram (signal PacketType.syn host)
        ∷ Server.main_turn
        ∷ (timeouts 2 ++ (Server.datagram (signal PacketType.ack host) ∷ Server.main_turn ∷ [])))
      ≡ ok y)
    × (y.server.connect ≡ true)
    × (y.phase ≡ Server.await_delivery)
    × (y.server.endpoint.seq_num ≡ 1)
    × (y.server.endpoint.peer ≡ some host)
    × (y.server.endpoint.written ≡ synacks host 3)
server_connects_example = server_connects mirror 0 host 2 host-IsUdp4

-- The texts of the two kinds of request.
post_text :
    post_request (codes "http://h/a") (codes "h") (codes "K:v" ∷ []) (codes "hi")
    ≡ codes "POST http://h/a HTTP/1.0\r\nHost: h\r\nK:v\r\nContent-Length: 2\r\n\r\nhi"
unfolding post_request header_lines itoa
post_text = refl

get_text :
    get_request (codes "http://h/a") (codes "h") []
    ≡ codes "GET http://h/a HTTP/1.0\r\nHost: h\r\n\r\n\r\n"
unfolding get_request header_lines
get_text = refl
