-- ===== src/Tests/Transport.antt =====
-- The theorems on packets and on one endpoint, at concrete data.
use comp6461_computer_networ.Base.{
  ℕ, zero, suc, ◌+◌, ◌≤◌, ◌<◌, ◌≡◌, refl, arith, inl, inr, ◌>>=◌, ◌⊎◌,
}
use comp6461_computer_networ.Base.{true, false, none, some, List, [], ◌∷◌}
use comp6461_computer_networ.Base.{length, get_elem?, ok, panic, index_out_of_range, All}
use comp6461_computer_networ.Packet.{v4, UdpAddr, Packet, raw, parse_packet, min_len, max_len}
use comp6461_computer_networ.Packet.PacketType
use comp6461_computer_networ.Packet.{too_short, exceeded_max_length}
use comp6461_computer_networ.Base.Bytes.{IsByte}
use mathlib.Core.Path.{subst}
use mathlib.Core.Option.{some-injective}
use comp6461_computer_networ.Packet.RoundTrip.{
  IsUdp4, IsWire, arrived, parse_packet-raw, raw-parse_packet, parse_packet_outcome,
}
use comp6461_computer_networ.Window.{WindowElement, new_window_element}
use comp6461_computer_networ.Endpoint.{Endpoint, control, ended}
use comp6461_computer_networ.Endpoint.{send_request, retransmit}
use comp6461_computer_networ.Endpoint.{get_packets, receive_content}
use comp6461_computer_networ.Endpoint.Segments.{chunks, data_packets, content_packet}
use comp6461_computer_networ.Endpoint.Segments.{request_chunks, request_packets}
use comp6461_computer_networ.Endpoint.Send.{sent_all}
use comp6461_computer_networ.Endpoint.Request.{send_request_ok, send_request_panic}
use comp6461_computer_networ.Endpoint.Arrival.{kept, ack_bytes, receive_content_ok}
use comp6461_computer_networ.Endpoint.Receiver.{Receiver, Event, arrives, checks, run, window}
use comp6461_computer_networ.Endpoint.Delivery.{IsOneOf, incoming}
use comp6461_computer_networ.Endpoint.Complete.{Occurs, fresh, delivers_request, delivers_complete}
use comp6461_computer_networ.Endpoint.Due.{IsSent, AllSent, due_bytes, slot_refreshed}
use comp6461_computer_networ.Endpoint.Retransmit.{retransmit_lem}

abbrev server : UdpAddr
server = record { ip = v4 127 0 0 1; port = 8007 }

abbrev client : UdpAddr
client = record { ip = v4 127 0 0 1; port = 55341 }

server-IsUdp4 : IsUdp4 server
server-IsUdp4 = record {
  ip_v4 = (omega arith, omega arith, omega arith, omega arith);
  port_u16 = omega arith;
}

-- The request of two bytes, and its two packets.
abbrev hi : List ℕ
hi = 72 ∷ 105 ∷ []

abbrev content : Packet
content = content_packet (some server) 1 hi

abbrev notice : Packet
notice = control PacketType.deliver 2 (some server)

content-IsWire : IsWire content
content-IsWire = record {
  type_byte = omega arith;
  seq_u32 = omega arith;
  payload_fits = omega arith;
}

parse_packet-raw_example : (raw content >>= parse_packet) ≡ ok (some (arrived content server), none)
parse_packet-raw_example = parse_packet-raw content server refl server-IsUdp4 content-IsWire

abbrev short_syn : List ℕ
short_syn = 1 ∷ 0 ∷ 0 ∷ 0 ∷ 0 ∷ 127 ∷ 0 ∷ 0 ∷ 1 ∷ 31 ∷ 71 ∷ []

abbrev syn_packet : Packet
syn_packet = record (control PacketType.syn 0 none) { from_addr = some server }

short_syn-bytes : All IsByte short_syn
short_syn-bytes = ground arith

raw-parse_packet_example : raw (record syn_packet { to_addr = some server }) ≡ ok short_syn
unfolding parse_packet
raw-parse_packet_example = raw-parse_packet short_syn {p = syn_packet} short_syn-bytes refl

parse_packet_outcome_example :
    ((length short_syn < min_len)
      × (parse_packet short_syn ≡ ok (none, some (too_short (length short_syn)))))
    ⊎ ((max_len < length short_syn)
        × (parse_packet short_syn ≡ ok (none, some (exceeded_max_length (length short_syn)))))
    ⊎ ((p : Packet) × (min_len ≤ length short_syn)
        × (length short_syn ≤ max_len)
        × (parse_packet short_syn ≡ ok (some p, none))
        × (length p.payload + min_len ≡ length short_syn))
parse_packet_outcome_example = parse_packet_outcome short_syn

-- A receiver and a sender that are connected.
abbrev idle : Endpoint
idle = record {
  seq_num = 1;
  peer = some server;
  receiver_window = none ∷ none ∷ none ∷ none ∷ [];
  sender_window = none ∷ none ∷ none ∷ none ∷ [];
  delivery_message = false;
  written = [];
}

one_piece : length (request_chunks hi) ≡ 1
unfolding request_chunks chunks
one_piece = refl

send_request_ok_example :
    send_request idle hi ≡ ok (sent_all server idle (request_packets (some server) 1 hi))
send_request_ok_example =
    send_request_ok server idle hi refl (omega (arith, one_piece)) (omega arith)

-- Two slots are too few for a piece and the notice behind number 1.
abbrev narrow : Endpoint
narrow = record idle { sender_window = none ∷ none ∷ [] }

send_request_panic_example : send_request narrow hi ≡ panic index_out_of_range
send_request_panic_example =
    send_request_panic server narrow hi refl (omega arith) (omega (arith, one_piece)) (omega arith)

receive_content_ok_example :
    receive_content idle (arrived content client)
    ≡ ok (record idle {
      receiver_window = kept idle.receiver_window 1 (arrived content client);
      written = ack_bytes 1 client ∷ [];
    })
receive_content_ok_example =
    receive_content_ok idle (arrived content client) client refl refl (omega arith)

-- The notice comes first and twice, with rounds of the check in between.
abbrev shuffled : List Event
shuffled =
    arrives (arrived notice client)
    ∷ checks
    ∷ arrives (arrived content client)
    ∷ arrives (arrived notice client)
    ∷ []

shuffled-IsOneOf : All (IsOneOf (incoming client (some server) hi)) shuffled
unfolding request_packets request_chunks chunks data_packets
shuffled-IsOneOf = ((1, refl), (tt, ((0, refl), ((1, refl), tt))))

shuffled-every :
    (k : ℕ) (q : Packet)
    → get_elem? (incoming client (some server) hi) k ≡ some q
    → Occurs q shuffled
unfolding request_packets request_chunks chunks data_packets
shuffled-every zero q at = inr (inl (some-injective _ q at))
shuffled-every (suc zero) q at = inl (some-injective _ q at)
shuffled-every (suc (suc k)) q at = cc

delivers_request_example :
    (r : Receiver) × (run (fresh idle) shuffled ≡ ok r)
    × (r.checker ≡ ended → (r.endpoint.delivery_message ≡ true) × (get_packets (window r) ≡ ok hi))
delivers_request_example =
    delivers_request client (some server) hi idle shuffled (omega arith) shuffled-IsOneOf

delivers_complete_example :
    (r r' : Receiver) × (run (fresh idle) shuffled ≡ ok r)
    × (run r (checks ∷ checks ∷ []) ≡ ok r')
    × (r'.endpoint.delivery_message ≡ true)
    × (get_packets (window r') ≡ ok hi)
delivers_complete_example =
    delivers_complete client (some server) hi idle shuffled (omega arith) shuffled-IsOneOf
      shuffled-every

-- A packet whose timer has fired.
abbrev late : WindowElement
late = record (new_window_element content) {
  timer = some (record { running = false; fired = true });
}

abbrev waiting : Endpoint
waiting = record idle { seq_num = 2; sender_window = none ∷ some late ∷ none ∷ none ∷ [] }

late-IsSent : IsSent late
late-IsSent = record {
  packet = content;
  to = server;
  timer = record { running = false; fired = true };
  has_packet = refl;
  has_to = refl;
  has_timer = refl;
}

waiting-AllSent : AllSent waiting.sender_window
waiting-AllSent zero w at = cc
waiting-AllSent (suc zero) w at =
    subst IsSent (some-injective _ w (some-injective _ (some w) at)) late-IsSent
waiting-AllSent (suc (suc zero)) w at = cc
waiting-AllSent (suc (suc (suc zero))) w at = cc
waiting-AllSent (suc (suc (suc (suc i)))) w at = cc

retransmit_lem_example :
    (e' : Endpoint) × (retransmit waiting ≡ ok e')
    × (e'.seq_num ≡ 2)
    × (e'.written ≡ due_bytes waiting.sender_window 0 2)
    × ((j : ℕ)
        → j < 2
        → get_elem? e'.sender_window j ≡ slot_refreshed (get_elem? waiting.sender_window j))
    × ((j : ℕ) → 2 ≤ j → get_elem? e'.sender_window j ≡ get_elem? waiting.sender_window j)
retransmit_lem_example = retransmit_lem waiting waiting-AllSent (omega arith)
