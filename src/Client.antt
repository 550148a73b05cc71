-- ===== src/Client.antt =====
-- lab3/httpc/httpc.go: the client over the reliable transport. The goroutines receive,
-- retransmission, checkForDeliver and main take turns in any order; each turn is one event. The
-- functions of the transport are those of Endpoint, which both programs write out.
pub mod Receive
pub mod Handshake
pub mod Transfer
pub mod Response
pub mod Command
pub mod Outcomes
pub mod Stops
pub mod Transport
pub mod Methods
use comp6461_computer_networ.Base.{
  ℕ, ◌+◌, ◌%◌, ◌^◌, Bool, true, false, Option, none, some, List, [],
}
use comp6461_computer_networ.Base.{
  ◌∷◌, ◌++◌, length, Go, ok, deref, ◌>>=◌, is_nil, ◌==◌, if◌then◌else◌,
}
use comp6461_computer_networ.Base.Bytes.{codes}
use comp6461_computer_networ.Text.{itoa, same_text}
use comp6461_computer_networ.Packet.{UdpAddr, Packet, parse_packet}
use comp6461_computer_networ.Packet.PacketType
use comp6461_computer_networ.Window.{make_window, index}
use comp6461_computer_networ.Endpoint.{Endpoint, control, write, send_request, retransmit}
use comp6461_computer_networ.Endpoint.{receive_content, Checker, looking, poll, get_packets}
use comp6461_computer_networ.Server.{acknowledge, expire_slot}

-- The handshake channel, of capacity 1, is a variable of the package.
pub record HttpClient : Type 0 where
  pub endpoint : Endpoint
  pub handshake_synack : Option Packet

unfoldable pub init_http_client : UdpAddr → HttpClient
init_http_client server = record {
  endpoint = record {
    seq_num = 0;
    peer = some server;
    receiver_window = make_window;
    sender_window = make_window;
    delivery_message = false;
    written = [];
  };
  handshake_synack = none;
}

-- The answer to a SYN-ACK: an ACK to the server, also when the packet is a duplicate.
unfoldable pub receive_synack : HttpClient → Packet → Go HttpClient
receive_synack c p =
    if p.type == PacketType.synack
    then (do
      e ← write c.endpoint (control PacketType.ack p.seq_num c.endpoint.peer)
      ok (record {
        endpoint = e;
        handshake_synack = if is_nil c.handshake_synack then some p else c.handshake_synack;
      }))
    else ok c

-- The branch of `receive` on ACK: it reads the element's channel without a test for nil.
unfoldable pub receive_ack : Endpoint → Packet → Go Endpoint
receive_ack e p =
    if p.type == PacketType.ack
    then (do slot ← index e.sender_window p.seq_num; w ← deref slot; acknowledge e p w)
    else ok e

-- `receive` on a packet.
unfoldable pub receive_packet : HttpClient → Packet → Go HttpClient
receive_packet c p = do
  c' ← receive_synack c p
  e ← receive_ack c'.endpoint p
  e' ← receive_content e p
  ok (record c' { endpoint = e' })

-- One round of `receive`; an error of ParsePacket is only logged, and leaves `p` nil.
unfoldable pub receive : HttpClient → List ℕ → Go HttpClient
receive c bytes = do (p, err) ← parse_packet bytes; q ← deref p; receive_packet c q

abbrev crlf : List ℕ
crlf = 13 ∷ 10 ∷ []

abbrev pub header_end : List ℕ
header_end = 13 ∷ 10 ∷ 13 ∷ 10 ∷ []

abbrev pub proto : List ℕ
proto = codes "HTTP/1.0"

-- The header lines of `-h`, each with its line end.
unfoldable pub header_lines : List (List ℕ) → List ℕ
header_lines [] = []
header_lines (h ∷ hs) = h ++ (crlf ++ header_lines hs)

-- The line of the request and the Host line. `host` is what url.Parse makes of the URL.
abbrev pub request_head : List ℕ → List ℕ → List ℕ → List ℕ
request_head verb url host =
    verb ++ (url ++ (codes " " ++ (proto ++ (crlf ++ (codes "Host: " ++ (host ++ crlf))))))

-- The text that `get` sends.
unfoldable pub get_request : List ℕ → List ℕ → List (List ℕ) → List ℕ
get_request url host headers =
    request_head (codes "GET ") url host ++ (header_lines headers ++ header_end)

-- The text that `post` sends.
unfoldable pub post_request : List ℕ → List ℕ → List (List ℕ) → List ℕ → List ℕ
post_request url host headers data' =
    request_head (codes "POST ") url host
    ++ (header_lines headers
        ++ (codes "Content-Length: " ++ (itoa (length data') ++ (header_end ++ data'))))

-- `contains(s, e)`
unfoldable pub contains : List (List ℕ) → List ℕ → Bool
contains [] e = false
contains (a ∷ s) e = let rest = contains s e in if same_text a e then true else rest

-- Where `main` waits: in establishConnection for the SYN-ACK, and in `send` for the message of
-- checkForDeliver. In the end it has the response.
pub data Phase : Type 0 where
  await_synack await_delivery : Phase
  received : List ℕ → Phase

-- `request` is the text that `main` sends once it is connected.
pub record Session : Type 0 where
  pub client : HttpClient
  pub checker : Checker
  pub phase : Phase
  pub request : List ℕ

pub data Event : Type 0 where
  datagram : List ℕ → Event
  check : Event
  scan : Event
  expiry : ℕ → Event
  timeout : Event
  main_turn : Event

-- One round of establishConnection starts with a SYN.
unfoldable pub send_syn : HttpClient → Go HttpClient
send_syn c = do
  e ← write c.endpoint (control PacketType.syn c.endpoint.seq_num c.endpoint.peer)
  ok (record c { endpoint = e })

-- The end of establishConnection, and the number that the request starts with.
abbrev pub established : HttpClient → HttpClient
established c = record {
  endpoint = record (c.endpoint) { seq_num = (c.endpoint.seq_num + 1) % 2 ^ 32 };
  handshake_synack = none;
}

-- `main` goes on if what it waits for is there.
unfoldable pub proceed : Phase → Session → Go Session
proceed await_synack y = elim y.client.handshake_synack [
  | none ↦ ok y
  | some p ↦
      let c = established y.client in
      do
        e ← send_request c.endpoint y.request
        ok (record y { client = record c { endpoint = e }; phase = await_delivery })
]
proceed await_delivery y =
    if y.client.endpoint.delivery_message
    then (do
      response ← get_packets y.client.endpoint.receiver_window
      ok (record y {
        client = record (y.client) {
          endpoint = record (y.client.endpoint) { delivery_message = false };
        };
        phase = received response;
      }))
    else ok y
proceed (received response) y = ok y

-- The timeout of establishConnection: the SYN is sent again.
unfoldable pub resend_syn : Phase → Session → Go Session
resend_syn await_synack y = do c ← send_syn y.client; ok (record y { client = c })
resend_syn _ y = ok y

unfoldable pub step : Session → Event → Go Session
step y (datagram bytes) = do c ← receive y.client bytes; ok (record y { client = c })
step y check = do
  (e, k) ← poll y.client.endpoint y.checker
  ok (record y { client = record (y.client) { endpoint = e }; checker = k })
step y scan = do
  e ← retransmit y.client.endpoint
  ok (record y { client = record (y.client) { endpoint = e } })
step y (expiry i) =
    ok (record y { client = record (y.client) { endpoint = expire_slot y.client.endpoint i } })
step y timeout = resend_syn y.phase y
step y main_turn = proceed y.phase y

unfoldable pub run : Session → List Event → Go Session
run y [] = ok y
run y (v ∷ vs) = do y' ← step y v; run y' vs

-- `main` up to its first wait: the client for a server, and its first SYN.
unfoldable pub boot : UdpAddr → List ℕ → Go Session
boot server request = do
  c ← send_syn (init_http_client server)
  ok (record { client = c; checker = looking none; phase = await_synack; request = request })
