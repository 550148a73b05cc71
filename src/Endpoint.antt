-- ===== src/Endpoint.antt =====
-- What the structs HttpServer (lab3/httpfs/httpfs.go) and HttpClient (lab3/httpc/httpc.go) have in
-- common: both keep the same two windows, and the bodies of checkForDeliver, getPackets, sendPacket,
-- the loop over the request in send, the scan of retransmission and the DATA and DELIVER branch of
-- receive are the same text. The lines named are those of the server.
pub mod Segments
pub mod Send
pub mod Signal
pub mod Request
pub mod Reassembly
pub mod Arrival
pub mod Receiver
pub mod Delivery
pub mod Complete
pub mod Content
pub mod Due
pub mod Exchange
pub mod Retransmit
pub mod Wait
use comp6461_computer_networ.Base.{ℕ, zero, suc, ◌+◌, ◌%◌, ◌^◌, Bool, true, false, not, ◌&&◌, ◌||◌}
use comp6461_computer_networ.Base.{Option, none, some, List, [], ◌∷◌, ◌++◌, length, take, drop}
use comp6461_computer_networ.Base.{Go, ok, panic, stuck, nil_dereference, deref, ◌>>=◌, is_nil}
use comp6461_computer_networ.Base.{ltb, leb, ◌==◌, if◌then◌else◌}
use comp6461_computer_networ.Packet.{UdpAddr, Packet, raw, max_payload}
use comp6461_computer_networ.Packet.PacketType
use comp6461_computer_networ.Window.{Window, WindowElement, Timer, new_window_element, restart}
use comp6461_computer_networ.Window.{index, store}

-- `peer` is the server's clientAddr and the client's serverAddr. `written` is every datagram that
-- was handed to the connection; all go to the router, and a write that fails is only logged.
-- `delivery_message` says that the channel of capacity 1 holds a value.
pub record Endpoint : Type 0 where
  pub seq_num : ℕ  -- uint32
  pub peer : Option UdpAddr
  pub receiver_window : Window Packet
  pub sender_window : Window WindowElement
  pub delivery_message : Bool
  pub written : List (List ℕ)

-- A packet with no payload, as the struct literals of the source make it.
abbrev pub control : ℕ → ℕ → Option UdpAddr → Packet
control type seq to = record {
  type = type;
  seq_num = seq;
  to_addr = to;
  from_addr = none;
  payload = [];
}

-- `WriteToUDP(packet.Raw(), routerAddr)`
unfoldable pub write : Endpoint → Packet → Go Endpoint
write e p = do bytes ← raw p; ok (record e { written = e.written ++ (bytes ∷ []) })

unfoldable pub send_packet : Endpoint → Packet → Go Endpoint
unfolding write
send_packet e p = do
  e' ← write e p
  w ← store e.sender_window e.seq_num (some (new_window_element p))
  ok (record e' { sender_window = w; seq_num = (e.seq_num + 1) % 2 ^ 32 })

-- `req[startByte:]` or `req[startByte : startByte+lib.MaxPayload]`
abbrev pub slice_payload : List ℕ → ℕ → List ℕ
slice_payload req start =
    if leb (length req) (start + max_payload)
    then drop start req
    else take max_payload (drop start req)

abbrev pub data_packet : Endpoint → List ℕ → Packet
data_packet e payload = record {
  type = PacketType.data_type;
  seq_num = e.seq_num;
  to_addr = e.peer;
  from_addr = none;
  payload = payload;
}

-- The loop over `startByte`, on fuel.
unfoldable pub send_loop : ℕ → List ℕ → ℕ → Endpoint → Go Endpoint
send_loop zero req start e = if ltb start (length req) then stuck else ok e
send_loop (suc fuel) req start e = elim (ltb start (length req)) [
  | false ↦ ok e
  | true ↦ do
    e' ← send_packet e (data_packet e (slice_payload req start))
    send_loop fuel req (start + max_payload) e'
]

-- All of `send` up to the wait: the packets of the request, and the delivery notice.
unfoldable pub send_request : Endpoint → List ℕ → Go Endpoint
send_request e req = do
  e' ← send_loop (length req) req 0 e
  send_packet e' (control PacketType.deliver e'.seq_num e'.peer)

-- The test on one slot in the wait of the server's `send`.
abbrev pub is_unacked : Option WindowElement → Bool
is_unacked none = false
is_unacked (some w) = not (is_nil w.packet) && is_nil w.ack

-- One round of that wait: `n` slots from `i` on are still to be looked at.
unfoldable pub is_blocked_from : Window WindowElement → ℕ → ℕ → Go Bool
is_blocked_from w i zero = ok false
is_blocked_from w i (suc n) = do
  slot ← index w i
  rest ← is_blocked_from w (i + 1) n
  ok (is_unacked slot || rest)

unfoldable pub is_blocked : Endpoint → Go Bool
is_blocked e = is_blocked_from e.sender_window 0 e.seq_num

-- Write the packet again, and reset the timer.
abbrev pub resend : Endpoint → ℕ → WindowElement → Packet → Timer → Go Endpoint
resend e i w p timer = do
  e' ← write e p
  sw ← store e.sender_window i (some (record w { timer = some (restart timer) }))
  ok (record e' { sender_window = sw })

-- One slot in the scan of `retransmission`; `&&` looks at the timer last.
unfoldable pub retransmit_slot : Endpoint → ℕ → Go Endpoint
unfolding write
retransmit_slot e i = do
  slot ← index e.sender_window i
  elim slot [
    | none ↦ ok e
    | some w ↦ elim w.packet [
      | none ↦ ok e
      | some p ↦ elim w.ack [
        | some _ ↦ ok e
        | none ↦ do timer ← deref w.timer; if timer.fired then resend e i w p timer else ok e
      ]
    ]
  ]

unfoldable pub retransmit_from : Endpoint → ℕ → ℕ → Go Endpoint
retransmit_from e i zero = ok e
retransmit_from e i (suc n) = do e' ← retransmit_slot e i; retransmit_from e' (i + 1) n

-- One scan of `retransmission` over the packets sent.
unfoldable pub retransmit : Endpoint → Go Endpoint
retransmit e = retransmit_from e 0 e.seq_num

abbrev pub is_content : Packet → Bool
is_content p = p.type == PacketType.data_type || p.type == PacketType.deliver

-- The branch of `receive` on DATA and DELIVER: acknowledge, and keep the first packet of a number.
unfoldable pub receive_content : Endpoint → Packet → Go Endpoint
unfolding write
receive_content e p =
    if is_content p
    then (do
      e' ← write e (control PacketType.ack p.seq_num p.from_addr)
      slot ← index e.receiver_window p.seq_num
      w ← if is_nil slot then store e.receiver_window p.seq_num (some p) else ok e.receiver_window
      ok (record e' { receiver_window = w }))
    else ok e

-- The first slot from `i` on that holds a DELIVER packet.
unfoldable pub find_deliver : Window Packet → ℕ → Option ℕ
find_deliver [] i = none
find_deliver (none ∷ w) i = find_deliver w (i + 1)
find_deliver (some p ∷ w) i =
    let rest = find_deliver w (i + 1) in if p.type == PacketType.deliver then some i else rest

-- `for i := deliverSeqNum; i > 0; i--`: all slots from `i` down to 1 are filled.
unfoldable pub is_filled : Window Packet → ℕ → Go Bool
is_filled w zero = ok true
is_filled w (suc i) = do
  slot ← index w (suc i)
  rest ← is_filled w i
  ok (not (is_nil slot) && rest)

-- One round of `checkForDeliver`. `deliverSeqNum` is `none` while it is -1; the flag says that
-- the message is sent and the goroutine ends.
unfoldable pub check_for_deliver : Window Packet → Option ℕ → Go (Option ℕ × Bool)
check_for_deliver w none = ok (find_deliver w 0, false)
check_for_deliver w (some d) = do ready ← is_filled w d; ok (some d, ready)

-- The goroutine: it looks, or has sent its message and ended.
pub data Checker : Type 0 where
  looking : Option ℕ → Checker
  ended : Checker

-- One round of it. The channel has room: the goroutine is the only sender, and sends once.
unfoldable pub poll : Endpoint → Checker → Go (Endpoint × Checker)
poll e ended = ok (e, ended)
poll e (looking d) = do
  (d', ready) ← check_for_deliver e.receiver_window d
  ok (if ready then (record e { delivery_message = true }, ended) else (e, looking d'))

-- The loop of `getPackets`, over the slots that are left.
unfoldable pub get_packets_loop : Window Packet → List ℕ → Go (List ℕ)
get_packets_loop [] payload = ok payload
get_packets_loop (none ∷ w) payload = panic nil_dereference
get_packets_loop (some p ∷ w) payload =
    let payload' = if p.type == PacketType.data_type then payload ++ p.payload else payload in
    let rest = get_packets_loop w payload' in
    if p.type == PacketType.deliver then ok payload' else rest

unfoldable pub get_packets : Window Packet → Go (List ℕ)
get_packets w = get_packets_loop (drop 1 w) []
