-- ===== src/Endpoint/Request.antt =====
-- The loop of `send` over the request, and the whole request with its delivery notice.
use comp6461_computer_networ.Base.{ℕ, zero, suc, ◌+◌, ◌%◌, ◌^◌, ◌≤◌, ◌<◌, ◌≡◌, refl, sym, ap, ◌∙◌}
use comp6461_computer_networ.Base.{Option, some, List, [], ◌∷◌, arith}
use comp6461_computer_networ.Base.{length, drop, take, length-set, length-drop, drop-drop}
use comp6461_computer_networ.Base.{ok, panic, index_out_of_range, lt→ltb, dec_lt, ◌>>=◌}
use comp6461_computer_networ.Packet.{UdpAddr, Packet, max_payload}
use comp6461_computer_networ.Packet.PacketType
use comp6461_computer_networ.Window.{new_window_element}
use comp6461_computer_networ.Endpoint.{Endpoint, control, data_packet, send_packet}
use comp6461_computer_networ.Endpoint.{send_loop, send_request, slice_payload}
use comp6461_computer_networ.Endpoint.Segments.{
  chunks, content_packet, data_packets, request_chunks,
}
use comp6461_computer_networ.Endpoint.Segments.{request_packets, chunks_step, chunks_end}
use comp6461_computer_networ.Endpoint.Segments.{slice_payload_lem, length-data_packets}
use comp6461_computer_networ.Endpoint.Send.{
  sent, sent_all, send_packet_ok, send_packet_panic, sent_all-append, sent_all_fields,
}

send_loop_end :
    (fuel : ℕ) (req : List ℕ) (start : ℕ) (e : Endpoint)
    → length req ≤ start
    → send_loop fuel req start e ≡ ok e
unfolding send_loop
send_loop_end zero req start e h = ground arith
send_loop_end (suc fuel) req start e h = ground arith

-- One round, with the packet that it sends in the words of the description.
send_loop_step :
    (a : UdpAddr) (fuel : ℕ) (req : List ℕ) (start : ℕ) (e : Endpoint)
    → e.peer ≡ some a
    → start < length req
    → send_loop (suc fuel) req start e ≡ (
        send_packet e (content_packet (some a) e.seq_num (take max_payload (drop start req)))
        >>= send_loop fuel req (start + max_payload))
unfolding send_loop
send_loop_step a fuel req start e to h =
    let packet : data_packet e (slice_payload req start)
        ≡ content_packet (some a) e.seq_num (take max_payload (drop start req)) =
      rw (slice_payload_lem req start)
        (ap (λ to'. content_packet to' e.seq_num (take max_payload (drop start req))) to) in
    rw (lt→ltb start (length req) h, send_loop)
      (ap (λ p. send_packet e p >>= send_loop fuel req (start + max_payload)) packet)

chunks_at :
    (fuel : ℕ) (req : List ℕ) (start : ℕ)
    → start < length req
    → chunks (suc fuel) (drop start req)
      ≡ take max_payload (drop start req) ∷ chunks fuel (drop (start + max_payload) req)
chunks_at fuel req start h =
    chunks_step fuel (drop start req) (omega (arith, length-drop start req))
    ∙ ap (λ rest. take max_payload (drop start req) ∷ chunks fuel rest)
        (drop-drop max_payload start req)

end_ok :
    (a : UdpAddr) (fuel : ℕ) (req : List ℕ) (start : ℕ) (e : Endpoint)
    → length req ≤ start
    → send_loop fuel req start e
      ≡ ok (sent_all a e (data_packets (some a) e.seq_num (chunks fuel (drop start req))))
unfolding sent_all data_packets
end_ok a fuel req start e h =
    rw (chunks_end fuel (drop start req) (omega (arith, length-drop start req)))
      (send_loop_end fuel req start e h)

sent_all_next :
    (a : UdpAddr) (e : Endpoint) (c : List ℕ) (cs : List (List ℕ))
    → e.seq_num + 1 < 2 ^ 32
    → sent_all a
        (sent a e (content_packet (some a) e.seq_num c))
        (data_packets (some a) ((e.seq_num + 1) % 2 ^ 32) cs)
      ≡ sent_all a e (data_packets (some a) e.seq_num (c ∷ cs))
unfolding sent_all data_packets
sent_all_next a e c cs h =
    let small : (e.seq_num + 1) % 2 ^ 32 ≡ e.seq_num + 1 = omega arith in
    ap
      (λ seq.
        sent_all a (sent a e (content_packet (some a) e.seq_num c)) (data_packets (some a) seq cs))
      small

-- The loop sends the DATA packets of the pieces that are left, while the window has room.
pub send_loop_ok :
    (a : UdpAddr) (fuel : ℕ) (req : List ℕ) (start : ℕ) (e : Endpoint)
    → e.peer ≡ some a
    → length req ≤ start + fuel
    → e.seq_num + length (chunks fuel (drop start req)) ≤ length e.sender_window
    → length e.sender_window < 2 ^ 32
    → send_loop fuel req start e
      ≡ ok (sent_all a e (data_packets (some a) e.seq_num (chunks fuel (drop start req))))
send_loop_ok a zero req start e to f h n = end_ok a zero req start e (omega arith)
send_loop_ok a (suc fuel) req start e to f h n = elim (dec_lt start (length req)) [
  | no end ↦ end_ok a (suc fuel) req start e (omega arith)
  | yes more ↦
      let piece = take max_payload (drop start req) in
      let p : Packet = content_packet (some a) e.seq_num piece in
      let next : e.seq_num + suc (length (chunks fuel (drop (start + max_payload) req)))
          ≤ length e.sender_window =
        rw (chunks_at fuel req start more) at h in
      rw
        (
          send_loop_step a fuel req start e to more,
          send_packet_ok e p a refl (omega arith),
          chunks_at fuel req start more,
        )
        (send_loop_ok a fuel req (start + max_payload) (sent a e p) to (omega arith)
            (omega (arith, length-set e.sender_window e.seq_num (some (new_window_element p))))
            (omega (arith, length-set e.sender_window e.seq_num (some (new_window_element p))))
          ∙ ap ok (
              sent_all_next a e piece (chunks fuel (drop (start + max_payload) req)) (omega arith)))
]

-- The loop panics at the slot behind the window when there are more pieces than room.
pub send_loop_panic :
    (a : UdpAddr) (fuel : ℕ) (req : List ℕ) (start : ℕ) (e : Endpoint)
    → e.peer ≡ some a
    → e.seq_num ≤ length e.sender_window
    → length e.sender_window < e.seq_num + length (chunks fuel (drop start req))
    → length e.sender_window < 2 ^ 32
    → send_loop fuel req start e ≡ panic index_out_of_range
send_loop_panic a zero req start e to room h n = absurd (unfold chunks in omega arith)
send_loop_panic a (suc fuel) req start e to room h n = elim (dec_lt start (length req)) [
  | no end ↦
      let none_left : length (chunks (suc fuel) (drop start req)) ≡ 0 =
        ap length (chunks_end (suc fuel) (drop start req) (omega (arith, length-drop start req))) in
      absurd (omega arith)
  | yes more ↦
      let p : Packet = content_packet (some a) e.seq_num (take max_payload (drop start req)) in
      let next : length e.sender_window
          < e.seq_num + suc (length (chunks fuel (drop (start + max_payload) req))) =
        rw (chunks_at fuel req start more) at h in
      rw (send_loop_step a fuel req start e to more)
        (elim (dec_lt e.seq_num (length e.sender_window)) [
          | no full ↦ rw (send_packet_panic e p a refl (omega arith))
          | yes free ↦ rw (send_packet_ok e p a refl free) (
              send_loop_panic a fuel req (start + max_payload) (sent a e p) to
                (omega (arith, length-set e.sender_window e.seq_num (some (new_window_element p))))
                (omega (arith, length-set e.sender_window e.seq_num (some (new_window_element p))))
                (omega (arith, length-set e.sender_window e.seq_num (some (new_window_element p)))))
        ])
]

sent_all_one : (a : UdpAddr) (e : Endpoint) (p : Packet) → sent_all a e (p ∷ []) ≡ sent a e p
unfolding sent_all
sent_all_one a e p = refl

-- With a peer, and a window of fewer than 2 ^ 32 slots that has room for the pieces of the request
-- and the notice, `send` writes exactly the packets of the description, in order, and stores each
-- under its number.
pub send_request_ok :
    (a : UdpAddr) (e : Endpoint) (req : List ℕ)
    → e.peer ≡ some a
    → e.seq_num + length (request_chunks req) < length e.sender_window
    → length e.sender_window < 2 ^ 32
    → send_request e req ≡ ok (sent_all a e (request_packets (some a) e.seq_num req))
unfolding send_request request_packets
send_request_ok a e req to h n =
    let cs = request_chunks req in
    let ds = data_packets (some a) e.seq_num cs in
    let (seq, peer, _, len, _) = sent_all_fields a ds e (omega (arith, count)) in
    rw (send_loop_ok a (length req) req 0 e to (omega arith) (omega arith) n) (
      send_packet_ok (sent_all a e ds) _ a (peer ∙ to) (omega (arith, seq, len, count))
      ∙ ap ok (
          ap (sent a (sent_all a e ds)) (notice (seq ∙ ap (λ k. e.seq_num + k) count) (peer ∙ to))
          ∙ sym (sent_all_one a (sent_all a e ds) _)
          ∙ sym (sent_all-append a e ds _)))
  where
    count :
        length (data_packets (some a) e.seq_num (request_chunks req)) ≡ length (request_chunks req)
    count = length-data_packets (some a) e.seq_num (request_chunks req)

    notice :
        {s t : ℕ} {p q : Option UdpAddr}
        → s ≡ t
        → p ≡ q
        → control PacketType.deliver s p ≡ control PacketType.deliver t q
    notice es ep = λ i. control PacketType.deliver (es i) (ep i)

-- With a peer, the next number not past the window, and a window of fewer than 2 ^ 32 slots that
-- has no room for the pieces of the request and the notice, `send` panics.
pub send_request_panic :
    (a : UdpAddr) (e : Endpoint) (req : List ℕ)
    → e.peer ≡ some a
    → e.seq_num ≤ length e.sender_window
    → length e.sender_window ≤ e.seq_num + length (request_chunks req)
    → length e.sender_window < 2 ^ 32
    → send_request e req ≡ panic index_out_of_range
unfolding send_request request_chunks
send_request_panic a e req to room h n =
    elim (dec_lt (length e.sender_window) (e.seq_num + length (request_chunks req))) [
      | yes more ↦ rw (send_loop_panic a (length req) req 0 e to room more n)
      | no exact ↦
          let ds = data_packets (some a) e.seq_num (request_chunks req) in
          let count = length-data_packets (some a) e.seq_num (request_chunks req) in
          let (seq, peer, _, len, _) = sent_all_fields a ds e (omega (arith, count)) in
          rw (send_loop_ok a (length req) req 0 e to (omega arith) (omega arith) n)
            (send_packet_panic (sent_all a e ds) _ a (peer ∙ to) (omega (arith, seq, len, count)))
    ]
