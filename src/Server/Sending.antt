-- ===== src/Server/Sending.antt =====
-- `retransmission`, the timers and `send` on the windows of an endpoint.
use comp6461_computer_networ.Base.{ℕ, ◌+◌, ◌≤◌, ◌≡◌, refl, sym, ap, ◌∙◌, arith}
use comp6461_computer_networ.Base.{Option, none, some, List, [], ◌∷◌, All, All-append, dec_lt}
use comp6461_computer_networ.Base.{length, get_elem?, set, ok, ok_injective}
use comp6461_computer_networ.Base.{length-set, length-append}
use mathlib.Core.Path.{subst}
use comp6461_computer_networ.Packet.{UdpAddr, Packet}
use comp6461_computer_networ.Window.{WindowElement, expire, window_size}
use comp6461_computer_networ.Endpoint.{Endpoint, send_request, retransmit}
use comp6461_computer_networ.Endpoint.Due.{IsSent}
use comp6461_computer_networ.Endpoint.Retransmit.{retransmit_from-ScansFrom}
use comp6461_computer_networ.Endpoint.Segments.{
  data_packets, request_packets, request_chunks, length-data_packets,
}
use comp6461_computer_networ.Endpoint.Send.{sent, sent_all, sent_all_fields}
use comp6461_computer_networ.Endpoint.Request.{send_request_ok, send_request_panic}
use comp6461_computer_networ.Server.{expire_slot}
use comp6461_computer_networ.Server.Windows.{HasWindows, set-AllSent, new-IsSent, with_sender}

-- A scan of `retransmission` returns, and keeps the windows well formed.
pub retransmit-HasWindows :
    (e : Endpoint)
    → HasWindows e
    → e.seq_num ≤ window_size
    → (e' : Endpoint) × (retransmit e ≡ ok e')
      × HasWindows e'
      × (e'.seq_num ≡ e.seq_num)
      × (e'.peer ≡ e.peer)
      × (e'.receiver_window ≡ e.receiver_window)
unfolding retransmit
retransmit-HasWindows e h le =
    let s = retransmit_from-ScansFrom e 0 e.seq_num h.all_sent (omega (arith, h.send_size)) in
    (
      s.after,
      s.returns,
      record {
        recv_size = ap length s.recv ∙ h.recv_size;
        send_size = s.size ∙ h.send_size;
        all_sent = s.all_sent;
      },
      s.seq,
      s.peer,
      s.recv,
    )

expired-IsSent :
    (w : WindowElement)
    → IsSent w
    → IsSent (record w { timer = elim w.timer [ none ↦ none | some t ↦ some (expire t) ] })
expired-IsSent w s = record {
  packet = s.packet;
  to = s.to;
  timer = expire s.timer;
  has_packet = s.has_packet;
  has_to = s.has_to;
  has_timer = ground arith;
}

abbrev expired : Endpoint → ℕ → Option (Option WindowElement) → Endpoint
expired e i (some (some w)) = record e {
  sender_window =
      set e.sender_window i
        (some (record w { timer = elim w.timer [ none ↦ none | some t ↦ some (expire t) ] }));
}
expired e i _ = e

expired-HasWindows :
    (e : Endpoint) (i : ℕ) (slot : Option (Option WindowElement))
    → get_elem? e.sender_window i ≡ slot
    → HasWindows e
    → HasWindows (expired e i slot)
expired-HasWindows e i none at h = h
expired-HasWindows e i (some none) at h = h
expired-HasWindows e i (some (some w)) at h =
    with_sender e _ h (length-set e.sender_window i _ ∙ h.send_size)
      (set-AllSent e.sender_window i _ h.all_sent (expired-IsSent w (h.all_sent i w at)))

expire_slot_lem :
    (e : Endpoint) (i : ℕ) → expire_slot e i ≡ expired e i (get_elem? e.sender_window i)
unfolding expire_slot
expire_slot_lem e i = ground arith

pub expire_slot-HasWindows :
    (e : Endpoint) (i : ℕ)
    → HasWindows e
    → HasWindows (expire_slot e i)
      × ((expire_slot e i).seq_num ≡ e.seq_num)
      × ((expire_slot e i).peer ≡ e.peer)
      × ((expire_slot e i).receiver_window ≡ e.receiver_window)
unfolding expire_slot
expire_slot-HasWindows e i h = (
  rw expire_slot_lem (expired-HasWindows e i (get_elem? e.sender_window i) refl h),
  ground arith,
  ground arith,
  ground arith,
)

abbrev GoesTo : UdpAddr → Packet → Type 0
GoesTo a p = p.to_addr ≡ some a

data_packets-GoesTo :
    (a : UdpAddr) (seq : ℕ) (cs : List (List ℕ)) → All (GoesTo a) (data_packets (some a) seq cs)
unfolding data_packets
data_packets-GoesTo a seq [] = tt
data_packets-GoesTo a seq (c ∷ cs) = (refl, data_packets-GoesTo a (seq + 1) cs)

sent_all-HasWindows :
    (a : UdpAddr) (ps : List Packet) (e : Endpoint)
    → HasWindows e
    → All (GoesTo a) ps
    → HasWindows (sent_all a e ps)
unfolding sent_all
sent_all-HasWindows a [] e h all = h
sent_all-HasWindows a (p ∷ ps) e h all =
    sent_all-HasWindows a ps (sent a e p)
      (record {
        recv_size = h.recv_size;
        send_size = length-set e.sender_window e.seq_num _ ∙ h.send_size;
        all_sent = set-AllSent e.sender_window e.seq_num _ h.all_sent (new-IsSent p a all.0);
      })
      all.1

-- If `send` gets through, all its packets fit into the window, which stays well formed.
pub send_request-HasWindows :
    (e e' : Endpoint) (a : UdpAddr) (req : List ℕ)
    → send_request e req ≡ ok e'
    → e.peer ≡ some a
    → e.seq_num ≤ window_size
    → HasWindows e
    → HasWindows e' × (e'.seq_num ≤ window_size) × (e'.peer ≡ e.peer)
unfolding request_packets
send_request-HasWindows e e' a req done to le h =
    elim (dec_lt (e.seq_num + length (request_chunks req)) (length e.sender_window)) [
      | no full ↦ cc (
        done,
        send_request_panic a e req to (omega (arith, h.send_size)) (omega arith)
            (omega (arith, h.send_size)),
      )
      | yes fits ↦
          let ps = request_packets (some a) e.seq_num req in
          let all : All (GoesTo a) ps =
            All-append (GoesTo a) (data_packets (some a) e.seq_num (request_chunks req)) _
              (data_packets-GoesTo a e.seq_num (request_chunks req)) (refl, tt) in
          let count : length ps ≡ length (request_chunks req) + 1 =
            length-append (data_packets (some a) e.seq_num (request_chunks req)) _
            ∙ ap (λ n. n + 1) (length-data_packets (some a) e.seq_num (request_chunks req)) in
          let same : sent_all a e ps ≡ e' =
            ok_injective (sent_all a e ps) e'
              (sym (send_request_ok a e req to fits (omega (arith, h.send_size))) ∙ done) in
          let (seq, peer, _, _, _) = sent_all_fields a ps e (omega (arith, count, h.send_size)) in
          subst (λ x. HasWindows x × (x.seq_num ≤ window_size) × (x.peer ≡ e.peer)) same
            (sent_all-HasWindows a ps e h all, omega (arith, seq, count, h.send_size), peer)
    ]
