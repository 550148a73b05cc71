-- ===== src/Link/Progress.antt =====
-- Moves that bring a transfer to its end: expiries, scans, and what is sent from there on.
use mathlib.Core.Path.{subst}
use comp6461_computer_networ.Base.{
  ℕ, zero, suc, ◌+◌, ◌*◌, ◌≤◌, ◌<◌, ◌≡◌, inl, inr, refl, sym, ap, ◌∙◌, arith,
}
use comp6461_computer_networ.Base.{true, false, some, List, length, get_elem?, ok, ◌>>=◌}
use comp6461_computer_networ.Base.{All, Option-cases, ℕ_discrete, get_elem?-append}
use comp6461_computer_networ.Packet.{UdpAddr, Packet, raw_to, max_payload}
use comp6461_computer_networ.Packet.RoundTrip.{IsUdp4}
use comp6461_computer_networ.Window.{WindowElement, make_window}
use comp6461_computer_networ.Endpoint.{Endpoint, is_blocked}
use comp6461_computer_networ.Endpoint.Segments.{request_chunks}
use comp6461_computer_networ.Endpoint.Arrival.{ack_bytes}
use comp6461_computer_networ.Endpoint.Receiver.{window}
use comp6461_computer_networ.Endpoint.Due.{is_due, element_bytes}
use comp6461_computer_networ.Link.{Link, Move, deliver, acknowledge, expire, scan, run, start}
use comp6461_computer_networ.Link.Invariant.{packets, HasArrived, IsLink, start-IsLink}
use comp6461_computer_networ.Link.Sender.{IsAcked}
use comp6461_computer_networ.Link.Moves.{
  deliver-Goes, acknowledge-Goes, scan-Goes, expire-Goes, run-Goes, packet-IsPacket,
}
use comp6461_computer_networ.Link.Safety.{
  IsDelivered, AllAcked, AllAcked-IsDelivered, is_blocked-AllAcked,
}
use comp6461_computer_networ.Link.Settles.{
  IsLater, due_bytes_has, expire_slot-due, Settles, Settles-append, Settles-earlier, then_move,
  no_move,
}

module _ (a c : UdpAddr) (resp : List ℕ) where
  module _ (va : IsUdp4 a) (vc : IsUdp4 c) (small : length resp ≤ 1022 * max_payload) where
    -- A packet that has arrived is acknowledged, by an acknowledgement that is still to come.
    acknowledge_arrived :
        (o l : Link) (k i : ℕ) (p : Packet)
        → IsLink a c resp l
        → length o.receiver.endpoint.written ≤ i
        → get_elem? l.receiver.endpoint.written i ≡ some (ack_bytes (suc k) a)
        → get_elem? (packets a c resp) k ≡ some p
        → HasArrived a c resp (window l.receiver) k p
        → Settles a c resp o l (λ x. IsAcked x.sender (suc k))
    acknowledge_arrived o l k i p v le there at has =
        let (g, acked) = acknowledge-Goes a c resp va vc small l i k p v there at has in
        then_move a c resp o l (acknowledge i) _ g le (no_move a c resp o g.after _ g.is_link acked)

    -- A packet that was written again is delivered, and then acknowledged.
    settle_written :
        (o l : Link) (k i : ℕ) (p : Packet)
        → IsLink a c resp l
        → length o.sender.written ≤ i
        → length o.receiver.endpoint.written ≤ length l.receiver.endpoint.written
        → get_elem? l.sender.written i ≡ some (raw_to p c)
        → get_elem? (packets a c resp) k ≡ some p
        → Settles a c resp o l (λ x. IsAcked x.sender (suc k))
    settle_written o l k i p v le more there at =
        let (g, _, wrote, has) = deliver-Goes a c resp va vc small l i k p v there at in
        let old = l.receiver.endpoint.written in
        let ack : get_elem? g.after.receiver.endpoint.written (length old + 0)
            ≡ some (ack_bytes (suc k) a) =
          ap (λ w. get_elem? w (length old + 0)) wrote ∙ get_elem?-append old _ 0 in
        then_move a c resp o l (deliver i) _ g le
          (acknowledge_arrived o g.after k (length old + 0) p g.is_link (omega arith) ack at has)

    -- A packet that is due is written again, and so on.
    settle_due :
        (o l : Link) (k : ℕ) (x : WindowElement)
        → IsLink a c resp l
        → length o.sender.written ≤ length l.sender.written
        → length o.receiver.endpoint.written ≤ length l.receiver.endpoint.written
        → k ≤ length (request_chunks resp)
        → get_elem? l.sender.sender_window (suc k) ≡ some (some x)
        → is_due x ≡ true
        → Settles a c resp o l (λ y. IsAcked y.sender (suc k))
    settle_due o l k x v sent more le at due =
        let s = v.only (suc k) x at in
        let p = packet-IsPacket a c resp va vc small s.place s.packet s.at in
        let (g, _, wrote) = scan-Goes a c resp va vc small l v in
        let old = l.sender.written in
        let (m, there) =
          due_bytes_has l.sender.sender_window 0 l.sender.seq_num (suc k) x (omega arith)
            (omega (arith, v.seq)) at due in
        let bytes : element_bytes x ≡ raw_to s.packet c = rw (s.has_packet, p.to) refl in
        let out : get_elem? g.after.sender.written (length old + m) ≡ some (raw_to s.packet c) =
          ap (λ w. get_elem? w (length old + m)) wrote
          ∙ get_elem?-append old _ m
          ∙ there
          ∙ ap some bytes in
        let same : suc s.place ≡ suc k = sym s.here in
        then_move a c resp o l scan _ g tt (
          subst (λ j. Settles a c resp o g.after (λ y. IsAcked y.sender j)) same
            (settle_written o g.after s.place (length old + m) s.packet g.is_link (omega arith)
              (omega (arith, g.answered_more)) out s.at))

    -- Whatever became of a packet, its acknowledgement can still come.
    settle_packet :
        (l : Link) (k : ℕ)
        → IsLink a c resp l
        → k ≤ length (request_chunks resp)
        → Settles a c resp l l (λ y. IsAcked y.sender (suc k))
    settle_packet l k v le =
        let (x, at) = v.full k le in
        let s = v.only (suc k) x at in
        elim (Option-cases x.ack) [
          | inr (q, got) ↦ no_move a c resp l l _ v (x, q, at, got)
          | inl free ↦
              let (g, moved) = expire-Goes a c resp va vc small l (suc k) v in
              let (x', there, due) =
                expire_slot-due l.sender (suc k) x s.timer at s.has_timer free (s.live free) in
              let here : get_elem? g.after.sender.sender_window (suc k) ≡ some (some x') =
                ap (λ e. get_elem? e.sender_window (suc k)) moved ∙ there in
              then_move a c resp l l (expire (suc k)) _ g tt
                (settle_due l g.after k x' g.is_link g.sent_more g.answered_more le here due)
        ]

    -- The first `n` packets, one after the other.
    settle_packets :
        (l : Link) (n : ℕ)
        → IsLink a c resp l
        → n ≤ suc (length (request_chunks resp))
        → Settles a c resp l l (λ y. (k : ℕ) → k < n → IsAcked y.sender (suc k))
    settle_packets l zero v le = no_move a c resp l l _ v (λ k lt. absurd (omega arith))
    settle_packets l (suc n) v le =
        let first = settle_packets l n v (omega arith) in
        let m = first.goes.after in
        let next = settle_packet m n first.goes.is_link (omega arith) in
        let both : Settles a c resp m m (λ y. (k : ℕ) → k < suc n → IsAcked y.sender (suc k)) =
          record {
            moves = next.moves;
            later = next.later;
            goes = next.goes;
            reached = λ k lt. elim (ℕ_discrete k n) [
              | yes last ↦ rw last next.reached
              | no below ↦ next.goes.acked (suc k) (first.reached k (omega arith))
            ];
          } in
        Settles-append a c resp l l _ _ first
          (Settles-earlier a c resp l m m _ first.goes.sent_more first.goes.answered_more both)

    -- In the same setting, whatever the network has lost so far: from every state of the transfer
    -- there are further moves, none of which needs a datagram that was written before, after which
    -- nothing has panicked, the wait at the end of `send` ends, and the client has every packet:
    -- after two more rounds of its check the message is sent and `getPackets` returns exactly the
    -- response.
    pub send_can_end :
        (s r : Endpoint) (ms : List Move)
        → s.seq_num ≡ 1
        → s.peer ≡ some c
        → s.sender_window ≡ make_window
        → (l : Link) × ((start s r resp >>= λ l. run a c l ms) ≡ ok l)
          × (ns : List Move) × All (IsLater l) ns
          × (l' : Link) × (run a c l ns ≡ ok l')
          × (is_blocked l'.sender ≡ ok false)
          × IsDelivered resp l'.receiver
    send_can_end s r ms one to empty =
        let (l, sends, v) = start-IsLink a c resp s r one to empty small in
        let g = run-Goes a c resp va vc small l ms v in
        let x =
          settle_packets g.after (suc (length (request_chunks resp))) g.is_link (omega arith) in
        let end = x.goes.after in
        let acked : AllAcked a c resp end = λ k le. x.reached k (omega arith) in
        let (b, waits, iff) = is_blocked-AllAcked a c resp small end x.goes.is_link in
        (
          g.after,
          rw (sends, g.returns) refl,
          x.moves,
          x.later,
          end,
          x.goes.returns,
          waits ∙ ap ok (iff.1 acked),
          AllAcked-IsDelivered a c resp end x.goes.is_link acked,
        )
