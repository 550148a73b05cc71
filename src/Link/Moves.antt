-- ===== src/Link/Moves.antt =====
-- The moves of a transfer, and what holds of the two endpoints after them.
use mathlib.Core.Path.{subst}
use comp6461_computer_networ.Base.{ℕ, suc, ◌+◌, ◌*◌, ◌≤◌, ◌≡◌, inl, inr, refl, sym, ap, ◌∙◌, arith}
use comp6461_computer_networ.Base.{some, List, [], ◌∷◌, ◌++◌, length, get_elem?}
use comp6461_computer_networ.Base.{All, All-append, All-map, All-get_elem?, Go, ok, Option-cases}
use comp6461_computer_networ.Base.{length-append, ◌>>=◌}
use comp6461_computer_networ.Packet.{UdpAddr, Packet, raw_to, max_payload}
use comp6461_computer_networ.Packet.RoundTrip.{IsUdp4, arrived}
use comp6461_computer_networ.Endpoint.{Endpoint}
use comp6461_computer_networ.Endpoint.Segments.{length-request_chunks}
use comp6461_computer_networ.Endpoint.Arrival.{ack_bytes}
use comp6461_computer_networ.Endpoint.Receiver.{Receiver, window}
use comp6461_computer_networ.Endpoint.Due.{due_bytes}
use comp6461_computer_networ.Server.{expire_slot}
use comp6461_computer_networ.Link.{Link, Move, deliver, acknowledge, expire, scan, check, step, run}
use comp6461_computer_networ.Link.Wire.{
  IsPacket, request_packets-IsPacket, relayed-raw_to, relayed-ack_bytes,
}
use comp6461_computer_networ.Link.Invariant.{packets, HasArrived, IsDatum, IsAnswer, IsLink}
use comp6461_computer_networ.Link.Sender.{
  IsAcked, Continues, expire_slot-Continues, receive_ack-Continues,
}
use comp6461_computer_networ.Link.Resends.{retransmit-Continues}
use comp6461_computer_networ.Link.Receives.{Receives, arrives-Receives, checks-Receives}

module _ (a c : UdpAddr) (resp : List ℕ) where
  -- After a move: what holds still holds, no acknowledgement is lost, and more is written.
  pub record Goes (l : Link) (g : Go Link) : Type 0 where
    pub after : Link
    pub returns : g ≡ ok after
    pub is_link : IsLink a c resp after
    pub acked : (j : ℕ) → IsAcked l.sender j → IsAcked after.sender j
    pub sent_more : length l.sender.written ≤ length after.sender.written
    pub answered_more : length l.receiver.endpoint.written ≤ length after.receiver.endpoint.written

  pub still : (l : Link) (g : Go Link) → IsLink a c resp l → g ≡ ok l → Goes l g
  still l g v returns = record {
    after = l;
    returns = returns;
    is_link = v;
    acked = λ j h. h;
    sent_more = omega arith;
    answered_more = omega arith;
  }

  more_written : (xs ys zs : List (List ℕ)) → ys ≡ xs ++ zs → length xs ≤ length ys
  more_written xs ys zs h =
      let len : length ys ≡ length xs + length zs = ap length h ∙ length-append xs zs in omega arith

  sender-Goes :
      (l : Link) (e : Endpoint) (g : Go Link)
      → IsLink a c resp l
      → Continues a c resp (window l.receiver) l.sender e
      → g ≡ ok (record l { sender = e })
      → Goes l g
  sender-Goes l e g v s returns = record {
    after = record l { sender = e };
    returns = returns;
    is_link = record {
      seq = s.seq ∙ v.seq;
      size = s.size ∙ v.size;
      only = s.only;
      full = λ k le.
          let (x, at) = v.full k le in let (x', there, _) = s.stays (suc k) x at in (x', there);
      sent_data =
          subst (All (IsDatum a c resp)) (sym s.wrote)
            (All-append (IsDatum a c resp) l.sender.written s.more v.sent_data s.legit);
      answers = v.answers;
      receiving = v.receiving;
    };
    acked =
        λ j (x, q, at, got). let (x', there, keeps) = s.stays j x at in (x', q, there, keeps q got);
    sent_more = more_written l.sender.written e.written s.more s.wrote;
    answered_more = omega arith;
  }

  receiver-Goes :
      (l : Link) (r : Receiver) (g : Go Link)
      → IsLink a c resp l
      → Receives a c resp l.receiver r
      → g ≡ ok (record l { receiver = r })
      → Goes l g
  receiver-Goes l r g v s returns = record {
    after = record l { receiver = r };
    returns = returns;
    is_link = record {
      seq = v.seq;
      size = v.size;
      only = λ j x at.
          let o = v.only j x at in
          record {
            place = o.place;
            packet = o.packet;
            timer = o.timer;
            at = o.at;
            here = o.here;
            has_packet = o.has_packet;
            has_timer = o.has_timer;
            live = o.live;
            settled = λ q got. s.filled (suc o.place) (arrived o.packet a) (o.settled q got);
          };
      full = v.full;
      sent_data = v.sent_data;
      answers = subst (All (IsAnswer a c resp (window r))) (sym s.wrote) (
          All-append (IsAnswer a c resp (window r)) l.receiver.endpoint.written s.more
            (All-map
              (λ bytes (k, p, at, same, there).
                (k, p, at, same, s.filled (suc k) (arrived p a) there))
              l.receiver.endpoint.written v.answers)
            s.legit);
      receiving = s.receiving;
    };
    acked = λ j h. h;
    sent_more = omega arith;
    answered_more = more_written l.receiver.endpoint.written r.endpoint.written s.more s.wrote;
  }

  module _ (va : IsUdp4 a) (vc : IsUdp4 c) (small : length resp ≤ 1022 * max_payload) where
    pub packet-IsPacket :
        (k : ℕ) (p : Packet) → get_elem? (packets a c resp) k ≡ some p → IsPacket a c resp k p
    packet-IsPacket k p at = request_packets-IsPacket a c resp k p small at

    -- What a datagram of the sender does where it arrives.
    pub deliver-Goes :
        (l : Link) (i k : ℕ) (p : Packet)
        → IsLink a c resp l
        → get_elem? l.sender.written i ≡ some (raw_to p c)
        → get_elem? (packets a c resp) k ≡ some p
        → (g : Goes l (step a c l (deliver i))) × (g.after.sender ≡ l.sender)
          × (g.after.receiver.endpoint.written
              ≡ l.receiver.endpoint.written ++ (ack_bytes (suc k) a ∷ []))
          × HasArrived a c resp (window g.after.receiver) k p
    unfolding step receiver-Goes
    deliver-Goes l i k p v there at =
        let s = packet-IsPacket k p at in
        let (r, goes, received, wrote, has) =
          arrives-Receives a c resp l.receiver k p v.receiving at s in
        let passes = relayed-raw_to p a c va vc s.wire s.to in
        (
          receiver-Goes l r (step a c l (deliver i)) v received
              (rw (step, there, passes, goes) refl),
          refl,
          wrote,
          has,
        )

    pub acknowledge-Goes :
        (l : Link) (i k : ℕ) (p : Packet)
        → IsLink a c resp l
        → get_elem? l.receiver.endpoint.written i ≡ some (ack_bytes (suc k) a)
        → get_elem? (packets a c resp) k ≡ some p
        → HasArrived a c resp (window l.receiver) k p
        → (g : Goes l (step a c l (acknowledge i))) × IsAcked g.after.sender (suc k)
    unfolding step sender-Goes
    acknowledge-Goes l i k p v there at has =
        let s = packet-IsPacket k p at in
        let (x, slot) = v.full k s.place in
        let few = length-request_chunks resp small in
        let passes = relayed-ack_bytes (suc k) c a vc va (omega (arith, s.place)) in
        let (e, acked, continues, settled) =
          receive_ack-Continues a c resp (window l.receiver) l.sender k p x v.only at has slot in
        (
          sender-Goes l e (step a c l (acknowledge i)) v continues
              (rw (step, there, passes, acked) refl),
          settled,
        )

    pub scan-Goes :
        (l : Link)
        → IsLink a c resp l
        → (g : Goes l (step a c l scan)) × (g.after.receiver ≡ l.receiver)
          × (g.after.sender.written
              ≡ l.sender.written ++ due_bytes l.sender.sender_window 0 l.sender.seq_num)
    unfolding step sender-Goes
    scan-Goes l v =
        let few = length-request_chunks resp small in
        let (e, done, continues, wrote) =
          retransmit-Continues a c resp (window l.receiver) packet-IsPacket l.sender v.only
            (omega (arith, v.seq, v.size)) in
        (sender-Goes l e (step a c l scan) v continues (rw done refl), refl, wrote)

    pub expire-Goes :
        (l : Link) (i : ℕ)
        → IsLink a c resp l
        → (g : Goes l (step a c l (expire i))) × (g.after.sender ≡ expire_slot l.sender i)
    unfolding step sender-Goes
    expire-Goes l i v = (
      sender-Goes l (expire_slot l.sender i) (step a c l (expire i)) v
          (expire_slot-Continues a c resp (window l.receiver) l.sender i v.only) refl,
      refl,
    )

    pub link-Goes : (l : Link) (m : Move) → IsLink a c resp l → Goes l (step a c l m)
    unfolding step
    link-Goes l (deliver i) v = elim (Option-cases (get_elem? l.sender.written i)) [
      | inl out ↦ still l _ v (rw (step, out) refl)
      | inr (bytes, there) ↦
          let (k, p, at, same) =
            All-get_elem? (IsDatum a c resp) l.sender.written i bytes v.sent_data there in
          (deliver-Goes l i k p v (there ∙ ap some same) at).0
    ]
    link-Goes l (acknowledge i) v = elim (Option-cases (get_elem? l.receiver.endpoint.written i)) [
      | inl out ↦ still l _ v (rw (step, out) refl)
      | inr (bytes, there) ↦
          let (k, p, at, same, has) =
            All-get_elem? (IsAnswer a c resp (window l.receiver)) l.receiver.endpoint.written i
              bytes v.answers there in
          (acknowledge-Goes l i k p v (there ∙ ap some same) at has).0
    ]
    link-Goes l (expire i) v = (expire-Goes l i v).0
    link-Goes l scan v = (scan-Goes l v).0
    link-Goes l check v =
        let (r, goes, received) = checks-Receives a c resp l.receiver v.receiving in
        receiver-Goes l r (step a c l check) v received (rw goes refl)

    pub Goes-trans :
        (l : Link) (g : Go Link) (x : Goes l g) (ms : List Move)
        → Goes x.after (run a c x.after ms)
        → Goes l (g >>= λ l'. run a c l' ms)
    Goes-trans l g x ms y = record {
      after = y.after;
      returns = rw x.returns y.returns;
      is_link = y.is_link;
      acked = λ j h. y.acked j (x.acked j h);
      sent_more = omega (arith, x.sent_more, y.sent_more);
      answered_more = omega (arith, x.answered_more, y.answered_more);
    }

    pub run-Goes : (l : Link) (ms : List Move) → IsLink a c resp l → Goes l (run a c l ms)
    unfolding run
    run-Goes l [] v = still l (ok l) v refl
    run-Goes l (m ∷ ms) v =
        let x = link-Goes l m v in Goes-trans l (step a c l m) x ms (run-Goes x.after ms x.is_link)
