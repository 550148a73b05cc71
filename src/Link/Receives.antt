-- ===== src/Link/Receives.antt =====
-- The moves of the receiver: a packet arrives, or the check makes a round.
use mathlib.Core.List.{append-nil}
use comp6461_computer_networ.Base.{ℕ, suc, ◌<◌, ◌≡◌, refl, sym, ap, ◌∙◌, arith}
use comp6461_computer_networ.Base.{some, List, [], ◌∷◌, ◌++◌, length, get_elem?}
use comp6461_computer_networ.Base.{All, Go, ok}
use comp6461_computer_networ.Base.{ok_injective, >>=-eq-ok}
use comp6461_computer_networ.Packet.{UdpAddr, Packet}
use comp6461_computer_networ.Packet.RoundTrip.{arrived}
use comp6461_computer_networ.Endpoint.{Endpoint, Checker, looking, ended, poll}
use comp6461_computer_networ.Endpoint.Arrival.{ack_bytes, receive_content_ok}
use comp6461_computer_networ.Endpoint.Receiver
use comp6461_computer_networ.Endpoint.Receiver.{Receiver, arrives, checks, window}
use comp6461_computer_networ.Endpoint.Delivery.{IsReceiving, arrives-Goes, step-Goes, part}
use comp6461_computer_networ.Endpoint.Complete.{arrives_fills}
use comp6461_computer_networ.Link.Wire.{IsPacket}
use comp6461_computer_networ.Link.Invariant.{packets, HasArrived, IsAnswer}

written_of : Go Receiver → List (List ℕ)
written_of (ok r) = r.endpoint.written
written_of _ = []

-- A round of the check writes nothing.
poll_written : (e e' : Endpoint) (k k' : Checker) → poll e k ≡ ok (e', k') → e'.written ≡ e.written
unfolding poll
poll_written e e' ended k' done = ground arith
poll_written e e' (looking d) k' done = ground arith

checks_written :
    (r r' : Receiver) → Receiver.step r checks ≡ ok r' → r'.endpoint.written ≡ r.endpoint.written
unfolding Receiver.step
checks_written r r' done =
    let ((e, k), looked, same) = >>=-eq-ok (poll r.endpoint r.checker) _ done in
    ap (λ x. x.endpoint.written) (sym (ok_injective _ r' same))
    ∙ poll_written r.endpoint e r.checker k looked

module _ (a c : UdpAddr) (resp : List ℕ) where
  -- After a move of the receiver.
  pub record Receives (r r' : Receiver) : Type 0 where
    pub receiving : IsReceiving a (some c) resp r'
    pub filled :
        (j : ℕ) (q : Packet)
        → get_elem? (window r) j ≡ some (some q)
        → get_elem? (window r') j ≡ some (some q)
    pub more : List (List ℕ)
    pub wrote : r'.endpoint.written ≡ r.endpoint.written ++ more
    pub legit : All (IsAnswer a c resp (window r')) more

  -- The `k`th packet arrives: it is acknowledged, and stands in its slot.
  pub arrives-Receives :
      (r : Receiver) (k : ℕ) (p : Packet)
      → IsReceiving a (some c) resp r
      → get_elem? (packets a c resp) k ≡ some p
      → IsPacket a c resp k p
      → (r' : Receiver) × (Receiver.step r (arrives (arrived p a)) ≡ ok r')
        × Receives r r'
        × (r'.endpoint.written ≡ r.endpoint.written ++ (ack_bytes (suc k) a ∷ []))
        × HasArrived a c resp (window r') k p
  unfolding written_of Receiver.step
  arrives-Receives r k p v at s =
      let q = arrived p a in
      let g = arrives-Goes a (some c) resp r k q v s.comes in
      let fits : q.seq_num < length r.endpoint.receiver_window =
        omega (arith, s.number, s.place, v.room) in
      let content = (part a (some c) resp k q s.comes).content in
      let result = receive_content_ok r.endpoint q a content refl fits in
      let wrote : g.after.endpoint.written ≡ r.endpoint.written ++ (ack_bytes (suc k) a ∷ []) =
        ap written_of (sym g.returns) ∙ rw (result, s.number) refl in
      let there = arrives_fills a (some c) resp r g.after k q v s.comes g.returns in
      (
        g.after,
        g.returns,
        record {
          receiving = g.receiving;
          filled = g.filled;
          more = ack_bytes (suc k) a ∷ [];
          wrote = wrote;
          legit = ((k, p, at, refl, there), tt);
        },
        wrote,
        there,
      )

  pub checks-Receives :
      (r : Receiver)
      → IsReceiving a (some c) resp r
      → (r' : Receiver) × (Receiver.step r checks ≡ ok r') × Receives r r'
  checks-Receives r v =
      let g = step-Goes a (some c) resp r checks v tt in
      (
        g.after,
        g.returns,
        record {
          receiving = g.receiving;
          filled = g.filled;
          more = [];
          wrote = checks_written r g.after g.returns ∙ sym (append-nil r.endpoint.written);
          legit = tt;
        },
      )
