-- ===== src/Network/Arrivals.antt =====
-- What the moves of the receiver, and the sending of the text, make of one direction of an exchange.
use mathlib.Core.Path.{subst}
use comp6461_computer_networ.Base.{
  ℕ, suc, ◌+◌, ◌*◌, ◌≤◌, ◌<◌, ◌≡◌, inl, inr, refl, sym, ap, ◌∙◌, arith,
}
use comp6461_computer_networ.Base.{
  Bool, true, false, some, List, [], ◌∷◌, ◌++◌, length, get_elem?, ok, >>=-eq-ok, ok_injective,
  get_elem?_in_range,
}
use comp6461_computer_networ.Packet.{UdpAddr, Packet, max_payload}
use comp6461_computer_networ.Packet.RoundTrip.{arrived}
use comp6461_computer_networ.Window.{Window, new_window_element}
use comp6461_computer_networ.Endpoint.{Endpoint, Checker, poll, receive_content, send_request}
use comp6461_computer_networ.Endpoint.Segments.{
  request_packets, length-request_chunks, length-request_packets,
}
use comp6461_computer_networ.Endpoint.Send.{sent_all, sent_all_fields, sent_all_slots}
use comp6461_computer_networ.Endpoint.Request.{send_request_ok}
use comp6461_computer_networ.Endpoint.Arrival.{kept, kept_filled, ack_bytes, receive_content_ok}
use comp6461_computer_networ.Endpoint.Receiver
use comp6461_computer_networ.Endpoint.Receiver.{Receiver, arrives, checks, window}
use comp6461_computer_networ.Endpoint.Delivery.{IsReceiving, arrives-Goes, step-Goes, part}
use comp6461_computer_networ.Endpoint.Complete.{arrives_fills}
use comp6461_computer_networ.Link.Wire.{IsPacket}
use comp6461_computer_networ.Link.Invariant.{packets, HasArrived, IsSlot-start, sent_all_inv}
use comp6461_computer_networ.Link.Sender.{AllSlots}
use comp6461_computer_networ.Network.Polls.{box, Polls, poll-box}
use comp6461_computer_networ.Network.Flow.{IsFlow}

module _ (from to : UdpAddr) (text : List ℕ) where
  -- The window grows.
  AllSlots-grows :
      (e : Endpoint) (w w' : Window Packet)
      → ((j : ℕ) (q : Packet) → get_elem? w j ≡ some (some q) → get_elem? w' j ≡ some (some q))
      → AllSlots from to text w e
      → AllSlots from to text w' e
  AllSlots-grows e w w' grows h j x at =
      let o = h j x at in
      record {
        place = o.place;
        packet = o.packet;
        timer = o.timer;
        at = o.at;
        here = o.here;
        has_packet = o.has_packet;
        has_timer = o.has_timer;
        live = o.live;
        settled = λ q got. grows (suc o.place) (arrived o.packet from) (o.settled q got);
      }

  -- The `i`th packet arrives at the endpoint `r`.
  pub arrives-IsFlow :
      (on : Bool) (e r : Endpoint) (k : Checker) (i : ℕ) (p : Packet)
      → IsFlow from to text on e r.receiver_window k
      → get_elem? (packets from to text) i ≡ some p
      → IsPacket from to text i p
      → (receive_content r (arrived p from)
          ≡ ok (record r {
            receiver_window = kept r.receiver_window (suc i) (arrived p from);
            written = r.written ++ (ack_bytes (suc i) from ∷ []);
          }))
        × IsFlow from to text on e (kept r.receiver_window (suc i) (arrived p from)) k
        × HasArrived from to text (kept r.receiver_window (suc i) (arrived p from)) i p
  unfolding Receiver.step
  arrives-IsFlow on e r k i p v at s =
      let q = arrived p from in
      let w = r.receiver_window in
      let g = arrives-Goes from (some to) text (box w k) i q v.receiving s.comes in
      let there =
        arrives_fills from (some to) text (box w k) g.after i q v.receiving s.comes g.returns in
      let content = (part from (some to) text i q s.comes).content in
      let fits : q.seq_num < length w = omega (arith, s.number, s.place, v.receiving.room) in
      let here = receive_content_ok r q from content refl fits in
      let boxed = receive_content_ok (box w k).endpoint q from content refl fits in
      let same : g.after ≡ record (box w k) {
        endpoint = record ((box w k).endpoint) {
          receiver_window = kept w q.seq_num q;
          written = ack_bytes q.seq_num from ∷ [];
        };
      } =
        ok_injective _ _ (sym g.returns ∙ rw boxed refl) in
      let n : q.seq_num ≡ suc i = s.number in
      let r1 = subst (IsReceiving from (some to) text) same g.receiving in
      let receiving : IsReceiving from (some to) text (box (kept w (suc i) q) k) =
        subst (λ m. IsReceiving from (some to) text (box (kept w m q) k)) n
          (record { only = r1.only; room = r1.room; found = r1.found; told = λ _. refl }) in
      let full : window g.after ≡ kept w (suc i) q = ap window same ∙ ap (λ m. kept w m q) n in
      (
        here
            ∙ ap
                (λ m. ok (record r {
                  receiver_window = kept w m q;
                  written = r.written ++ (ack_bytes m from ∷ []);
                }))
                n,
        record {
          size = v.size;
          sending = v.sending;
          only = AllSlots-grows e w _ (λ j x. kept_filled w (suc i) j q x) v.only;
          receiving = receiving;
        },
        ap (λ y. get_elem? y (suc i)) (sym full) ∙ there,
      )

  -- A round of the check at the endpoint `r`.
  pub check-IsFlow :
      (on : Bool) (e r : Endpoint) (k : Checker)
      → IsFlow from to text on e r.receiver_window k
      → (k1 : Checker) × Polls r k k1 × IsFlow from to text on e r.receiver_window k1
  unfolding Receiver.step
  check-IsFlow on e r k v =
      let w = r.receiver_window in
      let g = step-Goes from (some to) text (box w k) checks v.receiving tt in
      let ((e1, k1), polled, same) = >>=-eq-ok (poll (box w k).endpoint k) _ g.returns in
      let after : g.after ≡ record { endpoint = e1; checker = k1 } = sym (ok_injective _ _ same) in
      let p = poll-box r e1 k k1 polled in
      let b = poll-box (box w k).endpoint e1 k k1 polled in
      let e_same : e1 ≡ record ((box w k).endpoint) { delivery_message = b.told } =
        ap (λ (x : Endpoint × Checker). x.0) (ok_injective _ _ (sym polled ∙ b.returns)) in
      let r1 =
        subst (IsReceiving from (some to) text)
          (after ∙ ap (λ y. record { endpoint = y; checker = k1 }) e_same) g.receiving in
      (
        k1,
        p,
        record {
          size = v.size;
          sending = v.sending;
          only = v.only;
          receiving = record { only = r1.only; room = r1.room; found = r1.found; told = λ _. refl };
        },
      )

  -- The text is sent.
  pub send-IsFlow :
      (e : Endpoint) (w : Window Packet) (k : Checker)
      → IsFlow from to text false e w k
      → e.seq_num ≡ 1
      → e.peer ≡ some to
      → length text ≤ 1022 * max_payload
      → (send_request e text ≡ ok (sent_all to e (packets from to text)))
        × IsFlow from to text true (sent_all to e (packets from to text)) w k
  send-IsFlow e w k v one peer small =
      let ps = packets from to text in
      let few = length-request_chunks text small in
      let count = length-request_packets (some to) 1 text in
      let (seq, _, _, len, _) = sent_all_fields to ps e (omega arith) in
      (
        send_request_ok to e text peer (omega (arith, v.size)) (omega (arith, v.size))
            ∙ ap (λ n. ok (sent_all to e (request_packets (some to) n text))) one,
        record {
          size = len ∙ v.size;
          sending = (
            omega (arith, seq),
            λ i le.
                let (p, at) = get_elem?_in_range ps i (omega arith) in
                let place : suc i ≡ e.seq_num + i = omega arith in
                (
                  new_window_element p,
                  ap (get_elem? (sent_all to e ps).sender_window) place
                      ∙ sent_all_slots to ps e i p (omega (arith, v.size)) (omega (arith, v.size))
                          at,
                ),
          );
          only = λ j x at. elim (sent_all_inv to ps e j x (omega arith) at) [
            | inl old ↦ absurd (v.sending.1 j x old)
            | inr (i, p, here, found, same) ↦
                IsSlot-start from to text w j i p x (omega arith) found same
          ];
          receiving = v.receiving;
        },
      )
