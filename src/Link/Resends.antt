-- ===== src/Link/Resends.antt =====
-- A scan of `retransmission` as a move of the sender.
use mathlib.Core.Path.{subst}
use comp6461_computer_networ.Base.{ℕ, zero, suc, ◌+◌, ◌≤◌, ◌≡◌, inl, inr, refl, sym, ap, ◌∙◌, arith}
use comp6461_computer_networ.Base.{Option, none, some, List, ◌++◌, length}
use comp6461_computer_networ.Base.{get_elem?, All, All-append, ok, Bool-cases}
use comp6461_computer_networ.Base.{dec_lt}
use comp6461_computer_networ.Packet.{UdpAddr, Packet}
use comp6461_computer_networ.Window.{Window, WindowElement, restart}
use comp6461_computer_networ.Base.{>>=-eq-ok, ok_injective}
use comp6461_computer_networ.Packet.{raw}
use comp6461_computer_networ.Endpoint.{write, retransmit_slot, retransmit_from}
use comp6461_computer_networ.Endpoint.{Endpoint, retransmit}
use comp6461_computer_networ.Endpoint.Due.{
  AllSent, is_due, refreshed, slot_bytes, due_bytes, slot_refreshed_inv,
}
use comp6461_computer_networ.Endpoint.Retransmit.{retransmit_from-ScansFrom}
use comp6461_computer_networ.Link.Wire.{IsPacket}
use comp6461_computer_networ.Link.Invariant.{packets, IsSlot, IsDatum}
use comp6461_computer_networ.Link.Sender.{AllSlots, Continues}

-- A scan changes nothing but the window, and writes.
retransmit_slot_rest :
    (e e' : Endpoint) (i : ℕ)
    → retransmit_slot e i ≡ ok e'
    → e' ≡ record e { sender_window = e'.sender_window; written = e'.written }
unfolding retransmit_slot write raw
retransmit_slot_rest e e' i done = ground arith

retransmit_from_rest :
    (e e' : Endpoint) (i n : ℕ)
    → retransmit_from e i n ≡ ok e'
    → e' ≡ record e { sender_window = e'.sender_window; written = e'.written }
unfolding retransmit_from
retransmit_from_rest e e' i zero done =
    subst (λ x. x ≡ record e { sender_window = x.sender_window; written = x.written })
      (ok_injective e e' done) refl
retransmit_from_rest e e' i (suc n) done =
    let (f, first, more) = >>=-eq-ok (retransmit_slot e i) _ done in
    let with_new : Endpoint → Endpoint =
      λ x. record x { sender_window = e'.sender_window; written = e'.written } in
    retransmit_from_rest f e' (i + 1) n more ∙ ap with_new (retransmit_slot_rest e f i first)

module _ (a c : UdpAddr) (resp : List ℕ) (w : Window Packet) where
  refreshed-IsSlot :
      (j : ℕ) (x : WindowElement) → IsSlot a c resp w j x → IsSlot a c resp w j (refreshed x)
  refreshed-IsSlot j x s = elim (Bool-cases (is_due x)) [
    | inl due ↦ record {
      place = s.place;
      packet = s.packet;
      timer = restart s.timer;
      at = s.at;
      here = s.here;
      has_packet = ground (arith, s.has_packet);
      has_timer = ground (arith, s.has_timer);
      live = λ free. inl refl;
      settled = λ q got. s.settled q (ground arith);
    }
    | inr idle ↦ let same : x ≡ refreshed x = ground arith in subst (IsSlot a c resp w j) same s
  ]

  refreshed_ack : (x : WindowElement) → (refreshed x).ack ≡ x.ack
  refreshed_ack x = ground arith

  module _
      (small : (k : ℕ) (p : Packet)
        → get_elem? (packets a c resp) k ≡ some p
        → IsPacket a c resp k p) where
    AllSlots-AllSent : (e : Endpoint) → AllSlots a c resp w e → AllSent e.sender_window
    AllSlots-AllSent e h j x at =
        let s = h j x at in
        record {
          packet = s.packet;
          to = c;
          timer = s.timer;
          has_packet = s.has_packet;
          has_to = (small s.place s.packet s.at).to;
          has_timer = s.has_timer;
        }

    slot_legit :
        (e : Endpoint) (j : ℕ) (slot : Option (Option WindowElement))
        → AllSlots a c resp w e
        → get_elem? e.sender_window j ≡ slot
        → All (IsDatum a c resp) (slot_bytes slot)
    slot_legit e j none h at = tt
    slot_legit e j (some none) h at = tt
    slot_legit e j (some (some x)) h at = elim (Bool-cases (is_due x)) [
      | inr idle ↦ rw idle tt
      | inl due ↦
          let s = h j x at in
          let is_to = (small s.place s.packet s.at).to in
          rw due ((s.place, s.packet, s.at, rw (s.has_packet, is_to) refl), tt)
    ]

    due_legit :
        (e : Endpoint) (i n : ℕ)
        → AllSlots a c resp w e
        → All (IsDatum a c resp) (due_bytes e.sender_window i n)
    unfolding due_bytes
    due_legit e i zero h = tt
    due_legit e i (suc n) h =
        All-append (IsDatum a c resp) (slot_bytes (get_elem? e.sender_window i)) _
          (slot_legit e i _ h refl) (due_legit e (i + 1) n h)

    -- A scan returns, and writes again what is due.
    pub retransmit-Continues :
        (e : Endpoint)
        → AllSlots a c resp w e
        → e.seq_num ≤ length e.sender_window
        → (e' : Endpoint) × (retransmit e ≡ ok e')
          × Continues a c resp w e e'
          × (e'.written ≡ e.written ++ due_bytes e.sender_window 0 e.seq_num)
    unfolding retransmit
    retransmit-Continues e h le =
        let sent = AllSlots-AllSent e h in
        let s = retransmit_from-ScansFrom e 0 e.seq_num sent (omega arith) in
        (
          s.after,
          s.returns,
          record {
            seq = s.seq;
            size = s.size;
            only = λ j x at. elim (dec_lt j e.seq_num) [
              | no above ↦ h j x (sym (s.outside j (inr (omega arith))) ∙ at)
              | yes below ↦
                  let (y, old, new) =
                    slot_refreshed_inv (get_elem? e.sender_window j) x
                      (sym (s.inside j (omega arith) (omega arith)) ∙ at) in
                  subst (IsSlot a c resp w j) new (refreshed-IsSlot j y (h j y old))
            ];
            stays = λ j x at. elim (dec_lt j e.seq_num) [
              | no above ↦ (x, s.outside j (inr (omega arith)) ∙ at, λ q got. got)
              | yes below ↦ (
                refreshed x,
                s.inside j (omega arith) (omega arith) ∙ rw at refl,
                λ q got. refreshed_ack x ∙ got,
              )
            ];
            back = λ j x at. elim (dec_lt j e.seq_num) [
              | no above ↦ (x, sym (s.outside j (inr (omega arith))) ∙ at)
              | yes below ↦
                  let (y, old, _) =
                    slot_refreshed_inv (get_elem? e.sender_window j) x
                      (sym (s.inside j (omega arith) (omega arith)) ∙ at) in
                  (y, old)
            ];
            rest = retransmit_from_rest e s.after 0 e.seq_num s.returns;
            more = due_bytes e.sender_window 0 e.seq_num;
            wrote = s.wrote;
            legit = due_legit e 0 e.seq_num h;
          },
          s.wrote,
        )
