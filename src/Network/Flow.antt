-- ===== src/Network/Flow.antt =====
-- One direction of an exchange: the text that one endpoint sends, once it does, and the window and
-- check at the other.
use comp6461_computer_networ.Base.{ℕ, zero, suc, ◌+◌, ◌*◌, ◌≤◌, ◌<◌, ◌≡◌, refl, sym, ap, ◌∙◌, arith}
use comp6461_computer_networ.Base.{
  Bool, true, false, Option, none, some, List, length, get_elem?, ok, get_elem?_in_range,
}
use comp6461_computer_networ.Packet.{UdpAddr, Packet, max_payload}
use comp6461_computer_networ.Window.{Window, WindowElement}
use comp6461_computer_networ.Endpoint.{Endpoint, Checker}
use comp6461_computer_networ.Endpoint.Segments.{request_chunks, length-request_chunks}
use comp6461_computer_networ.Endpoint.Delivery.{IsReceiving}
use comp6461_computer_networ.Base.{dec_lt, get_elem?_out_of_range}
use comp6461_computer_networ.Server.{expire_slot}
use comp6461_computer_networ.Endpoint.{retransmit, retransmit_from}
use comp6461_computer_networ.Endpoint.Due.{retransmit_empty}
use comp6461_computer_networ.Link.Invariant.{}
use comp6461_computer_networ.Link.Sender.{Continues, AllSlots}
use comp6461_computer_networ.Network.Polls.{box}

module _ (from to : UdpAddr) (text : List ℕ) where
  -- The endpoint has sent its text if `on`, and nothing before.
  abbrev pub Sending : Bool → Endpoint → Type 0
  Sending true e =
      (e.seq_num ≡ suc (suc (length (request_chunks text))))
      × ((k : ℕ)
          → k ≤ length (request_chunks text)
          → (x : WindowElement) × (get_elem? e.sender_window (suc k) ≡ some (some x)))
  Sending false e =
      (e.seq_num ≤ 1)
      × ((j : ℕ) (x : WindowElement) → get_elem? e.sender_window j ≡ some (some x) → ⊥)

  pub record IsFlow (on : Bool) (e : Endpoint) (w : Window Packet) (k : Checker) : Type 0 where
    pub size : length e.sender_window ≡ 1024
    pub sending : Sending on e
    pub only : AllSlots from to text w e
    pub receiving : IsReceiving from (some to) text (box w k)

  Sending-Continues :
      (on : Bool) (e e' : Endpoint) (w : Window Packet)
      → Continues from to text w e e'
      → Sending on e
      → Sending on e'
  Sending-Continues true e e' w s (seq, full) = (
    s.seq ∙ seq,
    λ k le. let (x, at) = full k le in let (x', there, _) = s.stays (suc k) x at in (x', there),
  )
  Sending-Continues false e e' w s (seq, empty) =
      (omega (arith, s.seq), λ j x at. let (y, old) = s.back j x at in empty j y old)

  -- A move of the sender.
  pub IsFlow-Continues :
      (on : Bool) (e e' : Endpoint) (w : Window Packet) (k : Checker)
      → IsFlow on e w k
      → Continues from to text w e e'
      → IsFlow on e' w k
  IsFlow-Continues on e e' w k v s = record {
    size = s.size ∙ v.size;
    sending = Sending-Continues on e e' w s v.sending;
    only = s.only;
    receiving = v.receiving;
  }

  -- Only the numbers and the sender window of the endpoint count.
  pub IsFlow-same :
      (on : Bool) (e e' : Endpoint) (w : Window Packet) (k : Checker)
      → e'.sender_window ≡ e.sender_window
      → Sending on e'
      → IsFlow on e w k
      → IsFlow on e' w k
  IsFlow-same on e e' w k same sending v = record {
    size = ap length same ∙ v.size;
    sending = sending;
    only = λ j x at. v.only j x (ap (λ sw. get_elem? sw j) (sym same) ∙ at);
    receiving = v.receiving;
  }

  Sending-same :
      (on : Bool) (e e' : Endpoint)
      → e'.seq_num ≡ e.seq_num
      → e'.sender_window ≡ e.sender_window
      → Sending on e
      → Sending on e'
  Sending-same true e e' seq same (n, full) =
      (seq ∙ n, λ k le. let (x, at) = full k le in (x, ap (λ sw. get_elem? sw (suc k)) same ∙ at))
  Sending-same false e e' seq same (n, empty) =
      (omega (arith, seq), λ j x at. empty j x (ap (λ sw. get_elem? sw j) (sym same) ∙ at))

  -- An endpoint with the same number and sender window.
  pub IsFlow-endpoint :
      (on : Bool) (e e' : Endpoint) (w : Window Packet) (k : Checker)
      → e'.seq_num ≡ e.seq_num
      → e'.sender_window ≡ e.sender_window
      → IsFlow on e w k
      → IsFlow on e' w k
  IsFlow-endpoint on e e' w k seq same v =
      IsFlow-same on e e' w k same (Sending-same on e e' seq same v.sending) v

  -- The next number lies in the window.
  pub IsFlow-fits :
      (on : Bool) (e : Endpoint) (w : Window Packet) (k : Checker)
      → length text ≤ 1022 * max_payload
      → IsFlow on e w k
      → e.seq_num ≤ length e.sender_window
  IsFlow-fits true e w k small v =
      let few = length-request_chunks text small in omega (arith, v.sending.0, v.size)
  IsFlow-fits false e w k small v = omega (arith, v.sending.0, v.size)

  -- While nothing has been sent, every slot is empty.
  pub IsFlow-empty :
      (e : Endpoint) (w : Window Packet) (k : Checker) (j : ℕ)
      → IsFlow false e w k
      → j < length e.sender_window
      → get_elem? e.sender_window j ≡ some none
  IsFlow-empty e w k j v lt = go (get_elem?_in_range e.sender_window j lt)
    where
      go :
          (x : Option WindowElement) × (get_elem? e.sender_window j ≡ some x)
          → get_elem? e.sender_window j ≡ some none
      go (none, at) = at
      go (some x, at) = absurd (v.sending.1 j x at)

  retransmit_from_idle :
      (e : Endpoint) (w : Window Packet) (k : Checker) (i n : ℕ)
      → IsFlow false e w k
      → i + n ≤ length e.sender_window
      → retransmit_from e i n ≡ ok e
  unfolding retransmit_from
  retransmit_from_idle e w k i zero v le = refl
  retransmit_from_idle e w k i (suc n) v le =
      rw (retransmit_empty e i (IsFlow-empty e w k i v (omega arith)))
        (retransmit_from_idle e w k (i + 1) n v (omega arith))

  -- A scan finds nothing then, and no timer fires.
  pub retransmit_idle :
      (e : Endpoint) (w : Window Packet) (k : Checker)
      → length text ≤ 1022 * max_payload
      → IsFlow false e w k
      → retransmit e ≡ ok e
  unfolding retransmit
  retransmit_idle e w k small v =
      retransmit_from_idle e w k 0 e.seq_num v (omega (arith, v.sending.0, v.size))

  pub expire_slot_idle :
      (e : Endpoint) (w : Window Packet) (k : Checker) (i : ℕ)
      → IsFlow false e w k
      → expire_slot e i ≡ e
  unfolding expire_slot
  expire_slot_idle e w k i v = elim (dec_lt i (length e.sender_window)) [
    | yes lt ↦ rw (expire_slot, IsFlow-empty e w k i v lt) refl
    | no ge ↦ rw (expire_slot, get_elem?_out_of_range e.sender_window i (omega arith)) refl
  ]
