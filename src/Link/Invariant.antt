-- ===== src/Link/Invariant.antt =====
-- What holds of the two endpoints of a transfer between any two moves, and at its start.
use mathlib.Core.Path.{subst}
use comp6461_computer_networ.Base.{
  ℕ, zero, suc, ◌+◌, ◌*◌, ◌^◌, ◌≤◌, ◌<◌, ◌≡◌, ◌⊎◌, inl, inr, refl, sym, ap, ◌∙◌, arith,
}
use comp6461_computer_networ.Base.{true, none, some, List, [], ◌∷◌, map, length, get_elem?}
use comp6461_computer_networ.Base.{All, ok, set, ℕ_discrete}
use comp6461_computer_networ.Base.{get_elem?-set_ne}
use comp6461_computer_networ.Base.{get_elem?_in_range, get_elem?-replicate}
use comp6461_computer_networ.Packet.{UdpAddr, Packet, raw_to, max_payload}
use comp6461_computer_networ.Packet.RoundTrip.{arrived}
use comp6461_computer_networ.Window.{Window, WindowElement, Timer, new_window_element, make_window}
use comp6461_computer_networ.Window.{new_timer}
use comp6461_computer_networ.Endpoint.{Endpoint}
use comp6461_computer_networ.Endpoint.Segments.{
  request_packets, request_chunks, length-request_chunks, length-request_packets,
}
use comp6461_computer_networ.Endpoint.Send.{sent, sent_all, sent_all_fields, sent_all_slots}
use comp6461_computer_networ.Endpoint.Request.{send_request_ok}
use comp6461_computer_networ.Endpoint.Arrival.{ack_bytes}
use comp6461_computer_networ.Endpoint.Receiver.{window}
use comp6461_computer_networ.Endpoint.Delivery.{IsReceiving}
use comp6461_computer_networ.Endpoint.Complete.{fresh, fresh-IsReceiving}
use comp6461_computer_networ.Link.{Link, start}

-- A packet of the list that the loop of `send` works through, or an element that was there before.
pub sent_all_inv :
    (a : UdpAddr) (ps : List Packet) (e : Endpoint) (j : ℕ) (x : WindowElement)
    → e.seq_num + length ps < 2 ^ 32
    → get_elem? (sent_all a e ps).sender_window j ≡ some (some x)
    → (get_elem? e.sender_window j ≡ some (some x))
      ⊎ ((k : ℕ) × (p : Packet) × (j ≡ e.seq_num + k)
          × (get_elem? ps k ≡ some p)
          × (x ≡ new_window_element p))
unfolding sent_all
sent_all_inv a [] e j x h at = inl at
sent_all_inv a (p ∷ ps) e j x h at = elim (sent_all_inv a ps (sent a e p) j x (omega arith) at) [
  | inr (k, q, here, found, same) ↦ inr (suc k, q, omega arith, found, same)
  | inl old ↦ elim (ℕ_discrete e.seq_num j) [
    | no other ↦ inl (sym (get_elem?-set_ne e.sender_window e.seq_num j _ other) ∙ old)
    | yes first ↦ inr (
      zero,
      p,
      omega arith,
      refl,
      set_inv e.sender_window j p x (
          ap (λ i. get_elem? (set e.sender_window i (some (new_window_element p))) j) (sym first)
          ∙ old),
    )
  ]
]
  where
    set_inv :
        (w : Window WindowElement) (i : ℕ) (p : Packet) (x : WindowElement)
        → get_elem? (set w i (some (new_window_element p))) i ≡ some (some x)
        → x ≡ new_window_element p
    set_inv [] i p x h = cc
    set_inv (y ∷ w) zero p x h = cc
    set_inv (y ∷ w) (suc i) p x h = set_inv w i p x h

module _ (a c : UdpAddr) (resp : List ℕ) where
  abbrev pub packets : List Packet
  packets = request_packets (some c) 1 resp

  -- The packet stands in its slot of the receiver's window.
  abbrev pub HasArrived : Window Packet → ℕ → Packet → Type 0
  HasArrived w k p = get_elem? w (suc k) ≡ some (some (arrived p a))

  -- The element in slot `j` of the sender: an unacknowledged packet has a timer that runs or has
  -- fired, and an acknowledged one has arrived.
  pub record IsSlot (w : Window Packet) (j : ℕ) (x : WindowElement) : Type 0 where
    pub place : ℕ
    pub packet : Packet
    pub timer : Timer
    pub at : get_elem? packets place ≡ some packet
    pub here : j ≡ suc place
    pub has_packet : x.packet ≡ some packet
    pub has_timer : x.timer ≡ some timer
    pub live : x.ack ≡ none → (timer.running ≡ true) ⊎ (timer.fired ≡ true)
    pub settled : (q : Packet) → x.ack ≡ some q → HasArrived w place packet

  abbrev pub IsDatum : List ℕ → Type 0
  IsDatum bytes = (k : ℕ) × (p : Packet) × (get_elem? packets k ≡ some p) × (bytes ≡ raw_to p c)

  abbrev pub IsAnswer : Window Packet → List ℕ → Type 0
  IsAnswer w bytes =
      (k : ℕ) × (p : Packet) × (get_elem? packets k ≡ some p)
      × (bytes ≡ ack_bytes (suc k) a)
      × HasArrived w k p

  pub record IsLink (l : Link) : Type 0 where
    pub seq : l.sender.seq_num ≡ suc (suc (length (request_chunks resp)))
    pub size : length l.sender.sender_window ≡ 1024
    pub only :
        (j : ℕ) (x : WindowElement)
        → get_elem? l.sender.sender_window j ≡ some (some x)
        → IsSlot (window l.receiver) j x
    pub full :
        (k : ℕ)
        → k ≤ length (request_chunks resp)
        → (x : WindowElement) × (get_elem? l.sender.sender_window (suc k) ≡ some (some x))
    pub sent_data : All IsDatum l.sender.written
    pub answers : All (IsAnswer (window l.receiver)) l.receiver.endpoint.written
    pub receiving : IsReceiving a (some c) resp l.receiver

  pub data_start :
      (qs : List Packet)
      → ((k : ℕ) (p : Packet) → get_elem? qs k ≡ some p → (j : ℕ) × (get_elem? packets j ≡ some p))
      → All IsDatum (map (λ p. raw_to p c) qs)
  data_start [] h = tt
  data_start (q ∷ qs) h =
      let (j, at) = h 0 q refl in ((j, q, at, refl), data_start qs (λ k p e. h (suc k) p e))

  pub IsSlot-start :
      (w : Window Packet) (j k : ℕ) (p : Packet) (x : WindowElement)
      → j ≡ 1 + k
      → get_elem? packets k ≡ some p
      → x ≡ new_window_element p
      → IsSlot w j x
  IsSlot-start w j k p x here at same = record {
    place = k;
    packet = p;
    timer = new_timer;
    at = at;
    here = omega arith;
    has_packet = ap (λ y. y.packet) same;
    has_timer = ap (λ y. y.timer) same;
    live = λ _. inl refl;
    settled = λ q h. cc;
  }

  -- A response of at most 1022 pieces is on its way.
  pub start-IsLink :
      (s r : Endpoint)
      → s.seq_num ≡ 1
      → s.peer ≡ some c
      → s.sender_window ≡ make_window
      → length resp ≤ 1022 * max_payload
      → (l : Link) × (start s r resp ≡ ok l) × IsLink l
  unfolding start make_window
  start-IsLink s r one to empty small =
      let e : Endpoint = record s { written = [] } in
      let few = length-request_chunks resp small in
      let count = length-request_packets (some c) 1 resp in
      let size : length s.sender_window ≡ 1024 = ap length empty in
      let (seq, _, _, len, out) = sent_all_fields c packets e (omega arith) in
      (
        record { sender = sent_all c e packets; receiver = fresh (record r { written = [] }) },
        rw (send_request_ok c e resp to (omega arith) (omega arith), one),
        record {
          seq = omega (arith, seq);
          size = len ∙ size;
          only = λ j x at. elim (sent_all_inv c packets e j x (omega arith) at) [
            | inl old ↦ absurd (empty_slot j x (ap (λ w. get_elem? w j) (sym empty) ∙ old))
            | inr (k, p, here, found, same) ↦
                IsSlot-start make_window j k p x (omega arith) found same
          ];
          full = λ k le.
              let (p, at) = get_elem?_in_range packets k (omega arith) in
              let place : suc k ≡ s.seq_num + k = omega arith in
              (
                new_window_element p,
                ap (get_elem? (sent_all c e packets).sender_window) place
                    ∙ sent_all_slots c packets e k p (omega arith) (omega arith) at,
              );
          sent_data = subst (All IsDatum) (sym out) (data_start packets (λ k p at. (k, at)));
          answers = tt;
          receiving = fresh-IsReceiving a (some c) resp (record r { written = [] }) small;
        },
      )
    where
      empty_slot :
          (j : ℕ) (x : WindowElement)
          → get_elem? (make_window {A = WindowElement}) j ≡ some (some x)
          → ⊥
      empty_slot j x at = cc (get_elem?-replicate 1024 j none (some x) at)
