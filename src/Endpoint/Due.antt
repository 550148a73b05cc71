-- ===== src/Endpoint/Due.antt =====
-- One slot in the scan of `retransmission`: when a packet is due, and what is done with it.
use comp6461_computer_networ.Base.{
  ℕ, zero, suc, ◌+◌, ◌≤◌, ◌<◌, ◌≡◌, ◌≢◌, refl, sym, ap, ◌∙◌, arith, inl, inr,
}
use comp6461_computer_networ.Base.{
  Bool, true, false, ◌&&◌, Option, none, some, List, [], ◌∷◌, ◌++◌, if◌then◌else◌,
}
use comp6461_computer_networ.Base.{length, get_elem?, set, Go, ok, is_nil, Bool-cases}
use comp6461_computer_networ.Base.{
  length-set, get_elem?-set_self, get_elem?-set_ne, get_elem?_in_range,
}
use comp6461_computer_networ.Base.{ℕ_discrete}
use comp6461_computer_networ.Packet.{UdpAddr, Packet, raw, raw_to}
use comp6461_computer_networ.Window.{Window, WindowElement, Timer, restart}
use comp6461_computer_networ.Endpoint.{Endpoint, retransmit_slot}
use mathlib.Core.Path.{subst}
use mathlib.Core.List.{append-nil}

-- An element as `sendPacket` makes it: a packet with a destination, and a timer.
pub record IsSent (w : WindowElement) : Type 0 where
  pub packet : Packet
  pub to : UdpAddr
  pub timer : Timer
  pub has_packet : w.packet ≡ some packet
  pub has_to : packet.to_addr ≡ some to
  pub has_timer : w.timer ≡ some timer

abbrev pub AllSent : Window WindowElement → Type 0
AllSent sw = (i : ℕ) (w : WindowElement) → get_elem? sw i ≡ some (some w) → IsSent w

-- No acknowledgement has come, and the timer has fired.
abbrev pub is_due : WindowElement → Bool
is_due w = is_nil w.ack && elim w.timer [ none ↦ false | some t ↦ t.fired ]

abbrev pub refreshed : WindowElement → WindowElement
refreshed w =
    if is_due w
    then record w { timer = elim w.timer [ none ↦ none | some t ↦ some (restart t) ] }
    else w

abbrev pub element_bytes : WindowElement → List ℕ
element_bytes w = elim w.packet [
  | none ↦ []
  | some p ↦ elim p.to_addr [ none ↦ [] | some to ↦ raw_to p to ]
]

abbrev pub slot_bytes : Option (Option WindowElement) → List (List ℕ)
slot_bytes none = []
slot_bytes (some none) = []
slot_bytes (some (some w)) = if is_due w then element_bytes w ∷ [] else []

abbrev pub slot_refreshed : Option (Option WindowElement) → Option (Option WindowElement)
slot_refreshed none = none
slot_refreshed (some none) = some none
slot_refreshed (some (some w)) = some (some (refreshed w))

-- The packets that are due in the slots from `i` on, `n` of them, in order.
unfoldable pub due_bytes : Window WindowElement → ℕ → ℕ → List (List ℕ)
due_bytes sw i zero = []
due_bytes sw i (suc n) = slot_bytes (get_elem? sw i) ++ due_bytes sw (i + 1) n

pub due_bytes_same :
    (sw sw' : Window WindowElement) (i n : ℕ)
    → ((j : ℕ) → i ≤ j → get_elem? sw' j ≡ get_elem? sw j)
    → due_bytes sw' i n ≡ due_bytes sw i n
unfolding due_bytes
due_bytes_same sw sw' i zero h = refl
due_bytes_same sw sw' i (suc n) h = rw (h i (omega arith)) (
    ap (λ rest. slot_bytes (get_elem? sw i) ++ rest)
      (due_bytes_same sw sw' (i + 1) n (λ j le. h j (omega arith))))

-- The scan of one slot.
pub record Scans (e : Endpoint) (i : ℕ) (g : Go Endpoint) : Type 0 where
  pub after : Endpoint
  pub returns : g ≡ ok after
  pub seq : after.seq_num ≡ e.seq_num
  pub peer : after.peer ≡ e.peer
  pub recv : after.receiver_window ≡ e.receiver_window
  pub wrote : after.written ≡ e.written ++ slot_bytes (get_elem? e.sender_window i)
  pub here : get_elem? after.sender_window i ≡ slot_refreshed (get_elem? e.sender_window i)
  pub elsewhere : (j : ℕ) → i ≢ j → get_elem? after.sender_window j ≡ get_elem? e.sender_window j
  pub size : length after.sender_window ≡ length e.sender_window

pub retransmit_empty :
    (e : Endpoint) (i : ℕ) → get_elem? e.sender_window i ≡ some none → retransmit_slot e i ≡ ok e
unfolding retransmit_slot
retransmit_empty e i at = ground arith

retransmit_idle :
    (e : Endpoint) (i : ℕ) (w : WindowElement)
    → get_elem? e.sender_window i ≡ some (some w)
    → IsSent w
    → is_due w ≡ false
    → retransmit_slot e i ≡ ok e
unfolding retransmit_slot
retransmit_idle e i w at s idle = ground arith

retransmit_due :
    (e : Endpoint) (i : ℕ) (w : WindowElement)
    → get_elem? e.sender_window i ≡ some (some w)
    → IsSent w
    → is_due w ≡ true
    → retransmit_slot e i
      ≡ ok (record e {
        sender_window = set e.sender_window i (some (refreshed w));
        written = e.written ++ (element_bytes w ∷ []);
      })
unfolding retransmit_slot raw
retransmit_due e i w at s due = ground arith

scan_slot :
    (e : Endpoint) (i : ℕ) (slot : Option WindowElement)
    → AllSent e.sender_window
    → i < length e.sender_window
    → get_elem? e.sender_window i ≡ some slot
    → Scans e i (retransmit_slot e i)
scan_slot e i none all lt at = record {
  after = e;
  returns = retransmit_empty e i at;
  seq = refl;
  peer = refl;
  recv = refl;
  wrote = rw (at, append-nil);
  here = at ∙ rw at;
  elsewhere = λ j ne. refl;
  size = refl;
}
scan_slot e i (some w) all lt at = elim (Bool-cases (is_due w)) [
  | inl due ↦ record {
    after = record e {
      sender_window = set e.sender_window i (some (refreshed w));
      written = e.written ++ (element_bytes w ∷ []);
    };
    returns = retransmit_due e i w at (all i w at) due;
    seq = refl;
    peer = refl;
    recv = refl;
    wrote = ap (λ (b : List (List ℕ)). e.written ++ b) (ground arith);
    here = get_elem?-set_self e.sender_window i (some (refreshed w)) lt ∙ rw at;
    elsewhere = λ j ne. get_elem?-set_ne e.sender_window i j (some (refreshed w)) ne;
    size = length-set e.sender_window i (some (refreshed w));
  }
  | inr idle ↦ record {
    after = e;
    returns = retransmit_idle e i w at (all i w at) idle;
    seq = refl;
    peer = refl;
    recv = refl;
    wrote = sym (append-nil e.written) ∙ ap (λ (b : List (List ℕ)). e.written ++ b) (ground arith);
    here = ground arith;
    elsewhere = λ j ne. refl;
    size = refl;
  }
]

pub retransmit_slot-Scans :
    (e : Endpoint) (i : ℕ)
    → AllSent e.sender_window
    → i < length e.sender_window
    → Scans e i (retransmit_slot e i)
retransmit_slot-Scans e i all lt =
    let (slot, at) = get_elem?_in_range e.sender_window i lt in scan_slot e i slot all lt at

refreshed-IsSent : (w : WindowElement) → IsSent w → IsSent (refreshed w)
refreshed-IsSent w s = elim (Bool-cases (is_due w)) [
  | inl due ↦ record {
    packet = s.packet;
    to = s.to;
    timer = restart s.timer;
    has_packet = ground arith;
    has_to = s.has_to;
    has_timer = ground arith;
  }
  | inr idle ↦ record {
    packet = s.packet;
    to = s.to;
    timer = s.timer;
    has_packet = ground arith;
    has_to = s.has_to;
    has_timer = ground arith;
  }
]

pub slot_refreshed_inv :
    (slot : Option (Option WindowElement)) (w : WindowElement)
    → slot_refreshed slot ≡ some (some w)
    → (v : WindowElement) × (slot ≡ some (some v)) × (refreshed v ≡ w)
slot_refreshed_inv none w h = cc
slot_refreshed_inv (some none) w h = cc
slot_refreshed_inv (some (some v)) w h = (v, refl, cc)

pub Scans-AllSent :
    (e : Endpoint) (i : ℕ) (g : Go Endpoint) (s : Scans e i g)
    → AllSent e.sender_window
    → AllSent s.after.sender_window
Scans-AllSent e i g s all j w at = elim (ℕ_discrete i j) [
  | yes same ↦
      let (v, old, new) =
        slot_refreshed_inv (get_elem? e.sender_window i) w
          (sym s.here ∙ ap (get_elem? s.after.sender_window) same ∙ at) in
      subst IsSent new (refreshed-IsSent v (all i v old))
  | no other ↦ all j w (sym (s.elsewhere j other) ∙ at)
]
