-- ===== src/Server/Windows.antt =====
-- The two windows of an endpoint: all that reads or writes them keeps them well formed.
use comp6461_computer_networ.Base.{ℕ, ◌<◌, ◌≡◌, refl, sym, ap, ◌∙◌, arith, inl, inr}
use comp6461_computer_networ.Base.{Option, none, some}
use comp6461_computer_networ.Base.{length, get_elem?, set, ok, ℕ_discrete, Bool-cases}
use comp6461_computer_networ.Base.{
  length-set, get_elem?-set_self, get_elem?-set_ne, get_elem?-some_lt, get_elem?-replicate,
}
use mathlib.Core.Path.{subst}
use mathlib.Core.Option.{some-injective}
use comp6461_computer_networ.Packet.{UdpAddr, Packet, raw}
use comp6461_computer_networ.Window.{
  WindowElement, Timer, Window, make_window, new_timer, new_window_element, stop, window_size,
}
use comp6461_computer_networ.Endpoint.{
  Endpoint, receive_content, write, poll, Checker, looking, ended,
}
use comp6461_computer_networ.Endpoint.Due.{IsSent, AllSent}
use comp6461_computer_networ.Server.{acknowledged, receive_ack}
use comp6461_computer_networ.Server.Receive.{acked_endpoint, after_ack, is_ack}

-- Both windows have their 1024 slots, and the sender window holds only what sendPacket stores.
pub record HasWindows (e : Endpoint) : Type 0 where
  pub recv_size : length e.receiver_window ≡ window_size
  pub send_size : length e.sender_window ≡ window_size
  pub all_sent : AllSent e.sender_window

pub make_window-HasWindows :
    (e : Endpoint)
    → HasWindows (record e { receiver_window = make_window; sender_window = make_window })
unfolding make_window
make_window-HasWindows e = record {
  recv_size = refl;
  send_size = refl;
  all_sent =
      λ i w at. cc (get_elem?-replicate {A = Option WindowElement} window_size i none (some w) at);
}

pub set-AllSent :
    (sw : Window WindowElement) (i : ℕ) (w : WindowElement)
    → AllSent sw
    → IsSent w
    → AllSent (set sw i (some w))
set-AllSent sw i w all s j v at = elim (ℕ_discrete i j) [
  | yes same ↦
      let lt : i < length sw =
        omega
          (arith, get_elem?-some_lt (set sw i (some w)) j (some v) at, length-set sw i (some w)) in
      let stored : get_elem? (set sw i (some w)) j ≡ some (some w) =
        ap (get_elem? (set sw i (some w))) (sym same) ∙ get_elem?-set_self sw i (some w) lt in
      subst IsSent (some-injective w v (some-injective (some w) (some v) (sym stored ∙ at))) s
  | no other ↦ all j v (sym (get_elem?-set_ne sw i j (some w) other) ∙ at)
]

acknowledged-IsSent :
    (w : WindowElement) (t : Timer) (p : Packet) → IsSent w → IsSent (acknowledged w t p)
acknowledged-IsSent w t p s = record {
  packet = s.packet;
  to = s.to;
  timer = stop t;
  has_packet = s.has_packet;
  has_to = s.has_to;
  has_timer = refl;
}

pub new-IsSent : (p : Packet) (a : UdpAddr) → p.to_addr ≡ some a → IsSent (new_window_element p)
new-IsSent p a h = record {
  packet = p;
  to = a;
  timer = new_timer;
  has_packet = refl;
  has_to = h;
  has_timer = refl;
}

-- Two endpoints with the same windows, up to the sender window.
pub with_sender :
    (e : Endpoint) (sw : Window WindowElement)
    → HasWindows e
    → length sw ≡ window_size
    → AllSent sw
    → HasWindows (record e { sender_window = sw })
with_sender e sw h size all = record { recv_size = h.recv_size; send_size = size; all_sent = all }

receive_ack_inv : (e e' : Endpoint) (p : Packet) → receive_ack e p ≡ ok e' → e' ≡ acked_endpoint e p
unfolding receive_ack
receive_ack_inv e e' p done = ground arith

after_ack-HasWindows :
    (e : Endpoint) (p : Packet) (slot : Option (Option WindowElement))
    → get_elem? e.sender_window p.seq_num ≡ slot
    → HasWindows e
    → HasWindows (after_ack e p slot)
after_ack-HasWindows e p none at h = h
after_ack-HasWindows e p (some none) at h = h
after_ack-HasWindows e p (some (some w)) at h =
    elim w.ack
      as (λ x. HasWindows (elim x [
        | none ↦ elim w.timer [
          | none ↦ e
          | some t ↦ record e {
            sender_window = set e.sender_window p.seq_num (some (acknowledged w t p));
          }
        ]
        | some _ ↦ e
      ])) [
        | none ↦
            elim w.timer
              as (λ y. HasWindows (elim y [
                | none ↦ e
                | some t ↦ record e {
                  sender_window = set e.sender_window p.seq_num (some (acknowledged w t p));
                }
              ])) [
                | none ↦ h
                | some t ↦
                    let w' : WindowElement = acknowledged w t p in
                    with_sender e (set e.sender_window p.seq_num (some w')) h
                      (length-set e.sender_window p.seq_num (some w') ∙ h.send_size)
                      (set-AllSent e.sender_window p.seq_num w' h.all_sent
                        (acknowledged-IsSent w t p (h.all_sent p.seq_num w at)))
              ]
        | some _ ↦ h
      ]

acked_endpoint-HasWindows :
    (e : Endpoint) (p : Packet) → HasWindows e → HasWindows (acked_endpoint e p)
acked_endpoint-HasWindows e p h = elim (Bool-cases (is_ack p)) [
  | inl is ↦ rw is (after_ack-HasWindows e p (get_elem? e.sender_window p.seq_num) refl h)
  | inr other ↦ rw other h
]

acked_endpoint_fields :
    (e : Endpoint) (p : Packet)
    → ((acked_endpoint e p).seq_num ≡ e.seq_num) × ((acked_endpoint e p).peer ≡ e.peer)
acked_endpoint_fields e p = ground arith

-- The branch of `receive` on ACK changes the sender window only.
pub receive_ack-HasWindows :
    (e e' : Endpoint) (p : Packet)
    → receive_ack e p ≡ ok e'
    → HasWindows e
    → HasWindows e' × (e'.seq_num ≡ e.seq_num) × (e'.peer ≡ e.peer)
receive_ack-HasWindows e e' p done h =
    subst (λ x. HasWindows x × (x.seq_num ≡ e.seq_num) × (x.peer ≡ e.peer))
      (sym (receive_ack_inv e e' p done))
      (
        acked_endpoint-HasWindows e p h,
        (acked_endpoint_fields e p).0,
        (acked_endpoint_fields e p).1,
      )

-- Endpoints with the same numbers, peer and windows, but for the contents of the receiver window.
abbrev pub SameSending : Endpoint → Endpoint → Type 0
SameSending e e' =
    (e'.seq_num ≡ e.seq_num)
    × (e'.peer ≡ e.peer)
    × (e'.sender_window ≡ e.sender_window)
    × (length e'.receiver_window ≡ length e.receiver_window)

pub SameSending-HasWindows : (e e' : Endpoint) → SameSending e e' → HasWindows e → HasWindows e'
SameSending-HasWindows e e' (_, _, same, size) h = record {
  recv_size = size ∙ h.recv_size;
  send_size = ap length same ∙ h.send_size;
  all_sent = subst AllSent (sym same) h.all_sent;
}

pub write-SameSending : (e e' : Endpoint) (p : Packet) → write e p ≡ ok e' → SameSending e e'
unfolding write raw
write-SameSending e e' p done = ground arith

pub receive_content-SameSending :
    (e e' : Endpoint) (p : Packet) → receive_content e p ≡ ok e' → SameSending e e'
unfolding receive_content raw
receive_content-SameSending e e' p done =
    ground (arith, length-set e.receiver_window p.seq_num (some p))

pub poll-SameSending :
    (e e' : Endpoint) (c c' : Checker) → poll e c ≡ ok (e', c') → SameSending e e'
unfolding poll
poll-SameSending e e' ended c' done = ground arith
poll-SameSending e e' (looking d) c' done = ground arith
