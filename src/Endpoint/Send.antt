-- ===== src/Endpoint/Send.antt =====
-- `sendPacket` and the loop of `send`: what is written, what the sender window holds afterwards,
-- and where the window is too small.
use comp6461_computer_networ.Base.{ℕ, zero, suc, ◌+◌, ◌%◌, ◌^◌, ◌≤◌, ◌<◌, ◌≡◌, refl, sym, ap, ◌∙◌}
use comp6461_computer_networ.Base.{some, List, [], ◌∷◌, ◌++◌, map, arith}
use comp6461_computer_networ.Base.{length, set, get_elem?, length-set}
use comp6461_computer_networ.Base.{get_elem?_in_range, get_elem?_out_of_range, get_elem?-set_self}
use comp6461_computer_networ.Base.{get_elem?-set_ne}
use comp6461_computer_networ.Base.{ok, panic, index_out_of_range}
use comp6461_computer_networ.Packet.{UdpAddr, Packet, raw, raw_to}
use comp6461_computer_networ.Window.{new_window_element}
use comp6461_computer_networ.Endpoint.{Endpoint, send_packet}
use comp6461_computer_networ.Endpoint.Segments.{}
use mathlib.Core.Option.{some-injective}
use mathlib.Core.List.{append_assoc, append-nil}

-- The endpoint after `p` was written to `a` and put into the window.
abbrev pub sent : UdpAddr → Endpoint → Packet → Endpoint
sent a e p = record e {
  seq_num = (e.seq_num + 1) % 2 ^ 32;
  sender_window = set e.sender_window e.seq_num (some (new_window_element p));
  written = e.written ++ (raw_to p a ∷ []);
}

pub send_packet_ok :
    (e : Endpoint) (p : Packet) (a : UdpAddr)
    → p.to_addr ≡ some a
    → e.seq_num < length e.sender_window
    → send_packet e p ≡ ok (sent a e p)
unfolding send_packet raw
send_packet_ok e p a to h =
    let (slot, found) = get_elem?_in_range e.sender_window e.seq_num h in ground arith

pub send_packet_panic :
    (e : Endpoint) (p : Packet) (a : UdpAddr)
    → p.to_addr ≡ some a
    → length e.sender_window ≤ e.seq_num
    → send_packet e p ≡ panic index_out_of_range
unfolding send_packet raw
send_packet_panic e p a to h = ground (arith, get_elem?_out_of_range e.sender_window e.seq_num h)

unfoldable pub sent_all : UdpAddr → Endpoint → List Packet → Endpoint
sent_all a e [] = e
sent_all a e (p ∷ ps) = sent_all a (sent a e p) ps

pub sent_all-append :
    (a : UdpAddr) (e : Endpoint) (ps qs : List Packet)
    → sent_all a e (ps ++ qs) ≡ sent_all a (sent_all a e ps) qs
unfolding sent_all
sent_all-append a e [] qs = refl
sent_all-append a e (p ∷ ps) qs = sent_all-append a (sent a e p) ps qs

-- What `sent_all` leaves alone, adds and counts.
pub sent_all_fields :
    (a : UdpAddr) (ps : List Packet) (e : Endpoint)
    → e.seq_num + length ps < 2 ^ 32
    → ((sent_all a e ps).seq_num ≡ e.seq_num + length ps)
      × ((sent_all a e ps).peer ≡ e.peer)
      × ((sent_all a e ps).receiver_window ≡ e.receiver_window)
      × (length (sent_all a e ps).sender_window ≡ length e.sender_window)
      × ((sent_all a e ps).written ≡ e.written ++ map (λ p. raw_to p a) ps)
unfolding sent_all
sent_all_fields a [] e h = (omega arith, refl, refl, refl, sym (append-nil e.written))
sent_all_fields a (p ∷ ps) e h =
    let (seq, peer, recv, len, out) = sent_all_fields a ps (sent a e p) (omega arith) in
    (
      omega (arith, seq),
      peer,
      recv,
      len ∙ length-set e.sender_window e.seq_num (some (new_window_element p)),
      out ∙ append_assoc e.written (raw_to p a ∷ []) (map (λ q. raw_to q a) ps),
    )

pub sent_all_message :
    (a : UdpAddr) (ps : List Packet) (e : Endpoint)
    → (sent_all a e ps).delivery_message ≡ e.delivery_message
unfolding sent_all
sent_all_message a [] e = refl
sent_all_message a (p ∷ ps) e = sent_all_message a ps (sent a e p)

-- The slots before the first new packet stay as they were.
sent_all_below :
    (a : UdpAddr) (ps : List Packet) (e : Endpoint) (i : ℕ)
    → e.seq_num + length ps < 2 ^ 32
    → i < e.seq_num
    → get_elem? (sent_all a e ps).sender_window i ≡ get_elem? e.sender_window i
unfolding sent_all
sent_all_below a [] e i h lt = refl
sent_all_below a (p ∷ ps) e i h lt =
    sent_all_below a ps (sent a e p) i (omega arith) (omega arith)
    ∙ get_elem?-set_ne e.sender_window e.seq_num i _ (omega arith)

-- The `k`th packet stands in its slot, unacknowledged and with its timer running.
pub sent_all_slots :
    (a : UdpAddr) (ps : List Packet) (e : Endpoint) (k : ℕ) (p : Packet)
    → e.seq_num + length ps ≤ length e.sender_window
    → length e.sender_window < 2 ^ 32
    → get_elem? ps k ≡ some p
    → get_elem? (sent_all a e ps).sender_window (e.seq_num + k) ≡ some (some (new_window_element p))
unfolding sent_all
sent_all_slots a [] e k p h n found = cc
sent_all_slots a (q ∷ ps) e zero p h n found =
    let at_first : e.seq_num + 0 ≡ e.seq_num = omega arith in
    rw at_first (
      sent_all_below a ps (sent a e q) e.seq_num (omega arith) (omega arith)
      ∙ get_elem?-set_self e.sender_window e.seq_num _ (omega arith)
      ∙ ap (λ r. some (some (new_window_element r))) (some-injective q p found))
sent_all_slots a (q ∷ ps) e (suc k) p h n found =
    let shift : e.seq_num + suc k ≡ (sent a e q).seq_num + k = omega arith in
    rw shift (
      sent_all_slots a ps (sent a e q) k p
        (omega (arith, length-set e.sender_window e.seq_num (some (new_window_element q))))
        (omega (arith, length-set e.sender_window e.seq_num (some (new_window_element q)))) found)
