-- ===== src/Server/Acks.antt =====
-- What the acknowledgement of a packet settles.
use comp6461_computer_networ.Base.{ℕ, ◌≡◌, ◌≢◌, refl, ap, ◌∙◌, arith}
use comp6461_computer_networ.Base.{true, false, none, some}
use comp6461_computer_networ.Base.{get_elem?, set, ok}
use comp6461_computer_networ.Base.{get_elem?-set_self, get_elem?-set_ne, get_elem?-some_lt}
use comp6461_computer_networ.Packet.{Packet}
use comp6461_computer_networ.Window.{WindowElement, Timer}
use comp6461_computer_networ.Endpoint.{Endpoint, is_unacked}
use comp6461_computer_networ.Endpoint.Due.{IsSent, is_due}
use comp6461_computer_networ.Server.{acknowledged, receive_ack}
use comp6461_computer_networ.Server.Receive.{is_ack}

receive_ack_first :
    (e : Endpoint) (p : Packet) (w : WindowElement) (t : Timer)
    → is_ack p ≡ true
    → get_elem? e.sender_window p.seq_num ≡ some (some w)
    → w.ack ≡ none
    → w.timer ≡ some t
    → receive_ack e p
      ≡ ok (record e { sender_window = set e.sender_window p.seq_num (some (acknowledged w t p)) })
unfolding receive_ack
receive_ack_first e p w t is at free timer = ground arith

receive_ack_again :
    (e : Endpoint) (p q : Packet) (w : WindowElement)
    → is_ack p ≡ true
    → get_elem? e.sender_window p.seq_num ≡ some (some w)
    → w.ack ≡ some q
    → receive_ack e p ≡ ok e
unfolding receive_ack
receive_ack_again e p q w is at taken = ground arith

-- The first ACK of a sent packet that is still unacknowledged is accepted: the packet no longer
-- holds up `send` and is no longer due for a retransmission, no other slot and no other field of
-- the endpoint changes, and any further ACK with the number changes nothing at all.
pub receive_ack_settles :
    (e : Endpoint) (p : Packet) (w : WindowElement)
    → is_ack p ≡ true
    → get_elem? e.sender_window p.seq_num ≡ some (some w)
    → IsSent w
    → w.ack ≡ none
    → (e' : Endpoint) × (w' : WindowElement) × (receive_ack e p ≡ ok e')
      × (e' ≡ record e { sender_window = e'.sender_window })
      × (get_elem? e'.sender_window p.seq_num ≡ some (some w'))
      × (is_unacked (some w') ≡ false)
      × (is_due w' ≡ false)
      × ((j : ℕ) → p.seq_num ≢ j → get_elem? e'.sender_window j ≡ get_elem? e.sender_window j)
      × ((q : Packet) → is_ack q ≡ true → q.seq_num ≡ p.seq_num → receive_ack e' q ≡ ok e')
receive_ack_settles e p w is at s free =
    let w' : WindowElement = acknowledged w s.timer p in
    let sw = set e.sender_window p.seq_num (some w') in
    let e' : Endpoint = record e { sender_window = sw } in
    let here =
      get_elem?-set_self e.sender_window p.seq_num (some w')
        (get_elem?-some_lt e.sender_window p.seq_num (some w) at) in
    (
      e',
      w',
      receive_ack_first e p w s.timer is at free s.has_timer,
      refl,
      here,
      ground arith,
      refl,
      λ j ne. get_elem?-set_ne e.sender_window p.seq_num j (some w') ne,
      λ q is_q same. receive_ack_again e' q p w' is_q (ap (get_elem? sw) same ∙ here) refl,
    )
