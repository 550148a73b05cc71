-- ===== src/Server/Receive.antt =====
-- What one datagram does to the server: when it stops the program, and what an acknowledgement does.
use comp6461_computer_networ.Base.{ℕ, ◌≤◌, ◌<◌, ◌≡◌, arith, inl, inr, ◌⊎◌}
use comp6461_computer_networ.Base.{
  Bool, true, false, not, ◌&&◌, ◌||◌, Option, none, some, List, [], ◌∷◌, if◌then◌else◌,
}
use comp6461_computer_networ.Base.{
  length, get_elem?, set, ok, panic, nil_dereference, index_out_of_range, ◌==◌, Bool-cases,
}
use comp6461_computer_networ.Base.{get_elem?_in_range, get_elem?_out_of_range}
use comp6461_computer_networ.Packet.{UdpAddr, Packet, min_len, max_len, parse_packet}
use comp6461_computer_networ.Base.{dec_lt, ◌++◌}
use comp6461_computer_networ.Packet.PacketType
use comp6461_computer_networ.Packet.RoundTrip.{parse_packet_outcome, parse_packet-from_addr}
use comp6461_computer_networ.Window.{WindowElement}
use comp6461_computer_networ.Endpoint.{Endpoint, is_content, receive_content}
use comp6461_computer_networ.Endpoint.Arrival.{
  receive_content_ok, receive_content_panic, kept, ack_bytes,
}
use comp6461_computer_networ.Server.{HttpServer, acknowledged, receive_ack, receive_packet, receive}
use comp6461_computer_networ.Server.{receive_handshake}

abbrev pub is_ack : Packet → Bool
is_ack p = p.type == PacketType.ack && not (p.seq_num == 0)

-- The packets whose number is an index into a window.
abbrev pub uses_window : Packet → Bool
uses_window p = is_ack p || is_content p

-- What `receive_ack` makes of an endpoint whose window has the number.
abbrev pub after_ack : Endpoint → Packet → Option (Option WindowElement) → Endpoint
after_ack e p (some (some w)) = elim w.ack [
  | some _ ↦ e
  | none ↦ elim w.timer [
    | none ↦ e
    | some t ↦ record e {
      sender_window = set e.sender_window p.seq_num (some (acknowledged w t p));
    }
  ]
]
after_ack e p _ = e

abbrev pub acked_endpoint : Endpoint → Packet → Endpoint
acked_endpoint e p = if is_ack p then after_ack e p (get_elem? e.sender_window p.seq_num) else e

pub receive_ack_ok :
    (e : Endpoint) (p : Packet)
    → (is_ack p ≡ false) ⊎ (p.seq_num < length e.sender_window)
    → receive_ack e p ≡ ok (acked_endpoint e p)
unfolding receive_ack
receive_ack_ok e p (inl other) = ground arith
receive_ack_ok e p (inr lt) =
    let (slot, at) = get_elem?_in_range e.sender_window p.seq_num lt in ground arith

abbrev received_endpoint : Endpoint → Packet → UdpAddr → Endpoint
received_endpoint e p from = record e {
  receiver_window = kept e.receiver_window p.seq_num p;
  written = e.written ++ (ack_bytes p.seq_num from ∷ []);
}

acked_endpoint_same :
    (e : Endpoint) (p : Packet) → (acked_endpoint e p).receiver_window ≡ e.receiver_window
acked_endpoint_same e p = ground arith

receive_ack_panic :
    (e : Endpoint) (p : Packet)
    → is_ack p ≡ true
    → length e.sender_window ≤ p.seq_num
    → receive_ack e p ≡ panic index_out_of_range
unfolding receive_ack
receive_ack_panic e p is le = ground (arith, get_elem?_out_of_range e.sender_window p.seq_num le)

receive_content_other :
    (e : Endpoint) (p : Packet) → is_content p ≡ false → receive_content e p ≡ ok e
unfolding receive_content
receive_content_other e p h = ground arith

receive_packet_returns :
    (s : HttpServer) (p : Packet) (from : UdpAddr)
    → p.from_addr ≡ some from
    → (is_ack p ≡ false) ⊎ (p.seq_num < length s.endpoint.sender_window)
    → (is_content p ≡ false) ⊎ (p.seq_num < length s.endpoint.receiver_window)
    → (s' : HttpServer) × (receive_packet s p ≡ ok s')
unfolding receive_packet
receive_packet_returns s p from f a (inl other) = (
  record (receive_handshake s p) { endpoint = acked_endpoint s.endpoint p },
  rw (receive_ack_ok s.endpoint p a, receive_content_other _ p other),
)
receive_packet_returns s p from f a (inr lt) = elim (Bool-cases (is_content p)) [
  | inl is ↦ (
    record (receive_handshake s p) {
      endpoint = received_endpoint (acked_endpoint s.endpoint p) p from;
    },
    rw (
      receive_ack_ok s.endpoint p a,
      receive_content_ok (acked_endpoint s.endpoint p) p from is f (rw acked_endpoint_same lt),
    ),
  )
  | inr other ↦ (
    record (receive_handshake s p) { endpoint = acked_endpoint s.endpoint p },
    rw (receive_ack_ok s.endpoint p a, receive_content_other _ p other),
  )
]

receive_packet_panics :
    (s : HttpServer) (p : Packet) (from : UdpAddr)
    → p.from_addr ≡ some from
    → uses_window p ≡ true
    → length s.endpoint.sender_window ≤ p.seq_num
    → length s.endpoint.receiver_window ≤ p.seq_num
    → receive_packet s p ≡ panic index_out_of_range
unfolding receive_packet
receive_packet_panics s p from f u a c = elim (Bool-cases (is_ack p)) [
  | inl is ↦ rw (receive_ack_panic s.endpoint p is a)
  | inr other ↦ rw (
    receive_ack_ok s.endpoint p (inl other),
    receive_content_panic (acked_endpoint s.endpoint p) p from (ground arith) f
        (rw acked_endpoint_same c),
  )
]

-- What one datagram does, in three cases that cover every sequence of bytes, for a server whose
-- windows have `n` slots. Of fewer than 11 or more than 1024 bytes: the program stops on a nil
-- packet. A packet that uses a window (an ACK numbered other than 0, DATA or DELIVER) with a number
-- past it: the program stops on the index. Any other packet: the server goes on.
pub receive_outcome :
    (n : ℕ) (s : HttpServer) (bytes : List ℕ)
    → length s.endpoint.sender_window ≡ n
    → length s.endpoint.receiver_window ≡ n
    → (((length bytes < min_len) ⊎ (max_len < length bytes))
        × (receive s bytes ≡ panic nil_dereference))
      ⊎ ((p : Packet) × (parse_packet bytes ≡ ok (some p, none))
          × (uses_window p ≡ true)
          × (n ≤ p.seq_num)
          × (receive s bytes ≡ panic index_out_of_range))
      ⊎ ((p : Packet) × (parse_packet bytes ≡ ok (some p, none))
          × ((uses_window p ≡ false) ⊎ (p.seq_num < n))
          × ((s' : HttpServer) × (receive s bytes ≡ ok s')))
unfolding receive
receive_outcome n s bytes hs hr = elim (parse_packet_outcome bytes) [
  | inl (short, e) ↦ inl (inl short, rw e)
  | inr (inl (long, e)) ↦ inl (inr long, rw e)
  | inr (inr (p, lo, hi, e, len)) ↦
      let ((from, f), _) = parse_packet-from_addr bytes p e in
      elim (Bool-cases (uses_window p)) [
        | inl u ↦ elim (dec_lt p.seq_num n) [
          | yes lt ↦
              let (s', go) =
                receive_packet_returns s p from f (inr (omega arith)) (inr (omega arith)) in
              inr (inr (p, e, inr lt, (s', rw e go)))
          | no ge ↦ inr (
              inl (
                p,
                e,
                u,
                omega arith,
                rw e (receive_packet_panics s p from f u (omega arith) (omega arith)),
              ))
        ]
        | inr u ↦
            let (s', go) =
              receive_packet_returns s p from f (inl (ground arith)) (inl (ground arith)) in
            inr (inr (p, e, inl u, (s', rw e go)))
      ]
]
