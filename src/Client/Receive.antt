-- ===== src/Client/Receive.antt =====
-- What one datagram does to the client: when it stops the program, and when the client goes on.
use comp6461_computer_networ.Base.{ℕ, ◌≤◌, ◌<◌, ◌≡◌, refl, sym, ap, ◌∙◌, arith, inl, inr, ◌⊎◌}
use comp6461_computer_networ.Base.{
  Bool, true, false, ◌||◌, Option, none, some, List, [], ◌∷◌, ◌++◌, if◌then◌else◌,
}
use comp6461_computer_networ.Base.{
  length, get_elem?, ok, panic, nil_dereference, index_out_of_range, is_nil, ◌==◌, Bool-cases,
  dec_lt,
}
use comp6461_computer_networ.Base.{get_elem?_in_range, get_elem?_out_of_range}
use comp6461_computer_networ.Packet.{UdpAddr, Packet, min_len, max_len, raw, raw_to, parse_packet}
use comp6461_computer_networ.Packet.PacketType
use comp6461_computer_networ.Packet.RoundTrip.{parse_packet_outcome, parse_packet-from_addr}
use comp6461_computer_networ.Window.{WindowElement}
use comp6461_computer_networ.Endpoint.{Endpoint, control, write, is_content, receive_content}
use comp6461_computer_networ.Endpoint.Arrival.{receive_content_ok, receive_content_panic}
use comp6461_computer_networ.Server.Receive.{after_ack}
use comp6461_computer_networ.Client.{
  HttpClient, receive_synack, receive_ack, receive_packet, receive,
}

abbrev pub is_client_ack : Packet → Bool
is_client_ack p = p.type == PacketType.ack

-- The client after the answer to a SYN-ACK, which it writes to `a`.
abbrev pub answered : HttpClient → UdpAddr → Packet → HttpClient
answered c a p =
    if p.type == PacketType.synack
    then (record {
      endpoint = record (c.endpoint) {
        written =
            c.endpoint.written
            ++ (raw_to (control PacketType.ack p.seq_num c.endpoint.peer) a ∷ []);
      };
      handshake_synack = if is_nil c.handshake_synack then some p else c.handshake_synack;
    })
    else c

receive_synack_ok :
    (c : HttpClient) (a : UdpAddr) (p : Packet)
    → c.endpoint.peer ≡ some a
    → receive_synack c p ≡ ok (answered c a p)
unfolding receive_synack write raw
receive_synack_ok c a p to = ground arith

answered_same :
    (c : HttpClient) (a : UdpAddr) (p : Packet)
    → ((answered c a p).endpoint.sender_window ≡ c.endpoint.sender_window)
      × ((answered c a p).endpoint.receiver_window ≡ c.endpoint.receiver_window)
answered_same c a p = ground arith

-- An acknowledgement that names an element which `sendPacket` stored is taken or ignored.
receive_ack_returns :
    (e : Endpoint) (p : Packet)
    → (is_client_ack p ≡ false)
      ⊎ ((w : WindowElement) × (get_elem? e.sender_window p.seq_num ≡ some (some w)))
    → (e' : Endpoint) × (receive_ack e p ≡ ok e') × (e'.receiver_window ≡ e.receiver_window)
unfolding receive_ack
receive_ack_returns e p (inl other) = (e, ground arith, refl)
receive_ack_returns e p (inr (w, at)) = elim (Bool-cases (is_client_ack p)) [
  | inr other ↦ (e, ground arith, refl)
  | inl is ↦ (after_ack e p (some (some w)), ground arith, ground arith)
]

content_returns :
    (e : Endpoint) (p : Packet) (from : UdpAddr)
    → p.from_addr ≡ some from
    → (is_content p ≡ false) ⊎ (p.seq_num < length e.receiver_window)
    → (e' : Endpoint) × (receive_content e p ≡ ok e')
content_returns e p from f (inl other) = (e, unfold receive_content in ground arith)
content_returns e p from f (inr lt) = elim (Bool-cases (is_content p)) [
  | inr other ↦ (e, unfold receive_content in ground arith)
  | inl is ↦ (_, receive_content_ok e p from is f lt)
]

packet_returns :
    (c : HttpClient) (a : UdpAddr) (p : Packet) (from : UdpAddr)
    → c.endpoint.peer ≡ some a
    → p.from_addr ≡ some from
    → (is_client_ack p ≡ false)
      ⊎ ((w : WindowElement) × (get_elem? c.endpoint.sender_window p.seq_num ≡ some (some w)))
    → (is_content p ≡ false) ⊎ (p.seq_num < length c.endpoint.receiver_window)
    → (c' : HttpClient) × (receive_packet c p ≡ ok c')
unfolding receive_packet
packet_returns c a p from to f known room =
    let (sw, rw') = answered_same c a p in
    let (e, acked, same) = receive_ack_returns (answered c a p).endpoint p (rw sw known) in
    let (e', kept) = content_returns e p from f (rw (same, rw') room) in
    (record (answered c a p) { endpoint = e' }, rw (receive_synack_ok c a p to, acked, kept))

ack_panics :
    (e : Endpoint) (p : Packet)
    → is_client_ack p ≡ true
    → ((length e.sender_window ≤ p.seq_num) × (receive_ack e p ≡ panic index_out_of_range))
      ⊎ ((get_elem? e.sender_window p.seq_num ≡ some none)
          × (receive_ack e p ≡ panic nil_dereference))
      ⊎ ((w : WindowElement) × (get_elem? e.sender_window p.seq_num ≡ some (some w)))
unfolding receive_ack
ack_panics e p is = elim (dec_lt p.seq_num (length e.sender_window)) [
  | no out ↦
      inl (
        omega arith,
        ground (arith, get_elem?_out_of_range e.sender_window p.seq_num (omega arith)),
      )
  | yes lt ↦ slot (get_elem?_in_range e.sender_window p.seq_num lt)
]
  where
    slot :
        (x : Option WindowElement) × (get_elem? e.sender_window p.seq_num ≡ some x)
        → ((length e.sender_window ≤ p.seq_num) × (receive_ack e p ≡ panic index_out_of_range))
          ⊎ ((get_elem? e.sender_window p.seq_num ≡ some none)
              × (receive_ack e p ≡ panic nil_dereference))
          ⊎ ((w : WindowElement) × (get_elem? e.sender_window p.seq_num ≡ some (some w)))
    slot (none, at) = inr (inl (at, ground arith))
    slot (some w, at) = inr (inr (w, at))

-- What one datagram does, in four cases that cover every sequence of bytes, for a client whose
-- windows have `n` slots and that has a server's address. Of fewer than 11 or more than 1024 bytes:
-- the program stops on a nil packet. An ACK, DATA or DELIVER packet with a number past the windows:
-- it stops on the index. An ACK with the number of an empty slot: it stops on the nil element. Any
-- other packet: the client goes on.
pub client_outcome :
    (n : ℕ) (c : HttpClient) (a : UdpAddr) (bytes : List ℕ)
    → c.endpoint.peer ≡ some a
    → length c.endpoint.sender_window ≡ n
    → length c.endpoint.receiver_window ≡ n
    → (((length bytes < min_len) ⊎ (max_len < length bytes))
        × (receive c bytes ≡ panic nil_dereference))
      ⊎ ((p : Packet) × (parse_packet bytes ≡ ok (some p, none))
          × (is_client_ack p || is_content p ≡ true)
          × (n ≤ p.seq_num)
          × (receive c bytes ≡ panic index_out_of_range))
      ⊎ ((p : Packet) × (parse_packet bytes ≡ ok (some p, none))
          × (is_client_ack p ≡ true)
          × (get_elem? c.endpoint.sender_window p.seq_num ≡ some none)
          × (receive c bytes ≡ panic nil_dereference))
      ⊎ ((p : Packet) × (parse_packet bytes ≡ ok (some p, none))
          × ((is_content p ≡ false) ⊎ (p.seq_num < n))
          × ((is_client_ack p ≡ false)
              ⊎ ((w : WindowElement) × (get_elem? c.endpoint.sender_window p.seq_num
                    ≡ some (some w))))
          × ((c' : HttpClient) × (receive c bytes ≡ ok c')))
unfolding receive receive_packet
client_outcome n c a bytes to hs hr = elim (parse_packet_outcome bytes) [
  | inl (short, e) ↦ inl (inl short, rw e)
  | inr (inl (long, e)) ↦ inl (inr long, rw e)
  | inr (inr (p, lo, hi, e, len)) ↦
      let ((from, f), _) = parse_packet-from_addr bytes p e in
      let (sw, rw') = answered_same c a p in
      let c' = answered c a p in
      elim (Bool-cases (is_client_ack p)) [
        | inl is ↦ elim (ack_panics c'.endpoint p is) [
          | inl (past, stops) ↦ inr (
              inl (
                p,
                e,
                ground arith,
                omega (arith, ap length sw, hs),
                rw (e, receive_synack_ok c a p to, stops),
              ))
          | inr (inl (empty, stops)) ↦
              inr (inr (inl (p, e, is, rw (← sw) empty, rw (e, receive_synack_ok c a p to, stops))))
          | inr (inr (w, at)) ↦
              let same = ap (λ v. get_elem? v p.seq_num) (sym sw) ∙ at in
              let (r, go) = packet_returns c a p from to f (inr (w, same)) (inl (ground arith)) in
              inr (inr (inr (p, e, inl (ground arith), inr (w, same), (r, rw e go))))
        ]
        | inr other ↦ elim (Bool-cases (is_content p)) [
          | inr free ↦
              let (r, go) = packet_returns c a p from to f (inl other) (inl free) in
              inr (inr (inr (p, e, inl free, inl other, (r, rw e go))))
          | inl is ↦ elim (dec_lt p.seq_num n) [
            | yes lt ↦
                let (r, go) = packet_returns c a p from to f (inl other) (inr (omega arith)) in
                inr (inr (inr (p, e, inr lt, inl other, (r, rw e go))))
            | no ge ↦
                let (e', acked, same) = receive_ack_returns c'.endpoint p (inl other) in
                let stops = receive_content_panic e' p from is f (rw (same, rw') (omega arith)) in
                inr (
                  inl (
                    p,
                    e,
                    ground arith,
                    omega arith,
                    rw (e, receive_synack_ok c a p to, acked, stops),
                  ))
          ]
        ]
      ]
]
