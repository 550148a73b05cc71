-- ===== src/Link/Safety.antt =====
-- When the wait at the end of the server's `send` may end.
use mathlib.Core.Option.{some-injective}
use comp6461_computer_networ.Base.{ℕ, suc, ◌*◌, ◌≤◌, ◌≡◌, ◌↔◌, inl, inr, refl, sym, ap, ◌∙◌, arith}
use comp6461_computer_networ.Base.{
  Bool, true, false, Option, none, some, List, [], ◌∷◌, length, get_elem?, ok, ◌>>=◌, Option-cases,
}
use comp6461_computer_networ.Base.{get_elem?_in_range, get_elem?-some_lt, length-map, get_elem?-map}
use comp6461_computer_networ.Packet.{UdpAddr, Packet, max_payload}
use comp6461_computer_networ.Packet.RoundTrip.{IsUdp4, arrived}
use comp6461_computer_networ.Window.{WindowElement, make_window}
use comp6461_computer_networ.Endpoint.{Endpoint, ended, is_blocked, is_unacked, get_packets}
use comp6461_computer_networ.Endpoint.Segments.{
  request_chunks, length-request_chunks, length-request_packets,
}
use comp6461_computer_networ.Endpoint.Reassembly.{HoldsAll, get_packets_request}
use comp6461_computer_networ.Endpoint.Receiver
use comp6461_computer_networ.Endpoint.Receiver.{Receiver, checks, window}
use comp6461_computer_networ.Endpoint.Delivery.{incoming}
use comp6461_computer_networ.Endpoint.Complete.{two_checks}
use comp6461_computer_networ.Endpoint.Wait.{is_blocked_lem}
use comp6461_computer_networ.Link.{Link, Move, start, run}
use comp6461_computer_networ.Link.Invariant.{packets, HasArrived, IsLink, start-IsLink}
use comp6461_computer_networ.Link.Sender.{IsAcked}
use comp6461_computer_networ.Link.Moves.{run-Goes}

-- After two rounds of the check the receiver has `resp`, and its message is sent.
pub record IsDelivered (resp : List ℕ) (r : Receiver) : Type 0 where
  pub after : Receiver
  pub returns : Receiver.run r (checks ∷ checks ∷ []) ≡ ok after
  pub told : after.endpoint.delivery_message ≡ true
  pub whole : get_packets (window after) ≡ ok resp

module _ (a c : UdpAddr) (resp : List ℕ) where
  -- Every packet has its acknowledgement.
  abbrev pub AllAcked : Link → Type 0
  AllAcked l = (k : ℕ) → k ≤ length (request_chunks resp) → IsAcked l.sender (suc k)

  acked-HasArrived :
      (l : Link) (k : ℕ) (p : Packet)
      → IsLink a c resp l
      → get_elem? (packets a c resp) k ≡ some p
      → IsAcked l.sender (suc k)
      → HasArrived a c resp (window l.receiver) k p
  acked-HasArrived l k p v at (x, q, slot, got) =
      let s = v.only (suc k) x slot in
      let same : s.place ≡ k = omega (arith, s.here) in
      let is_p : s.packet ≡ p =
        some-injective s.packet p (sym s.at ∙ ap (get_elem? (packets a c resp)) same ∙ at) in
      rw (sym same, sym is_p) (s.settled q got)

  pub AllAcked-HoldsAll :
      (l : Link)
      → IsLink a c resp l
      → AllAcked l
      → HoldsAll (incoming a (some c) resp) (window l.receiver)
  AllAcked-HoldsAll l v acked k q comes =
      let lt = get_elem?-some_lt (incoming a (some c) resp) k q comes in
      let len = length-map (packets a c resp) (λ p. arrived p a) in
      let count = length-request_packets (some c) 1 resp in
      let (p, at) = get_elem?_in_range (packets a c resp) k (omega (arith, len)) in
      let is_q : arrived p a ≡ q =
        some-injective _ q
          (sym (get_elem?-map (packets a c resp) (λ x. arrived x a) k p at) ∙ comes) in
      rw (sym is_q) (acked-HasArrived l k p v at (acked k (omega (arith, len))))

  pub AllAcked-IsDelivered :
      (l : Link) → IsLink a c resp l → AllAcked l → IsDelivered resp l.receiver
  AllAcked-IsDelivered l v acked =
      let all = AllAcked-HoldsAll l v acked in
      let r = l.receiver in
      record {
        after = record {
          endpoint = record (r.endpoint) { delivery_message = true };
          checker = ended;
        };
        returns = two_checks a (some c) resp r.endpoint r.checker v.receiving all;
        told = refl;
        whole = get_packets_request a (some c) 1 resp (window r) all;
      }

  is_acked :
      (x : WindowElement) (p : Packet)
      → x.packet ≡ some p
      → is_unacked (some x) ≡ false
      → (q : Packet) × (x.ack ≡ some q)
  is_acked x p has free = elim (Option-cases x.ack) [
    | inr got ↦ got
    | inl missing ↦ absurd (ground arith)
  ]

  module _ (small : length resp ≤ 1022 * max_payload) where
    -- The wait ends exactly when every packet has its acknowledgement.
    pub is_blocked-AllAcked :
        (l : Link)
        → IsLink a c resp l
        → (b : Bool) × (is_blocked l.sender ≡ ok b) × ((b ≡ false) ↔ AllAcked l)
    is_blocked-AllAcked l v =
        let few = length-request_chunks resp small in
        let (b, returns, iff) = is_blocked_lem l.sender (omega (arith, v.seq, v.size)) in
        (
          b,
          returns,
          (
            λ free k le.
                let (x, at) = v.full k le in
                let (q, got) =
                  is_acked x _ (v.only (suc k) x at).has_packet
                    (iff.0 free (suc k) (some x) (omega (arith, v.seq)) at) in
                (x, q, at, got),
            λ acked. iff.1 λ j slot lt at. free_slot l v acked j slot at,
          ),
        )
      where
        free_slot :
            (l : Link)
            → IsLink a c resp l
            → AllAcked l
            → (j : ℕ) (slot : Option WindowElement) → get_elem? l.sender.sender_window j ≡ some slot
            → is_unacked slot ≡ false
        free_slot l v acked j none at = refl
        free_slot l v acked j (some x) at =
            let s = v.only j x at in
            let lt = get_elem?-some_lt (packets a c resp) s.place s.packet s.at in
            let count = length-request_packets (some c) 1 resp in
            let (y, q, there, got) = acked s.place (omega arith) in
            let same : y ≡ x = some-injective y x (
              some-injective (some y) (some x)
                (sym there ∙ ap (get_elem? l.sender.sender_window) (sym s.here) ∙ at)) in
            ground (arith, ap (λ z. z.ack) same)

    -- Let a server with next number 1 and an empty window send a response of at most 1022 times 1013
    -- bytes to the client, both at IPv4 addresses, and let the network deliver the datagrams and the
    -- acknowledgements in any order, any number of times or never, between scans of retransmission,
    -- expiries of timers and rounds of the check as they come. Then nothing panics, and the wait at
    -- the end of `send` returns; if it lets `send` end, the client has every packet: after two more
    -- rounds of its check the message is sent and `getPackets` returns exactly the response.
    pub send_ends-IsDelivered :
        (s r : Endpoint) (ms : List Move)
        → IsUdp4 a
        → IsUdp4 c
        → s.seq_num ≡ 1
        → s.peer ≡ some c
        → s.sender_window ≡ make_window
        → (l : Link) × ((start s r resp >>= λ l. run a c l ms) ≡ ok l)
          × (b : Bool) × (is_blocked l.sender ≡ ok b)
          × (b ≡ false → IsDelivered resp l.receiver)
    send_ends-IsDelivered s r ms va vc one to empty =
        let (l, sends, v) = start-IsLink a c resp s r one to empty small in
        let g = run-Goes a c resp va vc small l ms v in
        let (b, waits, iff) = is_blocked-AllAcked g.after g.is_link in
        (
          g.after,
          rw (sends, g.returns) refl,
          b,
          waits,
          λ done. AllAcked-IsDelivered g.after g.is_link (iff.0 done),
        )
