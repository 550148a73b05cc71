-- ===== src/Endpoint/Complete.antt =====
-- The headline facts of the receiving side: what is delivered is the request that was sent, and it
-- is delivered once every packet has arrived.
use comp6461_computer_networ.Base.{
  ℕ, suc, ◌*◌, ◌≤◌, ◌<◌, ◌≡◌, refl, sym, ap, ◌∙◌, ◌≢◌, arith, inl, inr, ◌⊎◌,
}
use comp6461_computer_networ.Base.{true, Option, none, some, List, [], ◌∷◌}
use comp6461_computer_networ.Base.{length, get_elem?, Go, ok, Option-cases, All}
use comp6461_computer_networ.Base.{
  get_elem?_in_range, length-append, length-map, get_elem?-replicate,
}
use mathlib.Core.Option.{some-injective}
use comp6461_computer_networ.Base.{replicate}
use comp6461_computer_networ.Endpoint.Delivery.{one-add, find_deliver-last}
use mathlib.Core.Path.{subst}
use comp6461_computer_networ.Packet.{UdpAddr, Packet, max_payload}
use comp6461_computer_networ.Window.{Window, make_window}
use comp6461_computer_networ.Endpoint.{Endpoint, Checker, looking, ended, poll}
use comp6461_computer_networ.Endpoint.{check_for_deliver, find_deliver, is_filled, get_packets}
use comp6461_computer_networ.Endpoint.Segments.{
  request_packets, request_chunks, length-data_packets, data_packets, length-chunks,
}
use comp6461_computer_networ.Endpoint.Reassembly.{HoldsOnly, HoldsAll}
use comp6461_computer_networ.Endpoint.Reassembly.{find_deliver-none, is_filled-true}
use comp6461_computer_networ.Endpoint.Reassembly.{get_packets_request}
use comp6461_computer_networ.Endpoint.Arrival.{kept, kept_filled, kept_empty}
use comp6461_computer_networ.Endpoint.Arrival.{receive_content_ok}
use comp6461_computer_networ.Endpoint.Receiver.{Receiver, Event, arrives, checks, step, run, window}
use comp6461_computer_networ.Endpoint.Delivery.{
  IsOneOf, incoming, IsFound, IsReceiving, part, run-Goes, step-Goes, suc_injective,
}

-- The packet is among those that arrive.
abbrev pub Occurs : Packet → List Event → Type 0
Occurs q [] = ⊥
Occurs q (arrives p ∷ vs) = (p ≡ q) ⊎ Occurs q vs
Occurs q (checks ∷ vs) = Occurs q vs

-- An endpoint with an empty window, and a check that has just started.
abbrev pub fresh : Endpoint → Receiver
fresh e = record { endpoint = record e { receiver_window = make_window }; checker = looking none }

window_of : Go Receiver → Window Packet
window_of (ok r) = window r
window_of _ = []

module _ (from : UdpAddr) (to : Option UdpAddr) (req : List ℕ) where
  length-incoming : length (incoming from to req) ≡ suc (length (request_chunks req))
  unfolding request_packets
  length-incoming =
      length-map (request_packets to 1 req) _
      ∙ length-append (data_packets to 1 (request_chunks req)) _
      ∙ omega (arith, length-data_packets to 1 (request_chunks req))

  empty-HoldsOnly :
      (n i : ℕ) (q : Packet)
      → get_elem? (replicate n none) i ≡ some (some q)
      → (k : ℕ) × (i ≡ suc k) × (get_elem? (incoming from to req) k ≡ some q)
  empty-HoldsOnly n i q slot = cc (get_elem?-replicate n i none (some q) slot)

  pub fresh-IsReceiving :
      (e : Endpoint) → length req ≤ 1022 * max_payload → IsReceiving from to req (fresh e)
  unfolding make_window request_chunks
  fresh-IsReceiving e h = record {
    only = empty-HoldsOnly 1024;
    room = omega (arith, length-chunks (length req) req);
    found = tt;
    told = λ same. cc;
  }

  slot_kept :
      (w : Window Packet) (k : ℕ) (q : Packet)
      → HoldsOnly (incoming from to req) w
      → get_elem? (incoming from to req) k ≡ some q
      → suc k < length w
      → get_elem? (kept w (suc k) q) (suc k) ≡ some (some q)
  slot_kept w k q only at lt = go (get_elem?_in_range w (suc k) lt)
    where
      go :
          (slot : Option Packet) × (get_elem? w (suc k) ≡ some slot)
          → get_elem? (kept w (suc k) q) (suc k) ≡ some (some q)
      go (none, e) = kept_empty w (suc k) q e
      go (some x, e) =
          let (m, same, mine) = only (suc k) x e in
          let is_q : x ≡ q = some-injective x q (
            sym mine ∙ ap (get_elem? (incoming from to req)) (suc_injective m k (sym same)) ∙ at) in
          kept_filled w (suc k) (suc k) q q (e ∙ ap (λ y. some (some y)) is_q)

  -- A packet that arrives stands in its slot.
  pub arrives_fills :
      (r r' : Receiver) (k : ℕ) (q : Packet)
      → IsReceiving from to req r
      → get_elem? (incoming from to req) k ≡ some q
      → step r (arrives q) ≡ ok r'
      → get_elem? (window r') (suc k) ≡ some (some q)
  unfolding step window_of
  arrives_fills r r' k q v at done =
      let p = part from to req k q at in
      let fits : q.seq_num < length r.endpoint.receiver_window =
        omega (arith, p.number, p.place, v.room) in
      let result = receive_content_ok r.endpoint q from p.content p.sender fits in
      let stored : window r' ≡ kept (window r) (suc k) q =
        ap window_of (sym done) ∙ rw (result, p.number, one-add) in
      rw stored (slot_kept (window r) k q v.only at (omega (arith, p.number, p.place, v.room)))

  -- After events in which the `k`th packet occurs its slot holds it.
  run_fills :
      (vs : List Event) (r : Receiver) (k : ℕ) (q : Packet)
      → (v : IsReceiving from to req r) → (h : All (IsOneOf (incoming from to req)) vs)
      → get_elem? (incoming from to req) k ≡ some q
      → Occurs q vs
      → (r' : Receiver) × (run r vs ≡ ok r') × (get_elem? (window r') (suc k) ≡ some (some q))
  unfolding run
  run_fills [] r k q v h at o = absurd o
  run_fills (checks ∷ vs) r k q v h at o =
      let first = step-Goes from to req r checks v h.0 in
      let (r', done, slot) = run_fills vs first.after k q first.receiving h.1 at o in
      (r', rw first.returns done, slot)
  run_fills (arrives p ∷ vs) r k q v h at (inl same) =
      let first = step-Goes from to req r (arrives p) v h.0 in
      let rest = run-Goes from to req vs first.after first.receiving h.1 in
      (
        rest.after,
        rw first.returns rest.returns,
        rest.filled (suc k) q (
            arrives_fills r first.after k q v at
              (ap (λ x. step r (arrives x)) (sym same) ∙ first.returns)),
      )
  run_fills (arrives p ∷ vs) r k q v h at (inr o) =
      let first = step-Goes from to req r (arrives p) v h.0 in
      let (r', done, slot) = run_fills vs first.after k q first.receiving h.1 at o in
      (r', rw first.returns done, slot)

  all_filled :
      (w : Window Packet)
      → HoldsAll (incoming from to req) w
      → is_filled w (suc (length (request_chunks req))) ≡ ok true
  all_filled w all = is_filled-true w (suc (length (request_chunks req))) λ k lt.
      let (q, at) = get_elem?_in_range (incoming from to req) k (omega (arith, length-incoming)) in
      (q, all k q at)

  deliver_there : (w : Window Packet) → HoldsAll (incoming from to req) w → find_deliver w 0 ≢ none
  deliver_there w all missing =
      let n = length (request_chunks req) in
      let (q, at) = get_elem?_in_range (incoming from to req) n (omega (arith, length-incoming)) in
      find_deliver-none w 0 (suc n) q missing (all n q at)
        (ground (arith, (part from to req n q at).place))

  -- With every packet in its slot, the check ends when it looks for the second time at the latest.
  pub two_checks :
      (e : Endpoint) (c : Checker)
      → IsReceiving from to req (record { endpoint = e; checker = c })
      → HoldsAll (incoming from to req) e.receiver_window
      → run (record { endpoint = e; checker = c }) (checks ∷ checks ∷ [])
        ≡ ok (record { endpoint = record e { delivery_message = true }; checker = ended })
  unfolding run step poll check_for_deliver
  two_checks e ended v all =
      ap (λ b. ok (record { endpoint = record e { delivery_message = b }; checker = ended }))
        (v.told refl)
  two_checks e (looking (some d)) v all = rw (v.found, all_filled e.receiver_window all)
  two_checks e (looking none) v all = elim (Option-cases (find_deliver e.receiver_window 0)) [
    | inl missing ↦ absurd (deliver_there e.receiver_window all missing)
    | inr (d, at) ↦
        let last = find_deliver-last from to req e.receiver_window d v.only at in
        rw (at, last, all_filled e.receiver_window all)
  ]

  -- Take a receiver with an empty window, a request of at most 1022 times 1013 bytes, and any
  -- sequence of rounds of the check and of arrivals of the request's packets: some may be missing,
  -- some may come often, in any order. Nothing panics; and if the check has ended, then its message
  -- is sent and `getPackets` returns exactly the request.
  pub delivers_request :
      (e : Endpoint) (vs : List Event)
      → length req ≤ 1022 * max_payload
      → All (IsOneOf (incoming from to req)) vs
      → (r : Receiver) × (run (fresh e) vs ≡ ok r)
        × (r.checker ≡ ended
            → (r.endpoint.delivery_message ≡ true) × (get_packets (window r) ≡ ok req))
  delivers_request e vs fits legit =
      let end = run-Goes from to req vs (fresh e) (fresh-IsReceiving e fits) legit in
      (
        end.after,
        end.returns,
        λ done. (
          end.receiving.told done,
          get_packets_request from to 1 req (window end.after)
              (subst (IsFound from to req (window end.after)) done end.receiving.found),
        ),
      )

  -- If moreover every packet of the request is among the arrivals, then after two more rounds of
  -- the check, at the latest, the message is sent and `getPackets` returns the request.
  pub delivers_complete :
      (e : Endpoint) (vs : List Event)
      → length req ≤ 1022 * max_payload
      → All (IsOneOf (incoming from to req)) vs
      → ((k : ℕ) (q : Packet) → get_elem? (incoming from to req) k ≡ some q → Occurs q vs)
      → (r r' : Receiver) × (run (fresh e) vs ≡ ok r)
        × (run r (checks ∷ checks ∷ []) ≡ ok r')
        × (r'.endpoint.delivery_message ≡ true)
        × (get_packets (window r') ≡ ok req)
  unfolding window_of
  delivers_complete e vs fits legit every =
      let start = fresh-IsReceiving e fits in
      let end = run-Goes from to req vs (fresh e) start legit in
      let all : HoldsAll (incoming from to req) (window end.after) = λ k q at.
        let (r, done, slot) = run_fills vs (fresh e) k q start legit at (every k q at) in
        ap (λ w. get_elem? w (suc k)) (ap window_of (sym end.returns ∙ done)) ∙ slot in
      (
        end.after,
        record {
          endpoint = record (end.after.endpoint) { delivery_message = true };
          checker = ended;
        },
        end.returns,
        two_checks end.after.endpoint end.after.checker end.receiving all,
        refl,
        get_packets_request from to 1 req (window end.after) all,
      )
