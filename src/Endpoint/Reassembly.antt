-- ===== src/Endpoint/Reassembly.antt =====
-- `checkForDeliver` and `getPackets` on a receiver window that holds packets of one request.
use comp6461_computer_networ.Base.{ℕ, zero, suc, ◌+◌, ◌≤◌, ◌<◌, ◌≡◌, refl, ap, ◌∙◌, arith}
use comp6461_computer_networ.Base.{
  Bool, true, not, ◌&&◌, Option, none, some, List, [], ◌∷◌, ◌++◌, map,
}
use comp6461_computer_networ.Base.{
  length, get_elem?, concat, Go, ok, panic, stuck, index_out_of_range, ◌>>=◌, is_nil, inl, inr,
}
use comp6461_computer_networ.Base.{◌==◌, Bool-cases}
use comp6461_computer_networ.Base.{get_elem?_in_range, ℕ_discrete}
use comp6461_computer_networ.Packet.{UdpAddr, Packet}
use comp6461_computer_networ.Packet.PacketType
use comp6461_computer_networ.Packet.RoundTrip.{arrived}
use comp6461_computer_networ.Window.{Window}
use comp6461_computer_networ.Endpoint.{
  control, find_deliver, is_filled, get_packets_loop, get_packets,
}
use comp6461_computer_networ.Endpoint.Segments.{data_packets, request_packets}
use comp6461_computer_networ.Endpoint.Segments.{request_chunks, concat-chunks}
use mathlib.Core.List.{append_assoc, append-nil}

-- The packets of a list as they arrive from `from`.
abbrev pub arrivals : UdpAddr → List Packet → List Packet
arrivals from ps = map (λ p. arrived p from) ps

-- Slot k + 1 of the window is filled only by the `k`th packet of the list; slot 0 is empty.
abbrev pub HoldsOnly : List Packet → Window Packet → Type 0
HoldsOnly qs w =
    (i : ℕ) (q : Packet)
    → get_elem? w i ≡ some (some q)
    → (k : ℕ) × (i ≡ suc k) × (get_elem? qs k ≡ some q)

-- Every packet of the list stands in its slot.
abbrev pub HoldsAll : List Packet → Window Packet → Type 0
HoldsAll qs w = (k : ℕ) (q : Packet) → get_elem? qs k ≡ some q → get_elem? w (suc k) ≡ some (some q)

pub find_deliver_found :
    (w : Window Packet) (i d : ℕ)
    → find_deliver w i ≡ some d
    → (k : ℕ) × (p : Packet) × (d ≡ i + k)
      × (get_elem? w k ≡ some (some p))
      × (p.type ≡ PacketType.deliver)
unfolding find_deliver
find_deliver_found [] i d e = cc
find_deliver_found (none ∷ w) i d e =
    let (k, p, at, slot, type) = find_deliver_found w (i + 1) d e in
    (suc k, p, omega arith, slot, type)
find_deliver_found (some p ∷ w) i d e = elim (Bool-cases (p.type == PacketType.deliver)) [
  | inl is ↦ (zero, p, ground arith, refl, ground arith)
  | inr other ↦
      let (k, q, at, slot, type) = find_deliver_found w (i + 1) d (ground arith) in
      (suc k, q, omega arith, slot, type)
]

pub find_deliver-none :
    (w : Window Packet) (i k : ℕ) (p : Packet)
    → find_deliver w i ≡ none
    → get_elem? w k ≡ some (some p)
    → p.type ≡ PacketType.deliver
    → ⊥
unfolding find_deliver
find_deliver-none [] i k p e slot type = cc
find_deliver-none (none ∷ w) i zero p e slot type = cc
find_deliver-none (none ∷ w) i (suc k) p e slot type = find_deliver-none w (i + 1) k p e slot type
find_deliver-none (some q ∷ w) i zero p e slot type = ground arith
find_deliver-none (some q ∷ w) i (suc k) p e slot type =
    find_deliver-none w (i + 1) k p (ground arith) slot type

is_filled_inv :
    (slot : Option (Option Packet)) (rest : Go Bool)
    → (elim slot [ none ↦ panic index_out_of_range | some s ↦ ok s ] >>= λ (s : Option Packet).
        rest >>= λ r. ok (not (is_nil s) && r))
      ≡ ok true
    → ((q : Packet) × (slot ≡ some (some q))) × (rest ≡ ok true)
is_filled_inv none rest e = cc
is_filled_inv (some none) (ok r) e = cc
is_filled_inv (some none) (panic x) e = cc
is_filled_inv (some none) stuck e = cc
is_filled_inv (some (some q)) rest e = ((q, refl), ground arith)

pub is_filled_slots :
    (w : Window Packet) (d k : ℕ)
    → is_filled w d ≡ ok true
    → 0 < k
    → k ≤ d
    → (q : Packet) × (get_elem? w k ≡ some (some q))
unfolding is_filled
is_filled_slots w zero k e lo hi = absurd (omega arith)
is_filled_slots w (suc d) k e lo hi =
    let (here, below) = is_filled_inv (get_elem? w (suc d)) (is_filled w d) e in
    elim (ℕ_discrete k (suc d)) [
      | yes last ↦ rw last here
      | no other ↦ is_filled_slots w d k below lo (omega arith)
    ]

pub is_filled-true :
    (w : Window Packet) (d : ℕ)
    → ((k : ℕ) → k < d → (q : Packet) × (get_elem? w (suc k) ≡ some (some q)))
    → is_filled w d ≡ ok true
unfolding is_filled
is_filled-true w zero h = refl
is_filled-true w (suc d) h =
    let (q, here) = h d (omega arith) in
    ground (arith, is_filled-true w d (λ k lt. h k (omega arith)))

-- A window that reaches as far as `d` makes the check return.
pub is_filled_returns :
    (w : Window Packet) (d : ℕ) → d < length w → (b : Bool) × (is_filled w d ≡ ok b)
unfolding is_filled
is_filled_returns w zero h = (true, refl)
is_filled_returns w (suc d) h =
    let (slot, here) = get_elem?_in_range w (suc d) h in
    let (b, below) = is_filled_returns w d (omega arith) in (not (is_nil slot) && b, ground arith)

-- The loop of `getPackets` joins the payloads up to the DELIVER packet.
get_packets_loop_joins :
    (from : UdpAddr) (to : Option UdpAddr) (seq last : ℕ) (cs : List (List ℕ)) (w : Window Packet)
    (acc : List ℕ)
    → ((k : ℕ) (q : Packet)
        → get_elem?
            (arrivals from (data_packets to seq cs ++ (control PacketType.deliver last to ∷ [])))
            k
          ≡ some q
        → get_elem? w k ≡ some (some q))
    → get_packets_loop w acc ≡ ok (acc ++ concat cs)
unfolding get_packets_loop data_packets
get_packets_loop_joins from to seq last [] [] acc h = cc (h 0 _ refl)
get_packets_loop_joins from to seq last [] (x ∷ w) acc h =
    ground (arith, h 0 _ refl, append-nil acc)
get_packets_loop_joins from to seq last (c ∷ cs) [] acc h = cc (h 0 _ refl)
get_packets_loop_joins from to seq last (c ∷ cs) (x ∷ w) acc h = ground (
  arith,
  h 0 _ refl,
  append_assoc acc c (concat cs),
  get_packets_loop_joins from to (seq + 1) last cs w (acc ++ c) (λ k q e. h (suc k) q e),
)

-- A window that holds all packets of a request gives the request back.
pub get_packets_request :
    (from : UdpAddr) (to : Option UdpAddr) (seq : ℕ) (req : List ℕ) (w : Window Packet)
    → HoldsAll (arrivals from (request_packets to seq req)) w
    → get_packets w ≡ ok req
unfolding get_packets request_packets request_chunks
get_packets_request from to seq req [] h =
    get_packets_loop_joins from to seq _ (request_chunks req) [] [] h
    ∙ ap ok (concat-chunks (length req) req (omega arith))
get_packets_request from to seq req (x ∷ w) h =
    get_packets_loop_joins from to seq _ (request_chunks req) w [] h
    ∙ ap ok (concat-chunks (length req) req (omega arith))
