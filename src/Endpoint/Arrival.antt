-- ===== src/Endpoint/Arrival.antt =====
-- One packet of a request arrives: the branch of `receive` on DATA and DELIVER.
use comp6461_computer_networ.Base.{
  ℕ, zero, suc, ◌+◌, ◌≤◌, ◌<◌, ◌≡◌, refl, sym, arith, ◌⊎◌, inl, inr,
}
use comp6461_computer_networ.Base.{true, Option, none, some, List, [], ◌∷◌, ◌++◌}
use comp6461_computer_networ.Base.{
  length, get_elem?, set, ok, panic, index_out_of_range, Option-cases, ℕ_discrete,
}
use comp6461_computer_networ.Base.{
  length-set, get_elem?-set_self, get_elem?-set_ne, get_elem?_in_range,
}
use comp6461_computer_networ.Base.{get_elem?-some_lt, get_elem?_out_of_range}
use comp6461_computer_networ.Packet.{UdpAddr, Packet, raw, raw_to}
use comp6461_computer_networ.Packet.PacketType
use comp6461_computer_networ.Window.{Window}
use comp6461_computer_networ.Endpoint.{Endpoint, control, is_content, receive_content}
use comp6461_computer_networ.Endpoint.Segments.{data_packets, request_packets, request_chunks}
use comp6461_computer_networ.Endpoint.Reassembly.{arrivals}

-- The window with `p` in slot `i`, unless the slot is taken.
abbrev pub kept : Window Packet → ℕ → Packet → Window Packet
kept w i p = elim (get_elem? w i) [ none ↦ w | some none ↦ set w i (some p) | some (some _) ↦ w ]

pub length-kept : (w : Window Packet) (i : ℕ) (p : Packet) → length (kept w i p) ≡ length w
length-kept w i p = ground (arith, length-set w i (some p))

-- A filled slot keeps its packet.
pub kept_filled :
    (w : Window Packet) (i j : ℕ) (p q : Packet)
    → get_elem? w j ≡ some (some q)
    → get_elem? (kept w i p) j ≡ some (some q)
kept_filled w i j p q h = elim (ℕ_discrete i j) [
  | yes same ↦ rw same (ground arith)
  | no other ↦ ground (arith, get_elem?-set_ne w i j (some p) other)
]

-- An empty slot takes the packet.
pub kept_empty :
    (w : Window Packet) (i : ℕ) (p : Packet)
    → get_elem? w i ≡ some none
    → get_elem? (kept w i p) i ≡ some (some p)
kept_empty w i p h = ground (arith, get_elem?-set_self w i (some p) (get_elem?-some_lt w i none h))

-- What stands in the window afterwards stood there before, or is the new packet in its slot.
pub kept_inv :
    (w : Window Packet) (i j : ℕ) (p q : Packet)
    → get_elem? (kept w i p) j ≡ some (some q)
    → (get_elem? w j ≡ some (some q)) ⊎ ((j ≡ i) × (q ≡ p))
kept_inv w i j p q h = elim (ℕ_discrete i j) [
  | yes same ↦ elim (Option-cases (get_elem? w i)) [
    | inl out ↦ inl (ground arith)
    | inr (none, e) ↦
        inr
          (sym same, ground (arith, get_elem?-set_self w i (some p) (get_elem?-some_lt w i none e)))
    | inr (some r, e) ↦ inl (ground arith)
  ]
  | no other ↦ inl (ground (arith, get_elem?-set_ne w i j (some p) other))
]

-- The acknowledgement of a packet of `from`.
abbrev pub ack_bytes : ℕ → UdpAddr → List ℕ
ack_bytes seq from = raw_to (control PacketType.ack seq (some from)) from

-- A DATA or DELIVER packet whose number lies in the window is acknowledged, also when it is a
-- duplicate, and is kept if it is the first of its number. Nothing else changes.
pub receive_content_ok :
    (e : Endpoint) (p : Packet) (from : UdpAddr)
    → is_content p ≡ true
    → p.from_addr ≡ some from
    → p.seq_num < length e.receiver_window
    → receive_content e p
      ≡ ok (record e {
        receiver_window = kept e.receiver_window p.seq_num p;
        written = e.written ++ (ack_bytes p.seq_num from ∷ []);
      })
unfolding receive_content raw
receive_content_ok e p from c f h =
    let (slot, found) = get_elem?_in_range e.receiver_window p.seq_num h in ground arith

-- A number past the window stops the program.
pub receive_content_panic :
    (e : Endpoint) (p : Packet) (from : UdpAddr)
    → is_content p ≡ true
    → p.from_addr ≡ some from
    → length e.receiver_window ≤ p.seq_num
    → receive_content e p ≡ panic index_out_of_range
unfolding receive_content raw
receive_content_panic e p from c f h =
    ground (arith, get_elem?_out_of_range e.receiver_window p.seq_num h)

-- The packet of a request at place `k`, as it arrives.
pub record IsPart (from : UdpAddr) (seq n k : ℕ) (q : Packet) : Type 0 where
  pub number : q.seq_num ≡ seq + k
  pub sender : q.from_addr ≡ some from
  pub content : is_content q ≡ true
  pub place :
      ((q.type ≡ PacketType.data_type) × (k < n)) ⊎ ((q.type ≡ PacketType.deliver) × (k ≡ n))

parts :
    (from : UdpAddr) (to : Option UdpAddr) (seq last : ℕ) (cs : List (List ℕ)) (k : ℕ) (q : Packet)
    → last ≡ seq + length cs
    → get_elem?
        (arrivals from (data_packets to seq cs ++ (control PacketType.deliver last to ∷ [])))
        k
      ≡ some q
    → IsPart from seq (length cs) k q
unfolding data_packets
parts from to seq last [] zero q l h = ground arith
parts from to seq last [] (suc k) q l h = cc
parts from to seq last (c ∷ cs) zero q l h = ground arith
parts from to seq last (c ∷ cs) (suc k) q l h =
    ground (arith, parts from to (seq + 1) last cs k q (omega arith) h)

pub request_packets-IsPart :
    (from : UdpAddr) (to : Option UdpAddr) (seq : ℕ) (req : List ℕ) (k : ℕ) (q : Packet)
    → get_elem? (arrivals from (request_packets to seq req)) k ≡ some q
    → IsPart from seq (length (request_chunks req)) k q
unfolding request_packets
request_packets-IsPart from to seq req k q h = parts from to seq _ (request_chunks req) k q refl h
