-- ===== src/Client/Methods.antt =====
-- The text of checkForDeliver, getPackets and sendPacket as the client (lab3/httpc/httpc.go) has it,
-- with its loops over indices, against the functions of Endpoint that both programs share.
use mathlib.Core.List.{append_assoc}
use comp6461_computer_networ.Base.{ℕ, zero, suc, ◌+◌, ◌-◌, ◌%◌, ◌^◌, ◌≡◌, refl, sym, ap, ◌∙◌, arith}
use comp6461_computer_networ.Base.{
  Bool, false, Option, none, some, List, [], ◌∷◌, ◌++◌, length, get_elem?, Go, ok, panic, deref,
  ◌>>=◌, ◌==◌, if◌then◌else◌, get_elem?-append, length-append, >>=-of_ok, index_out_of_range,
}
use comp6461_computer_networ.Packet.{Packet, raw}
use comp6461_computer_networ.Packet.PacketType
use comp6461_computer_networ.Window.{Window, index, store, new_window_element}
use comp6461_computer_networ.Endpoint
use comp6461_computer_networ.Endpoint.{find_deliver, is_filled, get_packets_loop, write}
use comp6461_computer_networ.Client.{HttpClient}

abbrev is_deliver : Option Packet → Bool
is_deliver none = false
is_deliver (some p) = p.type == PacketType.deliver

-- `for i := 0; i < len(c.receiverWindow); i++`, from `i` on, with `n` slots left.
unfoldable find_from : Window Packet → ℕ → ℕ → Go (Option ℕ)
find_from w i zero = ok none
find_from w i (suc n) = do
  slot ← index w i
  rest ← find_from w (i + 1) n
  ok (if is_deliver slot then some i else rest)

-- One round of `checkForDeliver`.
unfoldable check_for_deliver : Window Packet → Option ℕ → Go (Option ℕ × Bool)
check_for_deliver w none = do found ← find_from w 0 (length w); ok (found, false)
check_for_deliver w (some d) = do ready ← is_filled w d; ok (some d, ready)

-- `for i := 1; i < len(c.receiverWindow); i++`, from `i` on, with `n` slots left.
unfoldable collect_from : Window Packet → ℕ → ℕ → List ℕ → Go (List ℕ)
collect_from w i zero payload = ok payload
collect_from w i (suc n) payload = do
  slot ← index w i
  p ← deref slot
  let payload' = if p.type == PacketType.data_type then payload ++ p.payload else payload
  let rest = collect_from w (i + 1) n payload'
  if p.type == PacketType.deliver then ok payload' else rest

unfoldable get_packets : Window Packet → Go (List ℕ)
get_packets w = collect_from w 1 (length w - 1) []

unfoldable send_packet : HttpClient → Packet → Go HttpClient
send_packet c p = do
  bytes ← raw p
  w ← store c.endpoint.sender_window c.endpoint.seq_num (some (new_window_element p))
  ok (record c {
    endpoint = record (c.endpoint) {
      written = c.endpoint.written ++ (bytes ∷ []);
      sender_window = w;
      seq_num = (c.endpoint.seq_num + 1) % 2 ^ 32;
    };
  })

next_slot :
    (seen w : Window Packet) (slot : Option Packet)
    → get_elem? (seen ++ (slot ∷ w)) (length seen) ≡ some slot
next_slot seen w slot =
    let here : length seen ≡ length seen + 0 = omega arith in
    ap (get_elem? (seen ++ (slot ∷ w))) here ∙ get_elem?-append seen (slot ∷ w) 0

index_next :
    (seen w : Window Packet) (slot : Option Packet)
    → index (seen ++ (slot ∷ w)) (length seen) ≡ ok slot
index_next seen w slot =
    ap (λ (o : Option (Option Packet)). elim o [ none ↦ panic index_out_of_range | some a ↦ ok a ])
      (next_slot seen w slot)

-- The same loop, one slot further on.
module _ (seen w : Window Packet) (slot : Option Packet) where
  one_seen : (seen ++ (slot ∷ [])) ++ w ≡ seen ++ (slot ∷ w)
  one_seen = append_assoc seen (slot ∷ []) w

  one_more : length (seen ++ (slot ∷ [])) ≡ length seen + 1
  one_more = length-append seen (slot ∷ [])

find_from_lem :
    (seen w : Window Packet)
    → find_from (seen ++ w) (length seen) (length w) ≡ ok (find_deliver w (length seen))
unfolding find_from find_deliver
find_from_lem seen [] = refl
find_from_lem seen (slot ∷ w) = go slot (
    ap (λ x. find_from x (length seen + 1) (length w)) (sym (one_seen seen w slot))
    ∙ ap (λ n. find_from ((seen ++ (slot ∷ [])) ++ w) n (length w)) (sym (one_more seen w slot))
    ∙ find_from_lem (seen ++ (slot ∷ [])) w
    ∙ ap (λ n. ok (find_deliver w n)) (one_more seen w slot))
  where
    go :
        (slot : Option Packet)
        → find_from (seen ++ (slot ∷ w)) (length seen + 1) (length w)
          ≡ ok (find_deliver w (length seen + 1))
        → find_from (seen ++ (slot ∷ w)) (length seen) (suc (length w))
          ≡ ok (find_deliver (slot ∷ w) (length seen))
    go none rest =
        >>=-of_ok (index (seen ++ (none ∷ w)) (length seen)) _ (index_next seen w none)
        ∙ >>=-of_ok (find_from (seen ++ (none ∷ w)) (length seen + 1) (length w)) _ rest
    go (some p) rest =
        >>=-of_ok (index (seen ++ (some p ∷ w)) (length seen)) _ (index_next seen w (some p))
        ∙ >>=-of_ok (find_from (seen ++ (some p ∷ w)) (length seen + 1) (length w)) _ rest

collect_from_lem :
    (seen w : Window Packet) (payload : List ℕ)
    → collect_from (seen ++ w) (length seen) (length w) payload ≡ get_packets_loop w payload
unfolding collect_from get_packets_loop
collect_from_lem seen [] payload = refl
collect_from_lem seen (none ∷ w) payload =
    >>=-of_ok (index (seen ++ (none ∷ w)) (length seen)) _ (index_next seen w none)
collect_from_lem seen (some p ∷ w) payload =
    let payload' = if p.type == PacketType.data_type then payload ++ p.payload else payload in
    let rest : collect_from (seen ++ (some p ∷ w)) (length seen + 1) (length w) payload'
        ≡ get_packets_loop w payload' =
      ap (λ x. collect_from x (length seen + 1) (length w) payload')
        (sym (one_seen seen w (some p)))
      ∙ ap (λ n. collect_from ((seen ++ (some p ∷ [])) ++ w) n (length w) payload')
          (sym (one_more seen w (some p)))
      ∙ collect_from_lem (seen ++ (some p ∷ [])) w payload' in
    >>=-of_ok (index (seen ++ (some p ∷ w)) (length seen)) _ (index_next seen w (some p))
    ∙ (ap (λ g. if p.type == PacketType.deliver then ok payload' else g) rest)

-- A round of `checkForDeliver` is that of Endpoint.
check_for_deliver_lem :
    (w : Window Packet) (d : Option ℕ) → check_for_deliver w d ≡ Endpoint.check_for_deliver w d
unfolding check_for_deliver Endpoint.check_for_deliver
check_for_deliver_lem w none = rw (find_from_lem [] w) refl
check_for_deliver_lem w (some d) = refl

-- On a window that is not empty `getPackets` is that of Endpoint.
get_packets_lem :
    (slot : Option Packet) (w : Window Packet)
    → get_packets (slot ∷ w) ≡ Endpoint.get_packets (slot ∷ w)
unfolding get_packets Endpoint.get_packets
get_packets_lem slot w =
    let left : suc (length w) - 1 ≡ length w = omega arith in
    ap (λ n. collect_from (slot ∷ w) 1 n []) left ∙ collect_from_lem (slot ∷ []) w []

-- `sendPacket` is that of Endpoint, on the client's endpoint.
send_packet_lem :
    (c : HttpClient) (p : Packet)
    → send_packet c p ≡ (Endpoint.send_packet c.endpoint p >>= λ e. ok (record c { endpoint = e }))
unfolding send_packet Endpoint.send_packet write
send_packet_lem c p = ground arith
