-- ===== src/Endpoint/Delivery.antt =====
-- The goroutines `receive` and `checkForDeliver` side by side: any order of arrivals and rounds of
-- the check, while one request comes in whose packets the network loses, repeats and reorders.
use comp6461_computer_networ.Base.{ℕ, suc, ◌+◌, ◌<◌, ◌≡◌, refl, sym, ap, ◌∙◌, arith, inl, inr}
use comp6461_computer_networ.Base.{Bool, true, false, Option, none, some, List, [], ◌∷◌, ◌++◌}
use comp6461_computer_networ.Base.{length, get_elem?, Go, ok, All}
use mathlib.Core.Option.{some-injective}
use comp6461_computer_networ.Packet.{UdpAddr, Packet}
use comp6461_computer_networ.Window.{Window}
use comp6461_computer_networ.Endpoint.{Endpoint, Checker, looking, ended, poll}
use comp6461_computer_networ.Endpoint.{check_for_deliver, find_deliver, is_filled}
use comp6461_computer_networ.Endpoint.Segments.{request_packets, request_chunks}
use comp6461_computer_networ.Endpoint.Reassembly.{arrivals, HoldsOnly, HoldsAll, find_deliver_found}
use comp6461_computer_networ.Endpoint.Reassembly.{is_filled_slots}
use comp6461_computer_networ.Endpoint.Reassembly.{is_filled_returns}
use comp6461_computer_networ.Endpoint.Arrival.{kept, length-kept, kept_filled, kept_inv}
use comp6461_computer_networ.Endpoint.Arrival.{ack_bytes, receive_content_ok, IsPart}
use comp6461_computer_networ.Endpoint.Arrival.{request_packets-IsPart}
use comp6461_computer_networ.Endpoint.Receiver.{Receiver, Event, arrives, checks, step, run, window}

-- The `k`th packet of a list arrives.
abbrev pub IsOneOf : List Packet → Event → Type 0
IsOneOf qs (arrives q) = (k : ℕ) × (get_elem? qs k ≡ some q)
IsOneOf qs checks = Unit

pub one-add : (k : ℕ) → 1 + k ≡ suc k
one-add k = omega arith

pub suc_injective : (m n : ℕ) → suc m ≡ suc n → m ≡ n
suc_injective m n h = omega arith

module _ (from : UdpAddr) (to : Option UdpAddr) (req : List ℕ) where
  abbrev pub incoming : List Packet
  incoming = arrivals from (request_packets to 1 req)

  -- What the check has found is the slot of the DELIVER packet, which is the last one.
  abbrev pub IsFound : Window Packet → Checker → Type 0
  IsFound w (looking none) = Unit
  IsFound w (looking (some d)) = d ≡ suc (length (request_chunks req))
  IsFound w ended = HoldsAll incoming w

  pub record IsReceiving (r : Receiver) : Type 0 where
    pub only : HoldsOnly incoming (window r)
    pub room : suc (length (request_chunks req)) < length (window r)
    pub found : IsFound (window r) r.checker
    pub told : r.checker ≡ ended → r.endpoint.delivery_message ≡ true

  pub part :
      (k : ℕ) (q : Packet)
      → get_elem? incoming k ≡ some q
      → IsPart from 1 (length (request_chunks req)) k q
  part k q h = request_packets-IsPart from to 1 req k q h

  -- After a step: the receiver goes on, and filled slots are kept.
  pub record Goes (r : Receiver) (g : Go Receiver) : Type 0 where
    pub after : Receiver
    pub returns : g ≡ ok after
    pub receiving : IsReceiving after
    pub filled :
        (j : ℕ) (q : Packet)
        → get_elem? (window r) j ≡ some (some q)
        → get_elem? (window after) j ≡ some (some q)

  IsFound-kept :
      (w : Window Packet) (i : ℕ) (p : Packet) (c : Checker) → IsFound w c → IsFound (kept w i p) c
  IsFound-kept w i p (looking none) h = tt
  IsFound-kept w i p (looking (some d)) h = h
  IsFound-kept w i p ended h = λ k q at. kept_filled w i (suc k) p q (h k q at)

  only-kept :
      (w : Window Packet) (k : ℕ) (q : Packet)
      → HoldsOnly incoming w
      → get_elem? incoming k ≡ some q
      → HoldsOnly incoming (kept w q.seq_num q)
  only-kept w k q h at i x slot = elim (kept_inv w q.seq_num i q x slot) [
    | inl old ↦ h i x old
    | inr (here, same) ↦ (k, here ∙ (part k q at).number ∙ one-add k, at ∙ ap some (sym same))
  ]

  pub arrives-Goes :
      (r : Receiver) (k : ℕ) (q : Packet)
      → IsReceiving r
      → get_elem? incoming k ≡ some q
      → Goes r (step r (arrives q))
  unfolding step
  arrives-Goes r k q v at =
      let p = part k q at in
      let fits : q.seq_num < length r.endpoint.receiver_window =
        omega (arith, p.number, p.place, v.room) in
      record {
        after = record r {
          endpoint = record (r.endpoint) {
            receiver_window = kept (window r) q.seq_num q;
            written = r.endpoint.written ++ (ack_bytes q.seq_num from ∷ []);
          };
        };
        returns = rw (receive_content_ok r.endpoint q from p.content p.sender fits);
        receiving = record {
          only = only-kept (window r) k q v.only at;
          room = rw length-kept v.room;
          found = IsFound-kept (window r) q.seq_num q r.checker v.found;
          told = v.told;
        };
        filled = λ j x h. kept_filled (window r) q.seq_num j q x h;
      }

  -- The DELIVER packet that the check finds is the request's last packet.
  pub find_deliver-last :
      (w : Window Packet) (d : ℕ)
      → HoldsOnly incoming w
      → find_deliver w 0 ≡ some d
      → d ≡ suc (length (request_chunks req))
  find_deliver-last w d only e =
      let (j, q, at, slot, type) = find_deliver_found w 0 d e in
      let (k, here, mine) = only j q slot in let p = part k q mine in ground (arith, p.place)

  -- All slots up to the DELIVER packet's are filled only if every packet has arrived.
  is_filled-HoldsAll :
      (w : Window Packet)
      → HoldsOnly incoming w
      → is_filled w (suc (length (request_chunks req))) ≡ ok true
      → HoldsAll incoming w
  is_filled-HoldsAll w only e k q at =
      let last = (part k q at).place in
      let (x, slot) =
        is_filled_slots w (suc (length (request_chunks req))) (suc k) e (omega arith)
          (omega (arith, last)) in
      let (m, same, mine) = only (suc k) x slot in
      slot
      ∙ ap (λ y. some (some y))
          (some-injective x q
            (sym mine ∙ ap (get_elem? incoming) (suc_injective m k (sym same)) ∙ at))

  IsFound-looking :
      (w : Window Packet) (o : Option ℕ)
      → ((d : ℕ) → o ≡ some d → d ≡ suc (length (request_chunks req)))
      → IsFound w (looking o)
  IsFound-looking w none h = tt
  IsFound-looking w (some d) h = h d refl

  -- The second phase of the check, by what it finds.
  filled-Goes :
      (e : Endpoint) (d : ℕ) (ready : Bool)
      → IsReceiving (record { endpoint = e; checker = looking (some d) })
      → is_filled e.receiver_window d ≡ ok ready
      → Goes
          (record { endpoint = e; checker = looking (some d) })
          (step (record { endpoint = e; checker = looking (some d) }) checks)
  unfolding step poll check_for_deliver
  filled-Goes e d true v h = record {
    after = record { endpoint = record e { delivery_message = true }; checker = ended };
    returns = rw h;
    receiving = record {
      only = v.only;
      room = v.room;
      told = λ _. refl;
      found =
          is_filled-HoldsAll e.receiver_window v.only
            (ap (is_filled e.receiver_window) (sym v.found) ∙ h);
    };
    filled = λ j q h. h;
  }
  filled-Goes e d false v h = record {
    after = record { endpoint = e; checker = looking (some d) };
    returns = rw h;
    receiving = v;
    filled = λ j q h. h;
  }

  checks-Goes :
      (e : Endpoint) (c : Checker)
      → IsReceiving (record { endpoint = e; checker = c })
      → Goes
          (record { endpoint = e; checker = c })
          (step (record { endpoint = e; checker = c }) checks)
  unfolding step poll check_for_deliver
  checks-Goes e ended v = record {
    after = record { endpoint = e; checker = ended };
    returns = refl;
    receiving = v;
    filled = λ j q h. h;
  }
  checks-Goes e (looking none) v = record {
    after = record { endpoint = e; checker = looking (find_deliver e.receiver_window 0) };
    returns = refl;
    receiving = record {
      only = v.only;
      room = v.room;
      told = λ same. cc;
      found =
          IsFound-looking e.receiver_window _ (λ d. find_deliver-last e.receiver_window d v.only);
    };
    filled = λ j q h. h;
  }
  checks-Goes e (looking (some d)) v =
      let (ready, h) = is_filled_returns e.receiver_window d (omega (arith, v.found, v.room)) in
      filled-Goes e d ready v h

  pub step-Goes :
      (r : Receiver) (v : Event) → IsReceiving r → IsOneOf incoming v → Goes r (step r v)
  step-Goes r (arrives q) v (k, at) = arrives-Goes r k q v at
  step-Goes r checks v _ = checks-Goes r.endpoint r.checker v

  pub run-Goes :
      (vs : List Event) (r : Receiver)
      → IsReceiving r
      → All (IsOneOf incoming) vs
      → Goes r (run r vs)
  unfolding run
  run-Goes [] r v h = record { after = r; returns = refl; receiving = v; filled = λ j q h. h }
  run-Goes (x ∷ vs) r v (hx, h) =
      let first = step-Goes r x v hx in
      let rest = run-Goes vs first.after first.receiving h in
      record {
        after = rest.after;
        returns = rw first.returns rest.returns;
        receiving = rest.receiving;
        filled = λ j q h. rest.filled j q (first.filled j q h);
      }
