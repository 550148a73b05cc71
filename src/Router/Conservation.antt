-- ===== src/Router/Conservation.antt =====
-- The router over all sequences of datagrams and timers: no packet is lost or doubled but by a
-- drop, and the counter counts the waiting packets.
use comp6461_computer_networ.Base.{ℕ, zero, suc, ◌+◌, ◌-◌, ◌%◌, ◌^◌, ◌≡◌, refl, ap}
use mathlib.Core.Path.{subst}
use comp6461_computer_networ.Base.{Bool, true, false, some, List, [], ◌∷◌, ◌++◌, map}
use comp6461_computer_networ.Base.{Go, ok, arith, length, length-append, get_elem?}
use comp6461_computer_networ.Base.{All, All-append, Option-cases, if◌then◌else◌, inl, inr}
use comp6461_computer_networ.Packet.{UdpAddr, Packet}
use comp6461_computer_networ.Router.{Router, Datagram, Event, arrival, timer}
use comp6461_computer_networ.Router.{process, receive, remove, fire, step, run, start}
use comp6461_computer_networ.Router.{incr_queue}
use mathlib.Core.List.{Perm, perm_middle, perm_append_comm, append-nil, append_assoc, map-append}
use mathlib.Core.List.Perm
use comp6461_computer_networ.Router.Accepted.{
  datagram, accepted, all_accepted, HasSender, send_lem, packet, error, parse_packet-Parsed,
}

-- All waiting packets can be written, and the counter is their number as an int32.
pub record IsSound (r : Router) : Type 0 where
  pub senders : All HasSender r.pending
  pub counted : r.queue_size ≡ length r.pending % 2 ^ 32

-- What a router has written or will write.
abbrev held : Router → List Datagram
held r = r.written ++ map datagram r.pending

-- A successful step from `r` that adds the datagrams `ds`.
record Steps (r : Router) (ds : List Datagram) (g : Go Router) : Type 0 where
  after : Router
  returns : g ≡ ok after
  sound : IsSound after
  kept : Perm (held after) (held r ++ ds)

start-IsSound : IsSound start
start-IsSound = record { senders = tt; counted = refl }

move_front :
    {A : Type 0} (w m : List A) (d : A) → Perm ((w ++ (d ∷ [])) ++ m) ((w ++ m) ++ (d ∷ []))
move_front w m d =
    Perm.trans {l₂ = d ∷ (w ++ m)} (rw append_assoc (perm_middle w m))
      (Perm.symm (perm_append_comm (w ++ m) (d ∷ [])))

process-Steps :
    (max_delay : ℕ) (drop : Bool) (r : Router) (p : Packet)
    → IsSound r
    → HasSender p
    → Steps r (if drop then [] else datagram p ∷ []) (process max_delay drop r p)
unfolding process
process-Steps max_delay true r p s h = record {
  after = r;
  returns = refl;
  sound = s;
  kept = rw append-nil (Perm.refl (held r));
}
process-Steps zero false r p s h = record {
  after = record r {
    queue_size = ((r.queue_size + 1) % 2 ^ 32 + 2 ^ 32 - 1) % 2 ^ 32;
    written = r.written ++ (datagram p ∷ []);
  };
  returns = send_lem (incr_queue r) p h;
  sound = record { senders = s.senders; counted = omega (arith, s.counted) };
  kept = move_front r.written (map datagram r.pending) (datagram p);
}
process-Steps (suc n) false r p s h = record {
  after = record (incr_queue r) { pending = r.pending ++ (p ∷ []) };
  returns = ground arith;
  sound = record {
    senders = All-append HasSender r.pending (p ∷ []) s.senders (h, tt);
    counted = omega (arith, s.counted, length-append r.pending (p ∷ []));
  };
  kept = rw (map-append, append_assoc) (Perm.refl _);
}

receive-Steps :
    (max_delay : ℕ) (drop : Bool) (r : Router) (from : UdpAddr) (bytes : List ℕ)
    → IsSound r
    → Steps r (accepted (arrival drop from bytes)) (receive max_delay drop r from bytes)
unfolding receive
receive-Steps max_delay drop r from bytes s = elim (parse_packet-Parsed from bytes) [
  | packet p e h ↦ rw (e, accepted) (process-Steps max_delay drop r p s h)
  | error x e ↦
      rw (e, accepted)
        (record { after = r; returns = refl; sound = s; kept = rw append-nil (Perm.refl (held r)) })
]

remove-perm :
    (ps : List Packet) (i : ℕ) (p : Packet)
    → get_elem? ps i ≡ some p
    → All HasSender ps
    → HasSender p
      × All HasSender (remove ps i)
      × (length ps ≡ suc (length (remove ps i)))
      × Perm (map datagram ps) (datagram p ∷ map datagram (remove ps i))
remove-perm [] i p e h = cc
remove-perm (q ∷ ps) zero p e h =
    let same : q ≡ p = cc in
    (
      subst HasSender same h.0,
      h.1,
      refl,
      subst (λ d. Perm (map datagram (q ∷ ps)) (d ∷ map datagram ps)) (ap datagram same)
          (Perm.refl (map datagram (q ∷ ps))),
    )
remove-perm (q ∷ ps) (suc i) p e h =
    let (sends, all, len, perm) = remove-perm ps i p e h.1 in
    (sends, (h.0, all), ap suc len, Perm.trans (Perm.cons (datagram q) perm) (Perm.swap _ _ _))

fire-Steps : (r : Router) (i : ℕ) → IsSound r → Steps r [] (fire r i)
unfolding fire
fire-Steps r i s = elim (Option-cases (get_elem? r.pending i)) [
  | inl e ↦
      rw (e, fire)
        (record { after = r; returns = refl; sound = s; kept = rw append-nil (Perm.refl (held r)) })
  | inr (p, e) ↦
      let (sends, all, len, perm) = remove-perm r.pending i p e s.senders in
      let r' : Router = record r { pending = remove r.pending i } in
      rw (e, fire)
        (record {
          after = record r' {
            queue_size = (r.queue_size + 2 ^ 32 - 1) % 2 ^ 32;
            written = r.written ++ (datagram p ∷ []);
          };
          returns = send_lem r' p sends;
          sound = record { senders = all; counted = omega (arith, s.counted, len) };
          kept = rw (append-nil, append_assoc) (Perm.symm (Perm.append (Perm.refl r.written) perm));
        })
]

step-Steps :
    (max_delay : ℕ) (r : Router) (e : Event) → IsSound r → Steps r (accepted e) (step max_delay r e)
step-Steps max_delay r (arrival drop from bytes) s = receive-Steps max_delay drop r from bytes s
step-Steps max_delay r (timer i) s = fire-Steps r i s

run-Steps :
    (max_delay : ℕ) (es : List Event) (r : Router)
    → IsSound r
    → Steps r (all_accepted es) (run max_delay r es)
unfolding run
run-Steps max_delay [] r s = record {
  after = r;
  returns = refl;
  sound = s;
  kept = rw append-nil (Perm.refl (held r));
}
run-Steps max_delay (e ∷ es) r s =
    let first = step-Steps max_delay r e s in
    let rest = run-Steps max_delay es first.after first.sound in
    record {
      after = rest.after;
      returns = rw first.returns rest.returns;
      sound = rest.sound;
      kept =
          Perm.trans rest.kept
            (rw (← append_assoc) (Perm.append first.kept (Perm.refl (all_accepted es))));
    }

-- Whatever datagrams arrive and whatever timers fire, the router does not panic. What it has
-- written and what still waits are together, up to order, the datagrams of the packets that it
-- parsed and did not drop, each once; and its counter is the number of the waiting packets.
pub run-conserves :
    (max_delay : ℕ) (es : List Event)
    → (r : Router) × (run max_delay start es ≡ ok r)
      × Perm (r.written ++ map datagram r.pending) (all_accepted es)
      × (r.queue_size ≡ length r.pending % 2 ^ 32)
run-conserves max_delay es =
    let done = run-Steps max_delay es start start-IsSound in
    (done.after, done.returns, done.kept, done.sound.counted)
