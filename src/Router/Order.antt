-- ===== src/Router/Order.antt =====
-- The router with no delay keeps the order of the packets.
use comp6461_computer_networ.Base.{ℕ, ◌+◌, ◌-◌, ◌%◌, ◌^◌, ◌≡◌, refl, ◌∙◌}
use comp6461_computer_networ.Base.{Bool, true, false, List, [], ◌∷◌, ◌++◌}
use comp6461_computer_networ.Base.{Go, ok, arith}
use comp6461_computer_networ.Base.{if◌then◌else◌}
use comp6461_computer_networ.Packet.{Packet}
use comp6461_computer_networ.Router.{Router, Datagram, Event, arrival, timer}
use comp6461_computer_networ.Router.{process, receive, fire, step, run, start}
use comp6461_computer_networ.Router.{incr_queue}
use mathlib.Core.List.{append-nil, append_assoc}
use comp6461_computer_networ.Router.Accepted.{
  datagram, accepted, all_accepted, HasSender, send_lem, packet, error, parse_packet-Parsed,
}

-- A step that leaves nothing waiting and writes `ds` at the end.
record StepsAtOnce (r : Router) (ds : List Datagram) (g : Go Router) : Type 0 where
  after : Router
  returns : g ≡ ok after
  wrote : after.written ≡ r.written ++ ds
  idle : after.pending ≡ []

process-StepsAtOnce :
    (drop : Bool) (r : Router) (p : Packet)
    → r.pending ≡ []
    → HasSender p
    → StepsAtOnce r (if drop then [] else datagram p ∷ []) (process 0 drop r p)
unfolding process
process-StepsAtOnce true r p w h = record {
  after = r;
  returns = refl;
  wrote = rw append-nil;
  idle = w;
}
process-StepsAtOnce false r p w h = record {
  after = record r {
    queue_size = ((r.queue_size + 1) % 2 ^ 32 + 2 ^ 32 - 1) % 2 ^ 32;
    written = r.written ++ (datagram p ∷ []);
  };
  returns = send_lem (incr_queue r) p h;
  wrote = refl;
  idle = w;
}

fire_idle : (r : Router) (i : ℕ) → r.pending ≡ [] → fire r i ≡ ok r
unfolding fire
fire_idle r i w = ground arith

step-StepsAtOnce :
    (r : Router) (e : Event) → r.pending ≡ [] → StepsAtOnce r (accepted e) (step 0 r e)
unfolding receive
step-StepsAtOnce r (arrival drop from bytes) w = elim (parse_packet-Parsed from bytes) [
  | packet p e h ↦ rw (e, accepted) (process-StepsAtOnce drop r p w h)
  | error x e ↦
      rw (e, accepted) (record { after = r; returns = refl; wrote = rw append-nil; idle = w })
]
step-StepsAtOnce r (timer i) w = record {
  after = r;
  returns = fire_idle r i w;
  wrote = rw append-nil;
  idle = w;
}

run-StepsAtOnce :
    (es : List Event) (r : Router) → r.pending ≡ [] → StepsAtOnce r (all_accepted es) (run 0 r es)
unfolding run
run-StepsAtOnce [] r w = record { after = r; returns = refl; wrote = rw append-nil; idle = w }
run-StepsAtOnce (e ∷ es) r w =
    let first = step-StepsAtOnce r e w in
    let rest = run-StepsAtOnce es first.after first.idle in
    record {
      after = rest.after;
      returns = rw first.returns rest.returns;
      wrote = rest.wrote ∙ rw (first.wrote, append_assoc);
      idle = rest.idle;
    }

-- With a maximal delay of 0 the router keeps the order: after any events it has written exactly
-- the datagrams of the packets that it parsed and did not drop, in the order of their arrival,
-- and none waits.
pub run-keeps_order :
    (es : List Event)
    → (r : Router) × (run 0 start es ≡ ok r) × (r.written ≡ all_accepted es) × (r.pending ≡ [])
run-keeps_order es =
    let done = run-StepsAtOnce es start refl in (done.after, done.returns, done.wrote, done.idle)
