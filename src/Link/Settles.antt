-- ===== src/Link/Settles.antt =====
-- Moves that need no datagram from before a given state.
use comp6461_computer_networ.Base.{ℕ, zero, suc, ◌+◌, ◌≤◌, ◌<◌, ◌≡◌, ◌⊎◌, refl, ap, ◌∙◌, arith}
use comp6461_computer_networ.Base.{true, none, some, List, [], ◌∷◌, ◌++◌, length, get_elem?, ok}
use comp6461_computer_networ.Base.{>>=-eq-ok, ok_injective}
use comp6461_computer_networ.Base.{
  All, All-append, All-map, ℕ_discrete, get_elem?-append, get_elem?-set_self, get_elem?-some_lt,
}
use comp6461_computer_networ.Packet.{UdpAddr}
use comp6461_computer_networ.Window.{Window, WindowElement, Timer, make_window}
use comp6461_computer_networ.Window
use comp6461_computer_networ.Endpoint.{Endpoint}
use comp6461_computer_networ.Endpoint.Due.{is_due, element_bytes, slot_bytes, due_bytes}
use comp6461_computer_networ.Server.{expire_slot}
use comp6461_computer_networ.Link.{Link, Move, deliver, acknowledge, expire, scan, check, step, run}
use comp6461_computer_networ.Link.Invariant.{IsLink}
use comp6461_computer_networ.Link.Moves.{Goes}
use comp6461_computer_networ.Link.Safety.{}

-- The move needs no datagram that was written before `l`.
abbrev pub IsLater : Link → Move → Type 0
IsLater l (deliver i) = length l.sender.written ≤ i
IsLater l (acknowledge i) = length l.receiver.endpoint.written ≤ i
IsLater l _ = Unit

pub IsLater-mono :
    (l l' : Link) (m : Move)
    → length l.sender.written ≤ length l'.sender.written
    → length l.receiver.endpoint.written ≤ length l'.receiver.endpoint.written
    → IsLater l' m
    → IsLater l m
IsLater-mono l l' (deliver i) s r h = omega arith
IsLater-mono l l' (acknowledge i) s r h = omega arith
IsLater-mono l l' (expire i) s r h = tt
IsLater-mono l l' scan s r h = tt
IsLater-mono l l' check s r h = tt

pub run-append :
    (a c : UdpAddr) (ms ns : List Move) (l m : Link)
    → run a c l ms ≡ ok m
    → run a c l (ms ++ ns) ≡ run a c m ns
unfolding run
run-append a c [] ns l m done = ap (λ x. run a c x ns) (ok_injective l m done)
run-append a c (x ∷ ms) ns l m done =
    let (y, first, rest) = >>=-eq-ok (step a c l x) _ done in
    rw first (run-append a c ms ns y m rest)

-- A packet that is due is among those that the scan writes.
pub due_bytes_has :
    (sw : Window WindowElement) (i n j : ℕ) (x : WindowElement)
    → i ≤ j
    → j < i + n
    → get_elem? sw j ≡ some (some x)
    → is_due x ≡ true
    → (m : ℕ) × (get_elem? (due_bytes sw i n) m ≡ some (element_bytes x))
unfolding due_bytes
due_bytes_has sw i zero j x lo hi at due = absurd (omega arith)
due_bytes_has sw i (suc n) j x lo hi at due = elim (ℕ_discrete i j) [
  | yes same ↦ (0, rw (same, at, due) refl)
  | no other ↦
      let (m, there) = due_bytes_has sw (i + 1) n j x (omega arith) (omega arith) at due in
      let rest = due_bytes sw (i + 1) n in
      let here = slot_bytes (get_elem? sw i) in
      (length here + m, get_elem?-append here rest m ∙ there)
]

-- Where the timer of an unacknowledged packet runs or has fired, its firing makes the packet due.
pub expire_slot-due :
    (e : Endpoint) (i : ℕ) (x : WindowElement) (t : Timer)
    → get_elem? e.sender_window i ≡ some (some x)
    → x.timer ≡ some t
    → x.ack ≡ none
    → (t.running ≡ true) ⊎ (t.fired ≡ true)
    → (x' : WindowElement) × (get_elem? (expire_slot e i).sender_window i ≡ some (some x'))
      × (is_due x' ≡ true)
unfolding expire_slot
expire_slot-due e i x t at timer free live =
    let x' : WindowElement = record x { timer = some (Window.expire t) } in
    let lt = get_elem?-some_lt e.sender_window i (some x) at in
    (
      x',
      rw (expire_slot, at, timer) (get_elem?-set_self e.sender_window i (some x') lt),
      ground arith,
    )

module _ (a c : UdpAddr) (resp : List ℕ) where
  -- Moves from `l` on of which none needs a datagram from before `o`.
  pub record Settles (o l : Link) (P : Link → Type 0) : Type 0 where
    pub moves : List Move
    pub later : All (IsLater o) moves
    pub goes : Goes a c resp l (run a c l moves)
    pub reached : P goes.after

  -- First some moves, and then more.
  pub Settles-append :
      (o l : Link) (P Q : Link → Type 0) (x : Settles o l P)
      → Settles o x.goes.after Q
      → Settles o l Q
  Settles-append o l P Q x y = record {
    moves = x.moves ++ y.moves;
    later = All-append (IsLater o) x.moves y.moves x.later y.later;
    goes = record {
      after = y.goes.after;
      returns = run-append a c x.moves y.moves l x.goes.after x.goes.returns ∙ y.goes.returns;
      is_link = y.goes.is_link;
      acked = λ j h. y.goes.acked j (x.goes.acked j h);
      sent_more = omega (arith, x.goes.sent_more, y.goes.sent_more);
      answered_more = omega (arith, x.goes.answered_more, y.goes.answered_more);
    };
    reached = y.reached;
  }

  -- What needs nothing from before a later state needs nothing from before an earlier one.
  pub Settles-earlier :
      (o o' l : Link) (P : Link → Type 0)
      → length o.sender.written ≤ length o'.sender.written
      → length o.receiver.endpoint.written ≤ length o'.receiver.endpoint.written
      → Settles o' l P
      → Settles o l P
  Settles-earlier o o' l P s r x = record {
    moves = x.moves;
    later = All-map (λ m. IsLater-mono o o' m s r) x.moves x.later;
    goes = x.goes;
    reached = x.reached;
  }

  pub no_move : (o l : Link) (P : Link → Type 0) → IsLink a c resp l → P l → Settles o l P
  unfolding run
  no_move o l P v reached = record {
    moves = [];
    later = tt;
    goes = record {
      after = l;
      returns = refl;
      is_link = v;
      acked = λ j h. h;
      sent_more = omega arith;
      answered_more = omega arith;
    };
    reached = reached;
  }

  -- One move, and then more.
  pub then_move :
      (o l : Link) (m : Move) (P : Link → Type 0) (g : Goes a c resp l (step a c l m))
      → IsLater o m
      → Settles o g.after P
      → Settles o l P
  unfolding run
  then_move o l m P g later x = record {
    moves = m ∷ x.moves;
    later = (later, x.later);
    goes = record {
      after = x.goes.after;
      returns = rw g.returns x.goes.returns;
      is_link = x.goes.is_link;
      acked = λ j h. x.goes.acked j (g.acked j h);
      sent_more = omega (arith, g.sent_more, x.goes.sent_more);
      answered_more = omega (arith, g.answered_more, x.goes.answered_more);
    };
    reached = x.reached;
  }
