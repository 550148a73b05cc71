-- ===== src/Link/Sender.antt =====
-- The moves of the sender: an acknowledgement comes in, a timer fires, packets are sent again.
use mathlib.Core.Path.{subst}
use comp6461_computer_networ.Base.{ℕ, suc, ◌≡◌, inl, inr, refl, sym, ap, ◌∙◌, arith}
use comp6461_computer_networ.Base.{none, some, List, [], ◌++◌, length}
use comp6461_computer_networ.Base.{get_elem?, set, All, ok, ℕ_discrete}
use comp6461_computer_networ.Base.{get_elem?-set_self, get_elem?-set_ne, get_elem?-some_lt}
use comp6461_computer_networ.Base.{length-set, Option-cases}
use mathlib.Core.Option.{some-injective}
use mathlib.Core.List.{append-nil}
use comp6461_computer_networ.Packet.{UdpAddr, Packet}
use comp6461_computer_networ.Window.{Window, WindowElement, Timer, expire, stop}
use comp6461_computer_networ.Endpoint.{Endpoint}
use comp6461_computer_networ.Endpoint.Due.{}
use comp6461_computer_networ.Server.{expire_slot, acknowledged, receive_ack}
use comp6461_computer_networ.Server.Receive.{acked_endpoint, receive_ack_ok}
use comp6461_computer_networ.Link.Wire.{answer}
use comp6461_computer_networ.Link.Invariant.{packets, HasArrived, IsSlot, IsDatum}

-- The packet in slot `j` has its acknowledgement.
abbrev pub IsAcked : Endpoint → ℕ → Type 0
IsAcked e j =
    (x : WindowElement) × (q : Packet) × (get_elem? e.sender_window j ≡ some (some x))
    × (x.ack ≡ some q)

module _ (a c : UdpAddr) (resp : List ℕ) (w : Window Packet) where
  -- Each element stands in its slot.
  abbrev pub AllSlots : Endpoint → Type 0
  AllSlots e =
      (j : ℕ) (x : WindowElement)
      → get_elem? e.sender_window j ≡ some (some x)
      → IsSlot a c resp w j x

  -- After a move of the sender, when the receiver's window is `w`.
  pub record Continues (e e' : Endpoint) : Type 0 where
    pub seq : e'.seq_num ≡ e.seq_num
    pub size : length e'.sender_window ≡ length e.sender_window
    pub only : AllSlots e'
    pub stays :
        (j : ℕ) (x : WindowElement)
        → get_elem? e.sender_window j ≡ some (some x)
        → (x' : WindowElement) × (get_elem? e'.sender_window j ≡ some (some x'))
          × ((q : Packet) → x.ack ≡ some q → x'.ack ≡ some q)
    pub back :
        (j : ℕ) (x' : WindowElement)
        → get_elem? e'.sender_window j ≡ some (some x')
        → (x : WindowElement) × (get_elem? e.sender_window j ≡ some (some x))
    pub rest : e' ≡ record e { sender_window = e'.sender_window; written = e'.written }
    pub more : List (List ℕ)
    pub wrote : e'.written ≡ e.written ++ more
    pub legit : All (IsDatum a c resp) more

  Continues-refl : (e : Endpoint) → AllSlots e → Continues e e
  Continues-refl e h = record {
    seq = refl;
    size = refl;
    only = h;
    stays = λ j x at. (x, at, λ q s. s);
    back = λ j x at. (x, at);
    rest = refl;
    more = [];
    wrote = sym (append-nil e.written);
    legit = tt;
  }

  -- One element is replaced.
  set-Continues :
      (e : Endpoint) (i : ℕ) (x x' : WindowElement)
      → AllSlots e
      → get_elem? e.sender_window i ≡ some (some x)
      → IsSlot a c resp w i x'
      → ((q : Packet) → x.ack ≡ some q → x'.ack ≡ some q)
      → Continues e (record e { sender_window = set e.sender_window i (some x') })
  set-Continues e i x x' h at slot acked =
      let self =
        get_elem?-set_self e.sender_window i (some x')
          (get_elem?-some_lt e.sender_window i (some x) at) in
      record {
        seq = refl;
        size = length-set e.sender_window i (some x');
        only = λ j y here. elim (ℕ_discrete i j) [
          | no other ↦ h j y (sym (get_elem?-set_ne e.sender_window i j (some x') other) ∙ here)
          | yes same ↦
              let there = ap (get_elem? (set e.sender_window i (some x'))) same ∙ here in
              subst (λ k. IsSlot a c resp w k y) same
                (subst (IsSlot a c resp w i) (element x' y (sym self ∙ there)) slot)
        ];
        stays = λ j y here. elim (ℕ_discrete i j) [
          | no other ↦ (y, get_elem?-set_ne e.sender_window i j (some x') other ∙ here, λ q s. s)
          | yes same ↦
              let there = ap (get_elem? e.sender_window) same ∙ here in
              (
                x',
                ap (get_elem? (set e.sender_window i (some x'))) (sym same) ∙ self,
                λ q s. acked q (ap (λ z. z.ack) (element x y (sym at ∙ there)) ∙ s),
              )
        ];
        back = λ j y here. elim (ℕ_discrete i j) [
          | no other ↦ (y, sym (get_elem?-set_ne e.sender_window i j (some x') other) ∙ here)
          | yes same ↦ (x, ap (get_elem? e.sender_window) (sym same) ∙ at)
        ];
        rest = refl;
        more = [];
        wrote = sym (append-nil e.written);
        legit = tt;
      }
    where
      element : (y z : WindowElement) → some (some y) ≡ some (some z) → y ≡ z
      element y z same = some-injective y z (some-injective (some y) (some z) same)

  -- The timer of a slot fires, if it runs.
  pub expire_slot-Continues : (e : Endpoint) (i : ℕ) → AllSlots e → Continues e (expire_slot e i)
  unfolding expire_slot
  expire_slot-Continues e i h = elim (Option-cases (get_elem? e.sender_window i)) [
    | inl out ↦ rw (expire_slot, out) (Continues-refl e h)
    | inr (none, empty) ↦ rw (expire_slot, empty) (Continues-refl e h)
    | inr (some x, at) ↦
        let s = h i x at in
        let x' : WindowElement = record x { timer = some (expire s.timer) } in
        let there : IsSlot a c resp w i x' = record {
          place = s.place;
          packet = s.packet;
          timer = expire s.timer;
          at = s.at;
          here = s.here;
          has_packet = s.has_packet;
          has_timer = refl;
          live = λ free. ground (arith, s.live free);
          settled = s.settled;
        } in
        rw (expire_slot, at, s.has_timer) (set-Continues e i x x' h at there (λ q got. got))
  ]

  acknowledged-IsSlot :
      (j k : ℕ) (p q : Packet) (x : WindowElement) (t : Timer)
      → get_elem? (packets a c resp) k ≡ some p
      → HasArrived a c resp w k p
      → j ≡ suc k
      → IsSlot a c resp w j x
      → x.timer ≡ some t
      → IsSlot a c resp w j (acknowledged x t q)
  acknowledged-IsSlot j k p q x t at there here s timer =
      let same : s.place ≡ k = omega (arith, s.here) in
      let is_p : s.packet ≡ p =
        some-injective s.packet p (sym s.at ∙ ap (get_elem? (packets a c resp)) same ∙ at) in
      record {
        place = s.place;
        packet = s.packet;
        timer = stop t;
        at = s.at;
        here = s.here;
        has_packet = s.has_packet;
        has_timer = refl;
        live = λ free. cc;
        settled = λ r got. rw (same, is_p) there;
      }

  -- The acknowledgement of a packet that has arrived comes in.
  pub receive_ack-Continues :
      (e : Endpoint) (k : ℕ) (p : Packet) (x : WindowElement)
      → AllSlots e
      → get_elem? (packets a c resp) k ≡ some p
      → HasArrived a c resp w k p
      → get_elem? e.sender_window (suc k) ≡ some (some x)
      → (e' : Endpoint) × (receive_ack e (answer (suc k) c a) ≡ ok e')
        × Continues e e'
        × IsAcked e' (suc k)
  receive_ack-Continues e k p x h at there slot =
      let s = h (suc k) x slot in
      let q = answer (suc k) c a in
      let lt = get_elem?-some_lt e.sender_window (suc k) (some x) slot in
      elim (Option-cases x.ack) [
        | inr (r, got) ↦
            let same : acked_endpoint e q ≡ e = ground arith in
            (e, receive_ack_ok e q (inr lt) ∙ ap ok same, Continues-refl e h, (x, r, slot, got))
        | inl free ↦
            let x' = acknowledged x s.timer q in
            let e' : Endpoint = record e {
              sender_window = set e.sender_window (suc k) (some x');
            } in
            let same : acked_endpoint e q ≡ e' = ground (arith, s.has_timer) in
            let there' = acknowledged-IsSlot (suc k) k p q x s.timer at there refl s s.has_timer in
            (
              e',
              receive_ack_ok e q (inr lt) ∙ ap ok same,
              set-Continues e (suc k) x x' h slot there' (λ r got. cc),
              (x', q, get_elem?-set_self e.sender_window (suc k) (some x') lt, refl),
            )
      ]
