-- ===== src/Endpoint/Wait.antt =====
-- The wait of the server's `send`: when it ends.
use comp6461_computer_networ.Base.{ℕ, zero, suc, ◌+◌, ◌≤◌, ◌<◌, ◌≡◌, ◌↔◌, refl, arith, Bool, false}
use comp6461_computer_networ.Base.{◌||◌, Option, some, length, get_elem?, get_elem?_in_range}
use comp6461_computer_networ.Base.{ok, ℕ_discrete}
use mathlib.Core.Path.{subst, sym, ap, ◌∙◌}
use mathlib.Core.Option.{some-injective}
use comp6461_computer_networ.Window.{Window, WindowElement}
use comp6461_computer_networ.Endpoint.{Endpoint, is_unacked, is_blocked_from, is_blocked}

-- No slot from `i` on, of `n` slots, holds a packet without acknowledgement.
abbrev AckedFrom : Window WindowElement → ℕ → ℕ → Type 0
AckedFrom sw i n =
    (j : ℕ) (slot : Option WindowElement)
    → i ≤ j
    → j < i + n
    → get_elem? sw j ≡ some slot
    → is_unacked slot ≡ false

or_false : (a b : Bool) → (a || b ≡ false) ↔ ((a ≡ false) × (b ≡ false))
or_false a b = ground arith

is_blocked_from_lem :
    (sw : Window WindowElement) (i n : ℕ)
    → i + n ≤ length sw
    → (b : Bool) × (is_blocked_from sw i n ≡ ok b) × ((b ≡ false) ↔ AckedFrom sw i n)
unfolding is_blocked_from
is_blocked_from_lem sw i zero le =
    (false, refl, ((λ _ j slot lo hi at. absurd (omega arith)), λ _. refl))
is_blocked_from_lem sw i (suc n) le =
    let (slot, at) = get_elem?_in_range sw i (omega arith) in
    let (b, returns, iff) = is_blocked_from_lem sw (i + 1) n (omega arith) in
    (
      is_unacked slot || b,
      rw (returns) (ground arith),
      (
        λ free j other lo hi here. elim (ℕ_discrete i j) [
          | yes same ↦
              subst (λ s. is_unacked s ≡ false)
                (some-injective slot other (sym at ∙ ap (get_elem? sw) same ∙ here))
                ((or_false (is_unacked slot) b).0 free).0
          | no ne ↦
              iff.0 ((or_false (is_unacked slot) b).0 free).1 j other (omega arith) (omega arith)
                here
        ],
        λ acked. (or_false (is_unacked slot) b).1 (
          acked i slot (omega arith) (omega arith) at,
          iff.1 (λ j s lo hi here. acked j s (omega arith) (omega arith) here),
        ),
      ),
    )

-- While the packets sent lie in the window, a round of the wait returns; and it lets `send` go on
-- exactly when every slot below the next number that holds a packet has its acknowledgement.
pub is_blocked_lem :
    (e : Endpoint)
    → e.seq_num ≤ length e.sender_window
    → (b : Bool) × (is_blocked e ≡ ok b)
      × ((b ≡ false) ↔ (
          (j : ℕ) (slot : Option WindowElement)
          → j < e.seq_num
          → get_elem? e.sender_window j ≡ some slot
          → is_unacked slot ≡ false))
unfolding is_blocked
is_blocked_lem e le =
    let (b, returns, iff) = is_blocked_from_lem e.sender_window 0 e.seq_num (omega arith) in
    (
      b,
      returns,
      (
        λ free j slot lt at. iff.0 free j slot (omega arith) (omega arith) at,
        λ h. iff.1 (λ j slot lo hi at. h j slot (omega arith) at),
      ),
    )
