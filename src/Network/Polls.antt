-- ===== src/Network/Polls.antt =====
-- A round of `checkForDeliver`, by the window and the state of the check alone.
use comp6461_computer_networ.Base.{ℕ, ◌≡◌, inl, inr, refl, ap, ◌∙◌, arith}
use comp6461_computer_networ.Base.{Bool, true, false, Option, none, [], ok, >>=-eq-ok, Bool-cases}
use comp6461_computer_networ.Packet.{Packet}
use comp6461_computer_networ.Window.{Window}
use comp6461_computer_networ.Endpoint.{Endpoint, Checker, looking, ended, poll, check_for_deliver}
use comp6461_computer_networ.Endpoint.Segments.{}
use comp6461_computer_networ.Endpoint.Receiver.{Receiver}
use comp6461_computer_networ.Link.Invariant.{}

-- A receiver of which only the window and the check count.
abbrev pub box : Window Packet → Checker → Receiver
box w k = record {
  endpoint = record {
    seq_num = 0;
    peer = none;
    receiver_window = w;
    sender_window = [];
    delivery_message = true;
    written = [];
  };
  checker = k;
}

-- What a round of the check finds is of the window alone.
pub record Polls (e : Endpoint) (k k1 : Checker) : Type 0 where
  pub told : Bool
  pub returns : poll e k ≡ ok (record e { delivery_message = told }, k1)
  pub only : told ≡ true → (e.delivery_message ≡ true → k ≡ ended) → k1 ≡ ended

poll_ready :
    (e e1 : Endpoint) (d d' : Option ℕ) (k1 : Checker)
    → check_for_deliver e.receiver_window d ≡ ok (d', true)
    → poll (box e.receiver_window (looking d)).endpoint (looking d) ≡ ok (e1, k1)
    → Polls e (looking d) k1
unfolding poll
poll_ready e e1 d d' k1 found done =
    let last : k1 ≡ ended = ground arith in
    record { told = true; returns = rw (last, found) refl; only = λ _ _. last }

poll_unready :
    (e e1 : Endpoint) (d d' : Option ℕ) (k1 : Checker)
    → check_for_deliver e.receiver_window d ≡ ok (d', false)
    → poll (box e.receiver_window (looking d)).endpoint (looking d) ≡ ok (e1, k1)
    → Polls e (looking d) k1
unfolding poll
poll_unready e e1 d d' k1 found done =
    let next : k1 ≡ looking d' = ground arith in
    record {
      told = e.delivery_message;
      returns = rw (next, found) refl;
      only = λ told old. cc (old told);
    }

pub poll-box :
    (e e1 : Endpoint) (k k1 : Checker)
    → poll (box e.receiver_window k).endpoint k ≡ ok (e1, k1)
    → Polls e k k1
unfolding poll
poll-box e e1 ended k1 done =
    let last : k1 ≡ ended = ground arith in
    record { told = e.delivery_message; returns = rw last refl; only = λ _ _. last }
poll-box e e1 (looking d) k1 done =
    let ((d', ready), found, same) = >>=-eq-ok (check_for_deliver e.receiver_window d) _ done in
    elim (Bool-cases ready) [
      | inl yes' ↦ poll_ready e e1 d d' k1 (found ∙ ap (λ b. ok (d', b)) yes') done
      | inr no' ↦ poll_unready e e1 d d' k1 (found ∙ ap (λ b. ok (d', b)) no') done
    ]
