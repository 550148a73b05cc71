-- ===== src/Endpoint/Retransmit.antt =====
-- One scan of `retransmission`: which packets it sends again, and what it does to the window.
use comp6461_computer_networ.Base.{
  ℕ, zero, suc, ◌+◌, ◌≤◌, ◌<◌, ◌≡◌, refl, sym, ap, ◌∙◌, arith, inl, inr,
}
use comp6461_computer_networ.Base.{List, ◌++◌}
use comp6461_computer_networ.Base.{length, get_elem?, Go, ok}
use comp6461_computer_networ.Base.{}
use comp6461_computer_networ.Base.{ℕ_discrete}
use comp6461_computer_networ.Endpoint.{Endpoint, retransmit_slot, retransmit_from, retransmit}
use mathlib.Core.Path.{subst, ap₂}
use comp6461_computer_networ.Base.{◌⊎◌}
use mathlib.Core.List.{append-nil, append_assoc}
use comp6461_computer_networ.Endpoint.Due.{
  AllSent, slot_bytes, slot_refreshed, due_bytes, due_bytes_same, retransmit_slot-Scans,
  Scans-AllSent,
}

-- What a scan over some slots does.
pub record ScansFrom (e : Endpoint) (i n : ℕ) (g : Go Endpoint) : Type 0 where
  pub after : Endpoint
  pub returns : g ≡ ok after
  pub seq : after.seq_num ≡ e.seq_num
  pub peer : after.peer ≡ e.peer
  pub recv : after.receiver_window ≡ e.receiver_window
  pub size : length after.sender_window ≡ length e.sender_window
  pub all_sent : AllSent after.sender_window
  pub wrote : after.written ≡ e.written ++ due_bytes e.sender_window i n
  pub inside :
      (j : ℕ)
      → i ≤ j
      → j < i + n
      → get_elem? after.sender_window j ≡ slot_refreshed (get_elem? e.sender_window j)
  pub outside :
      (j : ℕ)
      → (j < i) ⊎ (i + n ≤ j)
      → get_elem? after.sender_window j ≡ get_elem? e.sender_window j

pub retransmit_from-ScansFrom :
    (e : Endpoint) (i n : ℕ)
    → AllSent e.sender_window
    → i + n ≤ length e.sender_window
    → ScansFrom e i n (retransmit_from e i n)
unfolding retransmit_from due_bytes
retransmit_from-ScansFrom e i zero all le = record {
  after = e;
  returns = refl;
  seq = refl;
  peer = refl;
  recv = refl;
  size = refl;
  all_sent = all;
  wrote = sym (append-nil e.written);
  inside = λ j lo hi. absurd (omega arith);
  outside = λ j out. refl;
}
retransmit_from-ScansFrom e i (suc n) all le =
    let s = retransmit_slot-Scans e i all (omega arith) in
    let rest =
      retransmit_from-ScansFrom s.after (i + 1) n (Scans-AllSent e i (retransmit_slot e i) s all)
        (omega (arith, s.size)) in
    record {
      after = rest.after;
      returns = rw s.returns rest.returns;
      seq = rest.seq ∙ s.seq;
      peer = rest.peer ∙ s.peer;
      recv = rest.recv ∙ s.recv;
      size = rest.size ∙ s.size;
      all_sent = rest.all_sent;
      wrote =
          rest.wrote
          ∙ ap₂ (λ (a b : List (List ℕ)). a ++ b) s.wrote
              (due_bytes_same e.sender_window s.after.sender_window (i + 1) n
                (λ j le. s.elsewhere j (λ same. absurd (omega arith))))
          ∙ append_assoc e.written (slot_bytes (get_elem? e.sender_window i))
              (due_bytes e.sender_window (i + 1) n);
      inside = λ j lo hi. elim (ℕ_discrete i j) [
        | yes same ↦
            rest.outside j (inl (omega arith))
            ∙ subst
                (λ k.
                  get_elem? s.after.sender_window k ≡ slot_refreshed (get_elem? e.sender_window k))
                same s.here
        | no other ↦
            rest.inside j (omega arith) (omega arith) ∙ ap slot_refreshed (s.elsewhere j other)
      ];
      outside =
          λ j out. rest.outside j (omega arith) ∙ s.elsewhere j (λ same. absurd (omega arith));
    }

-- One scan of `retransmission` over a window that `sendPacket` filled, with the next number not past
-- its end, does not panic. It writes, in the order of their numbers, exactly the sent packets that
-- have no acknowledgement and whose timer has fired; it restarts the timers of those, and leaves
-- every other slot and the number of the next packet as they were.
pub retransmit_lem :
    (e : Endpoint)
    → AllSent e.sender_window
    → e.seq_num ≤ length e.sender_window
    → (e' : Endpoint) × (retransmit e ≡ ok e')
      × (e'.seq_num ≡ e.seq_num)
      × (e'.written ≡ e.written ++ due_bytes e.sender_window 0 e.seq_num)
      × ((j : ℕ)
          → j < e.seq_num
          → get_elem? e'.sender_window j ≡ slot_refreshed (get_elem? e.sender_window j))
      × ((j : ℕ) → e.seq_num ≤ j → get_elem? e'.sender_window j ≡ get_elem? e.sender_window j)
unfolding retransmit
retransmit_lem e all le =
    let s = retransmit_from-ScansFrom e 0 e.seq_num all (omega arith) in
    (
      s.after,
      s.returns,
      s.seq,
      s.wrote,
      λ j lt. s.inside j (omega arith) (omega arith),
      λ j ge. s.outside j (inr (omega arith)),
    )
