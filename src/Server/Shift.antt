-- ===== src/Server/Shift.antt =====
-- The operations on an endpoint, behind what was written before.
use mathlib.Core.List.{append_assoc}
use comp6461_computer_networ.Base.{ℕ, zero, suc, ◌+◌, ◌%◌, ◌^◌, ◌≡◌, refl, ap, ◌∙◌}
use comp6461_computer_networ.Base.{
  Bool, true, false, not, ◌&&◌, Option, none, some, List, [], ◌∷◌, ◌++◌, length, get_elem?, set, Go,
  ok, panic, stuck, deref, ◌>>=◌, is_nil, ltb, ◌==◌, if◌then◌else◌,
}
use comp6461_computer_networ.Packet.{Packet, raw, max_payload}
use comp6461_computer_networ.Packet.PacketType
use comp6461_computer_networ.Window.{
  WindowElement, Timer, index, store, new_window_element, restart, expire,
}
use comp6461_computer_networ.Endpoint.{
  Endpoint, Checker, looking, ended, write, send_packet, send_loop, send_request, data_packet,
  slice_payload, control, resend, retransmit_slot, retransmit_from, retransmit, is_content,
  receive_content, poll, check_for_deliver,
}
use comp6461_computer_networ.Server.{acknowledge, acknowledged, receive_ack, expire_slot}

-- A function on the value that a call returns.
abbrev pub mapped {ℓ κ} : {A : Type ℓ} {B : Type κ} → (A → B) → Go A → Go B
mapped f (ok a) = ok (f a)
mapped f (panic e) = panic e
mapped f stuck = stuck

pub >>=-mapped {ℓ κ} :
    {A : Type ℓ} {B : Type κ} (f : A → A) (h : B → B) (g : Go A) (k : A → Go B)
    → ((a : A) → k (f a) ≡ mapped h (k a))
    → (mapped f g >>= k) ≡ mapped h (g >>= k)
>>=-mapped f h (ok a) k e = e a
>>=-mapped f h (panic x) k e = refl
>>=-mapped f h stuck k e = refl

pub >>=-each {ℓ κ} :
    {A : Type ℓ} {B : Type κ} (h : B → B) (g : Go A) (k k' : A → Go B)
    → ((a : A) → k' a ≡ mapped h (k a))
    → (g >>= k') ≡ mapped h (g >>= k)
>>=-each h (ok a) k k' e = e a
>>=-each h (panic x) k k' e = refl
>>=-each h stuck k k' e = refl

pub if-mapped {ℓ} :
    {A : Type ℓ} (h : A → A) (b : Bool) (x y x' y' : Go A)
    → x' ≡ mapped h x
    → y' ≡ mapped h y
    → (if b then x' else y') ≡ mapped h (if b then x else y)
if-mapped h true x y x' y' ex ey = ex
if-mapped h false x y x' y' ex ey = ey

module _ (old : List (List ℕ)) where
  -- The endpoint with `old` written before all else.
  abbrev pub after_old : Endpoint → Endpoint
  after_old e = record e { written = old ++ e.written }

  -- The call does the same behind `old`.
  abbrev pub Shifts : (Endpoint → Go Endpoint) → Type 0
  Shifts f = (e : Endpoint) → f (after_old e) ≡ mapped after_old (f e)

  pub write-Shifts : (p : Packet) → Shifts (λ e. write e p)
  unfolding write
  write-Shifts p e =
      >>=-each after_old (raw p) _ _
        λ bytes. ap (λ w. ok (record e { written = w })) (append_assoc old e.written (bytes ∷ []))

  pub send_packet-Shifts : (p : Packet) → Shifts (λ e. send_packet e p)
  unfolding send_packet
  send_packet-Shifts p e =
      ap
        (λ g. g >>= λ e'. store e.sender_window e.seq_num (some (new_window_element p)) >>= λ w.
          ok (record e' { sender_window = w; seq_num = (e.seq_num + 1) % 2 ^ 32 }))
        (write-Shifts p e)
      ∙ >>=-mapped after_old after_old (write e p) _ λ x.
        >>=-each after_old (store e.sender_window e.seq_num (some (new_window_element p))) _ _
          λ w. refl

  pub send_loop-Shifts : (fuel : ℕ) (req : List ℕ) (start : ℕ) → Shifts (send_loop fuel req start)
  unfolding send_loop
  send_loop-Shifts zero req start e = if-mapped after_old (ltb start (length req)) _ _ _ _ refl refl
  send_loop-Shifts (suc fuel) req start e =
      go (ltb start (length req)) (send_loop-Shifts fuel req (start + max_payload))
    where
      p : Packet
      p = data_packet e (slice_payload req start)

      go :
          (b : Bool)
          → Shifts (send_loop fuel req (start + max_payload))
          → elim b [
            | false ↦ ok (after_old e)
            | true ↦ send_packet (after_old e) p >>= send_loop fuel req (start + max_payload)
          ]
            ≡ mapped after_old (elim b [
              | false ↦ ok e
              | true ↦ send_packet e p >>= send_loop fuel req (start + max_payload)
            ])
      go false rest = refl
      go true rest =
          ap (λ g. g >>= send_loop fuel req (start + max_payload)) (send_packet-Shifts p e)
          ∙ >>=-mapped after_old after_old (send_packet e p) _ rest

  pub send_request-Shifts : (req : List ℕ) → Shifts (λ e. send_request e req)
  unfolding send_request
  send_request-Shifts req e =
      ap (λ g. g >>= λ e'. send_packet e' (control PacketType.deliver e'.seq_num e'.peer))
        (send_loop-Shifts (length req) req 0 e)
      ∙ >>=-mapped after_old after_old (send_loop (length req) req 0 e) _
          (λ x. send_packet-Shifts (control PacketType.deliver x.seq_num x.peer) x)

  resend-Shifts :
      (i : ℕ) (w : WindowElement) (p : Packet) (t : Timer) → Shifts (λ e. resend e i w p t)
  resend-Shifts i w p t e =
      ap
        (λ g. g >>= λ e'.
          store e.sender_window i (some (record w { timer = some (restart t) })) >>= λ sw.
          ok (record e' { sender_window = sw }))
        (write-Shifts p e)
      ∙ >>=-mapped after_old after_old (write e p) _ λ x.
        >>=-each after_old (store e.sender_window i (some (record w { timer = some (restart t) })))
          _ _ λ sw. refl

  -- What the scan does with a slot.
  scan_slot : Endpoint → ℕ → Option WindowElement → Go Endpoint
  scan_slot e i slot = elim slot [
    | none ↦ ok e
    | some w ↦ elim w.packet [
      | none ↦ ok e
      | some p ↦ elim w.ack [
        | some _ ↦ ok e
        | none ↦ do timer ← deref w.timer; if timer.fired then resend e i w p timer else ok e
      ]
    ]
  ]

  scan_slot-Shifts : (i : ℕ) (slot : Option WindowElement) → Shifts (λ e. scan_slot e i slot)
  unfolding scan_slot
  scan_slot-Shifts i none e = refl
  scan_slot-Shifts i (some w) e = go w.packet w.ack w.timer
    where
      body : Endpoint → Option Packet → Option Packet → Option Timer → Go Endpoint
      body e packet ack timer = elim packet [
        | none ↦ ok e
        | some p ↦ elim ack [
          | some _ ↦ ok e
          | none ↦ do t ← deref timer; if t.fired then resend e i w p t else ok e
        ]
      ]

      go :
          (packet ack : Option Packet) (timer : Option Timer)
          → body (after_old e) packet ack timer ≡ mapped after_old (body e packet ack timer)
      go none ack timer = refl
      go (some p) (some q) timer = refl
      go (some p) none none = refl
      go (some p) none (some t) = if-mapped after_old t.fired _ _ _ _ (resend-Shifts i w p t e) refl

  retransmit_slot-Shifts : (i : ℕ) → Shifts (λ e. retransmit_slot e i)
  unfolding retransmit_slot scan_slot
  retransmit_slot-Shifts i e =
      >>=-each after_old (index e.sender_window i) _ _ λ slot. scan_slot-Shifts i slot e

  retransmit_from-Shifts : (i n : ℕ) → Shifts (λ e. retransmit_from e i n)
  unfolding retransmit_from
  retransmit_from-Shifts i zero e = refl
  retransmit_from-Shifts i (suc n) e =
      ap (λ g. g >>= λ e'. retransmit_from e' (i + 1) n) (retransmit_slot-Shifts i e)
      ∙ >>=-mapped after_old after_old (retransmit_slot e i) _ (retransmit_from-Shifts (i + 1) n)

  pub retransmit-Shifts : Shifts retransmit
  unfolding retransmit
  retransmit-Shifts e = retransmit_from-Shifts 0 e.seq_num e

  pub receive_content-Shifts : (p : Packet) → Shifts (λ e. receive_content e p)
  unfolding receive_content
  receive_content-Shifts p e =
      if-mapped after_old (is_content p) _ _ _ _
        (ap (λ g. g >>= keep) (write-Shifts (control PacketType.ack p.seq_num p.from_addr) e)
          ∙ >>=-mapped after_old after_old (write e (control PacketType.ack p.seq_num p.from_addr))
              keep
              λ x. >>=-each after_old (index e.receiver_window p.seq_num) _ _ λ slot.
                >>=-each after_old
                  (if is_nil slot
                    then store e.receiver_window p.seq_num (some p)
                    else ok e.receiver_window)
                  _ _ λ w. refl)
        refl
    where
      keep : Endpoint → Go Endpoint
      keep e' = do
        slot ← index e.receiver_window p.seq_num
        w ←
            (if is_nil slot
              then store e.receiver_window p.seq_num (some p)
              else ok e.receiver_window)
        ok (record e' { receiver_window = w })

  acknowledge-Shifts : (p : Packet) (w : WindowElement) → Shifts (λ e. acknowledge e p w)
  acknowledge-Shifts p w e = go w.ack w.timer
    where
      body : Endpoint → Option Packet → Option Timer → Go Endpoint
      body e ack timer = elim ack [
        | some _ ↦ ok e
        | none ↦ elim timer [
          | none ↦ ok e
          | some t ↦ do
            sw ← store e.sender_window p.seq_num (some (acknowledged w t p))
            ok (record e { sender_window = sw })
        ]
      ]

      go :
          (ack : Option Packet) (timer : Option Timer)
          → body (after_old e) ack timer ≡ mapped after_old (body e ack timer)
      go (some q) timer = refl
      go none none = refl
      go none (some t) =
          >>=-each after_old (store e.sender_window p.seq_num (some (acknowledged w t p))) _ _
            λ sw. refl

  take_ack : Packet → Endpoint → Option WindowElement → Go Endpoint
  take_ack p e slot = elim slot [ none ↦ ok e | some w ↦ acknowledge e p w ]

  take_ack-Shifts : (p : Packet) (slot : Option WindowElement) → Shifts (λ e. take_ack p e slot)
  unfolding take_ack
  take_ack-Shifts p none e = refl
  take_ack-Shifts p (some w) e = acknowledge-Shifts p w e

  pub receive_ack-Shifts : (p : Packet) → Shifts (λ e. receive_ack e p)
  unfolding receive_ack take_ack
  receive_ack-Shifts p e =
      if-mapped after_old (p.type == PacketType.ack && not (p.seq_num == 0)) _ _ _ _
        (>>=-each after_old (index e.sender_window p.seq_num) _ _ λ slot. take_ack-Shifts p slot e)
        refl

  -- A round of the check.
  pub poll-Shifts :
      (k : Checker) (e : Endpoint)
      → poll (after_old e) k ≡ mapped (λ (r : Endpoint × Checker). (after_old r.0, r.1)) (poll e k)
  unfolding poll
  poll-Shifts ended e = refl
  poll-Shifts (looking d) e =
      >>=-each (λ (r : Endpoint × Checker). (after_old r.0, r.1))
        (check_for_deliver e.receiver_window d) _ _ λ (d', ready). found d' ready
    where
      body : Endpoint → Option ℕ → Bool → Go (Endpoint × Checker)
      body e d' ready =
          ok (if ready then (record e { delivery_message = true }, ended) else (e, looking d'))

      found :
          (d' : Option ℕ) (ready : Bool)
          → body (after_old e) d' ready
            ≡ mapped (λ (r : Endpoint × Checker). (after_old r.0, r.1)) (body e d' ready)
      found d' true = refl
      found d' false = refl

  pub expire_slot-after_old :
      (e : Endpoint) (i : ℕ) → expire_slot (after_old e) i ≡ after_old (expire_slot e i)
  unfolding expire_slot
  expire_slot-after_old e i = go (get_elem? e.sender_window i)
    where
      body : Endpoint → Option (Option WindowElement) → Endpoint
      body e slot = elim slot [
        | none ↦ e
        | some none ↦ e
        | some (some w) ↦ record e {
          sender_window =
              set e.sender_window i (
                some
                  (record w { timer = elim w.timer [ none ↦ none | some t ↦ some (expire t) ] }));
        }
      ]

      go :
          (slot : Option (Option WindowElement)) → body (after_old e) slot ≡ after_old (body e slot)
      go none = refl
      go (some none) = refl
      go (some (some w)) = refl
