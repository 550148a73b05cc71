-- ===== src/Endpoint/Exchange.antt =====
-- What a receiver's steps leave alone, and one request received from the first packet to the last.
use mathlib.Core.List.{append_assoc, append-nil}
use comp6461_computer_networ.Base.{
  if◌then◌else◌, none, ℕ, ◌*◌, ◌≤◌, ◌≡◌, refl, sym, ap, ◌∙◌, arith, true, Option, some, List, [],
  ◌∷◌, ◌++◌, length, get_elem?, ok, All, >>=-eq-ok, ok_injective,
}
use comp6461_computer_networ.Packet.{UdpAddr, Packet, raw, raw_to, max_payload}
use comp6461_computer_networ.Base.{◌+◌, map}
use comp6461_computer_networ.Window.{new_window_element}
use comp6461_computer_networ.Endpoint.{send_request}
use comp6461_computer_networ.Endpoint.Segments.{
  request_packets, length-request_chunks, length-request_packets,
}
use comp6461_computer_networ.Endpoint.Send.{sent_all, sent_all_fields, sent_all_slots}
use comp6461_computer_networ.Endpoint.Request.{send_request_ok}
use comp6461_computer_networ.Endpoint.{
  Endpoint, Checker, looking, ended, poll, receive_content, write, get_packets, is_content,
}
use comp6461_computer_networ.Endpoint.Arrival.{ack_bytes}
use mathlib.Core.Path.{subst}
use comp6461_computer_networ.Endpoint.Receiver.{Receiver, Event, arrives, checks, step, run, window}
use comp6461_computer_networ.Endpoint.Delivery.{IsOneOf, incoming}
use comp6461_computer_networ.Endpoint.Complete.{Occurs, fresh, delivers_complete}

-- The second endpoint sends like the first, and has written more.
pub record SameSender (e e' : Endpoint) : Type 0 where
  pub seq : e'.seq_num ≡ e.seq_num
  pub peer : e'.peer ≡ e.peer
  pub sender : e'.sender_window ≡ e.sender_window
  pub more : List (List ℕ)
  pub wrote : e'.written ≡ e.written ++ more

SameSender-refl : (e : Endpoint) → SameSender e e
SameSender-refl e = record {
  seq = refl;
  peer = refl;
  sender = refl;
  more = [];
  wrote = sym (append-nil e.written);
}

SameSender-trans : {d e f : Endpoint} → SameSender d e → SameSender e f → SameSender d f
SameSender-trans {d} g h = record {
  seq = h.seq ∙ g.seq;
  peer = h.peer ∙ g.peer;
  sender = h.sender ∙ g.sender;
  more = g.more ++ h.more;
  wrote = h.wrote ∙ ap (λ o. o ++ h.more) g.wrote ∙ append_assoc d.written g.more h.more;
}

-- What the branch on DATA and DELIVER writes.
abbrev answers : Packet → List (List ℕ)
answers q =
    if is_content q
    then elim q.from_addr [ none ↦ [] | some a ↦ ack_bytes q.seq_num a ∷ [] ]
    else []

receive_content-SameSender :
    (e e' : Endpoint) (q : Packet) → receive_content e q ≡ ok e' → SameSender e e'
unfolding receive_content write raw
receive_content-SameSender e e' q done = record {
  seq = ground arith;
  peer = ground arith;
  sender = ground arith;
  more = answers q;
  wrote = ground (arith, append-nil e.written);
}

poll-SameSender : (e e' : Endpoint) (c c' : Checker) → poll e c ≡ ok (e', c') → SameSender e e'
unfolding poll
poll-SameSender e e' ended c' done = subst (SameSender e) (ground arith) (SameSender-refl e)
poll-SameSender e e' (looking d) c' done = record {
  seq = ground arith;
  peer = ground arith;
  sender = ground arith;
  more = [];
  wrote = ground (arith, append-nil e.written);
}

step-SameSender :
    (r r' : Receiver) (v : Event) → step r v ≡ ok r' → SameSender r.endpoint r'.endpoint
unfolding step
step-SameSender r r' (arrives q) done =
    let (e, kept, same) = >>=-eq-ok (receive_content r.endpoint q) _ done in
    subst (λ x. SameSender r.endpoint x.endpoint) (ok_injective _ r' same)
      (receive_content-SameSender r.endpoint e q kept)
step-SameSender r r' checks done =
    let ((e, c), looked, same) = >>=-eq-ok (poll r.endpoint r.checker) _ done in
    subst (λ x. SameSender r.endpoint x.endpoint) (ok_injective _ r' same)
      (poll-SameSender r.endpoint e r.checker c looked)

run-SameSender :
    (vs : List Event) (r r' : Receiver) → run r vs ≡ ok r' → SameSender r.endpoint r'.endpoint
unfolding run
run-SameSender [] r r' done =
    subst (λ x. SameSender r.endpoint x.endpoint) (ok_injective r r' done)
      (SameSender-refl r.endpoint)
run-SameSender (v ∷ vs) r r' done =
    let (x, first, rest) = >>=-eq-ok (step r v) _ done in
    SameSender-trans (step-SameSender r x v first) (run-SameSender vs x r' rest)

run-append : (vs ws : List Event) (r m : Receiver) → run r vs ≡ ok m → run r (vs ++ ws) ≡ run m ws
unfolding run
run-append [] ws r m done = ap (λ x. run x ws) (ok_injective r m done)
run-append (v ∷ vs) ws r m done =
    let (x, first, rest) = >>=-eq-ok (step r v) _ done in rw first (run-append vs ws x m rest)

-- After the arrivals and two more rounds of the check.
pub record IsTransferred (from : UdpAddr) (to : Option UdpAddr) (req : List ℕ) (e : Endpoint)
    (vs : List Event) : Type 0 where
  pub after : Receiver
  pub returns : run (fresh e) (vs ++ (checks ∷ checks ∷ [])) ≡ ok after
  pub told : after.endpoint.delivery_message ≡ true
  pub whole : get_packets (window after) ≡ ok req
  pub sender : SameSender (fresh e).endpoint after.endpoint

-- One request, from the first packet to the last.
pub transfer :
    (from : UdpAddr) (to : Option UdpAddr) (req : List ℕ) (e : Endpoint) (vs : List Event)
    → length req ≤ 1022 * max_payload
    → All (IsOneOf (incoming from to req)) vs
    → ((k : ℕ) (q : Packet) → get_elem? (incoming from to req) k ≡ some q → Occurs q vs)
    → IsTransferred from to req e vs
transfer from to req e vs small legit every =
    let (m, r, first, second, told, whole) = delivers_complete from to req e vs small legit every in
    let done = run-append vs (checks ∷ checks ∷ []) (fresh e) m first ∙ second in
    record {
      after = r;
      returns = done;
      told = told;
      whole = whole;
      sender = run-SameSender (vs ++ (checks ∷ checks ∷ [])) (fresh e) r done;
    }

-- What an endpoint with next number 1 puts out for a response.
pub record IsPutOut (a : UdpAddr) (e : Endpoint) (resp : List ℕ) : Type 0 where
  pub after : Endpoint
  pub returns : send_request e resp ≡ ok after
  pub receiver : after.receiver_window ≡ e.receiver_window
  pub wrote : after.written ≡ e.written ++ map (λ p. raw_to p a) (request_packets (some a) 1 resp)
  pub slots :
      (k : ℕ) (p : Packet)
      → get_elem? (request_packets (some a) 1 resp) k ≡ some p
      → get_elem? after.sender_window (1 + k) ≡ some (some (new_window_element p))

pub put_out :
    (a : UdpAddr) (e : Endpoint) (resp : List ℕ)
    → e.seq_num ≡ 1
    → e.peer ≡ some a
    → length e.sender_window ≡ 1024
    → length resp ≤ 1022 * max_payload
    → IsPutOut a e resp
put_out a e resp one to size small =
    let ps = request_packets (some a) 1 resp in
    let few = length-request_chunks resp small in
    let count = length-request_packets (some a) 1 resp in
    let (_, _, receiver, _, wrote) = sent_all_fields a ps e (omega arith) in
    record {
      receiver = receiver;
      after = sent_all a e ps;
      returns =
          send_request_ok a e resp to (omega arith) (omega arith)
          ∙ ap (λ n. ok (sent_all a e (request_packets (some a) n resp))) one;
      wrote = wrote;
      slots = λ k p at.
          ap (λ n. get_elem? (sent_all a e ps).sender_window (n + k)) (sym one)
          ∙ sent_all_slots a ps e k p (omega arith) (omega arith) at;
    }
