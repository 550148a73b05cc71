-- ===== src/Server/Safety.antt =====
-- The server over all sequences of turns.
use comp6461_computer_networ.Base.{◌%◌, ◌^◌, >>=-of_ok}
use comp6461_computer_networ.Server.{expire_slot, connected}
use comp6461_computer_networ.Base.{ℕ, ◌+◌, ◌≤◌, ◌≡◌, ◌≢◌, refl, sym, ◌∙◌, arith, inl, inr}
use comp6461_computer_networ.Base.{
  Bool, true, Option, none, some, List, [], ◌∷◌, ◌++◌, if◌then◌else◌, Bool-cases,
}
use comp6461_computer_networ.Base.{length, Go, ok, >>=-eq-ok, ok_injective}
use mathlib.Core.Path.{subst, subst₃}
use comp6461_computer_networ.Server.{expire_slot, connected}
use comp6461_computer_networ.Packet.{UdpAddr, Packet, raw, raw_to}
use comp6461_computer_networ.Packet.PacketType
use comp6461_computer_networ.Window.{window_size}
use comp6461_computer_networ.Endpoint.{
  Endpoint, control, write, Checker, looking, ended, poll, check_for_deliver,
}
use comp6461_computer_networ.Endpoint.{is_blocked}
use comp6461_computer_networ.Endpoint.Reassembly.{is_filled_returns}
use comp6461_computer_networ.Endpoint.Wait.{is_blocked_lem}
use comp6461_computer_networ.Server.{
  System, Phase, await_syn, await_ack, await_delivery, await_acks,
}
use comp6461_computer_networ.Server.{
  Event, datagram, check, scan, expiry, timeout, main_turn, receive,
}
use comp6461_computer_networ.Server.{set_client, proceed, resend_synack}
use comp6461_computer_networ.Server.{step, run, boot}
use comp6461_computer_networ.Server.Windows.{SameSending-HasWindows}
use comp6461_computer_networ.Server.Windows.{poll-SameSending}
use comp6461_computer_networ.Server.Sending.{retransmit-HasWindows, expire_slot-HasWindows}
use comp6461_computer_networ.Server.Invariant.{
  PhaseOk, CheckOk, IsRunning, boot-IsRunning, receive-Kept, poll-CheckOk,
}
use comp6461_computer_networ.Server.Reachable.{same_phase, phase_of, proceed-IsRunning}

write_ok :
    (e : Endpoint) (p : Packet) (a : UdpAddr)
    → p.to_addr ≡ some a
    → write e p ≡ ok (record e { written = e.written ++ (raw_to p a ∷ []) })
unfolding write raw
write_ok e p a to = ground arith

seq_le :
    (ph : Phase) (seq : ℕ) (peer : Option UdpAddr) (b : Bool)
    → PhaseOk ph seq peer b
    → seq ≤ window_size
seq_le await_syn seq peer b h = omega (arith, h.0)
seq_le await_ack seq peer b h = omega (arith, h.0)
seq_le await_delivery seq peer b h = omega (arith, h.0)
seq_le await_acks seq peer b h = h.0

module _ {W : Type 0} (handle_request : W → List ℕ → Go (List ℕ × W)) where
  -- The turn `g` returns, in a state that satisfies the invariant.
  abbrev pub Returns : Go (System W) → Type 0
  Returns g = (y : System W) × (g ≡ ok y) × IsRunning y

  scan-Returns : (y : System W) → IsRunning y → Returns (step handle_request y scan)
  unfolding step
  scan-Returns y r = elim (Bool-cases y.server.connect) [
    | inr off ↦ (y, ground arith, r)
    | inl on ↦
        let (e, got, h, seq, peer, _) =
          retransmit-HasWindows y.server.endpoint r.windows (seq_le y.phase _ _ _ r.phase_ok) in
        (
          record y { server = record (y.server) { endpoint = e } },
          ground arith,
          same_phase handle_request y e y.checker h seq peer r.check_ok r,
        )
  ]

  timeout-Returns :
      (ph : Phase) (y : System W)
      → y.phase ≡ ph
      → IsRunning y
      → Returns (resend_synack handle_request ph y)
  unfolding resend_synack
  timeout-Returns await_ack y at r =
      let (seq, (a, to), off) = phase_of handle_request await_ack y at r in
      let p : Packet = control PacketType.synack y.server.endpoint.seq_num y.server.endpoint.peer in
      let e : Endpoint = record (y.server.endpoint) {
        written = y.server.endpoint.written ++ (raw_to p a ∷ []);
      } in
      (
        record y { server = record (y.server) { endpoint = e } },
        rw (write_ok y.server.endpoint p a to),
        same_phase handle_request y e y.checker
            (record {
              recv_size = r.windows.recv_size;
              send_size = r.windows.send_size;
              all_sent = r.windows.all_sent;
            })
            refl refl r.check_ok r,
      )
  timeout-Returns await_syn y at r = (y, refl, r)
  timeout-Returns await_delivery y at r = (y, refl, r)
  timeout-Returns await_acks y at r = (y, refl, r)

  poll_returns :
      (e : Endpoint) (c : Checker)
      → length e.receiver_window ≡ window_size
      → CheckOk c
      → (p : Endpoint × Checker) × (poll e c ≡ ok p)
  unfolding poll check_for_deliver
  poll_returns e ended h k = ((e, ended), refl)
  poll_returns e (looking none) h k = (_, refl)
  poll_returns e (looking (some d)) h k =
      let (b, got) = is_filled_returns e.receiver_window d (omega (arith, k d refl)) in
      (if b then (record e { delivery_message = true }, ended) else (e, looking (some d)), rw got)

  step-IsRunning :
      (v : Event) (y y' : System W) → step handle_request y v ≡ ok y' → IsRunning y → IsRunning y'
  unfolding step resend_synack
  step-IsRunning (datagram bytes) y y' done r =
      let (s, got, last) = >>=-eq-ok (receive y.server bytes) _ done in
      let (h, syn, connect, seq, peer) = receive-Kept y.server s bytes got r.windows r.syn_ok in
      subst IsRunning (ok_injective (record y { server = s }) y' last) (record {
        windows = h;
        phase_ok =
            subst₃ (λ a b c. PhaseOk y.phase a b c) (sym seq) (sym peer) (sym connect) r.phase_ok;
        syn_ok = syn;
        check_ok = r.check_ok;
      })
  step-IsRunning check y y' done r =
      let ((e, c), polled, last) = >>=-eq-ok (poll y.server.endpoint y.checker) _ done in
      let same = poll-SameSending y.server.endpoint e y.checker c polled in
      subst IsRunning (ok_injective _ y' last) (
        same_phase handle_request y e c (SameSending-HasWindows y.server.endpoint e same r.windows)
          same.0 same.1
          (poll-CheckOk y.server.endpoint e y.checker c polled r.windows.recv_size r.check_ok) r)
  step-IsRunning scan y y' done r =
      let (z, got, h) = scan-Returns y r in subst IsRunning (ok_injective z y' (sym got ∙ done)) h
  step-IsRunning (expiry i) y y' done r =
      let (h, seq, peer, _) = expire_slot-HasWindows y.server.endpoint i r.windows in
      subst IsRunning (ok_injective _ y' done) (
        same_phase handle_request y (expire_slot y.server.endpoint i) y.checker h seq peer
          r.check_ok r)
  step-IsRunning timeout y y' done r =
      let (z, got, h) = timeout-Returns y.phase y refl r in
      subst IsRunning (ok_injective z y' (sym got ∙ done)) h
  step-IsRunning main_turn y y' done r = proceed-IsRunning handle_request y.phase y y' refl done r

  run-IsRunning :
      (vs : List Event) (y y' : System W)
      → run handle_request y vs ≡ ok y'
      → IsRunning y
      → IsRunning y'
  unfolding run
  run-IsRunning [] y y' done r = subst IsRunning (ok_injective y y' done) r
  run-IsRunning (v ∷ vs) y y' done r =
      let (z, first, rest) = >>=-eq-ok (step handle_request y v) _ done in
      run-IsRunning vs z y' rest (step-IsRunning v y z first r)

  syn_returns :
      (slot : Option Packet) (y : System W)
      → y.phase ≡ await_syn
      → y.server.handshake_syn ≡ slot
      → IsRunning y
      → (y' : System W) × (proceed handle_request await_syn y ≡ ok y')
  unfolding proceed
  syn_returns none y at is r = (y, ground arith)
  syn_returns (some p) y at is r =
      let (a, from) = r.syn_ok p is in
      let (seq, fresh, off) = phase_of handle_request await_syn y at r in
      let s = set_client y.server p in
      let to : s.endpoint.peer ≡ some a = ground arith in
      let q = control PacketType.synack s.endpoint.seq_num s.endpoint.peer in
      (
        record y {
          server = record s {
            endpoint = record (s.endpoint) { written = s.endpoint.written ++ (raw_to q a ∷ []) };
          };
          phase = await_ack;
        },
        ground (arith, write_ok s.endpoint q a to),
      )

  ack_returns :
      (slot : Option Packet) (y : System W)
      → y.server.handshake_ack ≡ slot
      → (y' : System W) × (proceed handle_request await_ack y ≡ ok y')
  unfolding proceed
  ack_returns none y is = (y, ground arith)
  ack_returns (some p) y is =
      let s = y.server in
      (
        record y {
          server = connected (record s {
            endpoint = record (s.endpoint) { seq_num = (s.endpoint.seq_num + 1) % 2 ^ 32 };
            handshake_ack = none;
          });
          phase = await_delivery;
        },
        rw (is, proceed),
      )

  main_returns :
      (ph : Phase) (y : System W)
      → y.phase ≡ ph
      → ph ≢ await_delivery
      → IsRunning y
      → (y' : System W) × (proceed handle_request ph y ≡ ok y')
  unfolding proceed
  main_returns await_syn y at ne r = syn_returns y.server.handshake_syn y at refl r
  main_returns await_ack y at ne r = ack_returns y.server.handshake_ack y refl
  main_returns await_delivery y at ne r = absurd (ne refl)
  main_returns await_acks y at ne r =
      let (le, _, _) = phase_of handle_request await_acks y at r in
      let (b, got, _) = is_blocked_lem y.server.endpoint (omega (arith, r.windows.send_size)) in
      (_, >>=-of_ok (is_blocked y.server.endpoint) _ got)

  -- Turns that read no datagram and answer no request.
  abbrev pub IsBackground : Phase → Event → Type 0
  IsBackground ph (datagram bytes) = ⊥
  IsBackground ph main_turn = ph ≢ await_delivery
  IsBackground ph _ = Unit

  background_returns :
      (v : Event) (y : System W)
      → IsRunning y
      → IsBackground y.phase v
      → (y' : System W) × (step handle_request y v ≡ ok y')
  unfolding step
  background_returns (datagram bytes) y r h = absurd h
  background_returns check y r h =
      let ((e, c), got) = poll_returns y.server.endpoint y.checker r.windows.recv_size r.check_ok in
      (_, >>=-of_ok (poll y.server.endpoint y.checker) _ got)
  background_returns scan y r h = let (z, got, _) = scan-Returns y r in (z, got)
  background_returns (expiry i) y r h = (_, refl)
  background_returns timeout y r h = let (z, got, _) = timeout-Returns y.phase y refl r in (z, got)
  background_returns main_turn y r h = main_returns y.phase y refl h r

  -- In every state that the server reaches from its start, by any turns of its goroutines and any
  -- datagrams, the invariant holds: both windows have 1024 slots and hold only what sendPacket
  -- stores, and number, peer and connection flag fit the phase. So from there no turn panics but
  -- one that reads a datagram and the one that answers a request: not the scan of retransmission,
  -- not checkForDeliver, no timeout, no step of the handshake, no wait for acknowledgements.
  pub reachable_safe :
      (world : W) (vs : List Event) {y : System W}
      → run handle_request (boot world) vs ≡ ok y
      → IsRunning y
        × ((v : Event)
            → IsBackground y.phase v
            → (y' : System W) × (step handle_request y v ≡ ok y'))
  reachable_safe world vs {y} done =
      let r = run-IsRunning vs (boot world) y done (boot-IsRunning world) in
      (r, λ v h. background_returns v y r h)
