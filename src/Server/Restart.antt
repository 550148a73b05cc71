-- ===== src/Server/Restart.antt =====
-- The server after `reset`, beside the server at its start.
use comp6461_computer_networ.Base.{
  ℕ, ◌+◌, ◌%◌, ◌^◌, ◌≡◌, ◌≢◌, refl, sym, ap, ◌∙◌, arith, inl, inr, Bool-cases, >>=-eq-ok,
  ok_injective,
}
use comp6461_computer_networ.Base.{
  Bool, true, false, Option, none, some, List, [], ◌∷◌, Go, ok, panic, stuck, deref, ◌>>=◌,
  if◌then◌else◌,
}
use mathlib.Core.List.{append-nil}
use mathlib.Core.Path.{subst}
use comp6461_computer_networ.Packet.{Packet, parse_packet}
use comp6461_computer_networ.Packet.PacketType
use comp6461_computer_networ.Endpoint.{
  Endpoint, Checker, looking, control, write, send_request, is_blocked, receive_content, poll,
  get_packets, retransmit,
}
use comp6461_computer_networ.Server.{
  HttpServer, System, Phase, await_syn, await_ack, await_delivery, await_acks, Event, datagram,
  check, scan, expiry, timeout, main_turn, init_http_server, init_endpoint, receive_handshake,
  receive_ack, receive_packet, receive, reset, send_synack, set_client, connected, disconnected,
  proceed, resend_synack, step, run, boot,
}
use comp6461_computer_networ.Server.Shift.{
  mapped, >>=-mapped, >>=-each, if-mapped, after_old, write-Shifts, send_request-Shifts,
  retransmit-Shifts, receive_content-Shifts, receive_ack-Shifts, poll-Shifts, expire_slot-after_old,
}

module _ (old : List (List ℕ)) where
  abbrev server_after : HttpServer → HttpServer
  server_after s = record s { endpoint = after_old old s.endpoint }

  -- The system with `old` written before all else.
  abbrev pub system_after : {W : Type 0} → System W → System W
  system_after y = record y { server = server_after y.server }

  receive_handshake_after :
      (s : HttpServer) (p : Packet) (e : Endpoint)
      → record (receive_handshake (server_after s) p) { endpoint = after_old old e }
        ≡ server_after (record (receive_handshake s p) { endpoint = e })
  receive_handshake_after s p e = ground arith

  receive_packet_after :
      (s : HttpServer) (p : Packet)
      → receive_packet (server_after s) p ≡ mapped server_after (receive_packet s p)
  unfolding receive_packet
  receive_packet_after s p =
      ap (λ g. g >>= rest (server_after s)) (receive_ack-Shifts old p s.endpoint)
      ∙ each (receive_ack s.endpoint p)
    where
      rest : HttpServer → Endpoint → Go HttpServer
      rest t e = do e' ← receive_content e p; ok (record (receive_handshake t p) { endpoint = e' })

      last :
          (g : Go Endpoint)
          → (mapped (after_old old) g >>= λ e'.
              ok (record (receive_handshake (server_after s) p) { endpoint = e' }))
            ≡ mapped server_after
                (g >>= λ e'. ok (record (receive_handshake s p) { endpoint = e' }))
      last (ok e) = ap ok (receive_handshake_after s p e)
      last (panic x) = refl
      last stuck = refl

      each :
          (g : Go Endpoint)
          → (mapped (after_old old) g >>= rest (server_after s))
            ≡ mapped server_after (g >>= rest s)
      each (ok e) =
          ap (λ h. h >>= λ e'. ok (record (receive_handshake (server_after s) p) { endpoint = e' }))
            (receive_content-Shifts old p e)
          ∙ last (receive_content e p)
      each (panic x) = refl
      each stuck = refl

  receive_after :
      (s : HttpServer) (bytes : List ℕ)
      → receive (server_after s) bytes ≡ mapped server_after (receive s bytes)
  unfolding receive
  receive_after s bytes =
      >>=-each server_after (parse_packet bytes) _ _
        λ (p, err). >>=-each server_after (deref p) _ _ λ q. receive_packet_after s q

  send_synack_after :
      (s : HttpServer) → send_synack (server_after s) ≡ mapped server_after (send_synack s)
  send_synack_after s =
      let p = control PacketType.synack s.endpoint.seq_num s.endpoint.peer in
      ap (λ g. g >>= λ e. ok (record (server_after s) { endpoint = e }))
        (write-Shifts old p s.endpoint)
      ∙ >>=-across (write s.endpoint p)
    where
      >>=-across :
          (g : Go Endpoint)
          → (mapped (after_old old) g >>= λ e. ok (record (server_after s) { endpoint = e }))
            ≡ mapped server_after (g >>= λ e. ok (record s { endpoint = e }))
      >>=-across (ok e) = refl
      >>=-across (panic x) = refl
      >>=-across stuck = refl

  module _ {W : Type 0} (handle_request : W → List ℕ → Go (List ℕ × W)) where
    -- A server that a call returns, put into the system.
    put :
        (y : System W) (k : HttpServer → System W)
        → ((s : HttpServer) → k (server_after s) ≡ system_after (k s))
        → (g : Go HttpServer)
        → (mapped server_after g >>= λ s. ok (k s)) ≡ mapped system_after (g >>= λ s. ok (k s))
    put y k h (ok s) = ap ok (h s)
    put y k h (panic x) = refl
    put y k h stuck = refl

    answer_after :
        (y : System W)
        → proceed handle_request await_delivery (system_after y)
          ≡ mapped system_after (proceed handle_request await_delivery y)
    unfolding proceed
    answer_after y =
        if-mapped system_after y.server.endpoint.delivery_message _ _ _ _
          (>>=-each system_after (get_packets y.server.endpoint.receiver_window) _ _ λ request.
            >>=-each system_after (handle_request y.world request) _ _ λ (response, world).
              ap (λ g. g >>= λ e. ok (sent (system_after y) world e))
                (send_request-Shifts old response
                  (record (y.server.endpoint) { delivery_message = false }))
              ∙ last world
                  (send_request (record (y.server.endpoint) { delivery_message = false }) response))
          refl
      where
        sent : System W → W → Endpoint → System W
        sent y world e = record y {
          server = record (y.server) { endpoint = e };
          phase = await_acks;
          world = world;
        }

        last :
            (world : W) (g : Go Endpoint)
            → (mapped (after_old old) g >>= λ e. ok (sent (system_after y) world e))
              ≡ mapped system_after (g >>= λ e. ok (sent y world e))
        last world (ok e) = refl
        last world (panic x) = refl
        last world stuck = refl

    proceed_after :
        (p : Phase) (y : System W)
        → proceed handle_request p (system_after y)
          ≡ mapped system_after (proceed handle_request p y)
    unfolding proceed reset
    proceed_after await_syn y = syn y.server.handshake_syn
      where
        body : System W → Option Packet → Go (System W)
        body y syn = elim syn [
          | none ↦ ok y
          | some p ↦ do
            s ← send_synack (set_client y.server p)
            ok (record y { server = s; phase = await_ack })
        ]

        syn : (o : Option Packet) → body (system_after y) o ≡ mapped system_after (body y o)
        syn none = refl
        syn (some p) =
            ap (λ g. g >>= λ s. ok (record (system_after y) { server = s; phase = await_ack }))
              (send_synack_after (set_client y.server p))
            ∙ put y (λ s. record y { server = s; phase = await_ack }) (λ s. refl)
                (send_synack (set_client y.server p))
    proceed_after await_ack y = ack y.server.handshake_ack
      where
        body : System W → Option Packet → Go (System W)
        body y ack = elim ack [
          | none ↦ ok y
          | some p ↦
              let s = y.server in
              ok (record y {
                server = connected (record s {
                  endpoint = record (s.endpoint) { seq_num = (s.endpoint.seq_num + 1) % 2 ^ 32 };
                  handshake_ack = none;
                });
                phase = await_delivery;
              })
        ]

        ack : (o : Option Packet) → body (system_after y) o ≡ mapped system_after (body y o)
        ack none = refl
        ack (some p) = refl
    proceed_after await_delivery y = answer_after y
    proceed_after await_acks y =
        unfold is_blocked in >>=-each system_after (is_blocked y.server.endpoint) _ _ λ b. ends b
      where
        body : System W → Bool → Go (System W)
        body y blocked = ok (
            if blocked then y else record y {
              server = reset (disconnected y.server);
              checker = looking none;
              phase = await_syn;
            })

        ends : (b : Bool) → body (system_after y) b ≡ mapped system_after (body y b)
        ends true = refl
        ends false = refl

    resend_after :
        (p : Phase) (y : System W)
        → resend_synack handle_request p (system_after y)
          ≡ mapped system_after (resend_synack handle_request p y)
    unfolding resend_synack
    resend_after await_syn y = refl
    resend_after await_delivery y = refl
    resend_after await_acks y = refl
    resend_after await_ack y =
        ap (λ g. g >>= λ s. ok (record (system_after y) { server = s }))
          (send_synack_after y.server)
        ∙ put y (λ s. record y { server = s }) (λ s. refl) (send_synack y.server)

    -- An endpoint that a call returns, put into the system.
    put_endpoint :
        (y : System W) (g : Go Endpoint)
        → (mapped (after_old old) g >>= λ e.
            ok (record (system_after y) {
              server = record (server_after y.server) { endpoint = e };
            }))
          ≡ mapped system_after
              (g >>= λ e. ok (record y { server = record (y.server) { endpoint = e } }))
    put_endpoint y (ok e) = refl
    put_endpoint y (panic x) = refl
    put_endpoint y stuck = refl

    put_check :
        (y : System W) (g : Go (Endpoint × Checker))
        → (mapped (λ (r : Endpoint × Checker). (after_old old r.0, r.1)) g >>= λ (e, k).
            ok (record (system_after y) {
              server = record (server_after y.server) { endpoint = e };
              checker = k;
            }))
          ≡ mapped system_after (
              g >>= λ (e, k).
              ok (record y { server = record (y.server) { endpoint = e }; checker = k }))
    put_check y (ok (e, k)) = refl
    put_check y (panic x) = refl
    put_check y stuck = refl

    step_after :
        (y : System W) (v : Event)
        → step handle_request (system_after y) v ≡ mapped system_after (step handle_request y v)
    unfolding step
    step_after y (datagram bytes) =
        ap (λ g. g >>= λ s. ok (record (system_after y) { server = s }))
          (receive_after y.server bytes)
        ∙ put y (λ s. record y { server = s }) (λ s. refl) (receive y.server bytes)
    step_after y check =
        ap
          (λ g. g >>= λ (e, k). ok (record (system_after y) {
            server = record (server_after y.server) { endpoint = e };
            checker = k;
          }))
          (poll-Shifts old y.checker y.server.endpoint)
        ∙ put_check y (poll y.server.endpoint y.checker)
    step_after y scan =
        if-mapped system_after y.server.connect _ _ _ _
          (ap
              (λ g. g >>= λ e. ok (record (system_after y) {
                server = record (server_after y.server) { endpoint = e };
              }))
              (retransmit-Shifts old y.server.endpoint)
            ∙ put_endpoint y (retransmit y.server.endpoint))
          refl
    step_after y (expiry i) =
        ap
          (λ e.
            ok (record (system_after y) {
              server = record (server_after y.server) { endpoint = e };
            }))
          (expire_slot-after_old old y.server.endpoint i)
    step_after y timeout = resend_after y.phase y
    step_after y main_turn = proceed_after y.phase y

    pub run_after :
        (vs : List Event) (y : System W)
        → run handle_request (system_after y) vs ≡ mapped system_after (run handle_request y vs)
    unfolding run
    run_after [] y = refl
    run_after (v ∷ vs) y =
        ap (λ g. g >>= λ y'. run handle_request y' vs) (step_after y v)
        ∙ >>=-mapped system_after system_after (step handle_request y v) _ (run_after vs)

module _ {W : Type 0} (handle_request : W → List ℕ → Go (List ℕ × W)) where
  -- The state in which main of `y` waits for the next connection.
  abbrev restarted : System W → System W
  restarted y = record y {
    server = reset (disconnected y.server);
    checker = looking none;
    phase = await_syn;
  }

  run-restarted_state :
      (y : System W) (vs : List Event)
      → run handle_request (restarted y) vs
        ≡ mapped (system_after y.server.endpoint.written) (run handle_request (boot y.world) vs)
  unfolding reset boot init_http_server init_endpoint
  run-restarted_state y vs =
      let old = y.server.endpoint.written in
      let with_written : List (List ℕ) → System W = λ w. record (restarted y) {
        server = record ((restarted y).server) {
          endpoint = record ((restarted y).server.endpoint) { written = w };
        };
      } in
      ap (λ z. run handle_request z vs) (ap with_written (sym (append-nil old)))
      ∙ run_after old handle_request vs (boot y.world)

  -- The turn of main that leaves the wait for acknowledgements.
  main_turn-restarted :
      (y z : System W)
      → y.phase ≡ await_acks
      → step handle_request y main_turn ≡ ok z
      → z.phase ≡ await_syn
      → z ≡ restarted y
  unfolding step proceed
  main_turn-restarted y z at turns ends =
      let (b, waits, is) =
        >>=-eq-ok (is_blocked y.server.endpoint) (λ b. ok (if b then y else restarted y))
          (subst (λ p. proceed handle_request p y ≡ ok z) at turns) in
      let same : (if b then y else restarted y) ≡ z = ok_injective _ z is in
      elim (Bool-cases b) [
        | inl blocked ↦
            absurd (await_acks-await_syn (sym at ∙ ap (λ w. w.phase) (stays b blocked same) ∙ ends))
        | inr free ↦ sym (subst (λ c. (if c then y else restarted y) ≡ z) free same)
      ]
    where
      await_acks-await_syn : await_acks ≢ await_syn
      await_acks-await_syn e = cc

      stays : (b : Bool) → b ≡ true → (if b then y else restarted y) ≡ z → y ≡ z
      stays b blocked same = subst (λ c. (if c then y else restarted y) ≡ z) blocked same

  -- Let the turn of main in the wait for acknowledgements return a state in which main waits for a
  -- SYN. From that state on, the server does exactly what it does from its start with the handler's
  -- present state: whatever turns its goroutines take and whatever datagrams arrive, the runs panic
  -- alike or return alike, and the states they return differ only in the datagrams that were written
  -- before that turn.
  pub run-restarted :
      (y z : System W) (vs : List Event)
      → y.phase ≡ await_acks
      → step handle_request y main_turn ≡ ok z
      → z.phase ≡ await_syn
      → run handle_request z vs
        ≡ mapped (system_after y.server.endpoint.written) (run handle_request (boot y.world) vs)
  run-restarted y z vs at turns ends =
      ap (λ x. run handle_request x vs) (main_turn-restarted y z at turns ends)
      ∙ run-restarted_state y vs
