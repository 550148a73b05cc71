-- ===== src/Network/Rounds.antt =====
-- Turns of one program in the network, while the other stays as it is.
use comp6461_computer_networ.Base.{
  ℕ, ◌<◌, ◌≡◌, refl, sym, ap, ◌∙◌, arith, false, some, List, [], ◌∷◌, ◌++◌, get_elem?, Go, ok,
  >>=-eq-ok, ok_injective,
}
use comp6461_computer_networ.Packet.{UdpAddr}
use comp6461_computer_networ.Packet.RoundTrip.{IsUdp4}
use comp6461_computer_networ.Endpoint.{control}
use comp6461_computer_networ.Endpoint.Signal.{signal}
use comp6461_computer_networ.Server
use comp6461_computer_networ.Server.{System, await_acks, init_endpoint, init_http_server}
use comp6461_computer_networ.Client
use comp6461_computer_networ.Client.{
  Session, await_synack, received, boot, init_http_client, send_syn,
}
use comp6461_computer_networ.Network.{
  Network, Turn, Move, to_server, to_client, serve, ask, check, main_turn, is_last, server_event,
  client_event, run,
}
use comp6461_computer_networ.Network.Schedule.{
  is_last-check, IsSent, run-append, step-serve, step-ask, step-to_server, step-to_client,
}

module _ {W : Type 0} (handle_request : W → List ℕ → Go (List ℕ × W)) (a c : UdpAddr)
    (va : IsUdp4 a) (vc : IsUdp4 c) where
  -- One list of moves after another.
  pub then_run :
      (ms ws : List Move) (n m k : Network W)
      → run handle_request a c n ms ≡ ok m
      → run handle_request a c m ws ≡ ok k
      → run handle_request a c n (ms ++ ws) ≡ ok k
  then_run ms ws n m k first second = run-append handle_request a c va vc ms ws n m first ∙ second

  datagram-phase :
      (y z : System W) (bytes : List ℕ)
      → Server.step handle_request y (Server.datagram bytes) ≡ ok z
      → z.phase ≡ y.phase
  unfolding Server.step
  datagram-phase y z bytes done =
      let (s, got, same) = >>=-eq-ok (Server.receive y.server bytes) _ done in
      ap (λ x. x.phase) (sym (ok_injective (record y { server = s }) z same))

  pub serve_turn :
      (n : Network W) (t : Turn) (z : System W)
      → is_last n.server.phase t ≡ false
      → Server.run handle_request n.server (server_event t ∷ []) ≡ ok z
      → run handle_request a c n (serve t ∷ []) ≡ ok (record n { server = z })
  unfolding run Server.run
  serve_turn n t z on done =
      let (y, first, same) = >>=-eq-ok (Server.step handle_request n.server _) _ done in
      let put : System W → Network W = λ x. record n { server = x } in
      rw (step-serve handle_request a c va vc n t y on first)
        (ap (λ x. ok (put x)) (ok_injective y z same))

  pub ask_turn :
      (n : Network W) (t : Turn) (z : Session)
      → Client.run n.client (client_event t ∷ []) ≡ ok z
      → run handle_request a c n (ask t ∷ []) ≡ ok (record n { client = z })
  unfolding run Client.run
  ask_turn n t z done =
      let (y, first, same) = >>=-eq-ok (Client.step n.client _) _ done in
      let put : Session → Network W = λ x. record n { client = x } in
      rw (step-ask handle_request a c va vc n t y first)
        (ap (λ x. ok (put x)) (ok_injective y z same))

  pub serve_checks :
      (n : Network W) (z : System W)
      → Server.run handle_request n.server (Server.check ∷ Server.check ∷ []) ≡ ok z
      → run handle_request a c n (serve check ∷ serve check ∷ []) ≡ ok (record n { server = z })
  unfolding run Server.run
  serve_checks n z done =
      let (y, first, rest) = >>=-eq-ok (Server.step handle_request n.server _) _ done in
      let m : Network W = record n { server = y } in
      rw (step-serve handle_request a c va vc n check y (is_last-check n.server.phase) first)
        (serve_turn m check z (is_last-check y.phase) rest)

  pub ask_checks :
      (n : Network W) (z : Session)
      → Client.run n.client (Client.check ∷ Client.check ∷ []) ≡ ok z
      → run handle_request a c n (ask check ∷ ask check ∷ []) ≡ ok (record n { client = z })
  unfolding run Client.run
  ask_checks n z done =
      let (y, first, rest) = >>=-eq-ok (Client.step n.client _) _ done in
      let m : Network W = record n { client = y } in
      rw (step-ask handle_request a c va vc n check y first) (ask_turn m check z rest)

  -- A packet of the handshake comes to the server, and main has a turn.
  pub shake_at_server :
      (n : Network W) (i type : ℕ) (z : System W)
      → get_elem? n.client.client.endpoint.written i ≡ some (signal type a)
      → type < 256
      → is_last n.server.phase main_turn ≡ false
      → Server.run handle_request n.server (Server.datagram (signal type c) ∷ Server.main_turn ∷ [])
        ≡ ok z
      → run handle_request a c n (to_server i ∷ serve main_turn ∷ []) ≡ ok (record n { server = z })
  unfolding run Server.run
  shake_at_server n i type z at byte on done =
      let (y, first, rest) = >>=-eq-ok (Server.step handle_request n.server _) _ done in
      let m : Network W = record n { server = y } in
      let sent : IsSent a (control type 0 (some a)) = record {
        wire = record { type_byte = byte; seq_u32 = omega arith; payload_fits = omega arith };
        to_addr = refl;
      } in
      rw (step-to_server handle_request a c va vc n i (control type 0 (some a)) y at sent first) (
        serve_turn m main_turn z
          (ap (λ p. is_last p main_turn) (datagram-phase n.server y (signal type c) first) ∙ on)
          rest)

  -- A packet of the handshake comes to the client, and main has a turn.
  pub shake_at_client :
      (n : Network W) (i type : ℕ) (z : Session)
      → get_elem? n.server.server.endpoint.written i ≡ some (signal type c)
      → type < 256
      → Client.run n.client (Client.datagram (signal type a) ∷ Client.main_turn ∷ []) ≡ ok z
      → run handle_request a c n (to_client i ∷ ask main_turn ∷ []) ≡ ok (record n { client = z })
  unfolding run Client.run
  shake_at_client n i type z at byte done =
      let (y, first, rest) = >>=-eq-ok (Client.step n.client _) _ done in
      let m : Network W = record n { client = y } in
      let sent : IsSent c (control type 0 (some c)) = record {
        wire = record { type_byte = byte; seq_u32 = omega arith; payload_fits = omega arith };
        to_addr = refl;
      } in
      rw (step-to_client handle_request a c va vc n i (control type 0 (some c)) y at sent first)
        (ask_turn m main_turn z rest)
