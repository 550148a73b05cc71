-- ===== src/Network/Steps.antt =====
-- The moves of the network, one by one and in runs.
use comp6461_computer_networ.Base.{ℕ, ◌*◌, ◌≤◌, ◌≡◌, inl, inr, refl, ap}
use comp6461_computer_networ.Base.{
  false, List, [], ◌∷◌, length, get_elem?, Go, ok, All-get_elem?, Bool-cases, Option-cases,
}
use comp6461_computer_networ.Packet.{UdpAddr, max_payload}
use comp6461_computer_networ.Packet.RoundTrip.{IsUdp4}
use comp6461_computer_networ.Server
use comp6461_computer_networ.Server.{System, init_endpoint, init_http_server, Phase}
use comp6461_computer_networ.Client
use comp6461_computer_networ.Client.{Session, init_http_client, send_syn}
use comp6461_computer_networ.Network.{
  Network, Turn, check, scan, timeout, main_turn, expiry, Move, to_server, to_client, serve, ask,
  is_last, server_event, client_event, step, run,
}
use comp6461_computer_networ.Network.Invariant.{IsNetwork, Serves-IsNetwork, Asks-IsNetwork}
use comp6461_computer_networ.Network.ServerTurns.{ServesWell, serve_check, serve_expiry, serve_scan}
use comp6461_computer_networ.Network.ServerMain.{serve_resend, proceed-Serves}
use comp6461_computer_networ.Network.ClientTurns.{
  AsksWell, ask_check, ask_expiry, ask_scan, ask_timeout,
}
use comp6461_computer_networ.Network.ClientMain.{proceed-Asks}
use comp6461_computer_networ.Network.Start.{Kept}
use comp6461_computer_networ.Network.Hears.{server_hears, client_hears}

module _ {W : Type 0} (handle_request : W → List ℕ → Go (List ℕ × W)) (a c : UdpAddr)
    (req resp : List ℕ) (world world' : W) where
  module _ (va : IsUdp4 a) (vc : IsUdp4 c) (small : length req ≤ 1022 * max_payload)
      (fits : length resp ≤ 1022 * max_payload)
      (handled : handle_request world req ≡ ok (resp, world')) where
    -- Any turn of the server but the one that may end the connection.
    server_turns :
        (n : Network W) (t : Turn)
        → IsNetwork a c req resp world world' n
        → is_last n.server.phase t ≡ false
        → ServesWell handle_request a c req resp world world' n
            (Server.step handle_request n.server (server_event t))
    unfolding Server.step
    server_turns n check v on = serve_check handle_request a c req resp world world' n v
    server_turns n scan v on = serve_scan handle_request a c req resp world world' fits n v
    server_turns n timeout v on =
        serve_resend handle_request a c req resp world world' n n.server.phase refl v
    server_turns n (expiry i) v on = serve_expiry handle_request a c req resp world world' n i v
    server_turns n main_turn v on =
        proceed-Serves handle_request a c req resp world world' n n.server.phase refl
          (λ same. cc (ap (λ p. is_last p main_turn) same)) fits handled v

    client_turns :
        (n : Network W) (t : Turn)
        → IsNetwork a c req resp world world' n
        → AsksWell a c req resp world world' n (Client.step n.client (client_event t))
    unfolding Client.step
    client_turns n check v = ask_check a c req resp world world' n v
    client_turns n scan v = ask_scan a c req resp world world' n small v
    client_turns n timeout v = ask_timeout a c req resp world world' n v
    client_turns n (expiry i) v = ask_expiry a c req resp world world' n i v
    client_turns n main_turn v =
        proceed-Asks a c req resp world world' n n.client.phase refl small v

    pub step-IsNetwork :
        (n : Network W) (m : Move)
        → IsNetwork a c req resp world world' n
        → Kept handle_request a c req resp world world' (step handle_request a c n m)
    unfolding step
    step-IsNetwork n (to_server i) v =
        elim (Option-cases (get_elem? n.client.client.endpoint.written i)) [
          | inl out ↦ (n, rw (step, out) refl, v)
          | inr (bytes, there) ↦
              let (out, came, (y, done, s)) =
                server_hears handle_request a c req resp world world' va vc small fits handled n
                  bytes v (All-get_elem? _ _ i bytes v.client_pool there) in
              (
                record n { server = y },
                rw (step, there, came, done) refl,
                Serves-IsNetwork a c req resp world world' n y v s,
              )
        ]
    step-IsNetwork n (to_client i) v =
        elim (Option-cases (get_elem? n.server.server.endpoint.written i)) [
          | inl out ↦ (n, rw (step, out) refl, v)
          | inr (bytes, there) ↦
              let (out, came, (y, done, s)) =
                client_hears handle_request a c req resp world world' va vc small fits handled n
                  bytes v (All-get_elem? _ _ i bytes v.server_pool there) in
              (
                record n { client = y },
                rw (step, there, came, done) refl,
                Asks-IsNetwork a c req resp world world' n y v s,
              )
        ]
    step-IsNetwork n (serve t) v = elim (Bool-cases (is_last n.server.phase t)) [
      | inl last ↦ (n, rw last refl, v)
      | inr on ↦
          let (y, done, s) = server_turns n t v on in
          (
            record n { server = y },
            rw (on, done) refl,
            Serves-IsNetwork a c req resp world world' n y v s,
          )
    ]
    step-IsNetwork n (ask t) v =
        let (y, done, s) = client_turns n t v in
        (record n { client = y }, rw done refl, Asks-IsNetwork a c req resp world world' n y v s)

    pub run-IsNetwork :
        (n : Network W) (ms : List Move)
        → IsNetwork a c req resp world world' n
        → Kept handle_request a c req resp world world' (run handle_request a c n ms)
    unfolding run
    run-IsNetwork n [] v = (n, refl, v)
    run-IsNetwork n (m ∷ ms) v =
        let (n1, first, v1) = step-IsNetwork n m v in
        let (n2, rest, v2) = run-IsNetwork n1 ms v1 in (n2, rw first rest, v2)
