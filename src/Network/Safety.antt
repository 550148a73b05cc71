-- ===== src/Network/Safety.antt =====
-- A whole exchange, from the starts of both programs to the turn that ends the connection.
use mathlib.Core.Path.{subst}
use comp6461_computer_networ.Base.{ℕ, ◌*◌, ◌≤◌, ◌≡◌, ◌⊎◌, inl, inr, refl, ap}
use comp6461_computer_networ.Base.{true, none, some, List, [], length, Go, ok, ◌>>=◌, Bool-cases}
use comp6461_computer_networ.Packet.{UdpAddr, max_payload}
use comp6461_computer_networ.Packet.RoundTrip.{IsUdp4}
use comp6461_computer_networ.Endpoint.{looking, is_blocked, get_packets}
use comp6461_computer_networ.Endpoint.Reassembly.{get_packets_request}
use comp6461_computer_networ.Server
use comp6461_computer_networ.Server.{
  reset, disconnected, System, await_syn, await_ack, await_delivery, await_acks,
}
use comp6461_computer_networ.Client
use comp6461_computer_networ.Link.{Link}
use comp6461_computer_networ.Link.Invariant.{IsLink}
use comp6461_computer_networ.Link.Safety.{is_blocked-AllAcked, AllAcked-HoldsAll}
use comp6461_computer_networ.Network.{Network, Move, run, start}
use comp6461_computer_networ.Network.Flow.{IsFlow}
use comp6461_computer_networ.Network.Polls.{box}
use comp6461_computer_networ.Network.Invariant.{is_answering, ServerPhase, ClientPhase, IsNetwork}
use comp6461_computer_networ.Network.Start.{start-IsNetwork}
use comp6461_computer_networ.Network.Steps.{run-IsNetwork}

module _ {W : Type 0} (handle_request : W → List ℕ → Go (List ℕ × W)) (a c : UdpAddr)
    (req resp : List ℕ) (world world' : W) where
  -- The sender's side of the response and the client's window, as a transfer.
  as_link : Network W → Link
  as_link n = record {
    sender = record (n.server.server.endpoint) { written = [] };
    receiver = box n.client.client.endpoint.receiver_window n.client.checker;
  }

  as_link-IsLink :
      (n : Network W)
      → IsNetwork a c req resp world world' n
      → n.server.phase ≡ await_acks
      → IsLink a c resp (as_link n)
  unfolding as_link
  as_link-IsLink n v at =
      let flow : IsFlow a c resp true n.server.server.endpoint
          n.client.client.endpoint.receiver_window n.client.checker =
        subst
          (λ b.
            IsFlow a c resp b n.server.server.endpoint n.client.client.endpoint.receiver_window
              n.client.checker)
          (ap is_answering at) v.response_flow in
      record {
        seq = flow.sending.0;
        size = flow.size;
        only = flow.only;
        full = flow.sending.1;
        sent_data = tt;
        answers = tt;
        receiving = flow.receiving;
      }

  -- What the turn of main that may end the connection does.
  pub record Ends (n : Network W) : Type 0 where
    pub after : System W
    pub returns : Server.step handle_request n.server Server.main_turn ≡ ok after
    pub whole :
        after.phase ≡ await_syn → get_packets n.client.client.endpoint.receiver_window ≡ ok resp

  last_turn :
      (n : Network W)
      → length resp ≤ 1022 * max_payload
      → IsNetwork a c req resp world world' n
      → n.server.phase ≡ await_acks
      → Ends n
  unfolding as_link Server.step Server.proceed is_blocked
  last_turn n fits v at =
      let l = as_link-IsLink n v at in
      let (b, waits, iff) = is_blocked-AllAcked a c resp fits (as_link n) l in
      elim (Bool-cases b) [
        | inl blocked ↦ record {
          after = n.server;
          returns = rw (at, waits, blocked) refl;
          whole = λ gone. cc;
        }
        | inr free ↦
            let all = AllAcked-HoldsAll a c resp (as_link n) l (iff.0 free) in
            record {
              after = record (n.server) {
                server = reset (disconnected n.server.server);
                checker = looking none;
                phase = await_syn;
              };
              returns = rw (at, waits, free) refl;
              whole = λ _.
                  get_packets_request a (some c) 1 resp n.client.client.endpoint.receiver_window
                    all;
            }
      ]

  -- The request has not been handled yet, or it has been once.
  handled_once :
      (n : Network W)
      → IsNetwork a c req resp world world' n
      → (n.server.world ≡ world) ⊎ ((n.server.phase ≡ await_acks) × (n.server.world ≡ world'))
  handled_once n v = go n.server.phase n.server.server n.server.world v.server_phase
    where
      go :
          (p : Server.Phase) (s : Server.HttpServer) (w : W)
          → ServerPhase a c req resp world world' p s w
          → (w ≡ world) ⊎ ((p ≡ await_acks) × (w ≡ world'))
      go await_syn s w (_, _, _, same) = inl same
      go await_ack s w (_, _, _, same) = inl same
      go await_delivery s w (_, _, _, same) = inl same
      go await_acks s w (_, same) = inr (refl, same)

  -- Take a client and a server at IPv4 addresses, a request and a response of at most 1022 times
  -- 1013 bytes, and a handler that answers the request by the response. From the starts of both
  -- programs on, let their goroutines take turns in any order, let timers fire and handshakes time
  -- out, and let the network deliver any datagram that either has written, at any time, any number
  -- of times or never, up to the turn that ends the connection. Then nothing panics. If the client
  -- has received a text, it is exactly the response. The state of the handler is as it was, or the
  -- request has been handled once and main waits for acknowledgements. In that wait the turn of
  -- main returns, and it ends the connection only if the client's window holds the whole response.
  pub exchange_safe :
      (ms : List Move)
      → IsUdp4 a
      → IsUdp4 c
      → length req ≤ 1022 * max_payload
      → length resp ≤ 1022 * max_payload
      → handle_request world req ≡ ok (resp, world')
      → (n : Network W) × ((start a world req >>= λ m. run handle_request a c m ms) ≡ ok n)
        × ((text : List ℕ) → n.client.phase ≡ Client.received text → text ≡ resp)
        × ((n.server.world ≡ world) ⊎ ((n.server.phase ≡ await_acks) × (n.server.world ≡ world')))
        × (n.server.phase ≡ await_acks → Ends n)
  exchange_safe ms va vc small fits handled =
      let (m, starts, vm) = start-IsNetwork handle_request a c req resp world world' small fits in
      let (n, runs, v) =
        run-IsNetwork handle_request a c req resp world world' va vc small fits handled m ms vm in
      (
        n,
        rw starts runs,
        λ text at.
            subst (λ p. ClientPhase a c req resp world world' p n.client.client) at v.client_phase,
        handled_once n v,
        last_turn n fits v,
      )
