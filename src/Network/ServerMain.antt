-- ===== src/Network/ServerMain.antt =====
-- The turns of the server's main and its timeouts, up to the wait for the acknowledgements.
use mathlib.Core.Path.{subst}
use mathlib.Core.List.{append-nil}
use comp6461_computer_networ.Base.{
  ℕ, ◌+◌, ◌%◌, ◌^◌, ◌*◌, ◌≤◌, ◌≡◌, ◌≢◌, inl, inr, refl, sym, ap, ◌∙◌, arith,
}
use comp6461_computer_networ.Base.{
  true, false, none, some, List, [], ◌∷◌, ◌++◌, map, length, get_elem?, Go, ok, All-map, Bool-cases,
  Option-cases,
}
use comp6461_computer_networ.Packet.{UdpAddr, raw, raw_to, max_payload}
use comp6461_computer_networ.Packet.PacketType
use comp6461_computer_networ.Endpoint.{Endpoint, write}
use comp6461_computer_networ.Endpoint.Signal.{signal}
use comp6461_computer_networ.Endpoint.Reassembly.{get_packets_request}
use comp6461_computer_networ.Endpoint.Delivery.{IsFound}
use comp6461_computer_networ.Endpoint.Send.{sent_all, sent_all_fields}
use comp6461_computer_networ.Endpoint.Segments.{length-request_chunks, length-request_packets}
use comp6461_computer_networ.Server.{
  HttpServer, proceed, resend_synack, send_synack, set_client, connected, Phase, await_syn,
  await_ack, await_delivery, await_acks,
}
use comp6461_computer_networ.Link.Invariant.{packets, data_start}
use comp6461_computer_networ.Network.{Network}
use comp6461_computer_networ.Network.Flow.{IsFlow, IsFlow-endpoint, IsFlow-same}
use comp6461_computer_networ.Network.Arrivals.{send-IsFlow}
use comp6461_computer_networ.Network.Invariant.{is_answering, is_asking, ServerPhase, IsNetwork}
use comp6461_computer_networ.Network.ServerTurns.{ServesWell, still-Serves, ServerPhase-same}

module _ {W : Type 0} (handle_request : W → List ℕ → Go (List ℕ × W)) (a c : UdpAddr)
    (req resp : List ℕ) (world world' : W) where
  synack_written :
      (s : HttpServer)
      → s.endpoint.seq_num ≡ 0
      → s.endpoint.peer ≡ some c
      → send_synack s
        ≡ ok (record s {
          endpoint = record (s.endpoint) {
            written = s.endpoint.written ++ (signal PacketType.synack c ∷ []);
          };
        })
  unfolding write raw
  synack_written s seq peer = rw (peer, seq) refl

  pub serve_resend :
      (n : Network W) (p : Phase)
      → n.server.phase ≡ p
      → IsNetwork a c req resp world world' n
      → ServesWell handle_request a c req resp world world' n
          (resend_synack handle_request p n.server)
  unfolding resend_synack
  serve_resend n await_syn at v =
      (n.server, refl, still-Serves handle_request a c req resp world world' n v)
  serve_resend n await_delivery at v =
      (n.server, refl, still-Serves handle_request a c req resp world world' n v)
  serve_resend n await_acks at v =
      (n.server, refl, still-Serves handle_request a c req resp world world' n v)
  serve_resend n await_ack at v =
      let s = n.server.server in
      let (seq, peer, _, _) =
        subst (λ p. ServerPhase a c req resp world world' p s n.server.world) at v.server_phase in
      let e : Endpoint = record (s.endpoint) {
        written = s.endpoint.written ++ (signal PacketType.synack c ∷ []);
      } in
      (
        record (n.server) { server = record s { endpoint = e } },
        rw (synack_written s seq peer) refl,
        record {
          phase =
              ServerPhase-same handle_request a c req resp world world' n.server.phase s e
                n.server.world refl refl v.server_phase;
          syn = v.server_syn;
          told = v.server_told;
          request = v.request_flow;
          response =
              IsFlow-endpoint a c resp (is_answering n.server.phase) s.endpoint e
                n.client.client.endpoint.receiver_window n.client.checker refl refl v.response_flow;
          grows = λ j q h. h;
          on = λ h. h;
          more = signal PacketType.synack c ∷ [];
          wrote = refl;
          legit = (inl refl, tt);
        },
      )

  -- The response flow before anything is sent.
  unsent :
      (n : Network W)
      → IsNetwork a c req resp world world' n
      → is_answering n.server.phase ≡ false
      → IsFlow a c resp false n.server.server.endpoint n.client.client.endpoint.receiver_window
          n.client.checker
  unsent n v off =
      subst
        (λ b.
          IsFlow a c resp b n.server.server.endpoint n.client.client.endpoint.receiver_window
            n.client.checker)
        off v.response_flow

  proceed_syn :
      (n : Network W)
      → n.server.phase ≡ await_syn
      → IsNetwork a c req resp world world' n
      → ServesWell handle_request a c req resp world world' n
          (proceed handle_request await_syn n.server)
  unfolding proceed
  proceed_syn n at v = elim (Option-cases n.server.server.handshake_syn) [
    | inl empty ↦
        (n.server, rw empty refl, still-Serves handle_request a c req resp world world' n v)
    | inr (p, got) ↦
        let s = n.server.server in
        let (seq, peer, off, same) =
          subst (λ p. ServerPhase a c req resp world world' p s n.server.world) at v.server_phase in
        let s' = set_client s p in
        let known : s'.endpoint.peer ≡ some c = rw peer (v.server_syn p got) in
        let e : Endpoint = record (s'.endpoint) {
          written = s.endpoint.written ++ (signal PacketType.synack c ∷ []);
        } in
        (
          record (n.server) { server = record s' { endpoint = e }; phase = await_ack },
          rw (got, synack_written s' seq known) refl,
          record {
            phase = (seq, known, off, same);
            syn = λ q h. cc;
            told = v.server_told;
            request = v.request_flow;
            response =
                IsFlow-endpoint a c resp false s.endpoint e n.client.client.endpoint.receiver_window
                  n.client.checker refl refl (unsent n v (ap is_answering at));
            grows = λ j q h. h;
            on = λ h. cc (ap is_answering at);
            more = signal PacketType.synack c ∷ [];
            wrote = refl;
            legit = (inl refl, tt);
          },
        )
  ]

  proceed_ack :
      (n : Network W)
      → n.server.phase ≡ await_ack
      → IsNetwork a c req resp world world' n
      → ServesWell handle_request a c req resp world world' n
          (proceed handle_request await_ack n.server)
  unfolding proceed
  proceed_ack n at v = elim (Option-cases n.server.server.handshake_ack) [
    | inl empty ↦
        (n.server, rw empty refl, still-Serves handle_request a c req resp world world' n v)
    | inr (p, got) ↦
        let s = n.server.server in
        let (seq, peer, off, same) =
          subst (λ p. ServerPhase a c req resp world world' p s n.server.world) at v.server_phase in
        let e : Endpoint = record (s.endpoint) { seq_num = (s.endpoint.seq_num + 1) % 2 ^ 32 } in
        let one : e.seq_num ≡ 1 = omega arith in
        let flow = unsent n v (ap is_answering at) in
        (
          record (n.server) {
            server = connected (record s { endpoint = e; handshake_ack = none });
            phase = await_delivery;
          },
          rw got refl,
          record {
            phase = (one, peer, refl, same);
            syn = v.server_syn;
            told = v.server_told;
            request = v.request_flow;
            response =
                IsFlow-same a c resp false s.endpoint e n.client.client.endpoint.receiver_window
                  n.client.checker refl (omega arith, flow.sending.1) flow;
            grows = λ j q h. h;
            on = λ h. cc (ap is_answering at);
            more = [];
            wrote = sym (append-nil s.endpoint.written);
            legit = tt;
          },
        )
  ]

  -- The response is sent from an endpoint that has only forgotten the message.
  proceed_answer :
      (n : Network W)
      → n.server.phase ≡ await_delivery
      → n.server.server.endpoint.delivery_message ≡ true
      → length resp ≤ 1022 * max_payload
      → handle_request world req ≡ ok (resp, world')
      → IsNetwork a c req resp world world' n
      → ServesWell handle_request a c req resp world world' n
          (proceed handle_request await_delivery n.server)
  unfolding proceed
  proceed_answer n at told small handled v =
      let s = n.server.server in
      let (one, peer, on, same) =
        subst (λ p. ServerPhase a c req resp world world' p s n.server.world) at v.server_phase in
      let e : Endpoint = record (s.endpoint) { delivery_message = false } in
      let w = n.client.client.endpoint.receiver_window in
      let last = v.server_told told in
      let all =
        subst (IsFound c (some a) req s.endpoint.receiver_window) last
          v.request_flow.receiving.found in
      let whole = get_packets_request c (some a) 1 req s.endpoint.receiver_window all in
      let flow =
        IsFlow-endpoint a c resp false s.endpoint e w n.client.checker refl refl
          (unsent n v (ap is_answering at)) in
      let (sends, out) = send-IsFlow a c resp e w n.client.checker flow one peer small in
      let ps = packets a c resp in
      let few = length-request_chunks resp small in
      let count = length-request_packets (some c) 1 resp in
      let (_, _, window, _, wrote) = sent_all_fields c ps e (omega arith) in
      let e' = sent_all c e ps in
      let served : handle_request n.server.world req ≡ ok (resp, world') = rw same handled in
      (
        record (n.server) {
          server = record s { endpoint = e' };
          phase = await_acks;
          world = world';
        },
        rw (told, whole, served, sends) refl,
        record {
          phase = (on, refl);
          syn = v.server_syn;
          told = λ _. last;
          request =
              subst
                (λ x.
                  IsFlow c a req (is_asking n.client.phase) n.client.client.endpoint x
                    n.server.checker)
                (sym window) v.request_flow;
          response = out;
          grows = λ j q h. ap (λ x. get_elem? x j) window ∙ h;
          on = λ _. refl;
          more = map (λ p. raw_to p c) ps;
          wrote = wrote;
          legit =
              All-map (λ bytes d. inr (inr (refl, d))) _ (data_start a c resp ps (λ k p h. (k, h)));
        },
      )

  -- Every turn of main but the one that may end the connection.
  pub proceed-Serves :
      (n : Network W) (p : Phase)
      → n.server.phase ≡ p
      → p ≢ await_acks
      → length resp ≤ 1022 * max_payload
      → handle_request world req ≡ ok (resp, world')
      → IsNetwork a c req resp world world' n
      → ServesWell handle_request a c req resp world world' n (proceed handle_request p n.server)
  unfolding proceed
  proceed-Serves n await_syn at ne small handled v = proceed_syn n at v
  proceed-Serves n await_ack at ne small handled v = proceed_ack n at v
  proceed-Serves n await_acks at ne small handled v = absurd (ne refl)
  proceed-Serves n await_delivery at ne small handled v =
      elim (Bool-cases n.server.server.endpoint.delivery_message) [
        | inl told ↦ proceed_answer n at told small handled v
        | inr none_yet ↦
            (n.server, rw none_yet refl, still-Serves handle_request a c req resp world world' n v)
      ]
