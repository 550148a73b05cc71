-- ===== src/Network/ServerTurns.antt =====
-- The turns of the server in which nothing is read from the network.
use mathlib.Core.Path.{subst}
use mathlib.Core.List.{append-nil}
use comp6461_computer_networ.Base.{ℕ, ◌*◌, ◌≤◌, ◌≡◌, inl, inr, refl, sym, ap, ◌∙◌}
use comp6461_computer_networ.Base.{
  true, false, List, [], length, get_elem?, Go, ok, All-map, Bool-cases,
}
use comp6461_computer_networ.Packet.{UdpAddr, max_payload}
use comp6461_computer_networ.Endpoint.{Endpoint}
use comp6461_computer_networ.Endpoint.Segments.{}
use comp6461_computer_networ.Server
use comp6461_computer_networ.Server.{
  System, HttpServer, expire_slot, proceed, resend_synack, send_synack, set_client, connected, step,
  Phase, await_syn, await_ack, await_delivery, await_acks,
}
use comp6461_computer_networ.Link.Wire.{request_packets-IsPacket}
use comp6461_computer_networ.Link.Sender.{Continues, expire_slot-Continues}
use comp6461_computer_networ.Link.Resends.{retransmit-Continues}
use comp6461_computer_networ.Network.{Network}
use comp6461_computer_networ.Network.Flow.{
  IsFlow, IsFlow-Continues, IsFlow-endpoint, IsFlow-fits, retransmit_idle, expire_slot_idle,
}
use comp6461_computer_networ.Network.Arrivals.{check-IsFlow}
use comp6461_computer_networ.Network.Invariant.{
  is_answering, is_asking, ServerPhase, IsNetwork, Serves,
}

module _ {W : Type 0} (handle_request : W → List ℕ → Go (List ℕ × W)) (a c : UdpAddr)
    (req resp : List ℕ) (world world' : W) where
  -- The turn of the server returns, and what holds is kept.
  abbrev pub ServesWell : Network W → Go (System W) → Type 0
  ServesWell n g = (y : System W) × (g ≡ ok y) × Serves a c req resp world world' n y

  pub still-Serves :
      (n : Network W)
      → IsNetwork a c req resp world world' n
      → Serves a c req resp world world' n n.server
  still-Serves n v = record {
    phase = v.server_phase;
    syn = v.server_syn;
    told = v.server_told;
    request = v.request_flow;
    response = v.response_flow;
    grows = λ j q h. h;
    on = λ h. h;
    more = [];
    wrote = sym (append-nil n.server.server.endpoint.written);
    legit = tt;
  }

  -- An endpoint with the same number and peer.
  pub ServerPhase-same :
      (p : Phase) (s : HttpServer) (e : Endpoint) (w : W)
      → e.seq_num ≡ s.endpoint.seq_num
      → e.peer ≡ s.endpoint.peer
      → ServerPhase a c req resp world world' p s w
      → ServerPhase a c req resp world world' p (record s { endpoint = e }) w
  ServerPhase-same await_syn s e w seq peer (h, i, j, k) = (seq ∙ h, peer ∙ i, j, k)
  ServerPhase-same await_ack s e w seq peer (h, i, j, k) = (seq ∙ h, peer ∙ i, j, k)
  ServerPhase-same await_delivery s e w seq peer (h, i, j, k) = (seq ∙ h, peer ∙ i, j, k)
  ServerPhase-same await_acks s e w seq peer h = h

  -- A move of the sender, once there is a response.
  pub Continues-Serves :
      (n : Network W) (e : Endpoint)
      → IsNetwork a c req resp world world' n
      → is_answering n.server.phase ≡ true
      → Continues a c resp n.client.client.endpoint.receiver_window n.server.server.endpoint e
      → Serves a c req resp world world' n
          (record (n.server) { server = record (n.server.server) { endpoint = e } })
  Continues-Serves n e v on s =
      let same_window = sym (ap (λ x. x.receiver_window) s.rest) in
      record {
        phase =
            ServerPhase-same n.server.phase n.server.server e n.server.world s.seq
              (ap (λ x. x.peer) s.rest) v.server_phase;
        syn = v.server_syn;
        told = λ h. v.server_told (sym (ap (λ x. x.delivery_message) s.rest) ∙ h);
        request =
            subst
              (λ w.
                IsFlow c a req (is_asking n.client.phase) n.client.client.endpoint w
                  n.server.checker)
              same_window v.request_flow;
        response =
            IsFlow-Continues a c resp (is_answering n.server.phase) n.server.server.endpoint e
              n.client.client.endpoint.receiver_window n.client.checker v.response_flow s;
        grows = λ j q h. ap (λ w. get_elem? w j) (sym same_window) ∙ h;
        on = λ h. h;
        more = s.more;
        wrote = s.wrote;
        legit = All-map (λ bytes d. inr (inr (on, d))) s.more s.legit;
      }

  pub serve_check :
      (n : Network W)
      → IsNetwork a c req resp world world' n
      → ServesWell n (step handle_request n.server Server.check)
  unfolding step
  serve_check n v =
      let e = n.server.server.endpoint in
      let (k, polls, flow) =
        check-IsFlow c a req (is_asking n.client.phase) n.client.client.endpoint e n.server.checker
          v.request_flow in
      let e' : Endpoint = record e { delivery_message = polls.told } in
      (
        record (n.server) { server = record (n.server.server) { endpoint = e' }; checker = k },
        rw (polls.returns) refl,
        record {
          phase =
              ServerPhase-same n.server.phase n.server.server e' n.server.world refl refl
                v.server_phase;
          syn = v.server_syn;
          told = λ h. polls.only h v.server_told;
          request = flow;
          response =
              IsFlow-endpoint a c resp (is_answering n.server.phase) e e'
                n.client.client.endpoint.receiver_window n.client.checker refl refl v.response_flow;
          grows = λ j q h. h;
          on = λ h. h;
          more = [];
          wrote = sym (append-nil e.written);
          legit = tt;
        },
      )

  pub serve_expiry :
      (n : Network W) (i : ℕ)
      → IsNetwork a c req resp world world' n
      → ServesWell n (step handle_request n.server (Server.expiry i))
  unfolding step
  serve_expiry n i v =
      let e = n.server.server.endpoint in
      let w = n.client.client.endpoint.receiver_window in
      elim (Bool-cases (is_answering n.server.phase)) [
        | inl on ↦ (
          record (n.server) { server = record (n.server.server) { endpoint = expire_slot e i } },
          refl,
          Continues-Serves n (expire_slot e i) v on
              (expire_slot-Continues a c resp w e i v.response_flow.only),
        )
        | inr off ↦
            let flow : IsFlow a c resp false e w n.client.checker =
              subst (λ b. IsFlow a c resp b e w n.client.checker) off v.response_flow in
            (
              n.server,
              rw (expire_slot_idle a c resp e w n.client.checker i flow) refl,
              still-Serves n v,
            )
      ]

  module _ (small : length resp ≤ 1022 * max_payload) where
    pub serve_scan :
        (n : Network W)
        → IsNetwork a c req resp world world' n
        → ServesWell n (step handle_request n.server Server.scan)
    unfolding step
    serve_scan n v =
        let e = n.server.server.endpoint in
        let w = n.client.client.endpoint.receiver_window in
        elim (Bool-cases n.server.server.connect) [
          | inr closed ↦ (n.server, rw closed refl, still-Serves n v)
          | inl opened ↦ elim (Bool-cases (is_answering n.server.phase)) [
            | inl on ↦
                let fits =
                  IsFlow-fits a c resp (is_answering n.server.phase) e w n.client.checker small
                    v.response_flow in
                let (e', done, s, _) =
                  retransmit-Continues a c resp w
                    (λ k p. request_packets-IsPacket a c resp k p small) e v.response_flow.only
                    fits in
                (
                  record (n.server) { server = record (n.server.server) { endpoint = e' } },
                  rw (opened, done) refl,
                  Continues-Serves n e' v on s,
                )
            | inr off ↦
                let flow : IsFlow a c resp false e w n.client.checker =
                  subst (λ b. IsFlow a c resp b e w n.client.checker) off v.response_flow in
                (
                  n.server,
                  rw (opened, retransmit_idle a c resp e w n.client.checker small flow) refl,
                  still-Serves n v,
                )
          ]
        ]
