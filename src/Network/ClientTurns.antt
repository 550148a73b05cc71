-- ===== src/Network/ClientTurns.antt =====
-- The turns of the client in which nothing is read from the network.
use mathlib.Core.Path.{subst}
use mathlib.Core.List.{append-nil}
use comp6461_computer_networ.Base.{ℕ, ◌*◌, ◌≤◌, ◌≡◌, inl, inr, refl, sym, ap, ◌∙◌}
use comp6461_computer_networ.Base.{
  true, false, List, [], ◌∷◌, ◌++◌, length, get_elem?, Go, ok, All-map, Bool-cases,
}
use comp6461_computer_networ.Packet.{UdpAddr, raw, max_payload}
use comp6461_computer_networ.Packet.PacketType
use comp6461_computer_networ.Endpoint.{Endpoint, write}
use comp6461_computer_networ.Endpoint.Signal.{signal}
use comp6461_computer_networ.Server.{expire_slot}
use comp6461_computer_networ.Client
use comp6461_computer_networ.Client.{
  Session, HttpClient, Phase, await_synack, await_delivery, received, send_syn, established,
  proceed, resend_syn, step,
}
use comp6461_computer_networ.Link.Wire.{request_packets-IsPacket}
use comp6461_computer_networ.Link.Sender.{Continues, expire_slot-Continues}
use comp6461_computer_networ.Link.Resends.{retransmit-Continues}
use comp6461_computer_networ.Network.{Network}
use comp6461_computer_networ.Network.Flow.{
  IsFlow, IsFlow-Continues, IsFlow-endpoint, IsFlow-fits, retransmit_idle, expire_slot_idle,
}
use comp6461_computer_networ.Network.Arrivals.{check-IsFlow}
use comp6461_computer_networ.Network.Invariant.{
  is_answering, is_asking, ClientPhase, IsNetwork, Asks,
}

module _ {W : Type 0} (a c : UdpAddr) (req resp : List ℕ) (world world' : W) where
  -- The turn of the client returns, and what holds is kept.
  abbrev pub AsksWell : Network W → Go Session → Type 0
  AsksWell n g = (y : Session) × (g ≡ ok y) × Asks a c req resp world world' n y

  pub still-Asks :
      (n : Network W)
      → IsNetwork a c req resp world world' n
      → Asks a c req resp world world' n n.client
  still-Asks n v = record {
    phase = v.client_phase;
    peer = v.client_peer;
    request_text = v.client_request;
    told = v.client_told;
    request = v.request_flow;
    response = v.response_flow;
    grows = λ j q h. h;
    on = λ h. h;
    more = [];
    wrote = sym (append-nil n.client.client.endpoint.written);
    legit = tt;
  }

  pub ClientPhase-same :
      (p : Phase) (k k' : HttpClient)
      → k'.endpoint.seq_num ≡ k.endpoint.seq_num
      → ClientPhase a c req resp world world' p k
      → ClientPhase a c req resp world world' p k'
  ClientPhase-same await_synack k k' seq h = seq ∙ h
  ClientPhase-same await_delivery k k' seq h = tt
  ClientPhase-same (received text) k k' seq h = h

  -- A move of the sender, once there is a request.
  pub Continues-Asks :
      (n : Network W) (e : Endpoint)
      → IsNetwork a c req resp world world' n
      → is_asking n.client.phase ≡ true
      → Continues c a req n.server.server.endpoint.receiver_window n.client.client.endpoint e
      → Asks a c req resp world world' n
          (record (n.client) { client = record (n.client.client) { endpoint = e } })
  Continues-Asks n e v on s =
      let same_window = sym (ap (λ x. x.receiver_window) s.rest) in
      record {
        phase =
            ClientPhase-same n.client.phase n.client.client
              (record (n.client.client) { endpoint = e }) s.seq v.client_phase;
        peer = ap (λ x. x.peer) s.rest ∙ v.client_peer;
        request_text = v.client_request;
        told = λ h. v.client_told (sym (ap (λ x. x.delivery_message) s.rest) ∙ h);
        response =
            subst
              (λ w.
                IsFlow a c resp (is_answering n.server.phase) n.server.server.endpoint w
                  n.client.checker)
              same_window v.response_flow;
        request =
            IsFlow-Continues c a req (is_asking n.client.phase) n.client.client.endpoint e
              n.server.server.endpoint.receiver_window n.server.checker v.request_flow s;
        grows = λ j q h. ap (λ w. get_elem? w j) (sym same_window) ∙ h;
        on = λ h. h;
        more = s.more;
        wrote = s.wrote;
        legit = All-map (λ bytes d. inr (inr (inr (on, d)))) s.more s.legit;
      }

  pub ask_check :
      (n : Network W)
      → IsNetwork a c req resp world world' n
      → AsksWell n (step n.client Client.check)
  unfolding step
  ask_check n v =
      let e = n.client.client.endpoint in
      let (k, polls, flow) =
        check-IsFlow a c resp (is_answering n.server.phase) n.server.server.endpoint e
          n.client.checker v.response_flow in
      let e' : Endpoint = record e { delivery_message = polls.told } in
      (
        record (n.client) { client = record (n.client.client) { endpoint = e' }; checker = k },
        rw (polls.returns) refl,
        record {
          phase =
              ClientPhase-same n.client.phase n.client.client
                (record (n.client.client) { endpoint = e' }) refl v.client_phase;
          peer = v.client_peer;
          request_text = v.client_request;
          told = λ h. polls.only h v.client_told;
          response = flow;
          request =
              IsFlow-endpoint c a req (is_asking n.client.phase) e e'
                n.server.server.endpoint.receiver_window n.server.checker refl refl v.request_flow;
          grows = λ j q h. h;
          on = λ h. h;
          more = [];
          wrote = sym (append-nil e.written);
          legit = tt;
        },
      )

  -- The request flow before anything is sent.
  pub unasked :
      (n : Network W)
      → IsNetwork a c req resp world world' n
      → is_asking n.client.phase ≡ false
      → IsFlow c a req false n.client.client.endpoint n.server.server.endpoint.receiver_window
          n.server.checker
  unasked n v off =
      subst
        (λ b.
          IsFlow c a req b n.client.client.endpoint n.server.server.endpoint.receiver_window
            n.server.checker)
        off v.request_flow

  pub ask_expiry :
      (n : Network W) (i : ℕ)
      → IsNetwork a c req resp world world' n
      → AsksWell n (step n.client (Client.expiry i))
  unfolding step
  ask_expiry n i v =
      let e = n.client.client.endpoint in
      let w = n.server.server.endpoint.receiver_window in
      elim (Bool-cases (is_asking n.client.phase)) [
        | inl on ↦ (
          record (n.client) { client = record (n.client.client) { endpoint = expire_slot e i } },
          refl,
          Continues-Asks n (expire_slot e i) v on
              (expire_slot-Continues c a req w e i v.request_flow.only),
        )
        | inr off ↦ (
          n.client,
          rw (expire_slot_idle c a req e w n.server.checker i (unasked n v off)) refl,
          still-Asks n v,
        )
      ]

  pub ask_scan :
      (n : Network W)
      → length req ≤ 1022 * max_payload
      → IsNetwork a c req resp world world' n
      → AsksWell n (step n.client Client.scan)
  unfolding step
  ask_scan n small v =
      let e = n.client.client.endpoint in
      let w = n.server.server.endpoint.receiver_window in
      elim (Bool-cases (is_asking n.client.phase)) [
        | inl on ↦
            let fits =
              IsFlow-fits c a req (is_asking n.client.phase) e w n.server.checker small
                v.request_flow in
            let (e', done, s, _) =
              retransmit-Continues c a req w (λ k p. request_packets-IsPacket c a req k p small) e
                v.request_flow.only fits in
            (
              record (n.client) { client = record (n.client.client) { endpoint = e' } },
              rw done refl,
              Continues-Asks n e' v on s,
            )
        | inr off ↦ (
          n.client,
          rw (retransmit_idle c a req e w n.server.checker small (unasked n v off)) refl,
          still-Asks n v,
        )
      ]

  ask_resend :
      (n : Network W) (p : Phase)
      → n.client.phase ≡ p
      → IsNetwork a c req resp world world' n
      → AsksWell n (resend_syn p n.client)
  unfolding resend_syn send_syn write raw
  ask_resend n await_delivery at v = (n.client, refl, still-Asks n v)
  ask_resend n (received text) at v = (n.client, refl, still-Asks n v)
  ask_resend n await_synack at v =
      let k = n.client.client in
      let seq : k.endpoint.seq_num ≡ 0 =
        subst (λ p. ClientPhase a c req resp world world' p k) at v.client_phase in
      let e : Endpoint = record (k.endpoint) {
        written = k.endpoint.written ++ (signal PacketType.syn a ∷ []);
      } in
      (
        record (n.client) { client = record k { endpoint = e } },
        rw (v.client_peer, seq) refl,
        record {
          phase = ClientPhase-same n.client.phase k (record k { endpoint = e }) refl v.client_phase;
          peer = v.client_peer;
          request_text = v.client_request;
          told = v.client_told;
          response = v.response_flow;
          request =
              IsFlow-endpoint c a req (is_asking n.client.phase) k.endpoint e
                n.server.server.endpoint.receiver_window n.server.checker refl refl v.request_flow;
          grows = λ j q h. h;
          on = λ h. h;
          more = signal PacketType.syn a ∷ [];
          wrote = refl;
          legit = (inl refl, tt);
        },
      )

  pub ask_timeout :
      (n : Network W)
      → IsNetwork a c req resp world world' n
      → AsksWell n (step n.client Client.timeout)
  unfolding step
  ask_timeout n v = ask_resend n n.client.phase refl v
