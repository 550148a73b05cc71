-- ===== src/Network/ClientMain.antt =====
-- The turns of the client's main.
use mathlib.Core.Path.{subst}
use mathlib.Core.List.{append-nil}
use comp6461_computer_networ.Base.{ℕ, ◌*◌, ◌≤◌, ◌≡◌, inl, inr, refl, sym, ap, ◌∙◌, arith}
use comp6461_computer_networ.Base.{
  true, false, some, List, [], map, length, get_elem?, All-map, Bool-cases, Option-cases,
}
use comp6461_computer_networ.Packet.{UdpAddr, raw_to, max_payload}
use comp6461_computer_networ.Endpoint.{Endpoint}
use comp6461_computer_networ.Endpoint.Reassembly.{get_packets_request}
use comp6461_computer_networ.Endpoint.Delivery.{IsFound}
use comp6461_computer_networ.Endpoint.Send.{sent_all, sent_all_fields, sent_all_message}
use comp6461_computer_networ.Endpoint.Segments.{length-request_chunks, length-request_packets}
use comp6461_computer_networ.Client.{
  Phase, await_synack, await_delivery, received, established, proceed,
}
use comp6461_computer_networ.Link.Invariant.{packets, data_start}
use comp6461_computer_networ.Network.{Network}
use comp6461_computer_networ.Network.Flow.{IsFlow, IsFlow-endpoint, IsFlow-same}
use comp6461_computer_networ.Network.Arrivals.{send-IsFlow}
use comp6461_computer_networ.Network.Invariant.{is_answering, is_asking, ClientPhase, IsNetwork}
use comp6461_computer_networ.Network.ClientTurns.{AsksWell, still-Asks, unasked}

module _ {W : Type 0} (a c : UdpAddr) (req resp : List ℕ) (world world' : W) where
  proceed_synack :
      (n : Network W)
      → n.client.phase ≡ await_synack
      → length req ≤ 1022 * max_payload
      → IsNetwork a c req resp world world' n
      → AsksWell a c req resp world world' n (proceed await_synack n.client)
  unfolding proceed
  proceed_synack n at small v = elim (Option-cases n.client.client.handshake_synack) [
    | inl empty ↦ (n.client, rw empty refl, still-Asks a c req resp world world' n v)
    | inr (p, got) ↦
        let k = n.client.client in
        let zero_yet : k.endpoint.seq_num ≡ 0 =
          subst (λ p. ClientPhase a c req resp world world' p k) at v.client_phase in
        let w = n.server.server.endpoint.receiver_window in
        let e = (established k).endpoint in
        let one : e.seq_num ≡ 1 = omega arith in
        let old = unasked a c req resp world world' n v (ap is_asking at) in
        let flow =
          IsFlow-same c a req false k.endpoint e w n.server.checker refl
            (omega arith, old.sending.1) old in
        let (sends, out) = send-IsFlow c a req e w n.server.checker flow one v.client_peer small in
        let ps = packets c a req in
        let few = length-request_chunks req small in
        let count = length-request_packets (some a) 1 req in
        let (_, peer, window, _, wrote) = sent_all_fields a ps e (omega arith) in
        let e' = sent_all a e ps in
        (
          record (n.client) {
            client = record (established k) { endpoint = e' };
            phase = await_delivery;
          },
          rw (got, v.client_request, sends) refl,
          record {
            phase = tt;
            peer = peer ∙ v.client_peer;
            request_text = v.client_request;
            told = λ h. v.client_told (sym (sent_all_message a ps e) ∙ h);
            response =
                subst
                  (λ x.
                    IsFlow a c resp (is_answering n.server.phase) n.server.server.endpoint x
                      n.client.checker)
                  (sym window) v.response_flow;
            request = out;
            grows = λ j q h. ap (λ x. get_elem? x j) window ∙ h;
            on = λ _. refl;
            more = map (λ p. raw_to p a) ps;
            wrote = wrote;
            legit =
                All-map (λ bytes d. inr (inr (inr (refl, d)))) _
                  (data_start c a req ps (λ k p h. (k, h)));
          },
        )
  ]

  proceed_delivery :
      (n : Network W)
      → n.client.phase ≡ await_delivery
      → IsNetwork a c req resp world world' n
      → AsksWell a c req resp world world' n (proceed await_delivery n.client)
  unfolding proceed
  proceed_delivery n at v = elim (Bool-cases n.client.client.endpoint.delivery_message) [
    | inr none_yet ↦ (n.client, rw none_yet refl, still-Asks a c req resp world world' n v)
    | inl told ↦
        let k = n.client.client in
        let e : Endpoint = record (k.endpoint) { delivery_message = false } in
        let all =
          subst (IsFound a (some c) resp e.receiver_window) (v.client_told told)
            v.response_flow.receiving.found in
        let whole = get_packets_request a (some c) 1 resp e.receiver_window all in
        (
          record (n.client) { client = record k { endpoint = e }; phase = received resp },
          rw (told, whole) refl,
          record {
            phase = refl;
            peer = v.client_peer;
            request_text = v.client_request;
            told = λ h. cc;
            response = v.response_flow;
            request =
                IsFlow-endpoint c a req true k.endpoint e n.server.server.endpoint.receiver_window
                  n.server.checker refl refl
                  (subst
                    (λ b.
                      IsFlow c a req b k.endpoint n.server.server.endpoint.receiver_window
                        n.server.checker)
                    (ap is_asking at) v.request_flow);
            grows = λ j q h. h;
            on = λ _. refl;
            more = [];
            wrote = sym (append-nil e.written);
            legit = tt;
          },
        )
  ]

  pub proceed-Asks :
      (n : Network W) (p : Phase)
      → n.client.phase ≡ p
      → length req ≤ 1022 * max_payload
      → IsNetwork a c req resp world world' n
      → AsksWell a c req resp world world' n (proceed p n.client)
  unfolding proceed
  proceed-Asks n await_synack at small v = proceed_synack n at small v
  proceed-Asks n await_delivery at small v = proceed_delivery n at v
  proceed-Asks n (received text) at small v =
      (n.client, refl, still-Asks a c req resp world world' n v)
