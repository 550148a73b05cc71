-- ===== src/Network/ServerHears.antt =====
-- What each datagram of the client does at the server.
use mathlib.Core.Path.{subst}
use mathlib.Core.Option.{some-injective}
use comp6461_computer_networ.Base.{ℕ, suc, ◌≤◌, ◌≡◌, inl, inr, refl, sym, ap, ◌∙◌, arith}
use comp6461_computer_networ.Base.{
  true, false, none, some, List, [], ◌∷◌, ◌++◌, length, get_elem?, Go, ok,
}
use comp6461_computer_networ.Packet.{UdpAddr, Packet, parse_packet}
use comp6461_computer_networ.Packet.RoundTrip.{arrived}
use comp6461_computer_networ.Endpoint.{Endpoint, is_content, receive_content}
use comp6461_computer_networ.Endpoint.Arrival.{ack_bytes, kept, kept_filled}
use comp6461_computer_networ.Endpoint.Delivery.{part}
use comp6461_computer_networ.Endpoint.Segments.{request_chunks}
use comp6461_computer_networ.Server
use comp6461_computer_networ.Server.{
  System, HttpServer, receive_ack, receive_handshake, receive_packet, receive, step, Phase,
  await_syn, await_ack, await_delivery, await_acks,
}
use comp6461_computer_networ.Server.Invariant.{receive_handshake_connect, receive_handshake_syn}
use comp6461_computer_networ.Server.Receive.{is_ack}
use comp6461_computer_networ.Link.Wire.{IsPacket, answer}
use comp6461_computer_networ.Link.Invariant.{packets, HasArrived}
use comp6461_computer_networ.Link.Sender.{receive_ack-Continues}
use comp6461_computer_networ.Network.{Network}
use comp6461_computer_networ.Network.Flow.{IsFlow, IsFlow-endpoint}
use comp6461_computer_networ.Network.Arrivals.{arrives-IsFlow}
use comp6461_computer_networ.Network.Invariant.{
  is_answering, is_asking, ServerPhase, IsNetwork, Serves,
}
use comp6461_computer_networ.Network.ServerTurns.{
  ServesWell, still-Serves, ServerPhase-same, Continues-Serves,
}

receive_ack_other : (e : Endpoint) (p : Packet) → is_ack p ≡ false → receive_ack e p ≡ ok e
unfolding receive_ack
receive_ack_other e p other = ground arith

receive_content_other :
    (e : Endpoint) (p : Packet) → is_content p ≡ false → receive_content e p ≡ ok e
unfolding receive_content
receive_content_other e p other = ground arith

module _ {W : Type 0} (handle_request : W → List ℕ → Go (List ℕ × W)) (a c : UdpAddr)
    (req resp : List ℕ) (world world' : W) where
  ServerPhase-connect :
      (p : Phase) (s t : HttpServer) (w : W)
      → t.endpoint ≡ s.endpoint
      → t.connect ≡ s.connect
      → ServerPhase a c req resp world world' p s w
      → ServerPhase a c req resp world world' p t w
  ServerPhase-connect await_syn s t w e on (h, i, j, k) =
      (ap (λ x. x.seq_num) e ∙ h, ap (λ x. x.peer) e ∙ i, on ∙ j, k)
  ServerPhase-connect await_ack s t w e on (h, i, j, k) =
      (ap (λ x. x.seq_num) e ∙ h, ap (λ x. x.peer) e ∙ i, on ∙ j, k)
  ServerPhase-connect await_delivery s t w e on (h, i, j, k) =
      (ap (λ x. x.seq_num) e ∙ h, ap (λ x. x.peer) e ∙ i, on ∙ j, k)
  ServerPhase-connect await_acks s t w e on (j, k) = (on ∙ j, k)

  -- The handshake channels beside what happens to the endpoint.
  handshake-Serves :
      (n : Network W) (e : Endpoint) (p : Packet)
      → IsNetwork a c req resp world world' n
      → p.from_addr ≡ some c
      → Serves a c req resp world world' n
          (record (n.server) { server = record (n.server.server) { endpoint = e } })
      → Serves a c req resp world world' n (record (n.server) {
        server = record (receive_handshake n.server.server p) { endpoint = e };
      })
  handshake-Serves n e p v from s = record {
    phase =
        ServerPhase-connect n.server.phase (record (n.server.server) { endpoint = e })
          (record (receive_handshake n.server.server p) { endpoint = e }) n.server.world refl
          (receive_handshake_connect n.server.server p) s.phase;
    syn = λ q at. elim (receive_handshake_syn n.server.server p) [
      | inl same ↦ v.server_syn q (sym same ∙ at)
      | inr new ↦ subst (λ x. x.from_addr ≡ some c) (some-injective p q (sym new ∙ at)) from
    ];
    told = s.told;
    request = s.request;
    response = s.response;
    grows = s.grows;
    on = s.on;
    more = s.more;
    wrote = s.wrote;
    legit = s.legit;
  }

  -- The whole turn, from what it does to the endpoint.
  heard :
      (n : Network W) (e e' : Endpoint) (p : Packet) (out : List ℕ)
      → IsNetwork a c req resp world world' n
      → parse_packet out ≡ ok (some p, none)
      → p.from_addr ≡ some c
      → receive_ack n.server.server.endpoint p ≡ ok e
      → receive_content e p ≡ ok e'
      → Serves a c req resp world world' n
          (record (n.server) { server = record (n.server.server) { endpoint = e' } })
      → ServesWell handle_request a c req resp world world' n
          (step handle_request n.server (Server.datagram out))
  unfolding step receive receive_packet
  heard n e e' p out v parsed from acked kept s = (
    record (n.server) { server = record (receive_handshake n.server.server p) { endpoint = e' } },
    rw (parsed, acked, kept) refl,
    handshake-Serves n e' p v from s,
  )

  -- A packet that is neither an acknowledgement nor content leaves the endpoint as it is.
  pub hears_signal :
      (n : Network W) (p : Packet) (out : List ℕ)
      → IsNetwork a c req resp world world' n
      → parse_packet out ≡ ok (some p, none)
      → p.from_addr ≡ some c
      → is_ack p ≡ false
      → is_content p ≡ false
      → ServesWell handle_request a c req resp world world' n
          (step handle_request n.server (Server.datagram out))
  hears_signal n p out v parsed from no_ack no_content =
      let e = n.server.server.endpoint in
      heard n e e p out v parsed from (receive_ack_other e p no_ack)
        (receive_content_other e p no_content)
        (still-Serves handle_request a c req resp world world' n v)

  -- The acknowledgement of a packet of the response that has arrived.
  pub hears_answer :
      (n : Network W) (k : ℕ) (p : Packet) (out : List ℕ)
      → IsNetwork a c req resp world world' n
      → parse_packet out ≡ ok (some (answer (suc k) c a), none)
      → is_answering n.server.phase ≡ true
      → get_elem? (packets a c resp) k ≡ some p
      → k ≤ length (request_chunks resp)
      → HasArrived a c resp n.client.client.endpoint.receiver_window k p
      → ServesWell handle_request a c req resp world world' n
          (step handle_request n.server (Server.datagram out))
  hears_answer n k p out v parsed on at place there =
      let e = n.server.server.endpoint in
      let w = n.client.client.endpoint.receiver_window in
      let flow : IsFlow a c resp true e w n.client.checker =
        subst (λ b. IsFlow a c resp b e w n.client.checker) on v.response_flow in
      let (x, slot) = flow.sending.1 k place in
      let (e', acked, s, _) =
        receive_ack-Continues a c resp w e k p x v.response_flow.only at there slot in
      heard n e' e' (answer (suc k) c a) out v parsed refl acked
        (receive_content_other e' (answer (suc k) c a) refl)
        (Continues-Serves handle_request a c req resp world world' n e' v on s)

  -- A packet of the request.
  pub hears_content :
      (n : Network W) (i : ℕ) (p : Packet) (out : List ℕ)
      → IsNetwork a c req resp world world' n
      → parse_packet out ≡ ok (some (arrived p c), none)
      → is_asking n.client.phase ≡ true
      → get_elem? (packets c a req) i ≡ some p
      → IsPacket c a req i p
      → ServesWell handle_request a c req resp world world' n
          (step handle_request n.server (Server.datagram out))
  hears_content n i p out v parsed on at s =
      let e = n.server.server.endpoint in
      let q = arrived p c in
      let w = n.client.client.endpoint.receiver_window in
      let (kept_it, flow, there) =
        arrives-IsFlow c a req (is_asking n.client.phase) n.client.client.endpoint e
          n.server.checker i p v.request_flow at s in
      let content = (part c (some a) req i q s.comes).content in
      let e' : Endpoint = record e {
        receiver_window = kept e.receiver_window (suc i) q;
        written = e.written ++ (ack_bytes (suc i) c ∷ []);
      } in
      let no_ack : is_ack q ≡ false = ground arith in
      heard n e e' q out v parsed refl (receive_ack_other e q no_ack) kept_it (record {
        phase =
            ServerPhase-same handle_request a c req resp world world' n.server.phase n.server.server
              e' n.server.world refl refl v.server_phase;
        syn = v.server_syn;
        told = v.server_told;
        request = flow;
        response =
            IsFlow-endpoint a c resp (is_answering n.server.phase) e e' w n.client.checker refl refl
              v.response_flow;
        grows = λ j x h. kept_filled e.receiver_window (suc i) j q x h;
        on = λ h. h;
        more = ack_bytes (suc i) c ∷ [];
        wrote = refl;
        legit = (inr (inl (on, (i, p, at, refl, there))), tt);
      })
