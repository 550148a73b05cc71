-- ===== src/Network/ClientHears.antt =====
-- What each datagram of the server does at the client.
use mathlib.Core.Path.{subst}
use comp6461_computer_networ.Base.{ℕ, suc, ◌≤◌, ◌≡◌, ◌⊎◌, inl, inr, refl, ◌∙◌, arith}
use comp6461_computer_networ.Base.{
  true, false, none, some, List, [], ◌∷◌, ◌++◌, length, get_elem?, ok, is_nil, if◌then◌else◌,
}
use comp6461_computer_networ.Packet.{UdpAddr, Packet, parse_packet, raw}
use comp6461_computer_networ.Packet.PacketType
use comp6461_computer_networ.Packet.RoundTrip.{arrived}
use comp6461_computer_networ.Window.{WindowElement}
use comp6461_computer_networ.Endpoint.{Endpoint, control, is_content, receive_content, write}
use comp6461_computer_networ.Endpoint.Arrival.{ack_bytes, kept, kept_filled}
use comp6461_computer_networ.Endpoint.Delivery.{part}
use comp6461_computer_networ.Endpoint.Segments.{request_chunks}
use comp6461_computer_networ.Endpoint.Signal.{signal}
use comp6461_computer_networ.Server
use comp6461_computer_networ.Client
use comp6461_computer_networ.Client.{
  Session, HttpClient, receive_synack, receive_ack, receive_packet, receive, step,
}
use comp6461_computer_networ.Link.Wire.{IsPacket, answer}
use comp6461_computer_networ.Link.Invariant.{packets, HasArrived}
use comp6461_computer_networ.Link.Sender.{receive_ack-Continues}
use comp6461_computer_networ.Network.{Network}
use comp6461_computer_networ.Network.Flow.{IsFlow, IsFlow-endpoint}
use comp6461_computer_networ.Network.Arrivals.{arrives-IsFlow}
use comp6461_computer_networ.Network.Invariant.{is_answering, is_asking, IsNetwork}
use comp6461_computer_networ.Network.ClientTurns.{AsksWell, ClientPhase-same, Continues-Asks}

-- For a number that was sent, the client takes an acknowledgement as the server does.
receive_ack_sent :
    (e : Endpoint) (k : ℕ) (from to : UdpAddr) (x : WindowElement)
    → get_elem? e.sender_window (suc k) ≡ some (some x)
    → receive_ack e (answer (suc k) from to) ≡ Server.receive_ack e (answer (suc k) from to)
unfolding receive_ack Server.receive_ack
receive_ack_sent e k from to x at = ground arith

receive_synack_other :
    (k : HttpClient) (p : Packet)
    → (p.type ≡ PacketType.ack) ⊎ (is_content p ≡ true)
    → receive_synack k p ≡ ok k
unfolding receive_synack
receive_synack_other k p h = ground (arith, h)

receive_ack_other : (e : Endpoint) (p : Packet) → is_content p ≡ true → receive_ack e p ≡ ok e
unfolding receive_ack
receive_ack_other e p content = ground arith

receive_content_other :
    (e : Endpoint) (p : Packet) → is_content p ≡ false → receive_content e p ≡ ok e
unfolding receive_content
receive_content_other e p other = ground arith

module _ {W : Type 0} (a c : UdpAddr) (req resp : List ℕ) (world world' : W) where
  -- A SYN-ACK, at whatever time it comes.
  pub hears_synack :
      (n : Network W) (out : List ℕ)
      → IsNetwork a c req resp world world' n
      → parse_packet out ≡ ok (some (arrived (control PacketType.synack 0 (some c)) a), none)
      → AsksWell a c req resp world world' n (step n.client (Client.datagram out))
  unfolding step receive receive_packet receive_synack receive_ack receive_content write raw
  hears_synack n out v parsed =
      let k = n.client.client in
      let p = arrived (control PacketType.synack 0 (some c)) a in
      let e : Endpoint = record (k.endpoint) {
        written = k.endpoint.written ++ (signal PacketType.ack a ∷ []);
      } in
      let k' : HttpClient = record {
        endpoint = e;
        handshake_synack = if is_nil k.handshake_synack then some p else k.handshake_synack;
      } in
      (
        record (n.client) { client = k' },
        rw (parsed, v.client_peer) refl,
        record {
          phase =
              ClientPhase-same a c req resp world world' n.client.phase k k' refl v.client_phase;
          peer = v.client_peer;
          request_text = v.client_request;
          told = v.client_told;
          response = v.response_flow;
          request =
              IsFlow-endpoint c a req (is_asking n.client.phase) k.endpoint e
                n.server.server.endpoint.receiver_window n.server.checker refl refl v.request_flow;
          grows = λ j q h. h;
          on = λ h. h;
          more = signal PacketType.ack a ∷ [];
          wrote = refl;
          legit = (inr (inl refl), tt);
        },
      )

  -- The acknowledgement of a packet of the request that has arrived.
  pub hears_answer :
      (n : Network W) (k : ℕ) (p : Packet) (out : List ℕ)
      → IsNetwork a c req resp world world' n
      → parse_packet out ≡ ok (some (answer (suc k) a c), none)
      → is_asking n.client.phase ≡ true
      → get_elem? (packets c a req) k ≡ some p
      → k ≤ length (request_chunks req)
      → HasArrived c a req n.server.server.endpoint.receiver_window k p
      → AsksWell a c req resp world world' n (step n.client (Client.datagram out))
  unfolding step receive receive_packet
  hears_answer n k p out v parsed on at place there =
      let e = n.client.client.endpoint in
      let w = n.server.server.endpoint.receiver_window in
      let q = answer (suc k) a c in
      let flow : IsFlow c a req true e w n.server.checker =
        subst (λ b. IsFlow c a req b e w n.server.checker) on v.request_flow in
      let (x, slot) = flow.sending.1 k place in
      let (e', acked, s, _) =
        receive_ack-Continues c a req w e k p x v.request_flow.only at there slot in
      let taken = receive_ack_sent e k a c x slot ∙ acked in
      (
        record (n.client) { client = record (n.client.client) { endpoint = e' } },
        rw
            (
              parsed,
              receive_synack_other n.client.client q (inl refl),
              taken,
              receive_content_other e' q refl,
            )
            refl,
        Continues-Asks a c req resp world world' n e' v on s,
      )

  -- A packet of the response.
  pub hears_content :
      (n : Network W) (i : ℕ) (p : Packet) (out : List ℕ)
      → IsNetwork a c req resp world world' n
      → parse_packet out ≡ ok (some (arrived p a), none)
      → is_answering n.server.phase ≡ true
      → get_elem? (packets a c resp) i ≡ some p
      → IsPacket a c resp i p
      → AsksWell a c req resp world world' n (step n.client (Client.datagram out))
  unfolding step receive receive_packet
  hears_content n i p out v parsed on at s =
      let k = n.client.client in
      let e = k.endpoint in
      let q = arrived p a in
      let (kept_it, flow, there) =
        arrives-IsFlow a c resp (is_answering n.server.phase) n.server.server.endpoint e
          n.client.checker i p v.response_flow at s in
      let content = (part a (some c) resp i q s.comes).content in
      let e' : Endpoint = record e {
        receiver_window = kept e.receiver_window (suc i) q;
        written = e.written ++ (ack_bytes (suc i) a ∷ []);
      } in
      (
        record (n.client) { client = record k { endpoint = e' } },
        rw (parsed, receive_synack_other k q (inr content), receive_ack_other e q content, kept_it)
            refl,
        record {
          phase =
              ClientPhase-same a c req resp world world' n.client.phase k
                (record k { endpoint = e' }) refl v.client_phase;
          peer = v.client_peer;
          request_text = v.client_request;
          told = v.client_told;
          response = flow;
          request =
              IsFlow-endpoint c a req (is_asking n.client.phase) e e'
                n.server.server.endpoint.receiver_window n.server.checker refl refl v.request_flow;
          grows = λ j x h. kept_filled e.receiver_window (suc i) j q x h;
          on = λ h. h;
          more = ack_bytes (suc i) a ∷ [];
          wrote = refl;
          legit = (inr (inr (inl (on, (i, p, at, refl, there)))), tt);
        },
      )
