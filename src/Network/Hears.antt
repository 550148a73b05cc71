-- ===== src/Network/Hears.antt =====
-- What becomes of a datagram that one program has written, at the other.
use comp6461_computer_networ.Base.{ℕ, suc, ◌*◌, ◌≤◌, ◌≡◌, inl, inr, refl, ap, ◌∙◌, arith}
use comp6461_computer_networ.Base.{some, List, length, Go, ok}
use comp6461_computer_networ.Packet.{UdpAddr, max_payload}
use comp6461_computer_networ.Packet.PacketType
use comp6461_computer_networ.Packet.RoundTrip.{IsUdp4}
use comp6461_computer_networ.Endpoint.Segments.{length-request_chunks}
use comp6461_computer_networ.Server
use comp6461_computer_networ.Server.{System, init_endpoint, init_http_server, Phase}
use comp6461_computer_networ.Client
use comp6461_computer_networ.Client.{Session, init_http_client, send_syn}
use comp6461_computer_networ.Link.Wire.{request_packets-IsPacket}
use comp6461_computer_networ.Network.{Network, carried}
use comp6461_computer_networ.Network.Carried.{carried-raw_to, carried-control}
use comp6461_computer_networ.Network.Invariant.{
  is_answering, is_asking, IsServerDatum, IsClientDatum, IsNetwork,
}
use comp6461_computer_networ.Network.ServerTurns.{ServesWell}
use comp6461_computer_networ.Network.ServerHears
use comp6461_computer_networ.Network.ClientTurns.{AsksWell}
use comp6461_computer_networ.Network.ClientHears

module _ {W : Type 0} (handle_request : W → List ℕ → Go (List ℕ × W)) (a c : UdpAddr)
    (req resp : List ℕ) (world world' : W) where
  module _ (va : IsUdp4 a) (vc : IsUdp4 c) (small : length req ≤ 1022 * max_payload)
      (fits : length resp ≤ 1022 * max_payload)
      (handled : handle_request world req ≡ ok (resp, world')) where
    -- What the server does with any datagram that the client has written.
    pub server_hears :
        (n : Network W) (bytes : List ℕ)
        → IsNetwork a c req resp world world' n
        → IsClientDatum a c req resp world world'
            (is_asking n.client.phase)
            (is_answering n.server.phase)
            n.client.client.endpoint.receiver_window
            bytes
        → (out : List ℕ) × (carried c bytes ≡ ok (some out))
          × ServesWell handle_request a c req resp world world' n
              (Server.step handle_request n.server (Server.datagram out))
    server_hears n bytes v (inl same) =
        let (out, came, parsed) =
          carried-control PacketType.syn 0 c a vc va (omega arith) (omega arith) in
        (
          out,
          ap (carried c) same ∙ came,
          ServerHears.hears_signal handle_request a c req resp world world' n _ out v parsed refl
              refl refl,
        )
    server_hears n bytes v (inr (inl same)) =
        let (out, came, parsed) =
          carried-control PacketType.ack 0 c a vc va (omega arith) (omega arith) in
        (
          out,
          ap (carried c) same ∙ came,
          ServerHears.hears_signal handle_request a c req resp world world' n _ out v parsed refl
              refl refl,
        )
    server_hears n bytes v (inr (inr (inl (on, (k, p, at, same, there))))) =
        let s = request_packets-IsPacket a c resp k p fits at in
        let few = length-request_chunks resp fits in
        let (out, came, parsed) =
          carried-control PacketType.ack (suc k) c a vc va (omega arith) (omega (arith, s.place)) in
        (
          out,
          ap (carried c) same ∙ came,
          ServerHears.hears_answer handle_request a c req resp world world' n k p out v parsed on at
              s.place there,
        )
    server_hears n bytes v (inr (inr (inr (on, (k, p, at, same))))) =
        let s = request_packets-IsPacket c a req k p small at in
        let (out, came, parsed) = carried-raw_to p c a vc va s.wire s.to in
        (
          out,
          ap (carried c) same ∙ came,
          ServerHears.hears_content handle_request a c req resp world world' n k p out v parsed on
              at s,
        )

    -- What the client does with any datagram that the server has written.
    pub client_hears :
        (n : Network W) (bytes : List ℕ)
        → IsNetwork a c req resp world world' n
        → IsServerDatum a c req resp world world'
            (is_asking n.client.phase)
            (is_answering n.server.phase)
            n.server.server.endpoint.receiver_window
            bytes
        → (out : List ℕ) × (carried a bytes ≡ ok (some out))
          × AsksWell a c req resp world world' n (Client.step n.client (Client.datagram out))
    client_hears n bytes v (inl same) =
        let (out, came, parsed) =
          carried-control PacketType.synack 0 a c va vc (omega arith) (omega arith) in
        (
          out,
          ap (carried a) same ∙ came,
          ClientHears.hears_synack a c req resp world world' n out v parsed,
        )
    client_hears n bytes v (inr (inl (on, (k, p, at, same, there)))) =
        let s = request_packets-IsPacket c a req k p small at in
        let few = length-request_chunks req small in
        let (out, came, parsed) =
          carried-control PacketType.ack (suc k) a c va vc (omega arith) (omega (arith, s.place)) in
        (
          out,
          ap (carried a) same ∙ came,
          ClientHears.hears_answer a c req resp world world' n k p out v parsed on at s.place there,
        )
    client_hears n bytes v (inr (inr (on, (k, p, at, same)))) =
        let s = request_packets-IsPacket a c resp k p fits at in
        let (out, came, parsed) = carried-raw_to p a c va vc s.wire s.to in
        (
          out,
          ap (carried a) same ∙ came,
          ClientHears.hears_content a c req resp world world' n k p out v parsed on at s,
        )
