-- ===== src/Network/Completes.antt =====
-- A schedule without losses, from the starts of both programs to the response at the client.
use comp6461_computer_networ.Base.{
  ℕ, suc, ◌*◌, ◌≤◌, ◌≡◌, refl, sym, ap, ◌∙◌, arith, false, none, some, List, [], ◌∷◌, ◌++◌, map,
  length, get_elem?, get_elem?-append, get_elem?-map, Go, ok, ◌>>=◌, All, All-append,
}
use comp6461_computer_networ.Packet.{UdpAddr, Packet, raw, raw_to, max_payload}
use comp6461_computer_networ.Packet.PacketType
use comp6461_computer_networ.Packet.RoundTrip.{IsUdp4}
use mathlib.Core.Path.{subst}
use comp6461_computer_networ.Window.{WindowElement, make_window, length-make_window}
use comp6461_computer_networ.Endpoint.{Endpoint, write, looking}
use comp6461_computer_networ.Endpoint.Segments.{request_packets}
use comp6461_computer_networ.Endpoint.Signal.{signal}
use comp6461_computer_networ.Endpoint.Receiver
use comp6461_computer_networ.Endpoint.Receiver.{checks}
use comp6461_computer_networ.Endpoint.Content.{IsContent, incoming-IsContent}
use comp6461_computer_networ.Endpoint.Exchange.{transfer, put_out}
use comp6461_computer_networ.Exchange.{in_order, in_order-Delivers}
use comp6461_computer_networ.Server
use comp6461_computer_networ.Server.{System, await_acks, init_endpoint, init_http_server}
use comp6461_computer_networ.Server.Handshake.{synacks, greeted, linked, run-syn, run-ack}
use comp6461_computer_networ.Server.Transfer as ServerTransfer
use comp6461_computer_networ.Server.Answer.{run-answer, answered as server_answered}
use comp6461_computer_networ.Client
use comp6461_computer_networ.Client.{
  Session, await_synack, received, boot, init_http_client, send_syn,
}
use comp6461_computer_networ.Client.Handshake.{ready, sent_session, run-connect}
use comp6461_computer_networ.Client.Transfer as ClientTransfer
use comp6461_computer_networ.Client.Response.{same_fresh, run-response, answered as client_answered}
use comp6461_computer_networ.Network.Rounds.{
  then_run, serve_turn, ask_turn, serve_checks, ask_checks, shake_at_server, shake_at_client,
}
use comp6461_computer_networ.Link.Wire.{request_packets-IsPacket}
use comp6461_computer_networ.Network.{
  Network, Move, to_server, to_client, serve, ask, check, main_turn, run, start,
}
use comp6461_computer_networ.Network.Schedule.{
  to_servers, to_clients, IsSent, StandsAt, run-to_servers, run-to_clients,
}

-- Every packet of a text goes to its receiver.
request_packets-IsSent :
    (from to : UdpAddr) (text : List ℕ)
    → length text ≤ 1022 * max_payload
    → All (IsSent to) (request_packets (some to) 1 text)
request_packets-IsSent from to text small = all (request_packets (some to) 1 text) λ k p at.
    let h = request_packets-IsPacket from to text k p small at in
    record { wire = h.wire; to_addr = h.to }
  where
    all :
        (ps : List Packet)
        → ((k : ℕ) (p : Packet) → get_elem? ps k ≡ some p → IsSent to p)
        → All (IsSent to) ps
    all [] h = tt
    all (p ∷ ps) h = (h 0 p refl, all ps λ k. h (suc k))

-- What is written behind `old`.
StandsAt-append :
    (to : UdpAddr) (old : List (List ℕ)) (ps : List Packet)
    → StandsAt to (old ++ map (λ p. raw_to p to) ps) (length old) ps
StandsAt-append to old ps j k p e at =
    ap (get_elem? (old ++ map (λ q. raw_to q to) ps)) e
    ∙ get_elem?-append old (map (λ q. raw_to q to) ps) k
    ∙ get_elem?-map ps (λ q. raw_to q to) k p at

module _ {W : Type 0} (handle_request : W → List ℕ → Go (List ℕ × W)) (a c : UdpAddr)
    (va : IsUdp4 a) (vc : IsUdp4 c) (req resp : List ℕ) (world world' : W)
    (small : length req ≤ 1022 * max_payload) (fits : length resp ≤ 1022 * max_payload)
    (handled : handle_request world req ≡ ok (resp, world')) where
  -- The connected server gets the request, and main answers.
  pub record Answers (k : Session) : Type 0 where
    pub moves : List Move
    pub after : System W
    pub returns :
        run handle_request a c
          (record { server = linked handle_request world c (synacks c 1); client = k })
          moves
        ≡ ok (record { server = after; client = k })
    pub waits : after.phase ≡ await_acks
    pub stored : after.world ≡ world'
    pub place : ℕ
    pub stands : StandsAt c after.server.endpoint.written place (request_packets (some c) 1 resp)

  server_side :
      (k : Session)
      → StandsAt a k.client.endpoint.written 2 (request_packets (some a) 1 req)
      → Answers k
  unfolding linked init_endpoint init_http_server server_answered
  server_side k stands =
      let y = linked handle_request world c (synacks c 1) in
      let d = in_order-Delivers c a req in
      let vs = in_order c a req in
      let t = transfer c (some a) req y.server.endpoint vs small d.only d.every in
      let es = vs ++ (checks ∷ checks ∷ []) in
      let content =
        All-append (IsContent c) vs _ (incoming-IsContent c (some a) req vs small d.only)
          (tt, (tt, tt)) in
      let moved =
        ServerTransfer.run-turns handle_request c es y t.after vc refl content t.returns in
      let e : Endpoint = record (t.after.endpoint) { delivery_message = false } in
      let size : length e.sender_window ≡ 1024 =
        ap length t.sender.sender ∙ length-make_window WindowElement in
      let out = put_out c e resp t.sender.seq t.sender.peer size fits in
      let ps = request_packets (some a) 1 req in
      let n : Network W = record { server = y; client = k } in
      let held = ServerTransfer.holding handle_request y t.after in
      let (x, came, looked) =
        run-to_servers handle_request a c va vc ps 2 n held (checks ∷ checks ∷ []) stands
          (request_packets-IsSent c a req small) moved in
      let z = server_answered handle_request held out.after world' in
      let answers =
        run-answer handle_request held req resp world' out.after refl t.told t.whole handled
          out.returns in
      let checked =
        serve_checks handle_request a c va vc (record { server = x; client = k }) held looked in
      let last =
        serve_turn handle_request a c va vc (record { server = held; client = k }) main_turn z refl
          answers in
      record {
        moves = to_servers 2 ps ++ ((serve check ∷ serve check ∷ []) ++ (serve main_turn ∷ []));
        after = z;
        returns = then_run handle_request a c va vc (to_servers 2 ps) _ n _ _ came (
            then_run handle_request a c va vc (serve check ∷ serve check ∷ [])
              (serve main_turn ∷ []) _ _ _ checked last);
        waits = refl;
        stored = refl;
        place = length e.written;
        stands =
            subst (λ w. StandsAt c w (length e.written) (request_packets (some c) 1 resp))
              (sym out.wrote) (StandsAt-append c e.written (request_packets (some c) 1 resp));
      }

  -- The client gets the response.
  client_side :
      (e : Endpoint) (y : System W) (i : ℕ)
      → e.receiver_window ≡ make_window
      → StandsAt c y.server.endpoint.written i (request_packets (some c) 1 resp)
      → (ms : List Move) × (z : Session) × (run handle_request a c
            (record { server = y; client = sent_session req e })
            ms
          ≡ ok (record { server = y; client = z }))
        × (z.phase ≡ received resp)
  unfolding client_answered
  client_side e y i empty stands =
      let s = sent_session req e in
      let d = in_order-Delivers a c resp in
      let vs = in_order a c resp in
      let t = transfer a (some c) resp e vs fits d.only d.every in
      let es = vs ++ (checks ∷ checks ∷ []) in
      let content =
        All-append (IsContent a) vs _ (incoming-IsContent a (some c) resp vs fits d.only)
          (tt, (tt, tt)) in
      let moved =
        ClientTransfer.run-turns a es s t.after va content
          (ap (λ r. Receiver.run r es) (same_fresh req e empty) ∙ t.returns) in
      let qs = request_packets (some c) 1 resp in
      let n : Network W = record { server = y; client = s } in
      let held = ClientTransfer.holding s t.after in
      let (x, came, looked) =
        run-to_clients handle_request a c va vc qs i n held (checks ∷ checks ∷ []) stands
          (request_packets-IsSent a c resp fits) moved in
      let z = client_answered held resp in
      let checked =
        ask_checks handle_request a c va vc (record { server = y; client = x }) held looked in
      let last =
        ask_turn handle_request a c va vc (record { server = y; client = held }) main_turn z
          (run-response held resp refl t.told t.whole) in
      (
        to_clients i qs ++ ((ask check ∷ ask check ∷ []) ++ (ask main_turn ∷ [])),
        z,
        then_run handle_request a c va vc (to_clients i qs) _ n _ _ came (
            then_run handle_request a c va vc (ask check ∷ ask check ∷ []) (ask main_turn ∷ []) _ _
              _ checked last),
        refl,
      )

  -- From the starts of both programs there are moves after which the client has the response.
  pub exchange_completes :
      (ms : List Move) × (n : Network W) × ((start a world req >>= λ m. run handle_request a c m ms)
        ≡ ok n)
      × (n.client.phase ≡ received resp)
      × (n.server.phase ≡ await_acks)
      × (n.server.world ≡ world')
  unfolding start boot send_syn init_http_client write raw Server.boot init_http_server
      init_endpoint greeted Client.run Server.run
  exchange_completes =
      let out = put_out a (ready a) req refl refl (length-make_window WindowElement) small in
      let sent = sent_session req out.after in
      let y : System W = Server.boot world in
      let greet = greeted handle_request world c (synacks c 1) in
      let link = linked handle_request world c (synacks c 1) in
      let k : Session = record {
        client = record (init_http_client a) {
          endpoint = record ((init_http_client a).endpoint) {
            written = signal PacketType.syn a ∷ [];
          };
        };
        checker = looking none;
        phase = await_synack;
        request = req;
      } in
      let n0 : Network W = record { server = y; client = k } in
      let n1 : Network W = record { server = greet; client = k } in
      let n2 : Network W = record { server = greet; client = sent } in
      let n3 : Network W = record { server = link; client = sent } in
      let syn =
        shake_at_server handle_request a c va vc n0 0 PacketType.syn greet refl (omega arith) refl
          (run-syn handle_request world c [] vc) in
      let synack =
        shake_at_client handle_request a c va vc n1 0 PacketType.synack sent refl (omega arith)
          (run-connect a req out.after [] va out.returns) in
      let ack =
        shake_at_server handle_request a c va vc n2 1 PacketType.ack link
          (ap (λ w. get_elem? w 1) out.wrote) (omega arith) refl
          (run-ack handle_request world c (synacks c 1) [] vc) in
      let answers = server_side sent (
        subst (λ w. StandsAt a w 2 (request_packets (some a) 1 req)) (sym out.wrote)
          (StandsAt-append a (ready a).written (request_packets (some a) 1 req))) in
      let (ms, z, ends, has) =
        client_side out.after answers.after answers.place out.receiver answers.stands in
      (
        _,
        record { server = answers.after; client = z },
        then_run handle_request a c va vc (to_server 0 ∷ serve main_turn ∷ []) _ n0 n1 _ syn (
            then_run handle_request a c va vc (to_client 0 ∷ ask main_turn ∷ []) _ n1 n2 _ synack (
              then_run handle_request a c va vc (to_server 1 ∷ serve main_turn ∷ []) _ n2 n3 _ ack
                (then_run handle_request a c va vc answers.moves ms n3 _ _ answers.returns ends))),
        has,
        answers.waits,
        answers.stored,
      )
