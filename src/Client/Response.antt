-- ===== src/Client/Response.antt =====
-- The client from its start to the response: handshake, the request, the packets of the response,
-- the turn in which main takes them.
use comp6461_computer_networ.Base.{
  ℕ, ◌*◌, ◌≤◌, ◌≡◌, refl, ap, ◌∙◌, arith, true, false, Option, none, some, List, [], ◌∷◌, ◌++◌, map,
  length, get_elem?, ok, ◌>>=◌, All, All-append, >>=-eq-ok, ok_injective,
}
use comp6461_computer_networ.Packet.{UdpAddr, Packet, max_payload}
use comp6461_computer_networ.Packet.PacketType
use comp6461_computer_networ.Packet.RoundTrip.{IsUdp4}
use comp6461_computer_networ.Window.{Window, WindowElement, make_window, length-make_window}
use comp6461_computer_networ.Endpoint.{looking}
use comp6461_computer_networ.Endpoint.{Endpoint, get_packets}
use comp6461_computer_networ.Endpoint.Receiver
use comp6461_computer_networ.Endpoint.Receiver.{checks}
use comp6461_computer_networ.Endpoint.Delivery.{IsOneOf, incoming}
use comp6461_computer_networ.Endpoint.Complete.{Occurs, fresh}
use comp6461_computer_networ.Endpoint.Content.{IsContent, incoming-IsContent}
use comp6461_computer_networ.Endpoint.Exchange.{transfer, put_out}
use comp6461_computer_networ.Endpoint.Signal.{signal}
use comp6461_computer_networ.Client.{
  Session, Event, datagram, main_turn, await_delivery, received, boot, step, run, proceed,
}
use comp6461_computer_networ.Client.Handshake.{ready, sent_session, run-connect}
use comp6461_computer_networ.Client.Transfer.{turn, view, holding, run-turns}

run-append : (vs ws : List Event) (y z : Session) → run y vs ≡ ok z → run y (vs ++ ws) ≡ run z ws
unfolding run
run-append [] ws y z done = ap (λ x. run x ws) (ok_injective y z done)
run-append (v ∷ vs) ws y z done =
    let (x, first, rest) = >>=-eq-ok (step y v) _ done in rw first (run-append vs ws x z rest)

-- The session once main has taken the response.
unfoldable pub answered : Session → List ℕ → Session
answered y resp = record y {
  client = record (y.client) { endpoint = record (y.client.endpoint) { delivery_message = false } };
  phase = received resp;
}

pub run-response :
    (y : Session) (resp : List ℕ)
    → y.phase ≡ await_delivery
    → y.client.endpoint.delivery_message ≡ true
    → get_packets y.client.endpoint.receiver_window ≡ ok resp
    → run y (main_turn ∷ []) ≡ ok (answered y resp)
unfolding run step proceed answered
run-response y resp at told whole = ground arith

pub same_fresh :
    (req : List ℕ) (e : Endpoint)
    → e.receiver_window ≡ make_window
    → view (sent_session req e) ≡ fresh e
same_fresh req e same =
    let with_window : Window Packet → Receiver.Receiver =
      λ w. record { endpoint = record e { receiver_window = w }; checker = looking none } in
    ap with_window same

-- An IPv4 server address, a request and a response of at most 1022 times 1013 bytes. The client
-- starts and gets the SYN-ACK; main has a turn; then the datagrams of the response's packets come
-- in, each at least once, in any order and with repetitions, with rounds of the check between them;
-- the check makes two more rounds, and main has a turn. Nothing panics, and main has received
-- exactly the response.
pub client_gets :
    (a : UdpAddr) (to : Option UdpAddr) (req resp : List ℕ) (vs : List Receiver.Event)
    → IsUdp4 a
    → length req ≤ 1022 * max_payload
    → length resp ≤ 1022 * max_payload
    → All (IsOneOf (incoming a to resp)) vs
    → ((k : ℕ) (q : Packet) → get_elem? (incoming a to resp) k ≡ some q → Occurs q vs)
    → (y : Session) × ((boot a req >>= λ z. run z (
          datagram (signal PacketType.synack a)
          ∷ main_turn
          ∷ (map (turn a) (vs ++ (checks ∷ checks ∷ [])) ++ (main_turn ∷ []))))
        ≡ ok y)
      × (y.phase ≡ received resp)
unfolding answered
client_gets a to req resp vs u small fits legit every =
    let out = put_out a (ready a) req refl refl (length-make_window WindowElement) small in
    let y = sent_session req out.after in
    let t = transfer a to resp out.after vs fits legit every in
    let es = vs ++ (checks ∷ checks ∷ []) in
    let content =
      All-append (IsContent a) vs _ (incoming-IsContent a to resp vs fits legit) (tt, (tt, tt)) in
    let moved =
      run-turns a es y t.after u content
        (ap (λ r. Receiver.run r es) (same_fresh req out.after out.receiver) ∙ t.returns) in
    (
      answered (holding y t.after) resp,
      run-connect a req out.after _ u out.returns
          ∙ run-append (map (turn a) es) (main_turn ∷ []) y (holding y t.after) moved
          ∙ run-response (holding y t.after) resp refl t.told t.whole,
      refl,
    )
