-- ===== src/Client/Transport.antt =====
-- lab3/httpc/httpc.go: the command line over the transport, that is, over the turns of the client's
-- goroutines.
use comp6461_computer_networ.Base.{
  ℕ, ◌*◌, ◌≤◌, ◌≡◌, refl, ap, ◌∙◌, Option, none, some, List, [], length, Go, ok, panic, stuck,
  nil_dereference, ◌>>=◌,
}
use comp6461_computer_networ.Base.Bytes.{codes}
use comp6461_computer_networ.Packet.{UdpAddr, max_payload}
use comp6461_computer_networ.Packet.RoundTrip.{IsUdp4}
use comp6461_computer_networ.Endpoint.Receiver.{Event}
use comp6461_computer_networ.Client
use comp6461_computer_networ.Client.{
  Session, Phase, await_synack, await_delivery, received, boot, run,
}
use comp6461_computer_networ.Client.Response.{client_gets}
use comp6461_computer_networ.Client.Command.{Services, Program, blocked, println, response, main}
use comp6461_computer_networ.Client.Outcomes.{IsCommand, IsConnected, answered, main_responds}
use comp6461_computer_networ.Exchange.{Delivers, client_turns}
use comp6461_computer_networ.Http.Files.{done}
use comp6461_computer_networ.TcpClient.{HttpResponse}
use comp6461_computer_networ.TcpClient.Main.{Flags, FlagParser}
use comp6461_computer_networ.TcpClient.Outcome.{Run, returned, crashed, running}

-- What `send` returns when the turns have been made: the response, if main has received it.
abbrev pub outcome_of : {W : Type 0} → W → Go Session → Run (List ℕ × W)
outcome_of w (ok y) = elim y.phase [
  | received resp ↦ returned (resp, w)
  | await_synack ↦ running
  | await_delivery ↦ running
]
outcome_of w (panic e) = crashed e
outcome_of w stuck = running

-- The services whose transport is the client of Client: establishConnection and send are its
-- session with the server, which makes the turns `turns`. The text does not change what
-- establishConnection does, so the session starts where the text is known.
abbrev pub over_turns : Services → List Client.Event → Services
over_turns v turns = record {
  State = v.State × Option UdpAddr;
  host_of = v.host_of;
  parse_request_uri = v.parse_request_uri;
  resolve = v.resolve;
  connect = λ z server. returned (z.0, some server);
  send = λ z text. elim z.1 [
    | none ↦ crashed nil_dereference
    | some server ↦ outcome_of z (boot server text >>= λ y. run y turns)
  ];
  read_response = v.read_response;
  write_file = λ z path b. ((v.write_file z.0 path b).0, ((v.write_file z.0 path b).1, z.1));
  read_file = λ z path. v.read_file z.0 path;
}

outcome_of-received :
    {W : Type 0} (w : W) (y : Session) (resp : List ℕ)
    → y.phase ≡ received resp
    → outcome_of w (ok y) ≡ returned (resp, w)
outcome_of-received w y resp e = rw e refl

-- A command line of the client from end to end. Let it name get or post, with a valid URL and an
-- IPv4 server, let the text of the request and the response have at most 1022 times 1013 bytes, and
-- let the network repeat and reorder the packets of the response as it will, as long as each
-- arrives. If the response reads as one with status 200 and a body, and no output file is named,
-- main logs the body and ends in the loop that blocks.
pub command_logs :
    (v : Services) (parser : FlagParser) (ws : List Event) (a c : UdpAddr)
    (s : Program (v.State × Option UdpAddr)) (argv : List (List ℕ)) (f : Flags)
    (url host word text resp : List ℕ) (w : v.State) (r : HttpResponse) (b : List ℕ)
    → IsUdp4 a
    → length text ≤ 1022 * max_payload
    → length resp ≤ 1022 * max_payload
    → Delivers a c resp ws
    → IsConnected (over_turns v (client_turns a ws)) parser s argv word f url host (w, some a)
    → IsCommand (over_turns v (client_turns a ws)) f s (w, some a) url host word text
    → v.parse_request_uri url ≡ none
    → v.read_response (codes "GET") url resp ≡ done r
    → r.status ≡ 200
    → r.read_body ≡ done b
    → f.output ≡ []
    → main (over_turns v (client_turns a ws)) parser s argv
      ≡ returned (
          blocked (
            println
              (answered (over_turns v (client_turns a ws)) f s (w, some a) (w, some a) url)
              (response b)))
command_logs v parser ws a c s argv f url host word text resp w r b va small fits down h command
      valid read fine body to_log =
    let (z, ran, phase) = client_gets a (some c) text resp ws va small fits down.only down.every in
    let sent = ap (outcome_of (w, some a)) ran ∙ outcome_of-received (w, some a) z resp phase in
    let ends =
      main_responds (over_turns v (client_turns a ws)) parser s argv f url host word text resp
        (w, some a) (w, some a) h command valid sent in
    ends.2 r b read fine body to_log
