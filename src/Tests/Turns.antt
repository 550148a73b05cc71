-- ===== src/Tests/Turns.antt =====
-- The command line of the client over the turns of its goroutines, at concrete data.
use comp6461_computer_networ.Base.{◌*◌, ◌≤◌, ◌≡◌, refl, arith, Option, none, some, [], ◌∷◌, length}
use comp6461_computer_networ.Base.Bytes.{codes}
use comp6461_computer_networ.Packet.{UdpAddr, max_payload}
use comp6461_computer_networ.Client.{get_request, header_lines}
use comp6461_computer_networ.Client.Command.{Services, Program, blocked, response, main}
use comp6461_computer_networ.Client.Outcomes.{is_get, IsConnected}
use comp6461_computer_networ.Client.Transport.{over_turns, command_logs}
use comp6461_computer_networ.Exchange.{client_turns, in_order, in_order-Delivers}
use comp6461_computer_networ.Http.Files.{done}
use comp6461_computer_networ.TcpClient.Main.{last_arg}
use comp6461_computer_networ.TcpClient.Outcome.{returned}
use comp6461_computer_networ.Tests.Commands.{mirror_services, line, flags}
use comp6461_computer_networ.Tests.Exchange.{near, far, near-IsUdp4, greeting, address}
use comp6461_computer_networ.Tests.Tcp.{no_flags}

-- The host is `near`, and the response comes in order.
abbrev near_services : Services
near_services = record mirror_services { resolve = λ host. done near }

abbrev turns : Services
turns = over_turns near_services (client_turns near (in_order near far greeting))

abbrev before : Program (Unit {0} × Option UdpAddr)
before = record { world = (tt, none); log = [] }

near-IsConnected :
    IsConnected turns no_flags before line (codes "get") flags address (codes "h") (tt, some near)
unfolding last_arg
near-IsConnected = record {
  command = codes "get";
  arguments = address ∷ [];
  line = refl;
  words = address ∷ [];
  parsed = refl;
  flags = refl;
  last = refl;
  resolves = refl;
  server = near;
  address = refl;
  connects = refl;
}

get_text_fits : length (get_request address (codes "h") []) ≤ 1022 * max_payload
unfolding get_request header_lines
get_text_fits = omega arith

command_logs_example :
    main turns no_flags before line
    ≡ returned (blocked (record { world = (tt, some near); log = response (codes "hi") ∷ [] }))
command_logs_example =
    command_logs near_services no_flags (in_order near far greeting) near far before line flags
      address (codes "h") (codes "get") (get_request address (codes "h") []) greeting tt
      (record { status = 200; location = []; read_body = done (codes "hi") }) (codes "hi")
      near-IsUdp4 get_text_fits (omega arith) (in_order-Delivers near far greeting) near-IsConnected
      (is_get refl refl) refl refl refl refl refl
