-- ===== src/Tests/Commands.antt =====
-- The command line of the client, and the programs over TCP together, at concrete data.
use comp6461_computer_networ.Base.{
  ℕ, ◌≡◌, ◌≢◌, refl, ap, false, none, List, [], ◌∷◌, map, concat, All, ◌==◌, if◌then◌else◌,
}
use comp6461_computer_networ.Base.Bytes.{codes}
use comp6461_computer_networ.Text.{index_from, has_prefix, itoa, same_text}
use comp6461_computer_networ.Packet.{v4}
use comp6461_computer_networ.Client.{get_request, post_request, header_lines}
use comp6461_computer_networ.Client.Command.{
  Services, Program, response, response_error, blocked, println, main,
}
use comp6461_computer_networ.Client.Outcomes.{is_get, IsConnected, answered, main_responds}
use comp6461_computer_networ.Http
use comp6461_computer_networ.TcpServer
use comp6461_computer_networ.Client.Stops.{IsSound, main_stops}
use comp6461_computer_networ.Http.{Library}
use comp6461_computer_networ.Http.Files.{IoError, failed, done}
use comp6461_computer_networ.TcpClient
use comp6461_computer_networ.TcpClient.{HttpResponse, Net, shown}
use comp6461_computer_networ.TcpClient.Main.{Flags, last_arg}
use comp6461_computer_networ.TcpClient.Outcome.{returned, ◌>>=◌}
use comp6461_computer_networ.TcpClient.Crash.{Survives}
use comp6461_computer_networ.TcpExchange.{IsCut, IsFetch, connected, post-get}
use comp6461_computer_networ.Http.Serve.{IsStored}
use comp6461_computer_networ.Tests.Exchange.{greeting, address}
use comp6461_computer_networ.Tests.Handlers.{
  missing, library, post_a, get_a, one_file, one_file-IsLawful,
}
use comp6461_computer_networ.Tests.Tcp.{pages, no_flags}

-- Services that know one host and answer each request by its own text.
abbrev pub mirror_services : Services
mirror_services = record {
  State = Unit {0};
  host_of = λ url. done (codes "h");
  parse_request_uri = λ url. none;
  resolve = λ host. done (record { ip = v4 10 0 0 7; port = 8007 });
  connect = λ w server. returned w;
  send = λ w text. returned (text, w);
  read_response =
      λ verb url raw. done (record { status = 200; location = []; read_body = done (codes "hi") });
  write_file = λ w path b. (none, w);
  read_file = λ w path. failed missing;
}

abbrev idle : Program (Unit {0})
idle = record { world = tt; log = [] }

abbrev pub line : List (List ℕ)
line = codes "get" ∷ codes "http://h/a" ∷ []

abbrev pub flags : Flags
flags = record {
  verbose = false;
  inline = [];
  file = [];
  output = [];
  headers = [];
  args = codes "http://h/a" ∷ [];
}

line-IsConnected :
    IsConnected mirror_services no_flags idle line
      (codes "get")
      flags
      (codes "http://h/a")
      (codes "h")
      tt
unfolding last_arg
line-IsConnected = record {
  command = codes "get";
  arguments = codes "http://h/a" ∷ [];
  line = refl;
  words = codes "http://h/a" ∷ [];
  parsed = refl;
  flags = refl;
  last = refl;
  resolves = refl;
  server = record { ip = v4 10 0 0 7; port = 8007 };
  address = refl;
  connects = refl;
}

abbrev asked_text : List ℕ
asked_text = get_request (codes "http://h/a") (codes "h") []

abbrev done_program : Program (Unit {0})
done_program = answered mirror_services flags idle tt tt (codes "http://h/a")

main_responds_example :
    ((e : IoError)
      → mirror_services.read_response (codes "GET") (codes "http://h/a") asked_text ≡ failed e
      → main mirror_services no_flags idle line
        ≡ returned (blocked (println done_program (response_error asked_text e))))
    × ((r : HttpResponse)
        → mirror_services.read_response (codes "GET") (codes "http://h/a") asked_text ≡ done r
        → (r.status == 200) ≡ false
        → main mirror_services no_flags idle line
          ≡ returned (blocked (println done_program (response asked_text))))
    × ((r : HttpResponse) (b : List ℕ)
        → mirror_services.read_response (codes "GET") (codes "http://h/a") asked_text ≡ done r
        → r.status ≡ 200
        → r.read_body ≡ done b
        → flags.output ≡ []
        → main mirror_services no_flags idle line
          ≡ returned (blocked (println done_program (response b))))
    × ((r : HttpResponse) (b : List ℕ) (w'' : Unit {0})
        → mirror_services.read_response (codes "GET") (codes "http://h/a") asked_text ≡ done r
        → r.status ≡ 200
        → r.read_body ≡ done b
        → flags.output ≢ []
        → mirror_services.write_file tt flags.output b ≡ (none, w'')
        → main mirror_services no_flags idle line
          ≡ returned (blocked (record done_program { world = w'' })))
main_responds_example =
    main_responds mirror_services no_flags idle line flags (codes "http://h/a") (codes "h")
      (codes "get") asked_text asked_text tt tt line-IsConnected (is_get refl refl) refl refl

mirror_services-IsSound : IsSound mirror_services
mirror_services-IsSound = record { connect_lem = λ w server. tt; send_lem = λ w text. tt }

-- `httpc get http://h/a` does not panic.
line-Survives : Survives (main mirror_services no_flags idle line)
line-Survives =
    (main_stops mirror_services no_flags idle).2 mirror_services-IsSound (codes "get")
      (codes "http://h/a" ∷ []) (λ f is empty. cc)

-- Each byte is a piece.
abbrev bytewise : List ℕ → List (List ℕ)
bytewise text = map (λ c. c ∷ []) text

concat-bytewise : (text : List ℕ) → concat (bytewise text) ≡ text
concat-bytewise [] = refl
concat-bytewise (c ∷ text) = ap (◌∷◌ c) (concat-bytewise text)

bytewise-present : (text : List ℕ) → All (λ p. p ≢ []) (bytewise text)
bytewise-present [] = tt
bytewise-present (c ∷ text) = ((λ e. cc), bytewise-present text)

bytewise-IsCut : IsCut bytewise
bytewise-IsCut = record { whole = concat-bytewise; present = bytewise-present }

abbrev answer_with : HttpResponse → Net
answer_with r = record pages {
  host_of = λ url. done (codes "h");
  read_response = λ verb url raw. done r;
}

abbrev created_response : HttpResponse
created_response = record { status = 201; location = []; read_body = done [] }

-- A reader that knows one POST and one GET.
abbrev two_requests : Library
two_requests = record library {
  read_request = λ header.
      if has_prefix header (codes "GET")
      then done get_a
      else done (record post_a { read_body = done [] });
}

both_stored :
    IsStored two_requests one_file
      (codes "/tmp")
      ([], [])
      (codes "/tmp/a", greeting)
      address
      (codes "h")
      []
      greeting
unfolding index_from has_prefix itoa header_lines
both_stored = record {
  request = record post_a { read_body = done [] };
  slash = 47;
  name = codes "a";
  made = (codes "/tmp/a", []);
  first = refl;
  read = refl;
  declared = refl;
  post = refl;
  path = refl;
  allowed = refl;
  creates = refl;
  writes = refl;
}

get_fetches : IsFetch two_requests (codes "a") (get_request address (codes "h") [])
unfolding index_from has_prefix get_request header_lines
get_fetches = record {
  head = codes "GET http://h/a HTTP/1.0\r\nHost: h";
  rest = 13 ∷ 10 ∷ [];
  split = refl;
  request = get_a;
  header = record { once = refl; reads = refl };
  no_length = refl;
  fetches = refl;
  slash = 47;
  path = refl;
}

abbrev file_read : HttpResponse
file_read = record { status = 200; location = []; read_body = done greeting }

-- The hosts of `net`, with the response to a POST told apart from the one to a GET.
abbrev both_read : Net
both_read = record (answer_with file_read) {
  read_response =
      λ verb url raw. done (if same_text verb (codes "POST") then created_response else file_read);
}

both_responses :
    (both_read.read_response
        (codes "POST")
        address
        (TcpServer.make_response two_requests 201 [] [] [])
      ≡ done created_response)
    × (both_read.read_response
          (codes "GET")
          address
          (Http.file_response two_requests (codes "a") greeting)
        ≡ done file_read)
unfolding same_text
both_responses = (refl, refl)

post-get_example :
    (TcpClient.post
        (connected two_requests one_file (codes "/tmp") bytewise missing both_read)
        false
        1
        (record { world = (([], []), tt); sent = []; printed = [] })
        address
        []
        greeting
        []
      >>= λ (_, t).
          TcpClient.get
            (connected two_requests one_file (codes "/tmp") bytewise missing both_read)
            false
            1
            t
            address
            []
            [])
    ≡ returned (
      file_read,
      record {
        world = ((codes "/tmp/a", greeting), tt);
        sent =
            record { host = codes "h"; text = post_request address (codes "h") [] greeting }
            ∷ record { host = codes "h"; text = get_request address (codes "h") [] }
            ∷ [];
        printed = shown (TcpServer.make_response two_requests 201 [] [] []) ∷ shown greeting ∷ [];
      },
    )
unfolding both_stored
post-get_example =
    post-get two_requests one_file (codes "/tmp") ([], []) (codes "/tmp/a", greeting) address
      (codes "h") [] greeting both_stored address (codes "h") [] bytewise missing both_read tt
      created_response file_read [] [] 0 one_file-IsLawful bytewise-IsCut get_fetches refl
      both_responses.0 refl refl both_responses.1 refl refl
