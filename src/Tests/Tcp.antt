-- ===== src/Tests/Tcp.antt =====
-- The theorems on the programs over TCP, at concrete data.
use comp6461_computer_networ.Base.{
  ℕ, ◌^◌, ◌%◌, ◌≡◌, ◌≢◌, refl, ap, arith, inl, inr, ◌⊎◌, true, false, none, some, List, [], ◌∷◌,
  ◌++◌, map, length, take, drop, All, if◌then◌else◌, slice_out_of_range, index_out_of_range,
}
use comp6461_computer_networ.Base.Bytes.{codes, IsByte}
use comp6461_computer_networ.Text.{itoa, index_from, has_prefix, same_text, contains}
use comp6461_computer_networ.Client
use comp6461_computer_networ.Http
use comp6461_computer_networ.Http.{HttpRequest, Library}
use comp6461_computer_networ.Http.Files.{done}
use comp6461_computer_networ.Http.Handlers.{IsPathless}
use comp6461_computer_networ.TcpServer
use comp6461_computer_networ.TcpServer.{more, eof, header_end, answer}
use comp6461_computer_networ.TcpServer.Agreement.{
  name_of, without_errors, handlers_agree, verify_file_path_gap,
}
use comp6461_computer_networ.TcpServer.Header.{piece}
use comp6461_computer_networ.TcpServer.Stream.{IsFramed, handle_conn-pieces}
use comp6461_computer_networ.TcpClient.{
  HttpResponse, Net, shown, redirected, Program, get_method, fetch,
}
use comp6461_computer_networ.TcpClient.Main.{Flags, FlagParser, main}
use comp6461_computer_networ.TcpClient.Outcome.{returned, running, crashed}
use comp6461_computer_networ.TcpClient.Redirects.{
  IsAnswered, IsMoved, stay, hop, redirects_end, redirects_cycle,
}
use comp6461_computer_networ.TcpClient.Crash.{Survives, IsOther, main_crashes}
use comp6461_computer_networ.Handout.Time.{report_time, print_time, print_time-report_time}
use comp6461_computer_networ.Handout.Echo
use comp6461_computer_networ.Handout.Echo.{
  Turn, GoesOn, Peer, IsEcho, line, input_end, repl, handle_conn_echoes, repl_echoes,
}
use comp6461_computer_networ.TcpServer.{Read, read_loop}
use comp6461_computer_networ.TcpServer.Outcomes.{IsAccepted, handle_conn_outcome}
use comp6461_computer_networ.Base.{ok, panic}
use comp6461_computer_networ.Tests.Handlers.{library, one_file, post_a}

handlers_agree_example :
    (TcpServer.handle_get library one_file (codes "/tmp") ([], []) post_a
      ≡ (Http.handle_get library one_file (codes "/tmp") ([], []) post_a).0)
    × ((contains (name_of post_a.path) (codes "..") ≡ false)
          ⊎ (has_prefix (name_of post_a.path) (codes "..") ≡ true)
        → TcpServer.handle_post library one_file (codes "/tmp") ([], []) post_a
          ≡ without_errors (Http.handle_post library one_file (codes "/tmp") ([], []) post_a))
handlers_agree_example = handlers_agree library one_file (codes "/tmp") ([], []) post_a

-- The name a/../b.
verify_file_path_gap_example :
    (TcpServer.verify_file_path (b'a' ∷ ([] ++ (codes "/../" ++ codes "b"))) ≡ true)
    × (Http.verify_file_path (b'a' ∷ ([] ++ (codes "/../" ++ codes "b"))) ≡ false)
verify_file_path_gap_example = verify_file_path_gap b'a' [] (codes "b") λ e. omega (arith, e)

post-IsFramed :
    IsFramed library (codes "POST /a HTTP/1.0") (codes "hi") (record post_a { read_body = done [] })
unfolding index_from has_prefix itoa
post-IsFramed = record { header = record { once = refl; reads = refl }; announced = refl }

-- The request comes in three pieces, the first cut inside the empty line.
handle_conn-pieces_example :
    TcpServer.handle_conn library one_file
      (codes "/tmp")
      ([], [])
      (map piece
          ((codes "POST /a HTTP/1.0" ++ (13 ∷ 10 ∷ [])) ∷ (13 ∷ 10 ∷ b'h' ∷ []) ∷ (b'i' ∷ []) ∷ [])
        ++ [])
    ≡ answer library one_file (codes "/tmp") ([], []) post_a
handle_conn-pieces_example =
    handle_conn-pieces library (codes "POST /a HTTP/1.0") (codes "hi")
      (record post_a { read_body = done [] }) post-IsFramed one_file (codes "/tmp") ([], [])
      ((codes "POST /a HTTP/1.0" ++ (13 ∷ 10 ∷ [])) ∷ (13 ∷ 10 ∷ b'h' ∷ []) ∷ (b'i' ∷ []) ∷ []) []
      refl ((λ e. cc), ((λ e. cc), ((λ e. cc), tt)))

-- A page is its URL, which is also its host: "a" has moved to "b", and "l" to "l".
abbrev pub response_to : List ℕ → HttpResponse
response_to url =
    if same_text url (codes "a")
    then record { status = 301; location = codes "b"; read_body = done [] }
    else if same_text url (codes "l")
    then record { status = 302; location = codes "l"; read_body = done [] }
    else record { status = 200; location = []; read_body = done (codes "hi") }

abbrev pub pages : Net
pages = record {
  State = Unit {0};
  host_of = λ url. done url;
  parse_request_uri = λ url. none;
  exchange = λ w host text. (done host, w);
  read_response = λ verb url raw. done (response_to url);
  write_file = λ w path b. (none, w);
  read_file = λ w path. done [];
}

abbrev answered : (url : List ℕ) (hs : List (List ℕ)) → IsAnswered pages get_method tt url hs tt
answered url hs = record {
  host = url;
  raw = url;
  response = response_to url;
  resolves = refl;
  answers = refl;
  reads = refl;
}

a-IsMoved : IsMoved (response_to (codes "a")) (codes "b")
unfolding same_text
a-IsMoved = record { moved = inl refl; location = refl; present = λ e. cc }

l-IsMoved : IsMoved (response_to (codes "l")) (codes "l")
unfolding same_text
l-IsMoved = record { moved = inr refl; location = refl; present = λ e. cc }

abbrev idle : Program (Unit {0})
idle = record { world = tt; sent = []; printed = [] }

b_fine :
    ((response_to (codes "b")).status ≡ 200)
    × ((response_to (codes "b")).read_body ≡ done (codes "hi"))
unfolding same_text
b_fine = (refl, refl)

-- A header goes with the first request only.
redirects_end_example :
    fetch pages false get_method 5 idle (codes "a") (codes "k:v" ∷ []) []
    ≡ returned (
      response_to (codes "a"),
      record {
        world = tt;
        sent =
            record {
              host = codes "a";
              text = Client.get_request (codes "a") (codes "a") (codes "k:v" ∷ []);
            }
            ∷ record { host = codes "b"; text = Client.get_request (codes "b") (codes "b") [] }
            ∷ [];
        printed = redirected (codes "b") ∷ shown (codes "hi") ∷ [];
      },
    )
redirects_end_example =
    redirects_end pages get_method idle (codes "a") (codes "k:v" ∷ [])
      (hop (answered (codes "a") (codes "k:v" ∷ [])) a-IsMoved stay) false 5 tt (codes "hi")
      (answered (codes "b") []) b_fine.0 b_fine.1 (omega arith)

redirects_cycle_example : fetch pages false get_method 1000 idle (codes "l") [] [] ≡ running
redirects_cycle_example =
    redirects_cycle pages get_method idle (codes "l") [] stay
      (hop (answered (codes "l") []) l-IsMoved stay) false 1000 []

-- A parser of a command line without flags.
abbrev pub no_flags : FlagParser
no_flags = record {
  words = λ argv. some argv;
  flags = λ rest.
      some (record {
        verbose = false;
        inline = [];
        file = [];
        output = [];
        headers = [];
        args = rest;
      });
}

main_crashes_example :
    ((words : List (List ℕ))
      → no_flags.words [] ≡ some words
      → main pages no_flags 9 idle [] ≡ crashed slice_out_of_range)
    × ((a : List ℕ) (rest junk words : List (List ℕ)) (command : List ℕ) (f : Flags)
        → no_flags.words (a ∷ rest) ≡ some (junk ++ (command ∷ words))
        → no_flags.flags rest ≡ some f
        → All IsOther junk
        → (command ≡ codes "get") ⊎ (command ≡ codes "post")
        → f.args ≡ []
        → main pages no_flags 9 idle (a ∷ rest) ≡ crashed index_out_of_range)
    × ((a : List ℕ) (rest : List (List ℕ))
        → ((f : Flags) → no_flags.flags rest ≡ some f → f.args ≢ [])
        → Survives (main pages no_flags 9 idle (a ∷ rest)))
main_crashes_example = main_crashes pages no_flags 9 idle

-- `httpc get` alone.
get_crashes : main pages no_flags 9 idle (codes "get" ∷ []) ≡ crashed index_out_of_range
get_crashes =
    (main_crashes pages no_flags 9 idle).1 (codes "get") [] [] [] (codes "get") _ refl refl tt
      (inl refl) refl

print_time-report_time_example :
    All IsByte (report_time 1700000000)
    × (length (report_time 1700000000) ≡ 4)
    × (print_time (report_time 1700000000) ≡ some (1700000000 % 2 ^ 32))
print_time-report_time_example = print_time-report_time 1700000000

abbrev echoed : List Turn
echoed =
    record { read = record { bytes = codes "ab"; end = more }; fails = false; accepted = 0 }
    ∷ record { read = record { bytes = codes "c"; end = more }; fails = false; accepted = 0 }
    ∷ []

handle_conn_echoes_example :
    ((rest : List ℕ) × (Echo.handle_conn echoed ++ rest ≡ Echo.arrived echoed))
    × (All GoesOn echoed → Echo.handle_conn echoed ≡ Echo.arrived echoed)
handle_conn_echoes_example = handle_conn_echoes echoed

-- A peer that keeps what is written.
abbrev queue : Peer
queue = record {
  State = List ℕ;
  write = λ q b. (true, q ++ b);
  read_full = λ q n. (some (take n q), drop n q);
}

queue-IsEcho : IsEcho queue ◌≡◌
queue-IsEcho = record {
  write_lem = λ s q b h. (refl, ap (λ z. z ++ b) h);
  read_full_lem = λ s q n h le. (ap (λ z. some (take n z)) h, ap (drop n) h);
}

repl_echoes_example :
    repl queue [] (map line (codes "hi" ∷ codes "you" ∷ []) ++ (input_end ∷ []))
    ≡ record { replied = codes "hi" ∷ codes "you" ∷ []; no_error = true }
repl_echoes_example = repl_echoes queue ◌≡◌ queue-IsEcho [] (codes "hi" ∷ codes "you" ∷ []) refl

-- The stream ends within the header.
abbrev cut_short : List Read
cut_short = piece (codes "GET /a") ∷ record { bytes = []; end = eof } ∷ []

handle_conn_outcome_example :
    ((read_loop library cut_short [] none ≡ none)
      × (TcpServer.handle_conn library one_file (codes "/tmp") ([], []) cut_short
          ≡ ok (none, ([], []))))
    ⊎ ((r : HttpRequest) × (read_loop library cut_short [] none ≡ some r)
        × (((same_text r.method (codes "GET") ≡ false)
              × (same_text r.method (codes "POST") ≡ false)
              × (TcpServer.handle_conn library one_file (codes "/tmp") ([], []) cut_short
                  ≡ ok (none, ([], []))))
            ⊎ (IsPathless r
                × (TcpServer.handle_conn library one_file (codes "/tmp") ([], []) cut_short
                    ≡ panic slice_out_of_range))
            ⊎ (((same_text r.method (codes "GET") ≡ true)
                  ⊎ (same_text r.method (codes "POST") ≡ true))
                × (¬ (IsPathless r))
                × ((a : List ℕ) × (s' : List ℕ × List ℕ) × (TcpServer.handle_conn library one_file
                        (codes "/tmp")
                        ([], [])
                        cut_short
                      ≡ ok (some a, s'))
                    × ((s' ≡ ([], []))
                        ⊎ ((same_text r.method (codes "POST") ≡ true) × IsAccepted r))))))
handle_conn_outcome_example = handle_conn_outcome library one_file (codes "/tmp") ([], []) cut_short
