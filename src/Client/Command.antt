-- ===== src/Client/Command.antt =====
-- lab3/httpc/httpc.go: the command line of the client, and what it does with a response. The
-- transport is a parameter here: `connect` is establishConnection and `send` is send, whose turns
-- are those of Client. What log.Fatal and the panics do is the Run of the TCP client.
use comp6461_computer_networ.Base.{
  ℕ, Bool, true, not, ◌&&◌, Option, none, some, List, [], ◌∷◌, ◌++◌, ◌==◌, slice_out_of_range,
  if◌then◌else◌,
}
use comp6461_computer_networ.Base.Bytes.{codes}
use comp6461_computer_networ.Text.{same_text}
use comp6461_computer_networ.Packet.{UdpAddr}
use comp6461_computer_networ.Client.{get_request, post_request}
use comp6461_computer_networ.Http.Files.{IoError, IoResult, failed, done}
use comp6461_computer_networ.TcpClient.{HttpResponse, check_error}
use comp6461_computer_networ.TcpClient.Main.{Flags, FlagParser, Help, usage, last_arg, help_of}
use comp6461_computer_networ.TcpClient.Outcome.{Run, returned, fatal, crashed, ◌>>=◌}

-- `host_of` is url.Parse and its Host, `parse_request_uri` the error of url.ParseRequestURI,
-- `resolve` is net.ResolveUDPAddr, and `read_response` is http.ReadResponse for a request that
-- http.NewRequest makes of a method and a URL.
pub record Services : Type 1 where
  pub State : Type 0
  pub host_of : List ℕ → IoResult (List ℕ)
  pub parse_request_uri : List ℕ → Option IoError
  pub resolve : List ℕ → IoResult UdpAddr
  pub connect : State → UdpAddr → Run State
  pub send : State → List ℕ → Run (List ℕ × State)
  pub read_response : List ℕ → List ℕ → List ℕ → IoResult HttpResponse
  pub write_file : State → List ℕ → List ℕ → Option IoError × State
  pub read_file : State → List ℕ → IoResult (List ℕ)

-- What is written to the log.
pub data Entry : Type 0 where
  received_url : List ℕ → Entry
  received_headers : List (List ℕ) → Entry
  response : List ℕ → Entry
  response_error : List ℕ → IoError → Entry

pub record Program (W : Type 0) : Type 0 where
  pub world : W
  pub log : List Entry

abbrev pub println : {W : Type 0} → Program W → Entry → Program W
println s e = record s { log = s.log ++ (e ∷ []) }

module _ (v : Services) where
  abbrev pub State : Type 0
  State = Program v.State

  -- `c.send`
  abbrev pub transmit : State → List ℕ → Run (List ℕ × State)
  transmit s text = do (raw, w) ← v.send s.world text; returned (raw, record s { world = w })

  -- A response with its bytes, or the error of reading it.
  unfoldable pub get :
      State → List ℕ → List (List ℕ) → Run ((IoResult HttpResponse × List ℕ) × State)
  get s url headers = do
    host ← check_error (v.host_of url)
    (raw, s') ← transmit s (get_request url host headers)
    returned ((v.read_response (codes "GET") url raw, raw), s')

  -- The request that stands beside the response has the method GET here too.
  unfoldable pub post :
      State → List ℕ → List (List ℕ) → List ℕ → Run ((IoResult HttpResponse × List ℕ) × State)
  post s url headers body = do
    host ← check_error (v.host_of url)
    (raw, s') ← transmit s (post_request url host headers body)
    returned ((v.read_response (codes "GET") url raw, raw), s')

  -- A body goes to the file that `-o` names, or to the log.
  abbrev pub save : State → List ℕ → List ℕ → Run State
  save s [] body = returned (println s (response body))
  save s (c ∷ output) body =
      let (err, w) = v.write_file s.world (c ∷ output) body in
      elim err [ none ↦ returned (record s { world = w }) | some e ↦ fatal ]

  unfoldable pub process_http_response : State → HttpResponse → List ℕ → List ℕ → Run State
  process_http_response s r raw output =
      if r.status == 200
      then (do body ← check_error r.read_body; save s output body)
      else returned (println s (response raw))

  -- What both handlers do with what `get` or `post` returns.
  abbrev pub conclude : List ℕ → (IoResult HttpResponse × List ℕ) × State → Run State
  conclude output ((failed e, raw), s) = returned (println s (response_error raw e))
  conclude output ((done r, raw), s) = process_http_response s r raw output

  abbrev pub validate_url : List ℕ → Run Bool
  validate_url url = elim (v.parse_request_uri url) [ none ↦ returned true | some e ↦ fatal ]

  abbrev pub report : Bool → State → List ℕ → List (List ℕ) → State
  report verbose s url headers =
      if verbose then println (println s (received_url url)) (received_headers headers) else s

  unfoldable pub handle_get_request : Flags → State → List ℕ → Run State
  handle_get_request f s url = do
    valid ← validate_url url
    if valid
        then (do got ← get (report f.verbose s url f.headers) url f.headers; conclude f.output got)
        else returned s

  -- `loadDataFile`, if there is a file and no data in the command.
  abbrev pub data_of : State → List ℕ → List ℕ → Run (List ℕ)
  data_of s [] (c ∷ file) = check_error (v.read_file s.world (c ∷ file))
  data_of s inline file = returned inline

  unfoldable pub handle_post_request : Flags → State → List ℕ → Run State
  handle_post_request f s url =
      if not (same_text f.inline []) && not (same_text f.file []) then fatal else (do
        valid ← validate_url url
        if valid
            then (do
              let s' = report f.verbose s url f.headers
              body ← data_of s' f.inline f.file
              got ← post s' url f.headers body
              conclude f.output got)
            else returned s)

-- How `main` ends: with a help text, in package flag, or in the loop that blocks for ever.
pub data Ending (W : Type 0) : Type 0 where
  helped : Help → Ending W
  refused_flags : Ending W
  blocked : Program W → Ending W

module _ (v : Services) where
  -- The first round of the loop of `main`, which has no second one.
  unfoldable pub run_word :
      Flags → Program v.State → List (List ℕ) → List ℕ → List ℕ → Run (Ending v.State)
  run_word f s all url word =
      if same_text word (codes "help")
      then returned (helped (help_of all))
      else if same_text word (codes "get")
      then (do s' ← handle_get_request v f s url; returned (blocked s'))
      else if same_text word (codes "post")
      then (do s' ← handle_post_request v f s url; returned (blocked s'))
      else returned (blocked s)

  -- The address of the server, and the handshake with it.
  abbrev pub open_connection : Program v.State → List ℕ → Run (Program v.State)
  open_connection s url = do
    host ← check_error (v.host_of url)
    server ← check_error (v.resolve host)
    w ← v.connect s.world server
    returned (record s { world = w })

  -- `argv` is os.Args without the name of the program.
  unfoldable pub main : FlagParser → Program v.State → List (List ℕ) → Run (Ending v.State)
  main parser s argv = elim (parser.words argv) [
    | none ↦ returned refused_flags
    | some words ↦ elim argv [
      | [] ↦ crashed slice_out_of_range
      | command ∷ rest ↦ elim (parser.flags rest) [
        | none ↦ returned refused_flags
        | some f ↦ (do
          url ← last_arg f.args
          s' ← open_connection s url
          elim words [
            | [] ↦ returned (helped usage)
            | word ∷ others ↦ run_word f s' (word ∷ others) url word
          ])
      ]
    ]
  ]
