-- ===== src/Client/Outcomes.antt =====
-- What the command lines of lab3/httpc/httpc.go do.
use comp6461_computer_networ.Base.{
  ℕ, ◌≡◌, ◌≢◌, refl, ap, ◌∙◌, inl, inr, ◌⊎◌, Bool, true, false, not, ◌&&◌, Option, none, some, List,
  [], ◌∷◌, ◌==◌,
}
use comp6461_computer_networ.Base.Bytes.{codes}
use comp6461_computer_networ.Text.{same_text}
use comp6461_computer_networ.Packet.{UdpAddr}
use comp6461_computer_networ.Client.{get_request, post_request}
use comp6461_computer_networ.Http.Files.{IoError, failed, done}
use comp6461_computer_networ.TcpClient.{HttpResponse}
use comp6461_computer_networ.TcpClient.Main.{Flags, FlagParser, last_arg}
use comp6461_computer_networ.TcpClient.Outcome.{returned, ◌>>=◌}
use comp6461_computer_networ.Client.Command.{
  Services, Program, println, response, response_error, report, validate_url, data_of, get, post,
  conclude, save, process_http_response, handle_get_request, handle_post_request, blocked, run_word,
  main,
}

both_given :
    (inline file : List ℕ)
    → (inline ≡ []) ⊎ (file ≡ [])
    → (not (same_text inline []) && not (same_text file [])) ≡ false
unfolding same_text
both_given [] file h = refl
both_given (c ∷ inline) [] h = refl
both_given (c ∷ inline) (d ∷ file) (inl e) = cc
both_given (c ∷ inline) (d ∷ file) (inr e) = cc

module _ (v : Services) where
  -- The program once it is connected, with the lines of verbose mode, and once it has the response.
  abbrev pub asked : Flags → Program v.State → v.State → List ℕ → Program v.State
  asked f s w url = report v f.verbose (record s { world = w }) url f.headers

  abbrev pub answered : Flags → Program v.State → v.State → v.State → List ℕ → Program v.State
  answered f s w w' url = record (asked f s w url) { world = w' }

  -- `word` is a command that sends `text` to the server.
  pub data IsCommand (f : Flags) (s : Program v.State) (w : v.State) (url host word text : List ℕ)
      : Type 0 where
    is_get :
        word ≡ codes "get"
        → text ≡ get_request url host f.headers
        → IsCommand f s w url host word text
    is_post :
        (body : List ℕ)
        → word ≡ codes "post"
        → (f.inline ≡ []) ⊎ (f.file ≡ [])
        → data_of v (asked f s w url) f.inline f.file ≡ returned body
        → text ≡ post_request url host f.headers body
        → IsCommand f s w url host word text

  -- A command line that is parsed, with a URL behind the flags that can be used, and a server to
  -- which the handshake succeeds.
  pub record IsConnected (parser : FlagParser) (s : Program v.State) (argv : List (List ℕ))
      (word : List ℕ) (f : Flags) (url host : List ℕ) (w : v.State) : Type 0 where
    pub command : List ℕ
    pub arguments : List (List ℕ)
    pub line : argv ≡ command ∷ arguments
    pub words : List (List ℕ)
    pub parsed : parser.words argv ≡ some (word ∷ words)
    pub flags : parser.flags arguments ≡ some f
    pub last : last_arg f.args ≡ returned url
    pub resolves : v.host_of url ≡ done host
    pub server : UdpAddr
    pub address : v.resolve host ≡ done server
    pub connects : v.connect s.world server ≡ returned w

  pub main-connected :
      (parser : FlagParser) (s : Program v.State) (argv : List (List ℕ)) (word : List ℕ) (f : Flags)
      (url host : List ℕ) (w : v.State) (h : IsConnected parser s argv word f url host w)
      → main v parser s argv ≡ run_word v f (record s { world = w }) (word ∷ h.words) url word
  unfolding main
  main-connected parser s argv word f url host w h =
      rw h.line
        (rw (main, rw h.line at h.parsed, h.flags, h.last, h.resolves, h.address, h.connects) refl)

  validate_url-valid :
      (url : List ℕ) → v.parse_request_uri url ≡ none → validate_url v url ≡ returned true
  validate_url-valid url valid = rw (validate_url, valid) refl

  report-world :
      (b : Bool) (s : Program v.State) (url : List ℕ) (hs : List (List ℕ))
      → (report v b s url hs).world ≡ s.world
  report-world true s url hs = refl
  report-world false s url hs = refl

  get-sent :
      (s : Program v.State) (w' : v.State) (url host raw : List ℕ) (hs : List (List ℕ))
      → v.host_of url ≡ done host
      → v.send s.world (get_request url host hs) ≡ returned (raw, w')
      → get v s url hs
        ≡ returned ((v.read_response (codes "GET") url raw, raw), record s { world = w' })
  unfolding get
  get-sent s w' url host raw hs resolves sent = rw (get, resolves, sent) refl

  post-sent :
      (s : Program v.State) (w' : v.State) (url host raw : List ℕ) (hs : List (List ℕ))
      (body : List ℕ)
      → v.host_of url ≡ done host
      → v.send s.world (post_request url host hs body) ≡ returned (raw, w')
      → post v s url hs body
        ≡ returned ((v.read_response (codes "GET") url raw, raw), record s { world = w' })
  unfolding post
  post-sent s w' url host raw hs body resolves sent = rw (post, resolves, sent) refl

  handle_get_request-sent :
      (f : Flags) (s : Program v.State) (w w' : v.State) (url host raw : List ℕ)
      → v.parse_request_uri url ≡ none
      → v.host_of url ≡ done host
      → v.send w (get_request url host f.headers) ≡ returned (raw, w')
      → handle_get_request v f (record s { world = w }) url
        ≡ conclude v f.output ((v.read_response (codes "GET") url raw, raw), answered f s w w' url)
  unfolding handle_get_request
  handle_get_request-sent f s w w' url host raw valid resolves sent =
      let at = report-world f.verbose (record s { world = w }) url f.headers in
      let sends = ap (λ z. v.send z (get_request url host f.headers)) at ∙ sent in
      rw (handle_get_request, validate_url-valid url valid)
        (rw (get-sent (asked f s w url) w' url host raw f.headers resolves sends) refl)

  handle_post_request-sent :
      (f : Flags) (s : Program v.State) (w w' : v.State) (url host raw body : List ℕ)
      → (f.inline ≡ []) ⊎ (f.file ≡ [])
      → data_of v (asked f s w url) f.inline f.file ≡ returned body
      → v.parse_request_uri url ≡ none
      → v.host_of url ≡ done host
      → v.send w (post_request url host f.headers body) ≡ returned (raw, w')
      → handle_post_request v f (record s { world = w }) url
        ≡ conclude v f.output ((v.read_response (codes "GET") url raw, raw), answered f s w w' url)
  unfolding handle_post_request
  handle_post_request-sent f s w w' url host raw body one loaded valid resolves sent =
      let at = report-world f.verbose (record s { world = w }) url f.headers in
      let sends = ap (λ z. v.send z (post_request url host f.headers body)) at ∙ sent in
      rw (handle_post_request, both_given f.inline f.file one, validate_url-valid url valid, loaded)
        (rw (post-sent (asked f s w url) w' url host raw f.headers body resolves sends) refl)

  run_word-sent :
      (f : Flags) (s : Program v.State) (w w' : v.State) (all : List (List ℕ))
      (url host word text raw : List ℕ)
      → IsCommand f s w url host word text
      → v.parse_request_uri url ≡ none
      → v.host_of url ≡ done host
      → v.send w text ≡ returned (raw, w')
      → run_word v f (record s { world = w }) all url word ≡ (
          conclude v f.output ((v.read_response (codes "GET") url raw, raw), answered f s w w' url)
          >>= λ t. returned (blocked t))
  unfolding run_word same_text
  run_word-sent f s w w' all url host word text raw (is_get named asks) valid resolves sent =
      rw (run_word, named)
        (ap (λ x. x >>= λ t. returned (blocked t))
          (handle_get_request-sent f s w w' url host raw valid resolves (rw asks at sent)))
  run_word-sent f s w w' all url host word text raw (is_post body named one loaded asks) valid
        resolves sent =
      rw (run_word, named)
        (ap (λ x. x >>= λ t. returned (blocked t))
          (handle_post_request-sent f s w w' url host raw body one loaded valid resolves
            (rw asks at sent)))

  save-written :
      (s : Program v.State) (output b : List ℕ) (w : v.State)
      → output ≢ []
      → v.write_file s.world output b ≡ (none, w)
      → save v s output b ≡ returned (record s { world = w })
  save-written s [] b w ne wrote = absurd (ne refl)
  save-written s (c ∷ output) b w ne wrote =
      let fine = ap (λ (z : Option IoError × v.State). z.0) wrote in
      let world = ap (λ (z : Option IoError × v.State). z.1) wrote in rw (save, fine, world) refl

  -- Let the command line name a command, get or post, whose URL is valid, let the handshake with its
  -- server succeed, and let the transport carry the text of the request there and the bytes of a
  -- response back. Then main ends in the loop that blocks. If the bytes are no response, they are
  -- logged with the error; if its status is not 200, they are logged; if it is 200, the body is
  -- logged, or, where `-o` names a file, written to it, and nothing else is.
  pub main_responds :
      (parser : FlagParser) (s : Program v.State) (argv : List (List ℕ)) (f : Flags)
      (url host word text raw : List ℕ) (w w' : v.State)
      → IsConnected parser s argv word f url host w
      → IsCommand f s w url host word text
      → v.parse_request_uri url ≡ none
      → v.send w text ≡ returned (raw, w')
      → ((e : IoError)
          → v.read_response (codes "GET") url raw ≡ failed e
          → main v parser s argv
            ≡ returned (blocked (println (answered f s w w' url) (response_error raw e))))
        × ((r : HttpResponse)
            → v.read_response (codes "GET") url raw ≡ done r
            → (r.status == 200) ≡ false
            → main v parser s argv
              ≡ returned (blocked (println (answered f s w w' url) (response raw))))
        × ((r : HttpResponse) (b : List ℕ)
            → v.read_response (codes "GET") url raw ≡ done r
            → r.status ≡ 200
            → r.read_body ≡ done b
            → f.output ≡ []
            → main v parser s argv
              ≡ returned (blocked (println (answered f s w w' url) (response b))))
        × ((r : HttpResponse) (b : List ℕ) (w'' : v.State)
            → v.read_response (codes "GET") url raw ≡ done r
            → r.status ≡ 200
            → r.read_body ≡ done b
            → f.output ≢ []
            → v.write_file w' f.output b ≡ (none, w'')
            → main v parser s argv
              ≡ returned (blocked (record (answered f s w w' url) { world = w'' })))
  unfolding process_http_response
  main_responds parser s argv f url host word text raw w w' h command valid sent =
      let ran =
        main-connected parser s argv word f url host w h
        ∙ run_word-sent f s w w' (word ∷ h.words) url host word text raw command valid h.resolves
            sent in
      (
        λ e read. ran ∙ rw read refl,
        λ r read other. ran ∙ rw read (rw (process_http_response, other) refl),
        λ r b read fine body to_log.
            ran ∙ rw read (rw (process_http_response, fine, body, to_log) refl),
        λ r b w'' read fine body to_file wrote.
            ran
            ∙ rw read (
                rw (process_http_response, fine, body)
                  (rw (save-written (answered f s w w' url) f.output b w'' to_file wrote) refl)),
      )
