-- ===== src/TcpClient.antt =====
-- lab1-2/httpc/httpc.go: the client over TCP, which follows redirects. net/url, net/http, package
-- flag, the connection and the files are parameters; a redirect is a recursive call, on fuel.
pub mod Outcome
pub mod Redirects
pub mod Main
pub mod Crash
use comp6461_computer_networ.Base.{
  ℕ, zero, suc, Bool, true, false, Option, none, some, List, [], ◌∷◌, ◌++◌, is_nil, ◌==◌, ◌&&◌,
  ◌||◌, not, Panic, slice_out_of_range, index_out_of_range, if◌then◌else◌,
}
use comp6461_computer_networ.Base.Bytes.{codes}
use comp6461_computer_networ.Text.{same_text}
use comp6461_computer_networ.Client
use comp6461_computer_networ.Http.Files.{IoError, IoResult, failed, done}
use comp6461_computer_networ.TcpClient.Outcome.{Run, returned, fatal, crashed, running, ◌>>=◌}

-- `location` is Header.Get("Location"), which is empty without such a header; `read_body` is what
-- reading Body to its end gives.
pub record HttpResponse : Type 0 where
  pub status : ℕ
  pub location : List ℕ
  pub read_body : IoResult (List ℕ)

-- `host_of` is url.Parse and its Host, `parse_request_uri` the error of url.ParseRequestURI,
-- `exchange` is Dial, Write and ReadAll, and `read_response` is http.ReadResponse for a request
-- that http.NewRequest makes of a method and a URL.
pub record Net : Type 1 where
  pub State : Type 0
  pub host_of : List ℕ → IoResult (List ℕ)
  pub parse_request_uri : List ℕ → Option IoError
  pub exchange : State → List ℕ → List ℕ → IoResult (List ℕ) × State
  pub read_response : List ℕ → List ℕ → List ℕ → IoResult HttpResponse
  pub write_file : State → List ℕ → List ℕ → Option IoError × State
  pub read_file : State → List ℕ → IoResult (List ℕ)

pub data Line : Type 0 where
  received_url : List ℕ → Line
  received_headers : List (List ℕ) → Line
  shown : List ℕ → Line
  redirected : List ℕ → Line
  missing_location : Line

-- The text of one request, and the host that it went to.
pub record Sent : Type 0 where
  pub host : List ℕ
  pub text : List ℕ

-- The world, what was sent and what was printed.
pub record Program (W : Type 0) : Type 0 where
  pub world : W
  pub sent : List Sent
  pub printed : List Line

abbrev pub print : {W : Type 0} → Line → Program W → Program W
print l s = record s { printed = s.printed ++ (l ∷ []) }

-- `checkError` on the error that stands beside a value.
abbrev pub check_error : {A : Type 0} → IoResult A → Run A
check_error (failed e) = fatal
check_error (done a) = returned a

-- How `get` and `post` differ: in the text of the request, and in the headers that a redirect takes
-- along.
pub record Method : Type 0 where
  pub verb : List ℕ
  pub text : List ℕ → List ℕ → List (List ℕ) → List ℕ
  pub carried : List (List ℕ) → List (List ℕ)

abbrev pub get_method : Method
get_method = record { verb = codes "GET"; text = Client.get_request; carried = λ headers. [] }

abbrev pub post_method : List ℕ → Method
post_method body = record {
  verb = codes "POST";
  text = λ url host headers. Client.post_request url host headers body;
  carried = λ headers. headers;
}

-- What a response calls for.
pub data Next : Type 0 where
  success : Next
  follow : List ℕ → Next
  lost : Next
  refused : Next

unfoldable pub next_of : HttpResponse → Next
next_of r =
    if r.status == 200
    then success
    else if r.status == 301 || r.status == 302
    then elim r.location [ [] ↦ lost | c ∷ l ↦ follow (c ∷ l) ]
    else refused

module _ (net : Net) (verbose : Bool) where
  abbrev pub State : Type 0
  State = Program net.State

  -- One request and its response, with the bytes of the response.
  unfoldable pub attempt :
      Method → State → List ℕ → List (List ℕ) → Run ((List ℕ × HttpResponse) × State)
  attempt m s url headers = do
    host ← check_error (net.host_of url)
    let text = m.text url host headers
    let (answer, w) = net.exchange s.world host text
    raw ← check_error answer
    res ← check_error (net.read_response m.verb url raw)
    returned (
      (raw, res),
      record s { world = w; sent = s.sent ++ (record { host = host; text = text } ∷ []) },
    )

  -- The body to the file that `-o` names, or to the screen.
  abbrev pub save : State → List ℕ → List ℕ → Run State
  save s [] body = returned (print (shown body) s)
  save s (c ∷ output) body =
      let (err, w) = net.write_file s.world (c ∷ output) body in
      elim err [ none ↦ returned (record s { world = w }) | some e ↦ fatal ]

  -- The branch of a response with status 200.
  unfoldable pub display : State → List ℕ → HttpResponse → List ℕ → Run State
  display s raw res output =
      if verbose
      then returned (print (shown raw) s)
      else (do body ← check_error res.read_body; save s output body)

  -- What follows a response; `again` is the call for a redirect, whose response is dropped.
  abbrev pub act :
      (List ℕ → State → Run (HttpResponse × State))
      → List ℕ
      → List ℕ
      → HttpResponse
      → State
      → Next
      → Run (HttpResponse × State)
  act again output raw res s success = do s' ← display s raw res output; returned (res, s')
  act again output raw res s (follow url) = do
    (dropped, s') ← again url (print (redirected url) s)
    returned (res, s')
  act again output raw res s lost = returned (res, print missing_location s)
  act again output raw res s refused = returned (res, print (shown raw) s)

  -- What `get` and `post` share. A redirect is a call of its own.
  unfoldable pub fetch :
      Method → ℕ → State → List ℕ → List (List ℕ) → List ℕ → Run (HttpResponse × State)
  fetch m zero s url headers output = running
  fetch m (suc fuel) s url headers output = do
    ((raw, res), s') ← attempt m s url headers
    act (λ url' t. fetch m fuel t url' (m.carried headers) output) output raw res s' (next_of res)

  abbrev pub get : ℕ → State → List ℕ → List (List ℕ) → List ℕ → Run (HttpResponse × State)
  get fuel s url headers output = fetch get_method fuel s url headers output

  abbrev pub post :
      ℕ → State → List ℕ → List (List ℕ) → List ℕ → List ℕ → Run (HttpResponse × State)
  post fuel s url headers body output = fetch (post_method body) fuel s url headers output

  abbrev pub validate_url : List ℕ → Run Bool
  validate_url url = elim (net.parse_request_uri url) [ none ↦ returned true | some e ↦ fatal ]

  abbrev pub report : State → List ℕ → List (List ℕ) → State
  report s url headers =
      if verbose then print (received_headers headers) (print (received_url url) s) else s

  unfoldable pub handle_get_request :
      ℕ → State → List ℕ → List (List ℕ) → List ℕ → Run (Option HttpResponse × State)
  handle_get_request fuel s url headers output = do
    valid ← validate_url url
    if valid
        then (do
          (res, s') ← get fuel (report s url headers) url headers output
          returned (some res, s'))
        else returned (none, s)

  -- `loadDataFile`
  abbrev pub load_data_file : State → List ℕ → Run (List ℕ)
  load_data_file s file = check_error (net.read_file s.world file)

  -- What `post` is called with: the data of the file, if there is one and no data in the command.
  abbrev pub data_of : State → List ℕ → List ℕ → Run (List ℕ)
  data_of s [] (c ∷ file) = load_data_file s (c ∷ file)
  data_of s inline file = returned inline

  unfoldable pub handle_post_request :
      ℕ
      → State
      → List ℕ
      → List (List ℕ)
      → List ℕ
      → List ℕ
      → List ℕ
      → Run (Option HttpResponse × State)
  handle_post_request fuel s url headers inline file output =
      if not (same_text inline []) && not (same_text file []) then fatal else (do
        valid ← validate_url url
        if valid
            then (do
              let s' = report s url headers
              body ← data_of s' inline file
              (res, s'') ← post fuel s' url headers body output
              returned (some res, s''))
            else returned (none, s))
