-- ===== src/TcpServer.antt =====
-- lab1-2/httpfs/httpfs.go: the file server over TCP. makeResponse and the walk over the files are the
-- text of lab3/httpfs/httpfs.go; net/http, the disk and the clock are the parameters of Http.
pub mod Agreement
pub mod Header
pub mod Stream
pub mod Setup
pub mod Outcomes
use comp6461_computer_networ.Base.{
  ℕ, ◌+◌, ◌-◌, Bool, false, not, Option, none, some, List, [], ◌∷◌, ◌++◌,
}
use comp6461_computer_networ.Base.{length, drop, take, Go, ok, ◌>>=◌, if◌then◌else◌}
use comp6461_computer_networ.Base.Bytes.{codes}
use comp6461_computer_networ.Text.{find, has_prefix, same_text, itoa}
use comp6461_computer_networ.Http.{HttpRequest, Library, join_path, slice_path}
use comp6461_computer_networ.Http
use comp6461_computer_networ.Http.Files.{IoError, IoResult, failed, done, Disk}

-- What stands beside the bytes of one `conn.Read`: nothing, io.EOF, or another error, such as that
-- of the deadline.
pub data ReadEnd : Type 0 where
  more eof failure : ReadEnd

pub record Read : Type 0 where
  pub bytes : List ℕ
  pub end : ReadEnd

abbrev pub header_end : List ℕ
header_end = 13 ∷ 10 ∷ 13 ∷ 10 ∷ []

-- `strings.Index(tmp, HttpRequestHeaderEnd)+len(HttpRequestHeaderEnd)`, where the index may be -1.
abbrev pub body_start : List ℕ → ℕ
body_start tmp = elim (find tmp header_end) [ none ↦ 3 | some i ↦ i + 4 ]

-- The header is read again with every piece, once its end is there.
abbrev pub parse_header : Library → List ℕ → Option HttpRequest → IoResult (Option HttpRequest)
parse_header lib tmp request = elim (find tmp header_end) [
  | none ↦ done request
  | some i ↦ elim (lib.read_request (take i tmp ++ header_end)) [
    | failed e ↦ failed e
    | done r ↦ done (some r)
  ]
]

-- After a piece: the handler returns, goes on with the request, or reads on.
pub data Progress : Type 0 where
  closed : Progress
  ready : HttpRequest → Progress
  waiting : Option HttpRequest → Progress

abbrev pub decide : List ℕ → Option HttpRequest → Progress
decide tmp none = waiting none
decide tmp (some r) =
    if same_text r.content_length []
    then ready r
    else if same_text r.content_length (itoa (length tmp - body_start tmp))
    then ready (record r { read_body = done (drop (body_start tmp) tmp) })
    else waiting (some r)

unfoldable pub progress : Library → List ℕ → Option HttpRequest → Progress
progress lib tmp request = elim (parse_header lib tmp request) [
  | failed e ↦ closed
  | done request' ↦ decide tmp request'
]

-- The loop of `handleConn`. The list ends where the stream does; `none` is a return without an
-- answer.
unfoldable pub read_loop : Library → List Read → List ℕ → Option HttpRequest → Option HttpRequest
read_loop lib [] tmp request = none
read_loop lib (r ∷ rs) tmp request =
    let tmp' = tmp ++ r.bytes in
    elim (if same_text r.bytes [] then waiting request else progress lib tmp' request) [
      | closed ↦ none
      | ready q ↦ some q
      | waiting request' ↦ elim r.end [
        | more ↦ read_loop lib rs tmp' request'
        | eof ↦ none
        | failure ↦ none
      ]
    ]

unfoldable pub make_response : Library → ℕ → List ℕ → List ℕ → List ℕ → List ℕ
make_response lib code type disposition body = Http.make_response lib code type disposition body

-- What `handleError` sends.
unfoldable pub handle_error : Library → ℕ → IoError → List ℕ
unfolding make_response
handle_error lib code e =
    make_response lib code (codes "application/json") [] (lib.error_json e.text)

abbrev pub verify_file_path : List ℕ → Bool
verify_file_path s = not (has_prefix s (codes ".."))

module _ (lib : Library) (disk : Disk) (directory : List ℕ) where
  abbrev pub list_files : disk.State → List ℕ
  list_files s = elim (disk.walk s directory) [
    | failed e ↦ handle_error lib 500 e
    | done files ↦ make_response lib 200 (codes "application/json") [] (lib.files_json files)
  ]

  abbrev pub get_file : disk.State → List ℕ → List ℕ
  get_file s name = elim (disk.read_file s (join_path directory name)) [
    | failed e ↦ if e.not_exist then handle_error lib 404 e else handle_error lib 500 e
    | done file ↦
        make_response lib 200 (codes "text/plain") (codes "attachment; filename=" ++ name) file
  ]

  -- What `handleGet` sends: each of its branches sends once.
  unfoldable pub handle_get : disk.State → HttpRequest → List ℕ
  unfolding make_response handle_error
  handle_get s req = elim req.path [ [] ↦ list_files s | c ∷ name ↦ get_file s name ]

  abbrev pub written : Option IoError × disk.State → List ℕ × disk.State
  written (some e, s) = (handle_error lib 500 e, s)
  written (none, s) = (make_response lib 201 [] [] [], s)

  -- What follows `os.Create`.
  abbrev pub created : List ℕ → List ℕ → Option IoError × disk.State → List ℕ × disk.State
  created path b (some e, s) = (handle_error lib 500 e, s)
  created path b (none, s) = written (disk.write s path b)

  abbrev pub store_file : disk.State → List ℕ → List ℕ → List ℕ × disk.State
  store_file s name b =
      created (join_path directory name) b (disk.create s (join_path directory name))

  unfoldable pub handle_post : disk.State → HttpRequest → Go (List ℕ × disk.State)
  unfolding make_response handle_error
  handle_post s req = elim req.read_body [
    | failed e ↦ ok (handle_error lib 500 e, s)
    | done b ↦ do
      name ← slice_path req.path
      ok (
          if verify_file_path name
          then store_file s name b
          else (handle_error lib 500 (Http.invalid_path name), s))
  ]

  -- What `handleConn` does with a request: the bytes that it sends, if any.
  unfoldable pub answer : disk.State → HttpRequest → Go (Option (List ℕ) × disk.State)
  answer s r =
      if same_text r.method (codes "GET")
      then ok (some (handle_get s r), s)
      else if same_text r.method (codes "POST")
      then (do (response, s') ← handle_post s r; ok (some response, s'))
      else ok (none, s)

  -- `handleConn`, on what the connection gives to read.
  unfoldable pub handle_conn : disk.State → List Read → Go (Option (List ℕ) × disk.State)
  handle_conn s reads = elim (read_loop lib reads [] none) [
    | none ↦ ok (none, s)
    | some r ↦ answer s r
  ]
