-- ===== src/Http.antt =====
-- lab3/httpfs/httpfs.go, the HTTP part: makeResponse to handleRequest. What net/http, encoding/json,
-- the clock and the file system do is a parameter: `Library` and `Disk`. What is printed is left out.
pub mod Files
pub mod Handlers
pub mod Post
pub mod Serve
pub mod Setup
use comp6461_computer_networ.Base.{
  ℕ, ◌+◌, ◌-◌, Bool, false, not, Option, none, some, List, [], ◌∷◌, ◌++◌,
}
use comp6461_computer_networ.Base.{length, drop, take, Go, ok, panic, nil_dereference}
use comp6461_computer_networ.Base.{slice_out_of_range, ◌>>=◌, if◌then◌else◌}
use comp6461_computer_networ.Base.Bytes.{codes}
use comp6461_computer_networ.Text.{find, contains, same_text, itoa}
use comp6461_computer_networ.Http.Files.{IoError, IoResult, failed, done, Disk}

-- `read_body` is what reading Body to its end gives.
pub record HttpRequest : Type 0 where
  pub method : List ℕ
  pub path : List ℕ
  pub content_length : List ℕ
  pub read_body : IoResult (List ℕ)

-- `date` is the formatted time, `read_request` is http.ReadRequest, and the two `json` are
-- json.Marshal on errorResponse and on fileListResponse.
pub record Library : Type 0 where
  pub date : List ℕ
  pub status_text : ℕ → List ℕ
  pub error_json : List ℕ → List ℕ
  pub files_json : List (List ℕ) → List ℕ
  pub read_request : List ℕ → IoResult HttpRequest

abbrev pub header_end : List ℕ
header_end = 13 ∷ 10 ∷ 13 ∷ 10 ∷ []

abbrev content_headers : List ℕ → List ℕ → List ℕ → List ℕ
content_headers type disposition body =
    codes "Content-Type: "
    ++ (type
        ++ (codes "\r\n"
            ++ (disposition_line disposition
                ++ (codes "Content-Length: " ++ (itoa (length body) ++ (header_end ++ body))))))
  where
    disposition_line : List ℕ → List ℕ
    disposition_line [] = []
    disposition_line (c ∷ d) = codes "Content-Disposition: " ++ ((c ∷ d) ++ codes "\r\n")

unfoldable pub make_response : Library → ℕ → List ℕ → List ℕ → List ℕ → List ℕ
make_response lib code type disposition body =
    codes "HTTP/1.1 "
    ++ (itoa code
        ++ (codes " "
            ++ (lib.status_text code
                ++ (codes "\r\n"
                    ++ (codes "Date: " ++ (lib.date ++ (codes "\r\n" ++ rest body)))))))
  where
    rest : List ℕ → List ℕ
    rest [] = header_end
    rest (c ∷ b) = content_headers type disposition (c ∷ b)

abbrev pub packet_error_response : Library → ℕ → IoError → List ℕ
packet_error_response lib code e =
    make_response lib code (codes "application/json") [] (lib.error_json e.text)

-- A response and Go's error beside it.
abbrev pub Answer : Type 0
Answer = List ℕ × Option IoError

abbrev pub fails : Library → ℕ → IoError → Answer
fails lib code e = (packet_error_response lib code e, some e)

-- `req.URL.Path[1:]`
abbrev pub slice_path : List ℕ → Go (List ℕ)
slice_path [] = panic slice_out_of_range
slice_path (c ∷ name) = ok name

abbrev pub verify_file_path : List ℕ → Bool
verify_file_path s = not (contains s (codes ".."))

-- `workingDirectory + "/" + name`
abbrev pub join_path : List ℕ → List ℕ → List ℕ
join_path directory name = directory ++ (codes "/" ++ name)

abbrev pub file_response : Library → List ℕ → List ℕ → List ℕ
file_response lib name file =
    make_response lib 200 (codes "text/plain") (codes "attachment; filename=" ++ name) file

abbrev pub invalid_path : List ℕ → IoError
invalid_path name = record { text = codes "invalid file path: " ++ name; not_exist = false }

module _ (lib : Library) (disk : Disk) (directory : List ℕ) where
  abbrev list_files : disk.State → Answer
  list_files s = elim (disk.walk s directory) [
    | failed e ↦ fails lib 500 e
    | done files ↦
        (make_response lib 200 (codes "application/json") [] (lib.files_json files), none)
  ]

  abbrev pub get_file : disk.State → List ℕ → Answer
  get_file s name = elim (disk.read_file s (join_path directory name)) [
    | failed e ↦ if e.not_exist then fails lib 404 e else fails lib 500 e
    | done file ↦ (file_response lib name file, none)
  ]

  unfoldable pub handle_get : disk.State → HttpRequest → Answer
  handle_get s req = elim req.path [ [] ↦ list_files s | c ∷ name ↦ get_file s name ]

  -- The answer after the write to the new file.
  abbrev pub written : Option IoError × disk.State → Answer × disk.State
  written (some e, s) = (fails lib 500 e, s)
  written (none, s) = ((make_response lib 201 [] [] [], none), s)

  -- What follows `os.Create`.
  abbrev pub created : List ℕ → List ℕ → Option IoError × disk.State → Answer × disk.State
  created path b (some e, s) = (fails lib 500 e, s)
  created path b (none, s) = written (disk.write s path b)

  abbrev pub store_file : disk.State → List ℕ → List ℕ → Answer × disk.State
  store_file s name b =
      created (join_path directory name) b (disk.create s (join_path directory name))

  -- On a path that is refused, the error returned beside the response is that of ReadAll: nil.
  unfoldable pub handle_post : disk.State → HttpRequest → Go (Answer × disk.State)
  handle_post s req = elim req.read_body [
    | failed e ↦ ok (fails lib 500 e, s)
    | done b ↦ do
      name ← slice_path req.path
      ok (
          if verify_file_path name
          then store_file s name b
          else ((packet_error_response lib 500 (invalid_path name), none), s))
  ]

-- The body is what follows the header, if its length is what the header says.
abbrev pub with_body : HttpRequest → List ℕ → HttpRequest
with_body r body =
    if same_text r.content_length (itoa (length body))
    then record r { read_body = done body }
    else r

-- Without the end of a header `request` stays nil, and its Header is read.
unfoldable pub parse_http_request : Library → List ℕ → Go (IoResult HttpRequest)
parse_http_request lib bytes = elim (find bytes header_end) [
  | none ↦ panic nil_dereference
  | some i ↦ elim (lib.read_request (take i bytes ++ header_end)) [
    | failed e ↦ ok (failed e)
    | done r ↦ ok (done (with_body r (drop (i + 4) bytes)))
  ]
]

abbrev pub unsupported : List ℕ → IoError
unsupported bytes = record { text = codes "Unsupported request " ++ bytes; not_exist = false }

unfoldable pub handle_request :
    (lib : Library) (disk : Disk) → List ℕ → disk.State → List ℕ → Go (Answer × disk.State)
handle_request lib disk directory s bytes = do
  parsed ← parse_http_request lib bytes
  elim parsed [
    | failed e ↦ ok (([], some e), s)
    | done r ↦
        if same_text r.method (codes "GET")
        then ok (handle_get lib disk directory s r, s)
        else if same_text r.method (codes "POST")
        then handle_post lib disk directory s r
        else ok (([], some (unsupported bytes)), s)
  ]

-- What `main` makes of a request: it sends the response, which is empty beside some errors; the
-- error is only logged.
unfoldable pub serve :
    (lib : Library) (disk : Disk) → List ℕ → disk.State → List ℕ → Go (List ℕ × disk.State)
serve lib disk directory s bytes = do
  ((response, err), s') ← handle_request lib disk directory s bytes
  ok (response, s')
