-- ===== src/Http/Serve.antt =====
-- The server's answer to a POST of the client.
use comp6461_computer_networ.Base.{ℕ, ◌≡◌, true, none, some, List, [], ◌∷◌, ◌++◌}
use comp6461_computer_networ.Base.{length, ok}
use comp6461_computer_networ.Base.Bytes.{codes}
use comp6461_computer_networ.Text.{find, itoa, same_text}
use comp6461_computer_networ.Client.{post_request, header_end}
use comp6461_computer_networ.Http.{
  HttpRequest, Library, make_response, join_path, verify_file_path, handle_post, handle_request,
  serve,
}
use comp6461_computer_networ.Http.Files.{Disk, done}
use comp6461_computer_networ.Http.Post.{post_head, parse_http_request-post_request}

-- What net/http and the disk do with one POST of the client: the header has one empty line, it is
-- read as a POST with its Content-Length and a path that is not refused, and creation and write
-- succeed.
pub record IsStored (lib : Library) (disk : Disk) (directory : List ℕ) (s s'' : disk.State)
    (url host : List ℕ) (headers : List (List ℕ)) (body : List ℕ) : Type 0 where
  pub request : HttpRequest
  pub slash : ℕ
  pub name : List ℕ
  pub made : disk.State
  pub first :
      find (post_head url host headers body ++ header_end) header_end
      ≡ some (length (post_head url host headers body))
  pub read : lib.read_request (post_head url host headers body ++ header_end) ≡ done request
  pub declared : request.content_length ≡ itoa (length body)
  pub post : request.method ≡ codes "POST"
  pub path : request.path ≡ slash ∷ name
  pub allowed : verify_file_path name ≡ true
  pub creates : disk.create s (join_path directory name) ≡ (none, made)
  pub writes : disk.write made (join_path directory name) body ≡ (none, s'')

-- Then the server answers 201, and the disk is the one after the write.
pub serve-post_request :
    (lib : Library) (disk : Disk) (directory : List ℕ) (s s'' : disk.State) (url host : List ℕ)
    (headers : List (List ℕ)) (body : List ℕ)
    → IsStored lib disk directory s s'' url host headers body
    → serve lib disk directory s (post_request url host headers body)
      ≡ ok (make_response lib 201 [] [] [], s'')
unfolding serve handle_request handle_post same_text make_response
serve-post_request lib disk directory s s'' url host headers body h = rw (
  parse_http_request-post_request lib url host headers body h.request h.first h.read h.declared,
  h.post,
  h.path,
  h.allowed,
  h.creates,
  h.writes,
)
