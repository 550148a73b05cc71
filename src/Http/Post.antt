-- ===== src/Http/Post.antt =====
-- The request of the client's post (lab3/httpc/httpc.go) under the server's parseHttpRequest.
use mathlib.Core.List.{append_assoc}
use comp6461_computer_networ.Base.{ℕ, ◌+◌, ◌≡◌, ap, ◌∙◌, arith, some, List, ◌++◌}
use comp6461_computer_networ.Base.{
  length, take, drop, ok, length-append, take-append, drop-append, take_all, drop_all,
}
use comp6461_computer_networ.Base.Bytes.{codes}
use comp6461_computer_networ.Text.{find, itoa, same_text_refl, index_from-append}
use comp6461_computer_networ.Client.{request_head, header_lines, post_request, header_end}
use comp6461_computer_networ.Http.{HttpRequest, Library, parse_http_request}
use comp6461_computer_networ.Http.Files.{done}

regroup :
    (a b c d e f : List ℕ) → a ++ (b ++ (c ++ (d ++ (e ++ f)))) ≡ ((a ++ (b ++ (c ++ d))) ++ e) ++ f
regroup a b c d e f = simp append_assoc

-- The header of the request, up to the empty line.
abbrev pub post_head : List ℕ → List ℕ → List (List ℕ) → List ℕ → List ℕ
post_head url host headers body =
    request_head (codes "POST ") url host
    ++ (header_lines headers ++ (codes "Content-Length: " ++ itoa (length body)))

pub post_request-head :
    (url host : List ℕ) (headers : List (List ℕ)) (body : List ℕ)
    → post_request url host headers body ≡ (post_head url host headers body ++ header_end) ++ body
unfolding post_request
post_request-head url host headers body =
    regroup (request_head (codes "POST ") url host) (header_lines headers)
      (codes "Content-Length: ") (itoa (length body)) header_end body

-- Bytes that begin with a header are read as the request of the header, and the rest as its body.
parse_http_request-split :
    (lib : Library) (head body : List ℕ) (r : HttpRequest)
    → find (head ++ header_end) header_end ≡ some (length head)
    → lib.read_request (head ++ header_end) ≡ done r
    → r.content_length ≡ itoa (length body)
    → parse_http_request lib ((head ++ header_end) ++ body)
      ≡ ok (done (record r { read_body = done body }))
unfolding parse_http_request
parse_http_request-split lib head body r first read len =
    let found = index_from-append 0 (length head) (head ++ header_end) body header_end first in
    let header : take (length head) ((head ++ header_end) ++ body) ≡ head = rw append_assoc (
      take-append (length head) head (header_end ++ body) (omega arith)
      ∙ take_all (length head) head (omega arith)) in
    let size = length-append head header_end in
    let rest : drop (length head + 4) ((head ++ header_end) ++ body) ≡ body =
      drop-append (length head + 4) (head ++ header_end) body (omega arith)
      ∙ ap (λ x. x ++ body) (drop_all (length head + 4) (head ++ header_end) (omega arith)) in
    rw (parse_http_request, found, header, read, rest, len, same_text_refl (itoa (length body)))

-- Let the header of a POST of the client have no empty line before its end, and let net/http read
-- it as a request `r` with the Content-Length that stands in it. Then the server reads the text of
-- the POST as `r` with exactly the data as its body, whatever bytes these are.
pub parse_http_request-post_request :
    (lib : Library) (url host : List ℕ) (headers : List (List ℕ)) (body : List ℕ) (r : HttpRequest)
    → find (post_head url host headers body ++ header_end) header_end
      ≡ some (length (post_head url host headers body))
    → lib.read_request (post_head url host headers body ++ header_end) ≡ done r
    → r.content_length ≡ itoa (length body)
    → parse_http_request lib (post_request url host headers body)
      ≡ ok (done (record r { read_body = done body }))
parse_http_request-post_request lib url host headers body r first read len =
    ap (parse_http_request lib) (post_request-head url host headers body)
    ∙ parse_http_request-split lib (post_head url host headers body) body r first read len
