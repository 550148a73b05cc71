-- ===== src/Tests/Handlers.antt =====
-- The theorems on the HTTP handlers, on a disk that holds one file, and with a reader of requests
-- that knows one request.
use mathlib.Core.Path.{subst}
use comp6461_computer_networ.Base.{
  ℕ, ◌≡◌, ◌≢◌, refl, ap, ◌⊎◌, true, none, some, List, [], ◌∷◌, ◌++◌, length, ok, panic,
  nil_dereference, slice_out_of_range, if◌then◌else◌,
}
use comp6461_computer_networ.Base.Bytes.{codes}
use comp6461_computer_networ.Text.{find, itoa, same_text, same_text_refl, has_prefix, index_from}
use comp6461_computer_networ.Client.{post_request, header_lines}
use comp6461_computer_networ.Http.{
  HttpRequest, Library, Answer, header_end, make_response, file_response, handle_get, handle_post,
  verify_file_path, parse_http_request, handle_request,
}
use comp6461_computer_networ.Http.Files.{IoError, failed, done, Disk, IsLawful}
use comp6461_computer_networ.Http.Handlers.{IsAllowed, IsPathless, post_get, handle_request_outcome}
use comp6461_computer_networ.Http.Post.{post_head, parse_http_request-post_request}

abbrev pub missing : IoError
missing = record { text = codes "no such file"; not_exist = true }

-- The state is the path and the content of the only file.
abbrev pub one_file : Disk
one_file = record {
  State = List ℕ × List ℕ;
  walk = λ s directory. done (s.0 ∷ []);
  read_file = λ s path. if same_text s.0 path then done s.1 else failed missing;
  create = λ s path. (none, (path, []));
  write = λ s path b. (none, (path, b));
}

pub one_file-IsLawful : IsLawful one_file
one_file-IsLawful = record {
  read-write = λ s s' s'' path b made wrote.
      subst (λ z. one_file.read_file z path ≡ done b) (ap (λ z. z.1) wrote)
        (ap (λ t. if t then done b else failed missing) (same_text_refl path));
}

abbrev pub post_a : HttpRequest
post_a = record {
  method = codes "POST";
  path = codes "/a";
  content_length = codes "2";
  read_body = done (codes "hi");
}

abbrev pub get_a : HttpRequest
get_a = record { method = codes "GET"; path = codes "/a"; content_length = []; read_body = done [] }

-- A reader that takes every header for the one of `post_a`, before the body is known.
abbrev pub library : Library
library = record {
  date = codes "now";
  status_text = λ code. codes "OK";
  error_json = λ text. text;
  files_json = λ names. [];
  read_request = λ header. done (record post_a { read_body = done [] });
}

name_allowed : verify_file_path (codes "a") ≡ true
unfolding index_from has_prefix
name_allowed = refl

post_get_example :
    (handle_post library one_file (codes "/tmp") ([], []) post_a
      ≡ ok ((make_response library 201 [] [] [], none), (codes "/tmp/a", codes "hi")))
    × (handle_get library one_file (codes "/tmp") (codes "/tmp/a", codes "hi") get_a
        ≡ (file_response library (codes "a") (codes "hi"), none))
post_get_example =
    post_get library one_file (codes "/tmp") ([], []) (codes "/tmp/a", [])
      (codes "/tmp/a", codes "hi") post_a get_a (codes "a") (codes "hi") one_file-IsLawful refl refl
      refl name_allowed refl refl

abbrev no_header : List ℕ
no_header = codes "GET"

handle_request_outcome_example :
    ((find no_header header_end ≡ none)
      × (handle_request library one_file [] ([], []) no_header ≡ panic nil_dereference))
    ⊎ ((r : HttpRequest) × (parse_http_request library no_header ≡ ok (done r))
        × IsPathless r
        × (handle_request library one_file [] ([], []) no_header ≡ panic slice_out_of_range))
    ⊎ ((find no_header header_end ≢ none)
        × ((r : HttpRequest)
            → parse_http_request library no_header ≡ ok (done r)
            → ¬ (IsPathless r))
        × ((a : Answer) × (s' : List ℕ × List ℕ) × (handle_request library one_file []
                ([], [])
                no_header
              ≡ ok (a, s'))
            × ((s' ≡ ([], []))
                ⊎ ((r : HttpRequest) × (parse_http_request library no_header ≡ ok (done r))
                    × (same_text r.method (codes "POST") ≡ true)
                    × IsAllowed r))))
handle_request_outcome_example = handle_request_outcome library one_file [] ([], []) no_header

-- A request without the end of a header stops the server.
no_header_stops : handle_request library one_file [] ([], []) no_header ≡ panic nil_dereference
unfolding handle_request parse_http_request index_from has_prefix
no_header_stops = refl

abbrev url : List ℕ
url = codes "http://h/a"

header_once :
    find (post_head url (codes "h") [] (codes "hi") ++ header_end) header_end
    ≡ some (length (post_head url (codes "h") [] (codes "hi")))
unfolding index_from has_prefix itoa header_lines
header_once = refl

two_digits : codes "2" ≡ itoa 2
unfolding itoa
two_digits = refl

parse_http_request-post_request_example :
    parse_http_request library (post_request url (codes "h") [] (codes "hi")) ≡ ok (done post_a)
parse_http_request-post_request_example =
    parse_http_request-post_request library url (codes "h") [] (codes "hi")
      (record post_a { read_body = done [] }) header_once refl two_digits
