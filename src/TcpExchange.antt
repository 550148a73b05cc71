-- ===== src/TcpExchange.antt =====
-- The client and the server of lab1-2 together: a POST and a GET over TCP.
use mathlib.Core.List.{append-nil}
use comp6461_computer_networ.Base.{
  Bool-cases, ℕ, suc, ◌≡◌, ◌≢◌, refl, sym, ap, ◌∙◌, inl, inr, Bool, false, Option, none, some, List,
  [], ◌∷◌, ◌++◌, map, concat, All, Go, ok, panic, stuck,
}
use comp6461_computer_networ.Base.Bytes.{codes}
use comp6461_computer_networ.Text.{contains, same_text}
use comp6461_computer_networ.Client.{get_request, post_request}
use comp6461_computer_networ.Http.{HttpRequest, Library, join_path}
use comp6461_computer_networ.Http
use comp6461_computer_networ.Http.Files.{IoError, IoResult, failed, done, Disk, IsLawful}
use comp6461_computer_networ.Http.Post.{post_head, post_request-head}
use comp6461_computer_networ.Http.Serve.{IsStored}
use comp6461_computer_networ.TcpServer.{
  header_end, get_file, handle_get, answer, handle_conn, handle_post, make_response,
}
use comp6461_computer_networ.TcpServer.Agreement.{has_prefix-contains}
use comp6461_computer_networ.TcpServer.Header.{piece, IsHeader, handle_conn-header}
use comp6461_computer_networ.TcpServer.Stream.{IsFramed, handle_conn-pieces}
use comp6461_computer_networ.TcpClient.{
  HttpResponse, Net, shown, Line, Sent, get_method, get, post_method, post, fetch, next_of,
}
use comp6461_computer_networ.TcpClient.Outcome.{returned, ◌>>=◌}
use comp6461_computer_networ.TcpClient.Redirects.{IsAnswered, attempt-answered, fetch-success}

-- How TCP delivers a text: in pieces that are not empty.
pub record IsCut (cut : List ℕ → List (List ℕ)) : Type 0 where
  pub whole : (text : List ℕ) → concat (cut text) ≡ text
  pub present : (text : List ℕ) → All (λ p. p ≢ []) (cut text)

-- What the client reads from a connection on which the server has sent, or has stopped.
abbrev pub received :
    {S W : Type 0} → IoError → S → W → Go (Option (List ℕ) × S) → IoResult (List ℕ) × (S × W)
received e s w (ok (some response, s')) = (done response, (s', w))
received e s w (ok (none, s')) = (done [], (s', w))
received e s w (panic p) = (failed e, (s, w))
received e s w stuck = (failed e, (s, w))

-- The network in which every host is the server with its disk. The files of the client, and what
-- net/url and net/http do, are those of `net`; `broken` is the error of a connection that breaks.
abbrev pub connected :
    (lib : Library) (disk : Disk) → List ℕ → (List ℕ → List (List ℕ)) → IoError → Net → Net
connected lib disk directory cut broken net = record {
  State = disk.State × net.State;
  host_of = net.host_of;
  parse_request_uri = net.parse_request_uri;
  exchange = λ z host text.
      received broken z.0 z.1 (handle_conn lib disk directory z.0 (map piece (cut text)));
  read_response = net.read_response;
  write_file = λ z path b. ((net.write_file z.1 path b).0, (z.0, (net.write_file z.1 path b).1));
  read_file = λ z path. net.read_file z.1 path;
}

module _ (lib : Library) (disk : Disk) (directory : List ℕ) (s s'' : disk.State) (url host : List ℕ)
    (headers : List (List ℕ)) (body : List ℕ)
    (h : IsStored lib disk directory s s'' url host headers body) where
  answer-stored :
      answer lib disk directory s (record (h.request) { read_body = done body })
      ≡ ok (some (make_response lib 201 [] [] []), s'')
  unfolding answer handle_post same_text make_response
  answer-stored = elim (Bool-cases (contains h.name (codes ".."))) [
    | inl parent ↦ cc (rw parent at h.allowed)
    | inr free ↦
        rw (answer, h.post, h.path, has_prefix-contains h.name free, h.creates, h.writes) refl
  ]

  handle_conn-stored :
      (cut : List ℕ → List (List ℕ))
      → IsCut cut
      → handle_conn lib disk directory s (map piece (cut (post_request url host headers body)))
        ≡ ok (some (make_response lib 201 [] [] []), s'')
  handle_conn-stored cut c =
      let text = post_request url host headers body in
      let framed : IsFramed lib (post_head url host headers body) body h.request = record {
        header = record { once = h.first; reads = h.read };
        announced = h.declared;
      } in
      let whole = c.whole text ∙ post_request-head url host headers body in
      ap (handle_conn lib disk directory s) (sym (append-nil (map piece (cut text))))
      ∙ handle_conn-pieces lib (post_head url host headers body) body h.request framed disk
          directory s (cut text) [] whole (c.present text)
      ∙ answer-stored

  -- A POST over TCP, from end to end. Let net/http and the server's disk take the POST, let TCP cut
  -- it into any pieces that are not empty, and let the client read the 201 response as one with
  -- status 201. Then post returns that response; the disk of the server is the one with the file
  -- written, and the files of the client are as they were; and the client has sent one request, and
  -- printed the response, also when there is an output file.
  tcp_post :
      (cut : List ℕ → List (List ℕ)) (broken : IoError) (net : Net) (w : net.State)
      (r : HttpResponse) (sent : List Sent) (printed : List Line) (verbose : Bool) (fuel : ℕ)
      (output : List ℕ)
      → IsCut cut
      → net.host_of url ≡ done host
      → net.read_response (codes "POST") url (make_response lib 201 [] [] []) ≡ done r
      → r.status ≡ 201
      → post
          (connected lib disk directory cut broken net)
          verbose
          (suc fuel)
          (record { world = (s, w); sent = sent; printed = printed })
          url
          headers
          body
          output
        ≡ returned (
          r,
          record {
            world = (s'', w);
            sent = sent ++ (record { host = host; text = post_request url host headers body } ∷ []);
            printed = printed ++ (shown (make_response lib 201 [] [] []) ∷ []);
          },
        )
  unfolding fetch next_of
  tcp_post cut broken net w r sent printed verbose fuel output c resolves reads status =
      let site = connected lib disk directory cut broken net in
      let m = post_method body in
      let a : IsAnswered site m (s, w) url headers (s'', w) = record {
        host = host;
        raw = make_response lib 201 [] [] [];
        response = r;
        resolves = resolves;
        answers = ap (received broken s w) (handle_conn-stored cut c);
        reads = reads;
      } in
      rw (fetch, attempt-answered site m verbose (s, w) (s'', w) sent printed url headers a)
        (rw status refl)

-- A text whose header net/http reads as a GET of `name`, without a Content-Length.
pub record IsFetch (lib : Library) (name text : List ℕ) : Type 0 where
  pub head : List ℕ
  pub rest : List ℕ
  pub split : text ≡ (head ++ header_end) ++ rest
  pub request : HttpRequest
  pub header : IsHeader lib head request
  pub no_length : request.content_length ≡ []
  pub fetches : request.method ≡ codes "GET"
  pub slash : ℕ
  pub path : request.path ≡ slash ∷ name

module _ (lib : Library) (disk : Disk) (directory : List ℕ) (s : disk.State) (name body : List ℕ)
    (found : disk.read_file s (join_path directory name) ≡ done body) where
  answer-found :
      (r : HttpRequest) (slash : ℕ)
      → r.method ≡ codes "GET"
      → r.path ≡ slash ∷ name
      → answer lib disk directory s r ≡ ok (some (Http.file_response lib name body), s)
  unfolding answer handle_get same_text make_response
  answer-found r slash fetches path = rw (answer, fetches, path, get_file, found) refl

  handle_conn-found :
      (cut : List ℕ → List (List ℕ)) (text : List ℕ)
      → IsCut cut
      → IsFetch lib name text
      → handle_conn lib disk directory s (map piece (cut text))
        ≡ ok (some (Http.file_response lib name body), s)
  handle_conn-found cut text c g =
      ap (handle_conn lib disk directory s) (sym (append-nil (map piece (cut text))))
      ∙ handle_conn-header lib g.head g.rest g.request g.header disk directory s (cut text) []
          g.no_length (c.whole text ∙ g.split) (c.present text)
      ∙ answer-found g.request g.slash g.fetches g.path

-- A GET of that name over TCP.
get-found :
    (lib : Library) (disk : Disk) (directory : List ℕ) (s : disk.State) (name body : List ℕ)
    (found : disk.read_file s (join_path directory name) ≡ done body) (url host : List ℕ)
    (headers : List (List ℕ)) (cut : List ℕ → List (List ℕ)) (broken : IoError) (net : Net)
    (w : net.State) (r : HttpResponse) (sent : List Sent) (printed : List Line) (fuel : ℕ)
    → IsCut cut
    → IsFetch lib name (get_request url host headers)
    → net.host_of url ≡ done host
    → net.read_response (codes "GET") url (Http.file_response lib name body) ≡ done r
    → r.status ≡ 200
    → r.read_body ≡ done body
    → get
        (connected lib disk directory cut broken net)
        false
        (suc fuel)
        (record { world = (s, w); sent = sent; printed = printed })
        url
        headers
        []
      ≡ returned (
        r,
        record {
          world = (s, w);
          sent = sent ++ (record { host = host; text = get_request url host headers } ∷ []);
          printed = printed ++ (shown body ∷ []);
        },
      )
get-found lib disk directory s name body found url host headers cut broken net w r sent printed fuel
      c g resolves reads status is =
    let site = connected lib disk directory cut broken net in
    let text = get_request url host headers in
    let a : IsAnswered site get_method (s, w) url headers (s, w) = record {
      host = host;
      raw = Http.file_response lib name body;
      response = r;
      resolves = resolves;
      answers =
          ap (received broken s w)
            (handle_conn-found lib disk directory s name body found cut text c g);
      reads = reads;
    } in
    fetch-success site get_method false fuel (s, w) (s, w) sent printed url headers body a status is

-- A POST and then a GET of the same name over TCP, both programs run for both. Let net/http and the
-- server's disk take the POST, and let the disk read what was created and written; let net/http read
-- the GET; let TCP cut the texts into any pieces that are not empty; and let the client read the 201
-- response as one with status 201, and the response with the file as one with status 200 and the
-- file as its body. Let post be followed by get, without verbose mode and without an output file.
-- Then post prints the 201 response, get prints exactly the data of the POST and returns the second
-- response; the client has sent the two requests; the disk of the server is the one with the file
-- written, and the files of the client are as they were.
pub post-get :
    (lib : Library) (disk : Disk) (directory : List ℕ) (s s'' : disk.State) (url host : List ℕ)
    (headers : List (List ℕ)) (body : List ℕ)
    (h : IsStored lib disk directory s s'' url host headers body) (url' host' : List ℕ)
    (headers' : List (List ℕ)) (cut : List ℕ → List (List ℕ)) (broken : IoError) (net : Net)
    (w : net.State) (r r' : HttpResponse) (sent : List Sent) (printed : List Line) (fuel : ℕ)
    → IsLawful disk
    → IsCut cut
    → IsFetch lib h.name (get_request url' host' headers')
    → net.host_of url ≡ done host
    → net.read_response (codes "POST") url (make_response lib 201 [] [] []) ≡ done r
    → r.status ≡ 201
    → net.host_of url' ≡ done host'
    → net.read_response (codes "GET") url' (Http.file_response lib h.name body) ≡ done r'
    → r'.status ≡ 200
    → r'.read_body ≡ done body
    → (post
          (connected lib disk directory cut broken net)
          false
          (suc fuel)
          (record { world = (s, w); sent = sent; printed = printed })
          url
          headers
          body
          []
        >>= λ (_, t).
            get (connected lib disk directory cut broken net) false (suc fuel) t url' headers' [])
      ≡ returned (
        r',
        record {
          world = (s'', w);
          sent =
              (sent ++ (record { host = host; text = post_request url host headers body } ∷ []))
              ++ (record { host = host'; text = get_request url' host' headers' } ∷ []);
          printed = (printed ++ (shown (make_response lib 201 [] [] []) ∷ [])) ++ (shown body ∷ []);
        },
      )
post-get lib disk directory s s'' url host headers body h url' host' headers' cut broken net w r r'
      sent printed fuel law c g resolves reads status resolves' reads' status' is =
    let site = connected lib disk directory cut broken net in
    let stored = law.read-write s h.made s'' (join_path directory h.name) body h.creates h.writes in
    ap (λ x. x >>= λ (_, t). get site false (suc fuel) t url' headers' [])
      (tcp_post lib disk directory s s'' url host headers body h cut broken net w r sent printed
        false fuel [] c resolves reads status)
    ∙ get-found lib disk directory s'' h.name body stored url' host' headers' cut broken net w r'
        (sent ++ (record { host = host; text = post_request url host headers body } ∷ []))
        (printed ++ (shown (make_response lib 201 [] [] []) ∷ [])) fuel c g resolves' reads' status'
        is
