-- ===== src/Client/Stops.antt =====
-- Where main in lab3/httpc/httpc.go panics, and what it does with words that are no commands.
use comp6461_computer_networ.Base.{
  ℕ, ◌≡◌, ◌≢◌, refl, ◌∙◌, Option, none, some, List, [], ◌∷◌, not, ◌&&◌, ◌==◌, slice_out_of_range,
  index_out_of_range,
}
use comp6461_computer_networ.Base.Bytes.{codes}
use comp6461_computer_networ.Text.{same_text}
use comp6461_computer_networ.Packet.{UdpAddr}
use comp6461_computer_networ.Client.{get_request, post_request}
use comp6461_computer_networ.Http.Files.{IoError, IoResult, failed, done}
use comp6461_computer_networ.TcpClient.{HttpResponse}
use comp6461_computer_networ.TcpClient.Main.{Flags, FlagParser, help_of, last_arg, usage}
use comp6461_computer_networ.TcpClient.Outcome.{returned, fatal, crashed}
use comp6461_computer_networ.TcpClient.Crash.{
  Survives, >>=-Survives, check_error-Survives, if-Survives, last_arg-Survives, IsOther,
}
use comp6461_computer_networ.Client.Command.{
  Services, Program, report, validate_url, data_of, get, post, conclude, save,
  process_http_response, handle_get_request, handle_post_request, helped, blocked, run_word,
  open_connection, main, transmit,
}
use comp6461_computer_networ.Client.Outcomes.{IsConnected, main-connected}

-- The transport does not panic.
pub record IsSound (v : Services) : Type 0 where
  pub connect_lem : (w : v.State) (server : UdpAddr) → Survives (v.connect w server)
  pub send_lem : (w : v.State) (text : List ℕ) → Survives (v.send w text)

module _ (v : Services) where
  save-Survives : (s : Program v.State) (output body : List ℕ) → Survives (save v s output body)
  save-Survives s [] body = tt
  save-Survives s (c ∷ output) body = by_error (v.write_file s.world (c ∷ output) body).0 refl
    where
      by_error :
          (o : Option IoError)
          → (v.write_file s.world (c ∷ output) body).0 ≡ o
          → Survives (save v s (c ∷ output) body)
      by_error none e = rw (Survives, e) tt
      by_error (some x) e = rw (Survives, e) tt

  conclude-Survives :
      (output raw : List ℕ) (r : IoResult HttpResponse) (s : Program v.State)
      → Survives (conclude v output ((r, raw), s))
  unfolding process_http_response
  conclude-Survives output raw (failed e) s = tt
  conclude-Survives output raw (done r) s =
      if-Survives (r.status == 200) _ _
        (>>=-Survives _ _ (check_error-Survives r.read_body) λ body. save-Survives s output body) tt

  validate_url-Survives : (url : List ℕ) → Survives (validate_url v url)
  validate_url-Survives url = by_error (v.parse_request_uri url) refl
    where
      by_error : (o : Option IoError) → v.parse_request_uri url ≡ o → Survives (validate_url v url)
      by_error none e = rw (Survives, e) tt
      by_error (some x) e = rw (Survives, e) tt

  data_of-Survives :
      (s : Program v.State) (inline file : List ℕ) → Survives (data_of v s inline file)
  data_of-Survives s [] [] = tt
  data_of-Survives s [] (c ∷ file) = check_error-Survives (v.read_file s.world (c ∷ file))
  data_of-Survives s (d ∷ inline) file = tt

  module _ (sound : IsSound v) where
    transmit-Survives : (s : Program v.State) (text : List ℕ) → Survives (transmit v s text)
    transmit-Survives s text = >>=-Survives _ _ (sound.send_lem s.world text) λ r. tt

    get-Survives :
        (s : Program v.State) (url : List ℕ) (hs : List (List ℕ)) → Survives (get v s url hs)
    unfolding get
    get-Survives s url hs =
        >>=-Survives _ _ (check_error-Survives (v.host_of url))
          λ host. >>=-Survives _ _ (transmit-Survives s (get_request url host hs)) λ r. tt

    post-Survives :
        (s : Program v.State) (url : List ℕ) (hs : List (List ℕ)) (body : List ℕ)
        → Survives (post v s url hs body)
    unfolding post
    post-Survives s url hs body =
        >>=-Survives _ _ (check_error-Survives (v.host_of url))
          λ host. >>=-Survives _ _ (transmit-Survives s (post_request url host hs body)) λ r. tt

    handle_get_request-Survives :
        (f : Flags) (s : Program v.State) (url : List ℕ) → Survives (handle_get_request v f s url)
    unfolding handle_get_request
    handle_get_request-Survives f s url = >>=-Survives _ _ (validate_url-Survives url) λ valid.
        if-Survives valid _ _
          (>>=-Survives _ _ (get-Survives (report v f.verbose s url f.headers) url f.headers)
            λ ((r, raw), t). conclude-Survives f.output raw r t)
          tt

    handle_post_request-Survives :
        (f : Flags) (s : Program v.State) (url : List ℕ) → Survives (handle_post_request v f s url)
    unfolding handle_post_request
    handle_post_request-Survives f s url =
        let s' = report v f.verbose s url f.headers in
        if-Survives (not (same_text f.inline []) && not (same_text f.file [])) fatal _ tt (
          >>=-Survives _ _ (validate_url-Survives url) λ valid.
            if-Survives valid _ _
              (>>=-Survives _ _ (data_of-Survives s' f.inline f.file) λ body.
                >>=-Survives _ _ (post-Survives s' url f.headers body)
                  λ ((r, raw), t). conclude-Survives f.output raw r t)
              tt)

    run_word-Survives :
        (f : Flags) (s : Program v.State) (all : List (List ℕ)) (url word : List ℕ)
        → Survives (run_word v f s all url word)
    unfolding run_word
    run_word-Survives f s all url word =
        if-Survives (same_text word (codes "help")) (returned (helped (help_of all))) _ tt (
          if-Survives (same_text word (codes "get")) _ _
            (>>=-Survives _ (λ t. returned (blocked t)) (handle_get_request-Survives f s url)
              λ t. tt)
            (if-Survives (same_text word (codes "post")) _ (returned (blocked s))
              (>>=-Survives _ (λ t. returned (blocked t)) (handle_post_request-Survives f s url)
                λ t. tt)
              tt))

    open_connection-Survives :
        (s : Program v.State) (url : List ℕ) → Survives (open_connection v s url)
    open_connection-Survives s url = >>=-Survives _ _ (check_error-Survives (v.host_of url)) λ host.
        >>=-Survives _ _ (check_error-Survives (v.resolve host))
          λ server. >>=-Survives _ _ (sound.connect_lem s.world server) λ w. tt

  pub main_stops :
      (parser : FlagParser) (s : Program v.State)
      → ((words : List (List ℕ))
          → parser.words [] ≡ some words
          → main v parser s [] ≡ crashed slice_out_of_range)
        × ((a : List ℕ) (rest words : List (List ℕ)) (f : Flags)
            → parser.words (a ∷ rest) ≡ some words
            → parser.flags rest ≡ some f
            → f.args ≡ []
            → main v parser s (a ∷ rest) ≡ crashed index_out_of_range)
        × (IsSound v
            → (a : List ℕ) (rest : List (List ℕ))
            → ((f : Flags) → parser.flags rest ≡ some f → f.args ≢ [])
            → Survives (main v parser s (a ∷ rest)))
        × ((argv : List (List ℕ)) (f : Flags) (url host word : List ℕ) (w : v.State)
            → IsConnected v parser s argv word f url host w
            → IsOther word
            → main v parser s argv ≡ returned (blocked (record s { world = w })))
  unfolding main run_word last_arg
  main_stops parser s = (
    λ words parsed. rw (main, parsed) refl,
    λ a rest words f parsed flags none_left. rw (main, parsed, flags, none_left) refl,
    λ sound a rest present.
        survive sound a rest present (parser.words (a ∷ rest)) (parser.flags rest) refl refl,
    λ argv f url host word w h other.
        main-connected v parser s argv word f url host w h
        ∙ rw (run_word, other.no_help, other.no_get, other.no_post) refl,
  )
    where
      words_survive :
          (f : Flags) (url : List ℕ) (words : List (List ℕ)) (t : Program v.State)
          → IsSound v
          → Survives (elim words [
            | [] ↦ returned (helped usage)
            | word ∷ others ↦ run_word v f t (word ∷ others) url word
          ])
      words_survive f url [] t sound = tt
      words_survive f url (word ∷ others) t sound =
          run_word-Survives sound f t (word ∷ others) url word

      survive :
          IsSound v
          → (a : List ℕ) (rest : List (List ℕ))
          → ((f : Flags) → parser.flags rest ≡ some f → f.args ≢ [])
          → (o : Option (List (List ℕ))) (p : Option Flags) → parser.words (a ∷ rest) ≡ o
          → parser.flags rest ≡ p
          → Survives (main v parser s (a ∷ rest))
      survive sound a rest present none p parsed flags = rw (Survives, main, parsed) tt
      survive sound a rest present (some words) none parsed flags =
          rw (Survives, main, parsed, flags) tt
      survive sound a rest present (some words) (some f) parsed flags =
          rw (main, parsed, flags)
            (>>=-Survives _ _ (last_arg-Survives f.args (present f flags)) λ url.
              >>=-Survives _ _ (open_connection-Survives sound s url)
                λ t. words_survive f url words t sound)
