-- ===== src/TcpClient/Crash.antt =====
-- Where main in lab1-2/httpc/httpc.go panics.
use comp6461_computer_networ.Base.{
  ℕ, zero, suc, ◌≡◌, ◌≢◌, refl, ◌∙◌, inl, inr, ◌⊎◌, Bool, true, false, Option, none, some, List, [],
  ◌∷◌, ◌++◌, not, ◌&&◌, All, slice_out_of_range, index_out_of_range, Bool-cases, if◌then◌else◌,
}
use comp6461_computer_networ.Base.Bytes.{codes}
use comp6461_computer_networ.Text.{same_text}
use comp6461_computer_networ.Http.Files.{IoError, IoResult, failed, done}
use comp6461_computer_networ.TcpClient.{
  check_error, HttpResponse, Net, Program, Method, Next, success, follow, lost, refused, next_of,
  attempt, display, act, fetch, save, validate_url, data_of, report, handle_get_request,
  handle_post_request, get_method, post_method,
}
use comp6461_computer_networ.TcpClient.Main.{
  Flags, FlagParser, helped, finished, help_of, last_arg, run_get, run_post, run_words, main,
}
use comp6461_computer_networ.TcpClient.Outcome.{Run, returned, fatal, crashed, running, ◌>>=◌}

abbrev pub Survives : {A : Type 0} → Run A → Type 0
Survives (crashed e) = ⊥
Survives _ = Unit

pub >>=-Survives :
    {A B : Type 0} (x : Run A) (f : A → Run B)
    → Survives x
    → ((a : A) → Survives (f a))
    → Survives (x >>= f)
>>=-Survives (returned a) f h k = k a
>>=-Survives fatal f h k = tt
>>=-Survives running f h k = tt
>>=-Survives (crashed e) f h k = h

pub check_error-Survives : {A : Type 0} (r : IoResult A) → Survives (check_error r)
check_error-Survives (failed e) = tt
check_error-Survives (done a) = tt

pub if-Survives :
    {A : Type 0} (b : Bool) (x y : Run A) → Survives x → Survives y → Survives (if b then x else y)
if-Survives true x y hx hy = hx
if-Survives false x y hx hy = hy

pub last_arg-Survives : (args : List (List ℕ)) → args ≢ [] → Survives (last_arg args)
unfolding last_arg
last_arg-Survives [] ne = absurd (ne refl)
last_arg-Survives (a ∷ []) ne = tt
last_arg-Survives (a ∷ b ∷ args) ne = last_arg-Survives (b ∷ args) λ e. cc

module _ (net : Net) (verbose : Bool) where
  attempt-Survives :
      (m : Method) (s : Program net.State) (url : List ℕ) (hs : List (List ℕ))
      → Survives (attempt net verbose m s url hs)
  unfolding attempt
  attempt-Survives m s url hs = >>=-Survives _ _ (check_error-Survives (net.host_of url)) λ host.
      >>=-Survives _ _ (check_error-Survives _)
        λ raw. >>=-Survives _ _ (check_error-Survives (net.read_response m.verb url raw)) λ res. tt

  save-Survives :
      (s : Program net.State) (output body : List ℕ) → Survives (save net verbose s output body)
  save-Survives s [] body = tt
  save-Survives s (c ∷ output) body = by_error (net.write_file s.world (c ∷ output) body).0 refl
    where
      by_error :
          (o : Option IoError)
          → (net.write_file s.world (c ∷ output) body).0 ≡ o
          → Survives (save net verbose s (c ∷ output) body)
      by_error none e = rw (Survives, e) tt
      by_error (some x) e = rw (Survives, e) tt

  display-Survives :
      (s : Program net.State) (raw : List ℕ) (res : HttpResponse) (output : List ℕ)
      → Survives (display net verbose s raw res output)
  unfolding display
  display-Survives s raw res output = elim (Bool-cases verbose) [
    | inl e ↦ rw e tt
    | inr e ↦ rw e (>>=-Survives _ _ (check_error-Survives res.read_body) (save-Survives s output))
  ]

  fetch-Survives :
      (m : Method) (fuel : ℕ) (s : Program net.State) (url : List ℕ) (hs : List (List ℕ))
      (output : List ℕ)
      → Survives (fetch net verbose m fuel s url hs output)
  unfolding fetch
  fetch-Survives m zero s url hs output = tt
  fetch-Survives m (suc fuel) s url hs output =
      >>=-Survives _ _ (attempt-Survives m s url hs) λ ((raw, res), s').
        acts raw res s' (next_of res) (λ u t. fetch-Survives m fuel t u (m.carried hs) output)
    where
      acts :
          (raw : List ℕ) (res : HttpResponse) (s' : Program net.State) (n : Next)
          → ((u : List ℕ) (t : Program net.State)
              → Survives (fetch net verbose m fuel t u (m.carried hs) output))
          → Survives (
              act net verbose
                (λ url' t. fetch net verbose m fuel t url' (m.carried hs) output)
                output
                raw
                res
                s'
                n)
      acts raw res s' success again =
          >>=-Survives _ _ (display-Survives s' raw res output) λ s''. tt
      acts raw res s' (follow u) again = >>=-Survives _ _ (again u _) λ r. tt
      acts raw res s' lost again = tt
      acts raw res s' refused again = tt

  validate_url-Survives : (url : List ℕ) → Survives (validate_url net verbose url)
  validate_url-Survives url = by_error (net.parse_request_uri url) refl
    where
      by_error :
          (o : Option IoError)
          → net.parse_request_uri url ≡ o
          → Survives (validate_url net verbose url)
      by_error none e = rw (Survives, e) tt
      by_error (some x) e = rw (Survives, e) tt

  data_of-Survives :
      (s : Program net.State) (inline file : List ℕ) → Survives (data_of net verbose s inline file)
  data_of-Survives s [] [] = tt
  data_of-Survives s [] (c ∷ file) = check_error-Survives (net.read_file s.world (c ∷ file))
  data_of-Survives s (d ∷ inline) file = tt

  handle_get_request-Survives :
      (fuel : ℕ) (s : Program net.State) (url : List ℕ) (hs : List (List ℕ)) (output : List ℕ)
      → Survives (handle_get_request net verbose fuel s url hs output)
  unfolding handle_get_request
  handle_get_request-Survives fuel s url hs output =
      >>=-Survives _ _ (validate_url-Survives url) λ valid.
        if-Survives valid _ _
          (>>=-Survives _ _
            (fetch-Survives get_method fuel (report net verbose s url hs) url hs output) λ r. tt)
          tt

  handle_post_request-Survives :
      (fuel : ℕ) (s : Program net.State) (url : List ℕ) (hs : List (List ℕ))
      (inline file output : List ℕ)
      → Survives (handle_post_request net verbose fuel s url hs inline file output)
  unfolding handle_post_request
  handle_post_request-Survives fuel s url hs inline file output =
      let s' = report net verbose s url hs in
      if-Survives (not (same_text inline []) && not (same_text file [])) fatal _ tt (
        >>=-Survives _ _ (validate_url-Survives url) λ valid.
          if-Survives valid _ (returned (none, s))
            (>>=-Survives _ _ (data_of-Survives s' inline file) λ body.
              >>=-Survives _ (λ r. returned (some r.0, r.1))
                (fetch-Survives (post_method body) fuel s' url hs output) λ r. tt)
            tt)

-- A word that is no command.
pub record IsOther (word : List ℕ) : Type 0 where
  pub no_help : same_text word (codes "help") ≡ false
  pub no_get : same_text word (codes "get") ≡ false
  pub no_post : same_text word (codes "post") ≡ false

module _ (net : Net) (fuel : ℕ) (f : Flags) (s : Program net.State) where
  run_get-Survives : f.args ≢ [] → Survives (run_get net fuel f s)
  run_get-Survives ne = >>=-Survives _ _ (last_arg-Survives f.args ne) λ url.
      >>=-Survives _ (λ r. returned (finished r.1))
        (handle_get_request-Survives net f.verbose fuel s url f.headers f.output) λ r. tt

  run_post-Survives : f.args ≢ [] → Survives (run_post net fuel f s)
  run_post-Survives ne = >>=-Survives _ _ (last_arg-Survives f.args ne) λ url.
      >>=-Survives _ (λ r. returned (finished r.1))
        (handle_post_request-Survives net f.verbose fuel s url f.headers f.inline f.file f.output)
        λ r. tt

  run_words-Survives :
      (all words : List (List ℕ)) → f.args ≢ [] → Survives (run_words net fuel f s all words)
  unfolding run_words
  run_words-Survives all [] ne = tt
  run_words-Survives all (w ∷ words) ne =
      let rest = run_words net fuel f s all words in
      let posts = if same_text w (codes "post") then run_post net fuel f s else rest in
      if-Survives (same_text w (codes "help")) (returned (helped (help_of all))) _ tt (
        if-Survives (same_text w (codes "get")) (run_get net fuel f s) posts (run_get-Survives ne) (
          if-Survives (same_text w (codes "post")) (run_post net fuel f s) rest
            (run_post-Survives ne) (run_words-Survives all words ne)))

  run_words-others :
      (all junk words : List (List ℕ))
      → All IsOther junk
      → run_words net fuel f s all (junk ++ words) ≡ run_words net fuel f s all words
  unfolding run_words
  run_words-others all [] words h = refl
  run_words-others all (w ∷ junk) words h =
      rw (h.0.no_help, h.0.no_get, h.0.no_post) (run_words-others all junk words h.1)

  run_words-crash :
      (all words : List (List ℕ)) (command : List ℕ)
      → (command ≡ codes "get") ⊎ (command ≡ codes "post")
      → f.args ≡ []
      → run_words net fuel f s all (command ∷ words) ≡ crashed index_out_of_range
  unfolding run_words same_text last_arg
  run_words-crash all words command (inl e) none_left = rw (e, none_left) refl
  run_words-crash all words command (inr e) none_left = rw (e, none_left) refl

-- The panics of `main`. Without arguments it stops on the slice of os.Args; with a command line on
-- which the first command is get or post, and nothing behind the flags, it stops on the index
-- before the first element; and with an argument, and something behind the flags, it never panics.
pub main_crashes :
    (net : Net) (parser : FlagParser) (fuel : ℕ) (s : Program net.State)
    → ((words : List (List ℕ))
        → parser.words [] ≡ some words
        → main net parser fuel s [] ≡ crashed slice_out_of_range)
      × ((a : List ℕ) (rest junk words : List (List ℕ)) (command : List ℕ) (f : Flags)
          → parser.words (a ∷ rest) ≡ some (junk ++ (command ∷ words))
          → parser.flags rest ≡ some f
          → All IsOther junk
          → (command ≡ codes "get") ⊎ (command ≡ codes "post")
          → f.args ≡ []
          → main net parser fuel s (a ∷ rest) ≡ crashed index_out_of_range)
      × ((a : List ℕ) (rest : List (List ℕ))
          → ((f : Flags) → parser.flags rest ≡ some f → f.args ≢ [])
          → Survives (main net parser fuel s (a ∷ rest)))
unfolding main
main_crashes net parser fuel s = (
  λ words parsed. rw (main, parsed) refl,
  λ a rest junk words command f parsed flags others known none_left.
      crash a rest junk words command f parsed flags others known none_left,
  λ a rest present. survive a rest present (parser.words (a ∷ rest)) (parser.flags rest) refl refl,
)
  where
    crash :
        (a : List ℕ) (rest junk words : List (List ℕ)) (command : List ℕ) (f : Flags)
        → parser.words (a ∷ rest) ≡ some (junk ++ (command ∷ words))
        → parser.flags rest ≡ some f
        → All IsOther junk
        → (command ≡ codes "get") ⊎ (command ≡ codes "post")
        → f.args ≡ []
        → main net parser fuel s (a ∷ rest) ≡ crashed index_out_of_range
    crash a rest [] words command f parsed flags others known none_left =
        rw (main, parsed, flags)
          (run_words-crash net fuel f s (command ∷ words) words command known none_left)
    crash a rest (w ∷ junk) words command f parsed flags others known none_left =
        let all = (w ∷ junk) ++ (command ∷ words) in
        rw (main, parsed, flags)
          (run_words-others net fuel f s all (w ∷ junk) (command ∷ words) others
            ∙ run_words-crash net fuel f s all words command known none_left)

    survive :
        (a : List ℕ) (rest : List (List ℕ))
        → ((f : Flags) → parser.flags rest ≡ some f → f.args ≢ [])
        → (o : Option (List (List ℕ))) (p : Option Flags) → parser.words (a ∷ rest) ≡ o
        → parser.flags rest ≡ p
        → Survives (main net parser fuel s (a ∷ rest))
    survive a rest present none p parsed flags = rw (Survives, main, parsed) tt
    survive a rest present (some words) none parsed flags = rw (Survives, main, parsed, flags) tt
    survive a rest present (some []) (some f) parsed flags = rw (Survives, main, parsed, flags) tt
    survive a rest present (some (w ∷ words)) (some f) parsed flags =
        rw (main, parsed, flags)
          (run_words-Survives net fuel f s (w ∷ words) (w ∷ words) (present f flags))
