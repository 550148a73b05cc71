-- ===== src/TcpClient/Redirects.antt =====
-- The redirects of get and post in lab1-2/httpc/httpc.go.
use mathlib.Core.List.{append_assoc, append-nil}
use comp6461_computer_networ.Base.{
  ℕ, zero, suc, ◌+◌, ◌-◌, dec_le, ◌≤◌, ◌<◌, ◌≡◌, ◌≢◌, refl, sym, ap, ◌∙◌, arith, inl, inr, ◌⊎◌,
  Bool, true, false, List, [], ◌∷◌, ◌++◌, map, length, if◌then◌else◌,
}
use comp6461_computer_networ.Http.Files.{done}
use comp6461_computer_networ.TcpClient.{
  HttpResponse, Net, Line, shown, redirected, Sent, Program, Method, follow, next_of, attempt,
  display, fetch,
}
use comp6461_computer_networ.TcpClient.Outcome.{Run, returned, running, ◌>>=◌}

-- A result whose response is another.
abbrev answered : {A S : Type 0} → (A → A) → Run (A × S) → Run (A × S)
answered f x = x >>= λ r. returned (f r.0, r.1)

answered_same : {A S : Type 0} (x : Run (A × S)) → answered (λ a. a) x ≡ x
answered_same (returned (a, s)) = refl
answered_same Run.fatal = refl
answered_same (Run.crashed e) = refl
answered_same running = refl

answered_twice :
    {A S : Type 0} (f : A → A) (a : A) (x : Run (A × S))
    → answered (λ b. a) (answered f x) ≡ answered (λ b. a) x
answered_twice f a (returned (b, s)) = refl
answered_twice f a Run.fatal = refl
answered_twice f a (Run.crashed e) = refl
answered_twice f a running = refl

-- A response that is a redirect to `url'`.
pub record IsMoved (r : HttpResponse) (url' : List ℕ) : Type 0 where
  pub moved : (r.status ≡ 301) ⊎ (r.status ≡ 302)
  pub location : r.location ≡ url'
  pub present : url' ≢ []

next_of-moved : (r : HttpResponse) (url' : List ℕ) → IsMoved r url' → next_of r ≡ follow url'
unfolding next_of
next_of-moved r [] h = absurd (h.present refl)
next_of-moved r (c ∷ url') h = elim h.moved [
  | inl e ↦ rw (e, h.location)
  | inr e ↦ rw (e, h.location)
]

module _ (net : Net) (m : Method) where
  -- One request that is answered in the world `w`, which becomes `w'`.
  pub record IsAnswered (w : net.State) (url : List ℕ) (headers : List (List ℕ)) (w' : net.State)
      : Type 0 where
    pub host : List ℕ
    pub raw : List ℕ
    pub response : HttpResponse
    pub resolves : net.host_of url ≡ done host
    pub answers : net.exchange w host (m.text url host headers) ≡ (done raw, w')
    pub reads : net.read_response m.verb url raw ≡ done response

  abbrev pub request_of :
      {w w' : net.State} (url : List ℕ) (headers : List (List ℕ))
      → IsAnswered w url headers w'
      → Sent
  request_of url headers a = record { host = a.host; text = m.text url a.host headers }

  -- Redirects from one request to another, with what is sent on the way and where it leads.
  pub data Chain
      : net.State
        → List ℕ
        → List (List ℕ)
        → List Sent
        → List (List ℕ)
        → net.State
        → List ℕ
        → List (List ℕ)
        → Type 0 where
    stay : {w : net.State} {url : List ℕ} {hs : List (List ℕ)} → Chain w url hs [] [] w url hs
    hop :
        {w w1 w' : net.State} {url url1 url' : List ℕ} {hs hs' : List (List ℕ)} {sent : List Sent}
        {urls : List (List ℕ)} (a : IsAnswered w url hs w1)
        → IsMoved a.response url1
        → Chain w1 url1 (m.carried hs) sent urls w' url' hs'
        → Chain w url hs (request_of url hs a ∷ sent) (url1 ∷ urls) w' url' hs'

  abbrev pub program : net.State → List Sent → List Line → Program net.State
  program w sent printed = record { world = w; sent = sent; printed = printed }

  pub attempt-answered :
      (verbose : Bool) (w w' : net.State) (t : List Sent) (p : List Line) (url : List ℕ)
      (hs : List (List ℕ)) (a : IsAnswered w url hs w')
      → attempt net verbose m (program w t p) url hs
        ≡ returned ((a.raw, a.response), program w' (t ++ (request_of url hs a ∷ [])) p)
  unfolding attempt
  attempt-answered verbose w w' t p url hs a = rw (a.resolves, a.answers, a.reads) refl

  fetch-hop :
      (verbose : Bool) (fuel : ℕ) (w w1 : net.State) (t : List Sent) (p : List Line)
      (url url1 : List ℕ) (hs : List (List ℕ)) (output : List ℕ) (a : IsAnswered w url hs w1)
      → IsMoved a.response url1
      → fetch net verbose m (suc fuel) (program w t p) url hs output
        ≡ answered
            (λ r. a.response)
            (fetch net verbose m fuel
              (program w1 (t ++ (request_of url hs a ∷ [])) (p ++ (redirected url1 ∷ [])))
              url1
              (m.carried hs)
              output)
  unfolding fetch
  fetch-hop verbose fuel w w1 t p url url1 hs output a moved =
      rw (fetch, attempt-answered verbose w w1 t p url hs a)
        (rw (next_of-moved a.response url1 moved) refl)

  -- The response of `fetch` is that to the first request.
  abbrev pub first :
      {w w' : net.State} {url url' : List ℕ} {hs hs' : List (List ℕ)} {sent : List Sent}
      {urls : List (List ℕ)}
      → Chain w url hs sent urls w' url' hs'
      → HttpResponse
      → HttpResponse
  first stay r = r
  first (hop a moved c) r = a.response

  fetch-Chain :
      {w w' : net.State} {url url' : List ℕ} {hs hs' : List (List ℕ)} {sent : List Sent}
      {urls : List (List ℕ)} (c : Chain w url hs sent urls w' url' hs') (verbose : Bool)
      (budget fuel : ℕ) (t : List Sent) (p : List Line) (output : List ℕ)
      → budget ≡ length urls + fuel
      → fetch net verbose m budget (program w t p) url hs output
        ≡ answered (first c) (
            fetch net verbose m fuel
              (program w' (t ++ sent) (p ++ map redirected urls))
              url'
              hs'
              output)
  fetch-Chain {w} {w'} {url} {url'} {hs} {hs'} stay verbose budget fuel t p output enough =
      let same : budget ≡ fuel = omega arith in
      rw (same, append-nil t, append-nil p)
        (sym (answered_same (fetch net verbose m fuel (program w t p) url hs output)))
  fetch-Chain (hop a moved c) verbose zero fuel t p output enough = absurd (omega arith)
  fetch-Chain {w} {w'} {url} {url'} {hs} {hs'}
        (hop {w1 = w1} {url1 = url1} {sent = sent} {urls = urls} a moved c) verbose (suc budget)
        fuel t p output enough =
      let t1 = t ++ (request_of url hs a ∷ []) in
      let p1 = p ++ (redirected url1 ∷ []) in
      let ih = fetch-Chain c verbose budget fuel t1 p1 output (omega arith) in
      let t2 : t1 ++ sent ≡ t ++ (request_of url hs a ∷ sent) =
        append_assoc t (request_of url hs a ∷ []) sent in
      let p2 : p1 ++ map redirected urls ≡ p ++ (redirected url1 ∷ map redirected urls) =
        append_assoc p (redirected url1 ∷ []) (map redirected urls) in
      fetch-hop verbose budget w w1 t p url url1 hs output a moved
      ∙ ap (answered (λ r. a.response)) ih
      ∙ answered_twice (first c) a.response _
      ∙ (λ i.
          answered (λ r. a.response)
            (fetch net verbose m fuel (program w' (t2 i) (p2 i)) url' hs' output))

  pub fetch-success :
      (verbose : Bool) (fuel : ℕ) (w w' : net.State) (t : List Sent) (p : List Line) (url : List ℕ)
      (hs : List (List ℕ)) (body : List ℕ) (a : IsAnswered w url hs w')
      → a.response.status ≡ 200
      → a.response.read_body ≡ done body
      → fetch net verbose m (suc fuel) (program w t p) url hs []
        ≡ returned (
          a.response,
          program w'
              (t ++ (request_of url hs a ∷ []))
              (p ++ (shown (if verbose then a.raw else body) ∷ [])),
        )
  unfolding fetch display next_of
  fetch-success true fuel w w' t p url hs body a fine read =
      rw (fetch, attempt-answered true w w' t p url hs a) (rw fine refl)
  fetch-success false fuel w w' t p url hs body a fine read =
      rw (fetch, attempt-answered false w w' t p url hs a) (rw (fine, read) refl)

  -- Let redirects lead from a request to one that is answered with 200 and a body that can be read.
  -- With more fuel than there are redirects, and no output file, the call returns the response to
  -- the first request. What was sent is the requests on the way, each with the headers that its
  -- method carries, and the last one; what was printed is a line for each redirect, and then the
  -- last response, whole in verbose mode and else its body.
  pub redirects_end :
      {w' : net.State} {url' : List ℕ} {hs' : List (List ℕ)} {sent : List Sent}
      {urls : List (List ℕ)} (s : Program net.State) (url : List ℕ) (hs : List (List ℕ))
      (c : Chain s.world url hs sent urls w' url' hs') (verbose : Bool) (budget : ℕ)
      (w'' : net.State) (body : List ℕ) (a : IsAnswered w' url' hs' w'')
      → a.response.status ≡ 200
      → a.response.read_body ≡ done body
      → length urls < budget
      → fetch net verbose m budget s url hs []
        ≡ returned (
          first c a.response,
          program w'' (s.sent ++ (sent ++ (request_of url' hs' a ∷ []))) (
              s.printed ++ (map redirected urls ++ (shown (if verbose then a.raw else body) ∷ []))),
        )
  redirects_end {w'} {url'} {hs'} {sent} {urls} s url hs c verbose budget w'' body a fine read
        enough =
      let last =
        fetch-success verbose (budget - length urls - 1) w' w'' (s.sent ++ sent)
          (s.printed ++ map redirected urls) url' hs' body a fine read in
      fetch-Chain c verbose budget (suc (budget - length urls - 1)) s.sent s.printed []
        (omega arith)
      ∙ ap (answered (first c)) last
      ∙ rw
          (
            append_assoc s.sent sent (request_of url' hs' a ∷ []),
            append_assoc s.printed (map redirected urls)
                (shown (if verbose then a.raw else body) ∷ []),
          )
          refl

  short_of_fuel :
      {w w' : net.State} {url url' : List ℕ} {hs hs' : List (List ℕ)} {sent : List Sent}
      {urls : List (List ℕ)} (c : Chain w url hs sent urls w' url' hs') (verbose : Bool)
      (budget : ℕ) (t : List Sent) (p : List Line) (output : List ℕ)
      → budget ≤ length urls
      → fetch net verbose m budget (program w t p) url hs output ≡ running
  unfolding fetch
  short_of_fuel stay verbose zero t p output short = refl
  short_of_fuel stay verbose (suc budget) t p output short = absurd (omega arith)
  short_of_fuel (hop a moved c) verbose zero t p output short = refl
  short_of_fuel {w} {w'} {url} {url'} {hs} {hs'}
        (hop {w1 = w1} {url1 = url1} {sent = sent} {urls = urls} a moved c) verbose (suc budget) t p
        output short =
      fetch-hop verbose budget w w1 t p url url1 hs output a moved
      ∙ ap (answered (λ r. a.response)) (
          short_of_fuel c verbose budget (t ++ (request_of url hs a ∷ []))
            (p ++ (redirected url1 ∷ [])) output (omega arith))

  round_again :
      {w : net.State} {url : List ℕ} {hs : List (List ℕ)} {sent : List Sent} {u : List ℕ}
      {urls : List (List ℕ)} (c : Chain w url hs sent (u ∷ urls) w url hs) (verbose : Bool)
      (bound budget : ℕ) (t : List Sent) (p : List Line) (output : List ℕ)
      → budget ≤ bound
      → fetch net verbose m budget (program w t p) url hs output ≡ running
  round_again c verbose zero budget t p output le =
      short_of_fuel c verbose budget t p output (omega arith)
  round_again {w} {url} {hs} {sent} {u} {urls} c verbose (suc bound) budget t p output le =
      elim (dec_le budget (length (u ∷ urls))) [
        | yes short ↦ short_of_fuel c verbose budget t p output short
        | no long ↦
            fetch-Chain c verbose budget (budget - length (u ∷ urls)) t p output (omega arith)
            ∙ ap (answered (first c)) (
                round_again c verbose bound (budget - length (u ∷ urls)) (t ++ sent)
                  (p ++ map redirected (u ∷ urls)) output (omega arith))
      ]

  -- Once redirects lead to a request from which they lead back to the same request, in the same
  -- world, no fuel is enough: the calls never end.
  pub redirects_cycle :
      {w : net.State} {url' : List ℕ} {hs' : List (List ℕ)} {before around : List Sent} {u : List ℕ}
      {urls urls' : List (List ℕ)} (s : Program net.State) (url : List ℕ) (hs : List (List ℕ))
      → Chain s.world url hs before urls w url' hs'
      → Chain w url' hs' around (u ∷ urls') w url' hs'
      → (verbose : Bool) (budget : ℕ) (output : List ℕ)
      → fetch net verbose m budget s url hs output ≡ running
  redirects_cycle {before = before} {urls = urls} s url hs c loop verbose budget output =
      elim (dec_le budget (length urls)) [
        | yes short ↦ short_of_fuel c verbose budget s.sent s.printed output short
        | no long ↦
            fetch-Chain c verbose budget (budget - length urls) s.sent s.printed output
              (omega arith)
            ∙ ap (answered (first c)) (
                round_again loop verbose (budget - length urls) (budget - length urls)
                  (s.sent ++ before) (s.printed ++ map redirected urls) output (omega arith))
      ]
