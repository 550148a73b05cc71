-- ===== src/Http/Handlers.antt =====
-- What the handlers of lab3/httpfs/httpfs.go answer, and what they do to the disk.
use mathlib.Core.Path.{subst}
use comp6461_computer_networ.Base.{ℕ, ◌+◌, take, drop, ◌≡◌, ◌≢◌, refl, inl, inr, ◌⊎◌}
use comp6461_computer_networ.Base.{true, false, none, some, List, [], ◌∷◌, ◌++◌}
use comp6461_computer_networ.Base.{
  ok, panic, nil_dereference, slice_out_of_range, Bool-cases, Option-cases,
}
use comp6461_computer_networ.Base.Bytes.{codes}
use comp6461_computer_networ.Text.{find, contains, same_text}
use comp6461_computer_networ.Text.Digits.{same_text-eq}
use comp6461_computer_networ.Http.{
  HttpRequest, Library, Answer, header_end, make_response, file_response, join_path,
  verify_file_path,
}
use comp6461_computer_networ.Http.{
  handle_get, handle_post, store_file, get_file, packet_error_response, fails, invalid_path,
  parse_http_request, handle_request, unsupported, with_body,
}
use comp6461_computer_networ.Http.Files.{IoResult, failed, done, Disk, IsLawful}

-- The name that a path gives to a file is not refused.
abbrev pub IsAllowed : HttpRequest → Type 0
IsAllowed r = (c : ℕ) × (name : List ℕ) × (r.path ≡ c ∷ name) × (contains name (codes "..") ≡ false)

-- The slice of the path of a POST, which comes behind the reading of its body, is out of range.
pub record IsPathless (r : HttpRequest) : Type 0 where
  pub post : same_text r.method (codes "POST") ≡ true
  pub path : r.path ≡ []
  pub body : List ℕ
  pub readable : r.read_body ≡ done body

pub get-IsPathless : (r : HttpRequest) → same_text r.method (codes "GET") ≡ true → ¬ (IsPathless r)
unfolding same_text
get-IsPathless r get h =
    let same = same_text-eq r.method (codes "GET") get in
    let post : same_text (codes "GET") (codes "POST") ≡ true =
      subst (λ m. same_text m (codes "POST") ≡ true) same h.post in
    cc

-- The parser panics exactly on bytes without the end of a header, and else returns.
parse_http_request_cases :
    (lib : Library) (bytes : List ℕ)
    → ((find bytes header_end ≡ none) × (parse_http_request lib bytes ≡ panic nil_dereference))
      ⊎ ((find bytes header_end ≢ none)
          × ((x : IoResult HttpRequest) × (parse_http_request lib bytes ≡ ok x)))
unfolding parse_http_request
parse_http_request_cases lib bytes = elim (Option-cases (find bytes header_end)) [
  | inl missing ↦ inl (missing, rw (parse_http_request, missing))
  | inr (i, at) ↦
      inr ((λ missing. cc), header (lib.read_request (take i bytes ++ header_end)) i at refl)
]
  where
    header :
        (x : IoResult HttpRequest) (i : ℕ)
        → find bytes header_end ≡ some i
        → lib.read_request (take i bytes ++ header_end) ≡ x
        → (y : IoResult HttpRequest) × (parse_http_request lib bytes ≡ ok y)
    header (failed e) i at is = (failed e, rw (parse_http_request, at, is))
    header (done r) i at is =
        (done (with_body r (drop (i + 4) bytes)), rw (parse_http_request, at, is))

module _ (lib : Library) (disk : Disk) (directory : List ℕ) where
  -- What a POST is put under, a GET of the same name gives back: on a disk that reads what was
  -- created and written, if the body can be read, the name is not refused and neither the creation
  -- nor the write fails, `handlePost` answers 201 without an error and leaves the disk after the
  -- write, and there `handleGet` answers 200 with the body.
  pub post_get :
      (s s' s'' : disk.State) (p g : HttpRequest) {c d : ℕ} (name b : List ℕ)
      → IsLawful disk
      → p.path ≡ c ∷ name
      → g.path ≡ d ∷ name
      → p.read_body ≡ done b
      → verify_file_path name ≡ true
      → disk.create s (join_path directory name) ≡ (none, s')
      → disk.write s' (join_path directory name) b ≡ (none, s'')
      → (handle_post lib disk directory s p ≡ ok ((make_response lib 201 [] [] [], none), s''))
        × (handle_get lib disk directory s'' g ≡ (file_response lib name b, none))
  unfolding handle_post handle_get
  post_get s s' s'' p g name b law pp gp body good makes wrote = (
    rw (handle_post, body, pp, good, makes, wrote),
    rw (handle_get, gp, get_file, law.read-write s s' s'' (join_path directory name) b makes wrote),
  )

  -- `handlePost` panics exactly on an empty path with a body that can be read, and changes the disk
  -- only under a name that is not refused.
  handle_post_safe :
      (s : disk.State) (r : HttpRequest)
      → same_text r.method (codes "POST") ≡ true
      → (IsPathless r × (handle_post lib disk directory s r ≡ panic slice_out_of_range))
        ⊎ ((¬ (IsPathless r))
            × ((a : Answer) × (s' : disk.State) × (handle_post lib disk directory s r ≡ ok (a, s'))
                × ((s' ≡ s) ⊎ IsAllowed r)))
  unfolding handle_post
  handle_post_safe s r post = go r.read_body r.path refl refl
    where
      go :
          (body : IoResult (List ℕ)) (path : List ℕ)
          → r.read_body ≡ body
          → r.path ≡ path
          → (IsPathless r × (handle_post lib disk directory s r ≡ panic slice_out_of_range))
            ⊎ ((¬ (IsPathless r))
                × ((a : Answer) × (s' : disk.State) × (handle_post lib disk directory s r
                      ≡ ok (a, s'))
                    × ((s' ≡ s) ⊎ IsAllowed r)))
      go (failed e) path is at =
          inr ((λ h. let read = h.readable in cc), (fails lib 500 e, s, rw is, inl refl))
      go (done b) [] is at =
          inl (record { post = post; path = at; body = b; readable = is }, rw (is, at))
      go (done b) (c ∷ name) is at = inr (
        (λ h. let empty = h.path in cc),
        elim (Bool-cases (contains name (codes ".."))) [
          | inl bad ↦ (
            (packet_error_response lib 500 (invalid_path name), none),
            s,
            rw (is, at, bad),
            inl refl,
          )
          | inr good ↦
              let out = store_file lib disk directory s name b in
              (out.0, out.1, rw (is, at, good), inr (c, name, at, good))
        ],
      )

  -- What `handleRequest` does, in three cases that exclude each other and cover every sequence of
  -- bytes. Without the empty line that ends a header: the program stops on a nil request. A POST
  -- with an empty path whose body can be read: it stops on the slice. With the empty line, and not
  -- such a POST: there is an answer, and the disk is as it was unless the request is a POST under a
  -- name without "..".
  pub handle_request_outcome :
      (s : disk.State) (bytes : List ℕ)
      → ((find bytes header_end ≡ none)
          × (handle_request lib disk directory s bytes ≡ panic nil_dereference))
        ⊎ ((r : HttpRequest) × (parse_http_request lib bytes ≡ ok (done r))
            × IsPathless r
            × (handle_request lib disk directory s bytes ≡ panic slice_out_of_range))
        ⊎ ((find bytes header_end ≢ none)
            × ((r : HttpRequest) → parse_http_request lib bytes ≡ ok (done r) → ¬ (IsPathless r))
            × ((a : Answer) × (s' : disk.State) × (handle_request lib disk directory s bytes
                  ≡ ok (a, s'))
                × ((s' ≡ s)
                    ⊎ ((r : HttpRequest) × (parse_http_request lib bytes ≡ ok (done r))
                        × (same_text r.method (codes "POST") ≡ true)
                        × IsAllowed r))))
  unfolding handle_request
  handle_request_outcome s bytes = elim (parse_http_request_cases lib bytes) [
    | inl (missing, stops) ↦ inl (missing, rw stops)
    | inr (present, (failed e, is)) ↦
        inr (inr (present, (λ q read. cc), (([], some e), s, rw is, inl refl)))
    | inr (present, (done r, is)) ↦ elim (Bool-cases (same_text r.method (codes "GET"))) [
      | inl get ↦ inr (
          inr (
            present,
            only r is (get-IsPathless r get),
            (handle_get lib disk directory s r, s, rw (is, get), inl refl),
          ))
      | inr other ↦ elim (Bool-cases (same_text r.method (codes "POST"))) [
        | inr neither ↦ inr (
            inr (
              present,
              only r is (λ h. let post = h.post in cc),
              (([], some (unsupported bytes)), s, rw (is, other, neither), inl refl),
            ))
        | inl post ↦ elim (handle_post_safe s r post) [
          | inl (empty, stops) ↦ inr (inl (r, is, empty, rw (is, other, post, stops)))
          | inr (named, (a, s', answers, inl same)) ↦
              inr (inr (present, only r is named, (a, s', rw (is, other, post, answers), inl same)))
          | inr (named, (a, s', answers, inr allowed)) ↦ inr (
              inr (
                present,
                only r is named,
                (a, s', rw (is, other, post, answers), inr (r, is, post, allowed)),
              ))
        ]
      ]
    ]
  ]
    where
      -- The request that was read is the only one.
      only :
          (r : HttpRequest)
          → parse_http_request lib bytes ≡ ok (done r)
          → ¬ (IsPathless r)
          → (q : HttpRequest) → parse_http_request lib bytes ≡ ok (done q)
          → ¬ (IsPathless q)
      only r is named q read = let same : r ≡ q = cc in subst (λ x. ¬ (IsPathless x)) same named
