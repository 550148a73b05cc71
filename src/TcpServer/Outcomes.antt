-- ===== src/TcpServer/Outcomes.antt =====
-- All that handleConn in lab1-2/httpfs/httpfs.go can do.
use comp6461_computer_networ.Base.{
  ℕ, ◌≡◌, refl, inl, inr, ◌⊎◌, true, false, none, some, List, [], ◌∷◌, ok, panic,
  slice_out_of_range, Bool-cases, Option-cases,
}
use comp6461_computer_networ.Base.Bytes.{codes}
use comp6461_computer_networ.Text.{has_prefix, same_text}
use comp6461_computer_networ.Http
use comp6461_computer_networ.Http.{HttpRequest, Library}
use comp6461_computer_networ.Http.Files.{IoResult, failed, done, Disk}
use comp6461_computer_networ.Http.Handlers.{IsPathless, get-IsPathless}
use comp6461_computer_networ.TcpServer.{
  Read, read_loop, handle_error, handle_get, handle_post, store_file, answer, handle_conn,
}

-- The name that a path gives to a file is not refused.
abbrev pub IsAccepted : HttpRequest → Type 0
IsAccepted r =
    (c : ℕ) × (name : List ℕ) × (r.path ≡ c ∷ name) × (has_prefix name (codes "..") ≡ false)

module _ (lib : Library) (disk : Disk) (directory : List ℕ) where
  handle_post_safe :
      (s : disk.State) (r : HttpRequest)
      → same_text r.method (codes "POST") ≡ true
      → (IsPathless r × (handle_post lib disk directory s r ≡ panic slice_out_of_range))
        ⊎ ((¬ (IsPathless r))
            × ((a : List ℕ) × (s' : disk.State) × (handle_post lib disk directory s r ≡ ok (a, s'))
                × ((s' ≡ s) ⊎ IsAccepted r)))
  unfolding handle_post handle_error
  handle_post_safe s r post = by_request r.read_body r.path refl refl
    where
      by_request :
          (body : IoResult (List ℕ)) (path : List ℕ)
          → r.read_body ≡ body
          → r.path ≡ path
          → (IsPathless r × (handle_post lib disk directory s r ≡ panic slice_out_of_range))
            ⊎ ((¬ (IsPathless r))
                × ((a : List ℕ) × (s' : disk.State) × (handle_post lib disk directory s r
                      ≡ ok (a, s'))
                    × ((s' ≡ s) ⊎ IsAccepted r)))
      by_request (failed e) path is at =
          inr
            ((λ h. let read = h.readable in cc), (handle_error lib 500 e, s, rw is refl, inl refl))
      by_request (done b) [] is at =
          inl (record { post = post; path = at; body = b; readable = is }, rw (is, at) refl)
      by_request (done b) (c ∷ name) is at = inr (
        (λ h. let empty = h.path in cc),
        elim (Bool-cases (has_prefix name (codes ".."))) [
          | inl parent ↦
              (handle_error lib 500 (Http.invalid_path name), s, rw (is, at, parent) refl, inl refl)
          | inr accepted ↦
              let out = store_file lib disk directory s name b in
              (out.0, out.1, rw (is, at, accepted) refl, inr (c, name, at, accepted))
        ],
      )

  -- What handleConn does, in four cases that exclude each other and cover everything that a
  -- connection gives to read. If the loop ends without a request, nothing is sent. A request that is
  -- neither GET nor POST is not answered. A POST with an empty path whose body can be read stops the
  -- server on the slice. To a GET, and to every other POST, there is an answer, and the disk is as
  -- it was unless the request is a POST under a name that does not begin with "..".
  pub handle_conn_outcome :
      (s : disk.State) (reads : List Read)
      → ((read_loop lib reads [] none ≡ none)
          × (handle_conn lib disk directory s reads ≡ ok (none, s)))
        ⊎ ((r : HttpRequest) × (read_loop lib reads [] none ≡ some r)
            × (((same_text r.method (codes "GET") ≡ false)
                  × (same_text r.method (codes "POST") ≡ false)
                  × (handle_conn lib disk directory s reads ≡ ok (none, s)))
                ⊎ (IsPathless r
                    × (handle_conn lib disk directory s reads ≡ panic slice_out_of_range))
                ⊎ (((same_text r.method (codes "GET") ≡ true)
                      ⊎ (same_text r.method (codes "POST") ≡ true))
                    × (¬ (IsPathless r))
                    × ((a : List ℕ) × (s' : disk.State) × (handle_conn lib disk directory s reads
                          ≡ ok (some a, s'))
                        × ((s' ≡ s)
                            ⊎ ((same_text r.method (codes "POST") ≡ true) × IsAccepted r))))))
  unfolding handle_conn answer
  handle_conn_outcome s reads = elim (Option-cases (read_loop lib reads [] none)) [
    | inl nothing ↦ inl (nothing, rw (handle_conn, nothing) refl)
    | inr (r, is) ↦ inr (
      r,
      is,
      elim (Bool-cases (same_text r.method (codes "GET"))) [
        | inl get ↦ inr (
            inr (
              inl get,
              get-IsPathless r get,
              (
                handle_get lib disk directory s r,
                s,
                rw (handle_conn, is, answer, get) refl,
                inl refl,
              ),
            ))
        | inr other ↦ elim (Bool-cases (same_text r.method (codes "POST"))) [
          | inr neither ↦ inl (other, neither, rw (handle_conn, is, answer, other, neither) refl)
          | inl post ↦ elim (handle_post_safe s r post) [
            | inl (empty, stops) ↦
                inr (inl (empty, rw (handle_conn, is, answer, other, post, stops) refl))
            | inr (named, (a, s', answers, inl same)) ↦ inr (
                inr (
                  inr post,
                  named,
                  (a, s', rw (handle_conn, is, answer, other, post, answers) refl, inl same),
                ))
            | inr (named, (a, s', answers, inr accepted)) ↦ inr (
                inr (
                  inr post,
                  named,
                  (
                    a,
                    s',
                    rw (handle_conn, is, answer, other, post, answers) refl,
                    inr (post, accepted),
                  ),
                ))
          ]
        ]
      ],
    )
  ]
