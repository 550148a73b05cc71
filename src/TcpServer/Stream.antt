-- ===== src/TcpServer/Stream.antt =====
-- The loop of handleConn in lab1-2/httpfs/httpfs.go: a request that TCP cuts into pieces.
use mathlib.Core.List.{append_assoc, append-nil}
use comp6461_computer_networ.Base.{
  ℕ, ◌+◌, ◌-◌, ◌≤◌, ◌≡◌, ◌≢◌, refl, sym, ap, ◌∙◌, arith, inl, inr, ◌⊎◌, false, Option, none, some,
  List, [], ◌∷◌, ◌++◌, map, length, drop, concat, All, length-append, drop-append, drop_all,
}
use comp6461_computer_networ.Text.{
  find, itoa, same_text, same_text_refl, index_from-append, index_from-end,
}
use comp6461_computer_networ.Text.Digits.{itoa_injective, itoa-ne-nil}
use comp6461_computer_networ.Http.{HttpRequest, Library}
use comp6461_computer_networ.Http.Files.{done, Disk}
use comp6461_computer_networ.TcpServer.Header.{
  piece, same_text-ne, none-some, IsHeader, found_whole, found_part, progress_found,
}
use comp6461_computer_networ.TcpServer.{
  Read, header_end, ready, waiting, body_start, progress, read_loop, answer, handle_conn,
}

drop_exact : (s t : List ℕ) → drop (length s) (s ++ t) ≡ t
drop_exact s t =
    drop-append (length s) s t (omega arith) ∙ rw (drop_all (length s) s (omega arith)) refl

append-ne : (s t : List ℕ) → s ≢ [] → s ++ t ≢ []
append-ne [] t ne e = ne refl
append-ne (c ∷ s) t ne e = cc

body_start_found : (tmp : List ℕ) (i : ℕ) → find tmp header_end ≡ some i → body_start tmp ≡ i + 4
body_start_found tmp i found = rw (body_start, found) refl

-- Behind a header that is read as `r` comes a body of the length that `r` announces.
pub record IsFramed (lib : Library) (head body : List ℕ) (r : HttpRequest) : Type 0 where
  pub header : IsHeader lib head r
  pub announced : r.content_length ≡ itoa (length body)

module _ (lib : Library) (head body : List ℕ) (r : HttpRequest) (h : IsFramed lib head body r) where
  abbrev text : List ℕ
  text = (head ++ header_end) ++ body

  abbrev with_body : HttpRequest
  with_body = record r { read_body = done body }

  -- The request that the loop keeps is nil, unless the header has come in.
  abbrev Known : Option HttpRequest → List ℕ → Type 0
  Known request tmp = (request ≡ none) ⊎ (find tmp header_end ≡ some (length head))

  not_empty : same_text r.content_length [] ≡ false
  not_empty = rw h.announced (same_text-ne (itoa (length body)) [] (itoa-ne-nil (length body)))

  whole_size : length text ≡ length head + 4 + length body
  whole_size = omega (arith, length-append (head ++ header_end) body, length-append head header_end)

  progress_last : (request : Option HttpRequest) → progress lib text request ≡ ready with_body
  progress_last request =
      let size : length text - (length head + 4) ≡ length body = omega (arith, whole_size) in
      let rest : drop (length head + 4) text ≡ body =
        ap (λ k. drop k text) (omega (arith, length-append head header_end))
        ∙ drop_exact (head ++ header_end) body in
      progress_found lib head body r h.header text [] request (append-nil text)
        (found_whole lib head body r h.header)
      ∙ rw (
        not_empty,
        body_start_found text (length head) (found_whole lib head body r h.header),
        size,
        h.announced,
        same_text_refl (itoa (length body)),
        rest,
      )

  whole_ne : text ≢ []
  whole_ne e = omega (arith, whole_size, ap length e)

  -- With more to come, the length of what is there is not the one announced.
  longer :
      (tmp rest : List ℕ)
      → tmp ++ rest ≡ text
      → rest ≢ []
      → length head + 4 ≤ length tmp
      → same_text (itoa (length body)) (itoa (length tmp - (length head + 4))) ≡ false
  longer tmp [] split ne fits = absurd (ne refl)
  longer tmp (b ∷ rest) split ne fits = same_text-ne _ _ λ e.
      let same = itoa_injective (length body) (length tmp - (length head + 4)) e in
      omega (arith, same, whole_size, ap length split, length-append tmp (b ∷ rest))

  progress_early :
      (tmp rest : List ℕ) (request : Option HttpRequest)
      → tmp ++ rest ≡ text
      → rest ≢ []
      → Known request tmp
      → (request' : Option HttpRequest) × (progress lib tmp request ≡ waiting request')
        × Known request' tmp
  unfolding progress
  progress_early tmp rest request split ne known = by_header (find tmp header_end) refl known
    where
      by_header :
          (o : Option ℕ)
          → find tmp header_end ≡ o
          → Known request tmp
          → (request' : Option HttpRequest) × (progress lib tmp request ≡ waiting request')
            × Known request' tmp
      by_header none found (inl nil) = (none, rw (progress, found, nil) refl, inl refl)
      by_header none found (inr there) = absurd (none-some (sym found ∙ there))
      by_header (some i) found k =
          let place = found_part lib head body r h.header tmp rest i split found in
          let there : find tmp header_end ≡ some (length head) = found ∙ ap some place in
          let fits = index_from-end 0 (length head) tmp header_end there in
          (
            some r,
            progress_found lib head body r h.header tmp rest request split there
                ∙ rw (
                  not_empty,
                  body_start_found tmp (length head) there,
                  h.announced,
                  longer tmp rest split ne (omega (arith, fits)),
                ),
            inr there,
          )

  Known-append :
      (request : Option HttpRequest) (tmp c : List ℕ) → Known request tmp → Known request (tmp ++ c)
  Known-append request tmp c (inl nil) = inl nil
  Known-append request tmp c (inr there) =
      inr (index_from-append 0 (length head) tmp c header_end there)

  -- The loop on the pieces of the text text, none of them empty, with anything behind them.
  read_loop-pieces :
      (c : List ℕ) (cs : List (List ℕ)) (rs : List Read) (tmp : List ℕ)
      (request : Option HttpRequest)
      → tmp ++ concat (c ∷ cs) ≡ text
      → All (λ p. p ≢ []) (c ∷ cs)
      → Known request tmp
      → read_loop lib (map piece (c ∷ cs) ++ rs) tmp request ≡ some with_body
  unfolding read_loop same_text
  read_loop-pieces c [] rs tmp request split ne known =
      let all : tmp ++ c ≡ text = ap (λ z. tmp ++ z) (sym (append-nil c)) ∙ split in
      rw (same_text-ne c [] ne.0, all, progress_last request)
  read_loop-pieces c (d ∷ cs) rs tmp request split ne known =
      let part : (tmp ++ c) ++ concat (d ∷ cs) ≡ text =
        append_assoc tmp c (concat (d ∷ cs)) ∙ split in
      let known' = Known-append request tmp c known in
      let (request', waits, later) =
        progress_early (tmp ++ c) (concat (d ∷ cs)) request part (append-ne d (concat cs) ne.1.0)
          known' in
      let rest = read_loop-pieces d cs rs (tmp ++ c) request' part ne.1 later in
      rw (same_text-ne c [] ne.0, waits) rest

  -- However TCP cuts a framed request into pieces that are not empty, with whatever reads behind
  -- them, the server answers it as the request with exactly the body.
  pub handle_conn-pieces :
      (disk : Disk) (directory : List ℕ) (s : disk.State) (cs : List (List ℕ)) (rs : List Read)
      → concat cs ≡ (head ++ header_end) ++ body
      → All (λ p. p ≢ []) cs
      → handle_conn lib disk directory s (map piece cs ++ rs)
        ≡ answer lib disk directory s (record r { read_body = done body })
  unfolding handle_conn
  handle_conn-pieces disk directory s [] rs split ne = absurd (whole_ne (sym split))
  handle_conn-pieces disk directory s (c ∷ cs) rs split ne =
      rw (handle_conn, read_loop-pieces c cs rs [] none split ne (inl refl))
