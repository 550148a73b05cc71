-- ===== src/TcpServer/Header.antt =====
-- The loop of handleConn in lab1-2/httpfs/httpfs.go: the header of a request in a text that comes in
-- pieces, and a request without a Content-Length.
use mathlib.Core.Option.{some-injective}
use mathlib.Core.List.{append_assoc, append-nil}
use comp6461_computer_networ.Base.{true, Option-cases}
use comp6461_computer_networ.Base.{
  ℕ, ◌≡◌, ◌≢◌, refl, sym, ap, ◌∙◌, arith, inl, inr, false, Option, none, some, List, [], ◌∷◌, ◌++◌,
  map, length, take, concat, All, Bool-cases, length-append, take-append, take_all,
}
use comp6461_computer_networ.Text.{find, same_text, index_from-append, index_from-end}
use comp6461_computer_networ.Text.Digits.{same_text-eq}
use comp6461_computer_networ.Http.{HttpRequest, Library}
use comp6461_computer_networ.Http.Files.{done, Disk}
use comp6461_computer_networ.TcpServer.{
  Read, more, header_end, ready, waiting, decide, progress, read_loop, answer, handle_conn,
}

-- A read that gives bytes and no error.
abbrev pub piece : List ℕ → Read
piece c = record { bytes = c; end = more }

pub same_text-ne : (s t : List ℕ) → s ≢ t → same_text s t ≡ false
same_text-ne s t ne = elim (Bool-cases (same_text s t)) [
  | inl same ↦ absurd (ne (same_text-eq s t same))
  | inr other ↦ other
]

take_exact : (s t : List ℕ) → take (length s) (s ++ t) ≡ s
take_exact s t = take-append (length s) s t (omega arith) ∙ take_all (length s) s (omega arith)

pub none-some : {i : ℕ} → none ≡ some i → ⊥
none-some e = cc

-- The first empty line ends `head`, and net/http reads the header as `r`.
pub record IsHeader (lib : Library) (head : List ℕ) (r : HttpRequest) : Type 0 where
  pub once : find (head ++ header_end) header_end ≡ some (length head)
  pub reads : lib.read_request (head ++ header_end) ≡ done r

progress-waiting :
    (lib : Library) (tmp : List ℕ)
    → find tmp header_end ≡ none
    → progress lib tmp none ≡ waiting none
unfolding progress
progress-waiting lib tmp nothing = rw (progress, nothing) refl

same_text_nil : same_text [] [] ≡ true
unfolding same_text
same_text_nil = refl

module _ (lib : Library) (head body : List ℕ) (r : HttpRequest) (h : IsHeader lib head r) where
  abbrev pub whole : List ℕ
  whole = (head ++ header_end) ++ body

  pub found_whole : find whole header_end ≡ some (length head)
  found_whole = index_from-append 0 (length head) (head ++ header_end) body header_end h.once

  -- Where the empty line is found in a part of the text, it is the one that ends the header.
  pub found_part :
      (tmp rest : List ℕ) (i : ℕ)
      → tmp ++ rest ≡ whole
      → find tmp header_end ≡ some i
      → i ≡ length head
  found_part tmp rest i split found = some-injective i (length head) (
      sym (index_from-append 0 i tmp rest header_end found)
      ∙ ap (λ z. find z header_end) split
      ∙ found_whole)

  header_of_part :
      (tmp rest : List ℕ)
      → tmp ++ rest ≡ whole
      → find tmp header_end ≡ some (length head)
      → take (length head) tmp ≡ head
  header_of_part tmp rest split found =
      let fits = index_from-end 0 (length head) tmp header_end found in
      sym (take-append (length head) tmp rest (omega (arith, fits)))
      ∙ ap (take (length head)) split
      ∙ ap (take (length head)) (append_assoc head header_end body)
      ∙ take_exact head (header_end ++ body)

  pub progress_found :
      (tmp rest : List ℕ) (request : Option HttpRequest)
      → tmp ++ rest ≡ whole
      → find tmp header_end ≡ some (length head)
      → progress lib tmp request ≡ decide tmp (some r)
  unfolding progress
  progress_found tmp rest request split found =
      rw (progress, found, header_of_part tmp rest split found, h.reads)

  decide_now : (tmp : List ℕ) → r.content_length ≡ [] → decide tmp (some r) ≡ ready r
  decide_now tmp e =
      let same : same_text r.content_length [] ≡ true =
        ap (λ z. same_text z []) e ∙ same_text_nil in
      rw same refl

  -- Without a Content-Length the loop ends with the piece that completes the header.
  read_loop-header :
      (c : List ℕ) (cs : List (List ℕ)) (rs : List Read) (tmp : List ℕ)
      → r.content_length ≡ []
      → tmp ++ concat (c ∷ cs) ≡ whole
      → All (λ p. p ≢ []) (c ∷ cs)
      → read_loop lib (map piece (c ∷ cs) ++ rs) tmp none ≡ some r
  unfolding read_loop same_text
  read_loop-header c [] rs tmp e split ne =
      let all : tmp ++ c ≡ whole = ap (λ z. tmp ++ z) (sym (append-nil c)) ∙ split in
      let now = progress_found whole [] none (append-nil whole) found_whole ∙ decide_now whole e in
      rw (same_text-ne c [] ne.0, all, now)
  read_loop-header c (d ∷ cs) rs tmp e split ne =
      let part : (tmp ++ c) ++ concat (d ∷ cs) ≡ whole =
        append_assoc tmp c (concat (d ∷ cs)) ∙ split in
      let rest = read_loop-header d cs rs (tmp ++ c) e part ne.1 in
      elim (Option-cases (find (tmp ++ c) header_end)) [
        | inl nothing ↦ rw (same_text-ne c [] ne.0, progress-waiting lib (tmp ++ c) nothing) rest
        | inr (i, found) ↦
            let there = found ∙ ap some (found_part (tmp ++ c) (concat (d ∷ cs)) i part found) in
            let now =
              progress_found (tmp ++ c) (concat (d ∷ cs)) none part there
              ∙ decide_now (tmp ++ c) e in
            rw (same_text-ne c [] ne.0, now) refl
      ]

  pub handle_conn-header :
      (disk : Disk) (directory : List ℕ) (s : disk.State) (cs : List (List ℕ)) (rs : List Read)
      → r.content_length ≡ []
      → concat cs ≡ (head ++ header_end) ++ body
      → All (λ p. p ≢ []) cs
      → handle_conn lib disk directory s (map piece cs ++ rs) ≡ answer lib disk directory s r
  unfolding handle_conn
  handle_conn-header disk directory s [] rs e split ne = absurd (
      omega (
        arith,
        ap length split,
        length-append (head ++ header_end) body,
        length-append head header_end,
      ))
  handle_conn-header disk directory s (c ∷ cs) rs e split ne =
      rw (handle_conn, read_loop-header c cs rs [] e split ne)
