-- ===== src/TcpServer/Agreement.antt =====
-- The two file servers side by side: where lab1-2/httpfs/httpfs.go answers as lab3/httpfs/httpfs.go
-- does, and the names of files for which it does not.
use comp6461_computer_networ.Base.{
  ℕ, ◌+◌, ◌≡◌, ◌≢◌, refl, ap, arith, inl, inr, ◌⊎◌, true, false, Option, none, some, List, [], ◌∷◌,
  ◌++◌, Go, ok, ◌>>=◌, Bool-cases,
}
use comp6461_computer_networ.Base.Bytes.{codes}
use comp6461_computer_networ.Text.{contains, has_prefix, index_from}
use comp6461_computer_networ.Http
use comp6461_computer_networ.Http.{HttpRequest, Library, Answer, join_path}
use comp6461_computer_networ.Http.Files.{IoError, IoResult, failed, done, Disk}
use comp6461_computer_networ.TcpServer.{
  make_response, handle_error, handle_get, handle_post, created, written, verify_file_path,
}

-- The bytes of an answer, without the error that lab3 returns beside them.
abbrev pub sent_of : {S : Type 0} → Answer × S → List ℕ × S
sent_of ((bytes, err), s) = (bytes, s)

abbrev pub without_errors : {S : Type 0} → Go (Answer × S) → Go (List ℕ × S)
without_errors g = g >>= λ x. ok (sent_of x)

-- The name after the first byte of a path.
abbrev pub name_of : List ℕ → List ℕ
name_of [] = []
name_of (c ∷ name) = name

pub has_prefix-contains :
    (s : List ℕ) → contains s (codes "..") ≡ false → has_prefix s (codes "..") ≡ false
unfolding index_from
has_prefix-contains [] free = unfold has_prefix in refl
has_prefix-contains (c ∷ s) free = elim (Bool-cases (has_prefix (c ∷ s) (codes ".."))) [
  | inr other ↦ other
  | inl here ↦ cc (rw here at free)
]

has_prefix-found : (s : List ℕ) → has_prefix s (codes "..") ≡ true → contains s (codes "..") ≡ true
unfolding index_from
has_prefix-found [] here = unfold has_prefix in cc
has_prefix-found (c ∷ s) here = rw here

-- A place behind more text is found too.
index_from-later :
    (p t : List ℕ)
    → ((i : ℕ) → index_from i t (codes "..") ≢ none)
    → (i : ℕ) → index_from i (p ++ t) (codes "..") ≢ none
unfolding index_from
index_from-later [] t h i missing = h i missing
index_from-later (c ∷ p) t h i missing =
    elim (Bool-cases (has_prefix (c ∷ (p ++ t)) (codes ".."))) [
      | inl here ↦ cc (rw here at missing)
      | inr later ↦ index_from-later p t h (i + 1) (rw later at missing)
    ]

parent_found : (rest : List ℕ) (i : ℕ) → index_from i (codes "/../" ++ rest) (codes "..") ≢ none
unfolding index_from has_prefix
parent_found rest i missing = cc

module _ (lib : Library) (disk : Disk) (directory : List ℕ) where
  written-agrees :
      (o : Option IoError × disk.State)
      → written lib disk directory o ≡ sent_of (Http.written lib disk directory o)
  unfolding make_response handle_error
  written-agrees (none, s) = refl
  written-agrees (some e, s) = refl

  created-agrees :
      (path b : List ℕ) (o : Option IoError × disk.State)
      → created lib disk directory path b o ≡ sent_of (Http.created lib disk directory path b o)
  unfolding make_response handle_error
  created-agrees path b (none, s) = written-agrees (disk.write s path b)
  created-agrees path b (some e, s) = refl

  -- On every disk and request, the TCP server sends for a GET what lab3's handler returns; and for
  -- a POST whose file name has no "..", or begins with "..", it sends what lab3's handler
  -- returns, leaves the same disk, and panics on the same path.
  pub handlers_agree :
      (s : disk.State) (r : HttpRequest)
      → (handle_get lib disk directory s r ≡ (Http.handle_get lib disk directory s r).0)
        × ((contains (name_of r.path) (codes "..") ≡ false)
              ⊎ (has_prefix (name_of r.path) (codes "..") ≡ true)
            → handle_post lib disk directory s r
              ≡ without_errors (Http.handle_post lib disk directory s r))
  unfolding handle_get Http.handle_get handle_post Http.handle_post make_response handle_error
  handlers_agree s r = (get_case r.path refl, post_case r.read_body r.path refl refl)
    where
      get_case :
          (path : List ℕ)
          → r.path ≡ path
          → handle_get lib disk directory s r ≡ (Http.handle_get lib disk directory s r).0
      get_case [] at = rw at (ground arith)
      get_case (c ∷ name) at = rw at (ground arith)

      post_case :
          (body : IoResult (List ℕ)) (path : List ℕ)
          → r.read_body ≡ body
          → r.path ≡ path
          → (contains (name_of r.path) (codes "..") ≡ false)
            ⊎ (has_prefix (name_of r.path) (codes "..") ≡ true)
          → handle_post lib disk directory s r
            ≡ without_errors (Http.handle_post lib disk directory s r)
      post_case (failed e) path is at h = rw is
      post_case (done b) [] is at h = rw (is, at)
      post_case (done b) (c ∷ name) is at h = elim (rw at at h) [
        | inl free ↦
            rw (is, at, free, has_prefix-contains name free)
              (ap ok (created-agrees _ b (disk.create s (join_path directory name))))
        | inr parent ↦ rw (is, at, parent, has_prefix-found name parent)
      ]

-- A name that does not begin with ".." but has it later: lab3 refuses it, and the TCP server takes
-- it, also where it leads out of the directory.
pub verify_file_path_gap :
    (c : ℕ) (p rest : List ℕ)
    → c ≢ b'.'
    → (verify_file_path (c ∷ (p ++ (codes "/../" ++ rest))) ≡ true)
      × (Http.verify_file_path (c ∷ (p ++ (codes "/../" ++ rest))) ≡ false)
unfolding has_prefix index_from
verify_file_path_gap c p rest ne = (
  ground arith,
  ground (arith, index_from-later (c ∷ p) (codes "/../" ++ rest) (parent_found rest) 0),
)
