-- ===== src/Http/Setup.antt =====
-- The directory that main of lab3/httpfs/httpfs.go sets up, from os.Getwd, os.Stat and the flag -d.
use comp6461_computer_networ.Base.{
  ℕ, ◌≡◌, ◌⊎◌, inl, inr, refl, arith, Bool, true, false, Option, none, some, List, [], ◌∷◌,
}
use comp6461_computer_networ.Base.{◌++◌, if◌then◌else◌}
use comp6461_computer_networ.Http.Files.{IoError, IoResult, failed, done}

-- What os.Getwd gives, and the error of os.Stat on a path, if there is one.
pub record Host : Type 0 where
  pub getwd : IoResult (List ℕ)
  pub stat : List ℕ → Option IoError

-- `os.IsNotExist(err)`
abbrev pub is_not_exist : Option IoError → Bool
is_not_exist none = false
is_not_exist (some e) = e.not_exist

abbrev pub is_given : List ℕ → Bool
is_given [] = false
is_given (b ∷ directory) = true

-- `none` is the return of main before it listens.
unfoldable pub working_directory : Host → List ℕ → Option (List ℕ)
working_directory host directory = elim host.getwd [
  | failed e ↦ none
  | done here ↦
      if is_given directory
      then if is_not_exist (host.stat (here ++ directory)) then none else some (here ++ directory)
      else some here
]

-- The directory is the current one with the text of the flag behind it, and exists as far as
-- os.Stat can tell, unless the flag is empty.
working_directory_lem :
    (host : Host) (directory found : List ℕ)
    → working_directory host directory ≡ some found
    → (here : List ℕ) × (host.getwd ≡ done here)
      × ((directory ≡ []) × (found ≡ here)
          ⊎ (found ≡ here ++ directory) × (is_not_exist (host.stat found) ≡ false))
unfolding working_directory
working_directory_lem host directory found h = go host.getwd directory h
  where
    go :
        (wd : IoResult (List ℕ)) (directory : List ℕ)
        → elim wd [
          | failed e ↦ none
          | done here ↦
              if is_given directory
              then if is_not_exist (host.stat (here ++ directory))
                then none
                else some (here ++ directory)
              else some here
        ]
          ≡ some found
        → (here : List ℕ) × (wd ≡ done here)
          × ((directory ≡ []) × (found ≡ here)
              ⊎ (found ≡ here ++ directory) × (is_not_exist (host.stat found) ≡ false))
    go (failed e) directory h = cc
    go (done here) [] h = (here, refl, inl (refl, ground arith))
    go (done here) (b ∷ directory) h = (here, refl, inr (ground arith))
