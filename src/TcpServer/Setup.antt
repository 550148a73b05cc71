-- ===== src/TcpServer/Setup.antt =====
-- The directory that main of lab1-2/httpfs/httpfs.go sets up: the text is that of lab3.
use comp6461_computer_networ.Base.{ℕ, ◌≡◌, refl, Option, none, some, List, ◌++◌, if◌then◌else◌}
use comp6461_computer_networ.Http.Files.{failed, done}
use comp6461_computer_networ.Http.Setup
use comp6461_computer_networ.Http.Setup.{Host, is_not_exist, is_given}

unfoldable working_directory : Host → List ℕ → Option (List ℕ)
working_directory host directory = elim host.getwd [
  | failed e ↦ none
  | done here ↦
      if is_given directory
      then if is_not_exist (host.stat (here ++ directory)) then none else some (here ++ directory)
      else some here
]

working_directory_agrees :
    (host : Host) (directory : List ℕ)
    → working_directory host directory ≡ Setup.working_directory host directory
unfolding working_directory Setup.working_directory
working_directory_agrees host directory = refl
