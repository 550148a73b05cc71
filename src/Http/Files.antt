-- ===== src/Http/Files.antt =====
-- The file system as the handlers of lab3/httpfs/httpfs.go use it: os.Create, File.Write,
-- ioutil.ReadFile and filepath.WalkDir.
use comp6461_computer_networ.Base.{Bool, ℕ, ◌≡◌, Option, none, List}

-- What the handlers read of an error: its text, and os.IsNotExist.
pub record IoError : Type 0 where
  pub text : List ℕ
  pub not_exist : Bool

pub data IoResult (A : Type 0) : Type 0 where
  failed : IoError → IoResult A
  done : A → IoResult A

-- `walk` gives the names of the files below a directory, relative to it.
pub record Disk : Type 1 where
  pub State : Type 0
  pub walk : State → List ℕ → IoResult (List (List ℕ))
  pub read_file : State → List ℕ → IoResult (List ℕ)
  pub create : State → List ℕ → Option IoError × State
  pub write : State → List ℕ → List ℕ → Option IoError × State

-- A file that was created and then written without an error reads back.
pub record IsLawful (disk : Disk) : Type 0 where
  pub read-write :
      (s s' s'' : disk.State) (path b : List ℕ)
      → disk.create s path ≡ (none, s')
      → disk.write s' path b ≡ (none, s'')
      → disk.read_file s'' path ≡ done b
