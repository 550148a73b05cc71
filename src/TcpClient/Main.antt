-- ===== src/TcpClient/Main.antt =====
-- lab1-2/httpc/httpc.go: the command line of the client.
use comp6461_computer_networ.Base.{
  ℕ, Bool, Option, none, some, List, [], ◌∷◌, slice_out_of_range, index_out_of_range, if◌then◌else◌,
}
use comp6461_computer_networ.Base.Bytes.{codes}
use comp6461_computer_networ.Text.{same_text}
use comp6461_computer_networ.Client
use comp6461_computer_networ.TcpClient.Outcome.{Run, returned, crashed, ◌>>=◌}
use comp6461_computer_networ.TcpClient.{Net, Program, handle_get_request, handle_post_request}

-- The flags of a command, and what stands behind them.
pub record Flags : Type 0 where
  pub verbose : Bool
  pub inline : List ℕ
  pub file : List ℕ
  pub output : List ℕ
  pub headers : List (List ℕ)
  pub args : List (List ℕ)

-- Package flag: `words` is flag.Parse and flag.Args, `flags` is Parse of the second set of flags;
-- `none` is a parse that ends the program.
pub record FlagParser : Type 0 where
  pub words : List (List ℕ) → Option (List (List ℕ))
  pub flags : List (List ℕ) → Option Flags

pub data Help : Type 0 where
  usage get_usage post_usage : Help

-- How `main` ends: with a help text, in package flag, or behind a request or the last word.
pub data Ending (W : Type 0) : Type 0 where
  helped : Help → Ending W
  refused_flags : Ending W
  finished : Program W → Ending W

-- `args[len(args)-1]`
unfoldable pub last_arg : List (List ℕ) → Run (List ℕ)
last_arg [] = crashed index_out_of_range
last_arg (a ∷ []) = returned a
last_arg (a ∷ b ∷ args) = last_arg (b ∷ args)

abbrev pub help_of : List (List ℕ) → Help
help_of words =
    if Client.contains words (codes "get")
    then get_usage
    else if Client.contains words (codes "post")
    then post_usage
    else usage

module _ (net : Net) (fuel : ℕ) (f : Flags) where
  abbrev pub run_get : Program net.State → Run (Ending net.State)
  run_get s = do
    url ← last_arg f.args
    (res, s') ← handle_get_request net f.verbose fuel s url f.headers f.output
    returned (finished s')

  abbrev pub run_post : Program net.State → Run (Ending net.State)
  run_post s = do
    url ← last_arg f.args
    (res, s') ← handle_post_request net f.verbose fuel s url f.headers f.inline f.file f.output
    returned (finished s')

  -- The loop of `main` over the words, of which `all` are all.
  unfoldable pub run_words :
      Program net.State → List (List ℕ) → List (List ℕ) → Run (Ending net.State)
  run_words s all [] = returned (finished s)
  run_words s all (word ∷ words) =
      let rest = run_words s all words in
      if same_text word (codes "help")
      then returned (helped (help_of all))
      else if same_text word (codes "get")
      then run_get s
      else if same_text word (codes "post")
      then run_post s
      else rest

-- `argv` is os.Args without the name of the program.
unfoldable pub main :
    (net : Net) → FlagParser → ℕ → Program net.State → List (List ℕ) → Run (Ending net.State)
main net parser fuel s argv = elim (parser.words argv) [
  | none ↦ returned refused_flags
  | some words ↦ elim argv [
    | [] ↦ crashed slice_out_of_range
    | command ∷ rest ↦ elim (parser.flags rest) [
      | none ↦ returned refused_flags
      | some f ↦ elim words [
        | [] ↦ returned (helped usage)
        | word ∷ others ↦ run_words net fuel f s (word ∷ others) (word ∷ others)
      ]
    ]
  ]
]
