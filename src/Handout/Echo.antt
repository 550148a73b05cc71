-- ===== src/Handout/Echo.antt =====
-- handout/echoserver.go and handout/echoclient.go: what comes in goes back.
use mathlib.Core.List.{append_assoc}
use comp6461_computer_networ.Base.{
  ℕ, ◌≤◌, ◌≡◌, refl, sym, ap, ◌∙◌, arith, Bool, true, false, Option, none, some, List, [], ◌∷◌,
  ◌++◌, map, length, take, drop, concat, All, take-append-drop, take_all, drop_all,
}
use comp6461_computer_networ.TcpServer.{Read, ReadEnd, more, eof, failure}

-- One round of `handleConn`: what is read, and whether the write of it fails, and behind how many
-- bytes.
pub record Turn : Type 0 where
  pub read : Read
  pub fails : Bool
  pub accepted : ℕ

-- The loop goes on unless the read ended with io.EOF or an error.
abbrev pub continue : ReadEnd → List ℕ → List ℕ
continue more rest = rest
continue eof rest = []
continue failure rest = []

-- One round: a write, if there is something to write, and then the `rest`.
abbrev pub echo : List ℕ → Bool → ℕ → List ℕ → List ℕ
echo [] fails accepted rest = rest
echo (c ∷ b) true accepted rest = take accepted (c ∷ b)
echo (c ∷ b) false accepted rest = (c ∷ b) ++ rest

-- The bytes that `handleConn` writes.
unfoldable pub handle_conn : List Turn → List ℕ
handle_conn [] = []
handle_conn (t ∷ ts) = echo t.read.bytes t.fails t.accepted (continue t.read.end (handle_conn ts))

abbrev pub arrived : List Turn → List ℕ
arrived ts = concat (map (λ t. t.read.bytes) ts)

-- A round that goes on.
pub record GoesOn (t : Turn) : Type 0 where
  pub writes : t.fails ≡ false
  pub opens : t.read.end ≡ more

IsPrefix : List ℕ → List ℕ → Type 0
IsPrefix s t = (rest : List ℕ) × (s ++ rest ≡ t)

echo-IsPrefix :
    (b : List ℕ) (fails : Bool) (k : ℕ) (s t : List ℕ)
    → IsPrefix s t
    → IsPrefix (echo b fails k s) (b ++ t)
unfolding IsPrefix
echo-IsPrefix [] fails k s t h = h
echo-IsPrefix (c ∷ b) true k s t h = (
  drop k (c ∷ b) ++ t,
  sym (append_assoc (take k (c ∷ b)) (drop k (c ∷ b)) t)
      ∙ ap (λ z. z ++ t) (take-append-drop k (c ∷ b)),
)
echo-IsPrefix (c ∷ b) false k s t (rest, e) =
    (rest, append_assoc (c ∷ b) s rest ∙ ap (λ z. (c ∷ b) ++ z) e)

continue-IsPrefix : (e : ReadEnd) (s t : List ℕ) → IsPrefix s t → IsPrefix (continue e s) t
unfolding IsPrefix
continue-IsPrefix more s t h = h
continue-IsPrefix eof s t h = (t, refl)
continue-IsPrefix failure s t h = (t, refl)

handle_conn-IsPrefix : (ts : List Turn) → IsPrefix (handle_conn ts) (arrived ts)
unfolding handle_conn IsPrefix
handle_conn-IsPrefix [] = ([], refl)
handle_conn-IsPrefix (t ∷ ts) =
    let rest = handle_conn-IsPrefix ts in
    echo-IsPrefix t.read.bytes t.fails t.accepted _ (arrived ts)
      (continue-IsPrefix t.read.end (handle_conn ts) (arrived ts) rest)

echo_written : (b : List ℕ) (k : ℕ) (s : List ℕ) → echo b false k s ≡ b ++ s
echo_written [] k s = refl
echo_written (c ∷ b) k s = refl

handle_conn-All : (ts : List Turn) → All GoesOn ts → handle_conn ts ≡ arrived ts
unfolding handle_conn
handle_conn-All [] h = refl
handle_conn-All (t ∷ ts) h =
    ap (λ f. echo t.read.bytes f t.accepted (continue t.read.end (handle_conn ts))) h.0.writes
    ∙ echo_written t.read.bytes t.accepted _
    ∙ ap (λ e. t.read.bytes ++ continue e (handle_conn ts)) h.0.opens
    ∙ ap (λ z. t.read.bytes ++ z) (handle_conn-All ts h.1)

-- What goes back is a first part of what came in; and it is all of it, if no write fails and the
-- stream stays open.
pub handle_conn_echoes :
    (ts : List Turn)
    → ((rest : List ℕ) × (handle_conn ts ++ rest ≡ arrived ts))
      × (All GoesOn ts → handle_conn ts ≡ arrived ts)
unfolding IsPrefix
handle_conn_echoes ts = (handle_conn-IsPrefix ts, handle_conn-All ts)

-- What `repl` reads from its standard input.
pub data Input : Type 0 where
  line : List ℕ → Input
  input_end input_error : Input

-- The connection: a write, whether it succeeds, and io.ReadFull.
pub record Peer : Type 1 where
  pub State : Type 0
  pub write : State → List ℕ → Bool × State
  pub read_full : State → ℕ → Option (List ℕ) × State

-- The lines that `repl` prints behind "Replied: ", and whether it ends without an error.
pub record Replies : Type 0 where
  pub replied : List (List ℕ)
  pub no_error : Bool

abbrev pub reply : List ℕ → Replies → Replies
reply b r = record r { replied = b ∷ r.replied }

abbrev stop : Bool → Replies
stop no_error = record { replied = []; no_error = no_error }

-- A line is written, and as many bytes are read.
unfoldable pub repl : (p : Peer) → p.State → List Input → Replies
repl p s [] = stop true
repl p s (input_end ∷ inputs) = stop true
repl p s (input_error ∷ inputs) = stop false
repl p s (line b ∷ inputs) =
    let (sent, s') = p.write s b in
    let (got, s'') = p.read_full s' (length b) in
    let rest = repl p s'' inputs in
    elim sent [ false ↦ stop false | true ↦ elim got [ none ↦ stop false | some r ↦ reply r rest ] ]

-- A peer that sends back what is written to it: `Holds s q` says that the bytes `q` are on the way.
pub record IsEcho (p : Peer) (Holds : p.State → List ℕ → Type 0) : Type 0 where
  pub write_lem :
      (s : p.State) (q b : List ℕ)
      → Holds s q
      → ((p.write s b).0 ≡ true) × Holds (p.write s b).1 (q ++ b)
  pub read_full_lem :
      (s : p.State) (q : List ℕ) (n : ℕ)
      → Holds s q
      → n ≤ length q
      → ((p.read_full s n).0 ≡ some (take n q)) × Holds (p.read_full s n).1 (drop n q)

-- With a peer that sends back what it gets, `repl` prints each line that is typed, in order, and
-- ends without an error at the end of the input.
pub repl_echoes :
    (p : Peer) (Holds : p.State → List ℕ → Type 0)
    → IsEcho p Holds
    → (s : p.State) (lines : List (List ℕ)) → Holds s []
    → repl p s (map line lines ++ (input_end ∷ [])) ≡ record { replied = lines; no_error = true }
unfolding repl
repl_echoes p Holds e s [] h = refl
repl_echoes p Holds e s (b ∷ lines) h =
    let (sent, on_way) = e.write_lem s [] b h in
    let (got, empty) = e.read_full_lem (p.write s b).1 b (length b) on_way (omega arith) in
    let clear = rw (drop_all (length b) b (omega arith)) at empty in
    rw (repl, sent, got, take_all (length b) b (omega arith))
      (ap (reply b) (repl_echoes p Holds e (p.read_full (p.write s b).1 (length b)).1 lines clear))
