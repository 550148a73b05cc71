-- ===== src/Text.antt =====
-- The functions of Go's packages strings and strconv that the programs call, on bytes.
pub mod Digits
use mathlib.Core.Option.{some-injective}
use comp6461_computer_networ.Base.{ap, ◌++◌, length, Bool-cases, inl, inr}
use comp6461_computer_networ.Base.{
  ℕ, zero, suc, ◌+◌, ◌≤◌, ◌/◌, ◌%◌, ◌≡◌, refl, arith, Bool, true, false,
}
use comp6461_computer_networ.Base.{◌&&◌, Option, none, some, List, [], ◌∷◌, is_nil, not}
use comp6461_computer_networ.Base.{ltb, ◌==◌, if◌then◌else◌}

-- `strings.HasPrefix(s, prefix)`
unfoldable pub has_prefix : List ℕ → List ℕ → Bool
has_prefix s [] = true
has_prefix [] (p ∷ ps) = false
has_prefix (c ∷ s) (p ∷ ps) = c == p && has_prefix s ps

-- `strings.Index(s, substr)`, where `none` is -1.
unfoldable pub index_from : ℕ → List ℕ → List ℕ → Option ℕ
unfolding has_prefix
index_from i [] pat = if has_prefix [] pat then some i else none
index_from i (c ∷ s) pat =
    let rest = index_from (i + 1) s pat in if has_prefix (c ∷ s) pat then some i else rest

abbrev pub find : List ℕ → List ℕ → Option ℕ
find s pat = index_from 0 s pat

-- `strings.Contains(s, substr)`
abbrev pub contains : List ℕ → List ℕ → Bool
contains s pat = not (is_nil (find s pat))

-- `a == b` on strings.
unfoldable pub same_text : List ℕ → List ℕ → Bool
same_text [] [] = true
same_text (a ∷ s) (b ∷ t) = a == b && same_text s t
same_text _ _ = false

pub same_text_refl : (s : List ℕ) → same_text s s ≡ true
unfolding same_text
same_text_refl [] = refl
same_text_refl (c ∷ s) = ground (arith, same_text_refl s)

-- `strconv.Itoa` and `fmt.Sprint` of a number that is not negative: its decimal digits. A number
-- has fewer digits than its successor counts.
digits_onto : ℕ → ℕ → List ℕ → List ℕ
digits_onto zero n out = out
digits_onto (suc fuel) n out =
    let out' = (48 + n % 10) ∷ out in
    let rest = digits_onto fuel (n / 10) out' in if ltb n 10 then out' else rest

unfoldable pub itoa : ℕ → List ℕ
unfolding digits_onto
itoa n = digits_onto (n + 1) n []

has_prefix_longer :
    (s t pat : List ℕ) → length pat ≤ length s → has_prefix (s ++ t) pat ≡ has_prefix s pat
unfolding has_prefix
has_prefix_longer [] t [] h = refl
has_prefix_longer (c ∷ s) t [] h = refl
has_prefix_longer [] t (p ∷ pat) h = absurd (omega arith)
has_prefix_longer (c ∷ s) t (p ∷ pat) h =
    ap (λ b. c == p && b) (has_prefix_longer s t pat (omega arith))

has_prefix-fits : (s pat : List ℕ) → has_prefix s pat ≡ true → length pat ≤ length s
unfolding has_prefix
has_prefix-fits s [] h = omega arith
has_prefix-fits [] (p ∷ pat) h = cc
has_prefix-fits (c ∷ s) (p ∷ pat) h = ground (arith, has_prefix-fits s pat)

index_from-fits : (i k : ℕ) (s pat : List ℕ) → index_from i s pat ≡ some k → length pat ≤ length s
unfolding index_from has_prefix
index_from-fits i k [] [] e = omega arith
index_from-fits i k [] (p ∷ pat) e = cc
index_from-fits i k (c ∷ s) pat e = elim (Bool-cases (has_prefix (c ∷ s) pat)) [
  | inl here ↦ has_prefix-fits (c ∷ s) pat here
  | inr later ↦ omega (arith, index_from-fits (i + 1) k s pat (rw later at e))
]

-- The first place of a text does not change when more follows.
pub index_from-append :
    (i k : ℕ) (s t pat : List ℕ) → index_from i s pat ≡ some k → index_from i (s ++ t) pat ≡ some k
unfolding index_from has_prefix
index_from-append i k [] [] pat e = e
index_from-append i k [] (d ∷ t) [] e = e
index_from-append i k [] (d ∷ t) (p ∷ pat) e = cc
index_from-append i k (c ∷ s) t pat e =
    let same = has_prefix_longer (c ∷ s) t pat (index_from-fits i k (c ∷ s) pat e) in
    elim (Bool-cases (has_prefix (c ∷ s) pat)) [
      | inl here ↦ rw (same, here) (rw here at e)
      | inr later ↦ rw (same, later) (index_from-append (i + 1) k s t pat (rw later at e))
    ]

-- What is found ends within the text.
pub index_from-end :
    (i k : ℕ) (s pat : List ℕ) → index_from i s pat ≡ some k → k + length pat ≤ i + length s
unfolding index_from has_prefix
index_from-end i k [] [] e = omega (arith, some-injective i k e)
index_from-end i k [] (p ∷ pat) e = cc
index_from-end i k (c ∷ s) pat e = elim (Bool-cases (has_prefix (c ∷ s) pat)) [
  | inl here ↦
      let same = some-injective i k (rw here at e) in
      omega (arith, same, has_prefix-fits (c ∷ s) pat here)
  | inr later ↦ omega (arith, index_from-end (i + 1) k s pat (rw later at e))
]
