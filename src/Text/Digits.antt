-- ===== src/Text/Digits.antt =====
-- `strconv.Itoa` read back: different numbers have different digits.
use comp6461_computer_networ.Base.{
  ℕ, zero, suc, ◌+◌, ◌-◌, ◌*◌, ◌/◌, ◌%◌, ◌<◌, ◌≡◌, ◌≢◌, refl, sym, ap, ◌∙◌, arith, true, List, [],
  ◌∷◌, ltb, Bool-cases, inl, inr,
}
use comp6461_computer_networ.Text.{itoa, digits_onto, same_text}

-- The number that the digits stand for, behind those of `acc`.
value : ℕ → List ℕ → ℕ
value acc [] = acc
value acc (c ∷ s) = value (acc * 10 + (c - 48)) s

value-digits_onto :
    (fuel n : ℕ) (out : List ℕ) → n < fuel → value 0 (digits_onto fuel n out) ≡ value n out
unfolding value digits_onto
value-digits_onto zero n out h = absurd (omega arith)
value-digits_onto (suc fuel) n out h = elim (Bool-cases (ltb n 10)) [
  | inl small ↦ rw small (ap (λ k. value k out) (ground arith))
  | inr large ↦
      rw large
        (value-digits_onto fuel (n / 10) _ (ground arith) ∙ ap (λ k. value k out) (omega arith))
]

value-itoa : (n : ℕ) → value 0 (itoa n) ≡ n
unfolding itoa value
value-itoa n = value-digits_onto (n + 1) n [] (omega arith)

pub itoa_injective : (m n : ℕ) → itoa m ≡ itoa n → m ≡ n
itoa_injective m n h = sym (value-itoa m) ∙ ap (value 0) h ∙ value-itoa n

digits_onto-ne : (fuel n c : ℕ) (out : List ℕ) → digits_onto fuel n (c ∷ out) ≢ []
unfolding digits_onto
digits_onto-ne zero n c out h = cc
digits_onto-ne (suc fuel) n c out h = elim (Bool-cases (ltb n 10)) [
  | inl small ↦ cc (rw small at h)
  | inr large ↦ digits_onto-ne fuel (n / 10) (48 + n % 10) (c ∷ out) (rw large at h)
]

digits_onto-ne-nil : (fuel n : ℕ) → digits_onto (suc fuel) n [] ≢ []
unfolding digits_onto
digits_onto-ne-nil fuel n h = elim (Bool-cases (ltb n 10)) [
  | inl small ↦ cc (rw small at h)
  | inr large ↦ digits_onto-ne fuel (n / 10) (48 + n % 10) [] (rw large at h)
]

pub itoa-ne-nil : (n : ℕ) → itoa n ≢ []
unfolding itoa
itoa-ne-nil n h =
    let next : n + 1 ≡ suc n = omega arith in
    digits_onto-ne-nil n n (ap (λ k. digits_onto k n []) (sym next) ∙ h)

pub same_text-eq : (s t : List ℕ) → same_text s t ≡ true → s ≡ t
unfolding same_text
same_text-eq [] [] h = refl
same_text-eq [] (d ∷ t) h = cc
same_text-eq (c ∷ s) [] h = cc
same_text-eq (c ∷ s) (d ∷ t) h = ground (arith, same_text-eq s t)
