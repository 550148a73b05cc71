-- ===== src/Base/Tests.antt =====
-- Tests on the native numbers, the conditional, and the outcome of Go code.
use Prim.Native.Nat.{ℕ, ◌<◌, compare, Ordering}
use mathlib.Core.Path.{◌≡◌, refl, ap}
use mathlib.Core.Logic.{◌↔◌, ◌⊎◌, inl, inr}
use mathlib.Core.Bool.{Bool, true, false}
use mathlib.Core.Option.{Option, none, some}
use native.Mathlib.Omega.{arith}

abbrev pub ltb : ℕ → ℕ → Bool
ltb a b = elim (compare a b) [ Ordering.lt ↦ true | _ ↦ false ]

abbrev pub leb : ℕ → ℕ → Bool
leb a b = elim (compare a b) [ Ordering.gt ↦ false | _ ↦ true ]

infix 50 ◌==◌
abbrev pub ◌==◌ : ℕ → ℕ → Bool
a == b = elim (compare a b) [ Ordering.eq ↦ true | _ ↦ false ]

infix 1 if◌then◌else◌
abbrev pub if◌then◌else◌ {ℓ} : {A : Type ℓ} → Bool → A → A → A
if true then x else y = x
if false then x else y = y

pub ==_iff : (a b : ℕ) → ((a == b) ≡ true) ↔ (a ≡ b)
==_iff a b = ground arith

pub lt→ltb : (a b : ℕ) → a < b → ltb a b ≡ true
lt→ltb a b h = ground arith

pub Bool-cases : (b : Bool) → (b ≡ true) ⊎ (b ≡ false)
Bool-cases true = inl refl
Bool-cases false = inr refl

pub Option-cases {ℓ} : {A : Type ℓ} (o : Option A) → (o ≡ none) ⊎ ((a : A) × (o ≡ some a))
Option-cases none = inl refl
Option-cases (some a) = inr (a, refl)

abbrev pub is_nil {ℓ} : {A : Type ℓ} → Option A → Bool
is_nil none = true
is_nil (some _) = false

-- How Go code stops abnormally: a nil pointer, an index or a slice out of range.
pub data Panic : Type 0 where
  nil_dereference index_out_of_range slice_out_of_range : Panic

-- What a Go call does. `stuck` is no Go outcome: the fuel that models a loop ran out.
pub data Go {ℓ} (A : Type ℓ) : Type ℓ where
  ok : A → Go A
  panic : Panic → Go A
  stuck : Go A

infixl 5 ◌>>=◌
abbrev pub ◌>>=◌ {ℓ κ} : {A : Type ℓ} {B : Type κ} → Go A → (A → Go B) → Go B
ok a >>= f = f a
panic e >>= f = panic e
stuck >>= f = stuck

-- A read through a pointer.
abbrev pub deref {ℓ} : {A : Type ℓ} → Option A → Go A
deref none = panic nil_dereference
deref (some a) = ok a

module _ {ℓ} {A : Type ℓ} where
  value_or : A → Go A → A
  value_or d (ok a) = a
  value_or d (panic e) = d
  value_or d stuck = d

  pub ok_injective : (a b : A) → ok a ≡ ok b → a ≡ b
  unfolding value_or
  ok_injective a b h = ap (value_or a) h

  -- Only a call that returned is followed by a call that returned.
  pub >>=-eq-ok {κ} :
      {B : Type κ} {b : B} (m : Go A) (f : A → Go B)
      → (m >>= f) ≡ ok b
      → (a : A) × (m ≡ ok a) × (f a ≡ ok b)
  >>=-eq-ok (panic e) f returned = cc
  >>=-eq-ok stuck f returned = cc
  >>=-eq-ok (ok a) f returned = (a, refl, returned)

pub >>=-of_ok {ℓ κ} :
    {A : Type ℓ} {B : Type κ} (m : Go A) (f : A → Go B) {a : A} → m ≡ ok a → (m >>= f) ≡ f a
>>=-of_ok m f h = ap (λ x. x >>= f) h
