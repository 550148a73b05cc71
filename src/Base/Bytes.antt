-- ===== src/Base/Bytes.antt =====
-- Bytes, texts as bytes, and encoding/binary's big-endian words.
use Prim.Native.Nat.{ℕ, ◌+◌, ◌*◌, ◌/◌, ◌%◌, ◌^◌, ◌<◌}
use Prim.Native.Char.{code}
use Prim.Native.String.{String}
use mathlib.Core.Path.{◌≡◌}
use mathlib.Core.List.{List, [], ◌∷◌}
use native.Mathlib.Omega.{arith}

abbrev pub IsByte : ℕ → Type 0
IsByte b = b < 256

abbrev pub IsU16 : ℕ → Type 0
IsU16 n = n < 2 ^ 16

abbrev pub IsU32 : ℕ → Type 0
IsU32 n = n < 2 ^ 32

-- The bytes of an ASCII text.
abbrev pub codes : String → List ℕ
codes String.[] = []
codes (String.◌∷◌ c s) = code c ∷ codes s

abbrev pub join_u16 : ℕ → ℕ → ℕ
join_u16 a b = a * 2 ^ 8 + b

abbrev pub join_u32 : ℕ → ℕ → ℕ → ℕ → ℕ
join_u32 a b c d = a * 2 ^ 24 + b * 2 ^ 16 + c * 2 ^ 8 + d

pub join_u16-split : (n : ℕ) → IsU16 n → join_u16 (n / 2 ^ 8 % 256) (n % 256) ≡ n
join_u16-split n h = omega arith

pub join_u32-split :
    (n : ℕ)
    → IsU32 n
    → join_u32 (n / 2 ^ 24 % 256) (n / 2 ^ 16 % 256) (n / 2 ^ 8 % 256) (n % 256) ≡ n
join_u32-split n h = omega arith

pub split-join_u16 :
    (a b : ℕ)
    → IsByte a
    → IsByte b
    → (join_u16 a b / 2 ^ 8 % 256 ≡ a) × (join_u16 a b % 256 ≡ b) × IsU16 (join_u16 a b)
split-join_u16 a b ha hb = omega arith

pub split-join_u32 :
    (a b c d : ℕ)
    → IsByte a
    → IsByte b
    → IsByte c
    → IsByte d
    → (join_u32 a b c d / 2 ^ 24 % 256 ≡ a)
      × (join_u32 a b c d / 2 ^ 16 % 256 ≡ b)
      × (join_u32 a b c d / 2 ^ 8 % 256 ≡ c)
      × (join_u32 a b c d % 256 ≡ d)
      × IsU32 (join_u32 a b c d)
split-join_u32 a b c d ha hb hc hd = omega arith
