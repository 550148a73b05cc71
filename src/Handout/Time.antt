-- ===== src/Handout/Time.antt =====
-- handout/timeserver.go and handout/timeclient.go: the seconds since 1900 in four bytes.
use comp6461_computer_networ.Base.{
  ℕ, ◌+◌, ◌-◌, ◌/◌, ◌%◌, ◌^◌, ◌≡◌, refl, ap, ◌∙◌, All, arith, Option, none, some, List, [], ◌∷◌,
  length,
}
use comp6461_computer_networ.Base.Bytes.{join_u32, join_u32-split, IsByte}

abbrev pub time1970 : ℕ
time1970 = 2208988800

-- `uint32(n)` in big-endian order.
abbrev pub put_u32 : ℕ → List ℕ
put_u32 n = (n / 2 ^ 24 % 256) ∷ (n / 2 ^ 16 % 256) ∷ (n / 2 ^ 8 % 256) ∷ (n % 256) ∷ []

-- What `reportTime` writes, at `now` seconds after 1970.
unfoldable pub report_time : ℕ → List ℕ
report_time now = put_u32 ((now + time1970) % 2 ^ 32)

-- The seconds that `printTime` prints. The stream gives `bytes` and ends, or gives four bytes and
-- more; with fewer it is an error. The difference of two uint32 wraps around.
unfoldable pub print_time : List ℕ → Option ℕ
print_time (a ∷ b ∷ c ∷ d ∷ bytes) = some ((join_u32 a b c d + 2 ^ 32 - time1970) % 2 ^ 32)
print_time _ = none

-- At every time the server writes four bytes, and from these the client prints the seconds since
-- 1970 modulo 2 ^ 32, although the sum with the seconds from 1900 to 1970 wraps around.
pub print_time-report_time :
    (now : ℕ)
    → All IsByte (report_time now)
      × (length (report_time now) ≡ 4)
      × (print_time (report_time now) ≡ some (now % 2 ^ 32))
unfolding print_time report_time
print_time-report_time now =
    let sum = (now + time1970) % 2 ^ 32 in
    let read = join_u32-split sum (omega arith) in
    (
      omega arith,
      refl,
      ap (λ k. some ((k + 2 ^ 32 - time1970) % 2 ^ 32)) read ∙ ap some (omega arith),
    )
