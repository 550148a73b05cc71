-- ===== src/TcpClient/Outcome.antt =====
-- What a call in lab1-2/httpc/httpc.go does: it returns, stops the program by log.Fatal, panics, or,
-- in the model, is out of fuel.
use comp6461_computer_networ.Base.{Panic}

pub data Run {ℓ} (A : Type ℓ) : Type ℓ where
  returned : A → Run A
  fatal : Run A
  crashed : Panic → Run A
  running : Run A

infixl 5 ◌>>=◌
abbrev pub ◌>>=◌ {ℓ κ} : {A : Type ℓ} {B : Type κ} → Run A → (A → Run B) → Run B
returned a >>= f = f a
fatal >>= f = fatal
crashed e >>= f = crashed e
running >>= f = running
