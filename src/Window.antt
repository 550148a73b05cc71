-- ===== src/Window.antt =====
-- lab3/lib/windownElement.go, and the Go slices of pointers that serve as windows.
use comp6461_computer_networ.Base.{ℕ, Bool, true, false, Option, none, some, List, get_elem?, set}
use comp6461_computer_networ.Base.{length, ◌≡◌, refl}
use comp6461_computer_networ.Base.{Go, ok, panic, index_out_of_range, replicate, if◌then◌else◌}
use comp6461_computer_networ.Packet.{Packet}

-- A `*time.Timer` of Go 1.17, with what its channel holds: at most one expiry.
pub record Timer : Type 0 where
  pub running : Bool
  pub fired : Bool

abbrev pub new_timer : Timer
new_timer = record { running = true; fired = false }

-- `Timer.Stop()` leaves the channel as it is.
abbrev pub stop : Timer → Timer
stop t = record t { running = false }

-- `<-Timer.C` and then `Timer.Reset`.
abbrev pub restart : Timer → Timer
restart t = record t { fired = false; running = true }

-- The duration of a running timer has passed.
abbrev pub expire : Timer → Timer
expire t = if t.running then record { running = false; fired = true } else t

-- `ack` is the channel of capacity 1.
pub record WindowElement : Type 0 where
  pub packet : Option Packet
  pub timer : Option Timer
  pub ack : Option Packet

abbrev pub new_window_element : Packet → WindowElement
new_window_element p = record { packet = some p; timer = some new_timer; ack = none }

abbrev pub window_size : ℕ
window_size = 1024

abbrev pub Window : Type 0 → Type 0
Window A = List (Option A)

-- `make([]*T, WindowSize)`
unfoldable pub make_window : {A : Type 0} → Window A
make_window = replicate window_size none

-- `w[i]`
abbrev pub index : {A : Type 0} → List A → ℕ → Go A
index w i = elim (get_elem? w i) [ none ↦ panic index_out_of_range | some a ↦ ok a ]

-- `w[i] = a`
abbrev pub store : {A : Type 0} → List A → ℕ → A → Go (List A)
store w i a = elim (get_elem? w i) [ none ↦ panic index_out_of_range | some _ ↦ ok (set w i a) ]

pub length-make_window : (A : Type 0) → length (make_window {A = A}) ≡ 1024
unfolding make_window
length-make_window A = refl
