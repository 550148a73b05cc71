-- ===== src/Endpoint/Receiver.antt =====
-- The goroutines `receive` and `checkForDeliver` of one endpoint as explicit sequences of steps:
-- a DATA or DELIVER packet arrives, or the check makes a round.
use comp6461_computer_networ.Base.{}
use comp6461_computer_networ.Base.{List, [], ◌∷◌}
use comp6461_computer_networ.Base.{Go, ok, ◌>>=◌}
use comp6461_computer_networ.Packet.{Packet}
use comp6461_computer_networ.Window.{Window}
use comp6461_computer_networ.Endpoint.{Endpoint, receive_content, Checker, poll}
use comp6461_computer_networ.Endpoint.Segments.{}
use comp6461_computer_networ.Endpoint.Reassembly.{}

pub record Receiver : Type 0 where
  pub endpoint : Endpoint
  pub checker : Checker

pub data Event : Type 0 where
  arrives : Packet → Event
  checks : Event

unfoldable pub step : Receiver → Event → Go Receiver
step r (arrives p) = do e ← receive_content r.endpoint p; ok (record r { endpoint = e })
step r checks = do (e, c) ← poll r.endpoint r.checker; ok (record { endpoint = e; checker = c })

unfoldable pub run : Receiver → List Event → Go Receiver
run r [] = ok r
run r (v ∷ vs) = do r' ← step r v; run r' vs

abbrev pub window : Receiver → Window Packet
window r = r.endpoint.receiver_window
