-- ===== src/Tests/Links.antt =====
-- The theorems on a transfer over a lossy network, at concrete data.
use comp6461_computer_networ.Base.{
  ◌≡◌, refl, arith, Bool, false, some, List, [], ◌∷◌, ok, ◌>>=◌, All,
}
use comp6461_computer_networ.Base.Bytes.{codes}
use comp6461_computer_networ.Window.{make_window}
use comp6461_computer_networ.Packet.{raw, parse_packet}
use comp6461_computer_networ.Router
use comp6461_computer_networ.Server.{receive_ack, expire_slot}
use comp6461_computer_networ.Endpoint.{
  Endpoint, is_blocked, is_blocked_from, send_request, send_loop, send_packet, write, retransmit,
  retransmit_from, retransmit_slot, receive_content, poll, check_for_deliver, find_deliver,
  is_filled,
}
use comp6461_computer_networ.Endpoint.Receiver
use comp6461_computer_networ.Link.{
  Link, Move, deliver, acknowledge, expire, scan, check, step, run, start, relayed,
}
use comp6461_computer_networ.Link.Safety.{IsDelivered, send_ends-IsDelivered}
use comp6461_computer_networ.Link.Settles.{IsLater}
use comp6461_computer_networ.Link.Progress.{send_can_end}
use comp6461_computer_networ.Tests.Exchange.{near, far, near-IsUdp4, far-IsUdp4}

abbrev answering : Endpoint
answering = record {
  seq_num = 1;
  peer = some far;
  receiver_window = make_window;
  sender_window = make_window;
  delivery_message = false;
  written = [];
}

abbrev asking : Endpoint
asking = record answering { peer = some near; seq_num = 3 }

-- The DATA packet is lost at first; the notice comes twice; the check looks early.
abbrev lossy : List Move
lossy = deliver 1 ∷ check ∷ deliver 1 ∷ acknowledge 1 ∷ expire 1 ∷ scan ∷ []

-- The packet written again arrives, and its acknowledgement.
lossy_ends :
    (start answering asking (codes "hello")
      >>= (λ l. run near far l lossy)
      >>= (λ l. run near far l (deliver 2 ∷ acknowledge 2 ∷ []))
      >>= λ l. is_blocked l.sender)
    ≡ ok false
unfolding start run step relayed send_request send_loop send_packet write raw is_blocked
    is_blocked_from retransmit retransmit_from retransmit_slot receive_content poll
    check_for_deliver find_deliver is_filled Receiver.step receive_ack expire_slot parse_packet
    make_window Router.receive Router.parse_packet Router.process Router.send Router.raw
lossy_ends = refl

send_ends-IsDelivered_example :
    (l : Link) × ((start answering asking (codes "hello") >>= λ l. run near far l lossy) ≡ ok l)
    × (b : Bool) × (is_blocked l.sender ≡ ok b)
    × (b ≡ false → IsDelivered (codes "hello") l.receiver)
send_ends-IsDelivered_example =
    send_ends-IsDelivered near far (codes "hello") (omega arith) answering asking lossy near-IsUdp4
      far-IsUdp4 refl refl refl

send_can_end_example :
    (l : Link) × ((start answering asking (codes "hello") >>= λ l. run near far l lossy) ≡ ok l)
    × (ns : List Move) × All (IsLater l) ns
    × (l' : Link) × (run near far l ns ≡ ok l')
    × (is_blocked l'.sender ≡ ok false)
    × IsDelivered (codes "hello") l'.receiver
send_can_end_example =
    send_can_end near far (codes "hello") near-IsUdp4 far-IsUdp4 (omega arith) answering asking
      lossy refl refl refl
