-- ===== src/Exchange.antt =====
-- The turns of the client of lab3/httpc in one exchange, and what the network delivers of a text.
use comp6461_computer_networ.Base.{
  ℕ, zero, suc, ◌≡◌, refl, inl, inr, some, List, [], ◌∷◌, ◌++◌, map, get_elem?, All,
}
use mathlib.Core.Option.{some-injective}
use comp6461_computer_networ.Packet.{UdpAddr, Packet}
use comp6461_computer_networ.Packet.PacketType
use comp6461_computer_networ.Endpoint.Receiver.{Event, arrives, checks}
use comp6461_computer_networ.Endpoint.Delivery.{IsOneOf, incoming}
use comp6461_computer_networ.Endpoint.Complete.{Occurs}
use comp6461_computer_networ.Endpoint.Signal.{signal}
use comp6461_computer_networ.Client
use comp6461_computer_networ.Client.{Session, received}
use comp6461_computer_networ.Client.Transfer.{turn as client_turn}
use comp6461_computer_networ.Client.{post_request}

-- What the network delivers of one text from `from` to `to`: only its packets, each at least once.
pub record Delivers (from to : UdpAddr) (text : List ℕ) (vs : List Event) : Type 0 where
  pub only : All (IsOneOf (incoming from (some to) text)) vs
  pub every :
      (k : ℕ) (q : Packet) → get_elem? (incoming from (some to) text) k ≡ some q → Occurs q vs

-- All turns of the client: the SYN-ACK, main, then `ws`, two checks, and main.
abbrev pub client_turns : UdpAddr → List Event → List Client.Event
client_turns a ws =
    Client.datagram (signal PacketType.synack a)
    ∷ Client.main_turn
    ∷ (map (client_turn a) (ws ++ (checks ∷ checks ∷ [])) ++ (Client.main_turn ∷ []))

-- Every packet once and in order.
map-IsOneOf :
    (all qs : List Packet)
    → ((k : ℕ) (q : Packet) → get_elem? qs k ≡ some q → (j : ℕ) × (get_elem? all j ≡ some q))
    → All (IsOneOf all) (map arrives qs)
map-IsOneOf all [] h = tt
map-IsOneOf all (q ∷ qs) h = (h 0 q refl, map-IsOneOf all qs (λ k. h (suc k)))

map-Occurs :
    (qs : List Packet) (k : ℕ) (q : Packet) → get_elem? qs k ≡ some q → Occurs q (map arrives qs)
map-Occurs [] k q at = cc
map-Occurs (p ∷ qs) zero q at = inl (some-injective p q at)
map-Occurs (p ∷ qs) (suc k) q at = inr (map-Occurs qs k q at)

abbrev pub in_order : UdpAddr → UdpAddr → List ℕ → List Event
in_order from to text = map arrives (incoming from (some to) text)

pub in_order-Delivers :
    (from to : UdpAddr) (text : List ℕ) → Delivers from to text (in_order from to text)
in_order-Delivers from to text = record {
  only = map-IsOneOf _ (incoming from (some to) text) (λ k q at. (k, at));
  every = map-Occurs (incoming from (some to) text);
}
