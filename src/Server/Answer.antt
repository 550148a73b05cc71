-- ===== src/Server/Answer.antt =====
-- The turn in which main of the server answers a request.
use comp6461_computer_networ.Base.{ℕ, ◌≡◌, arith, true, false, List, [], ◌∷◌, Go, ok}
use comp6461_computer_networ.Endpoint.{Endpoint, get_packets, send_request}
use comp6461_computer_networ.Server.{
  System, main_turn, await_delivery, await_acks, step, run, proceed,
}

module _ {W : Type 0} (handle_request : W → List ℕ → Go (List ℕ × W)) where
  -- The system after the response has been sent from the endpoint `e`.
  unfoldable pub answered : System W → Endpoint → W → System W
  answered y e world = record y {
    server = record (y.server) { endpoint = e };
    phase = await_acks;
    world = world;
  }

  -- The turn of main on a request that is complete.
  pub run-answer :
      (y : System W) (req resp : List ℕ) (world : W) (e : Endpoint)
      → y.phase ≡ await_delivery
      → y.server.endpoint.delivery_message ≡ true
      → get_packets y.server.endpoint.receiver_window ≡ ok req
      → handle_request y.world req ≡ ok (resp, world)
      → send_request (record (y.server.endpoint) { delivery_message = false }) resp ≡ ok e
      → run handle_request y (main_turn ∷ []) ≡ ok (answered y e world)
  unfolding run step proceed answered
  run-answer y req resp world e at told whole handled sends = ground arith
