-- ===== src/Network/Post.antt =====
-- A POST of the client of lab3/httpc, through the router, to the HTTP handlers of lab3/httpfs.
use comp6461_computer_networ.Base.{ℕ, ◌*◌, ◌≤◌, ◌≡◌, ◌⊎◌, List, [], length, ok, ◌>>=◌}
use comp6461_computer_networ.Packet.{UdpAddr, max_payload}
use comp6461_computer_networ.Packet.RoundTrip.{IsUdp4}
use comp6461_computer_networ.Server.{await_acks}
use comp6461_computer_networ.Client.{received, post_request}
use comp6461_computer_networ.Http.{Library, make_response, serve}
use comp6461_computer_networ.Http.Files.{Disk}
use comp6461_computer_networ.Http.Serve.{IsStored, serve-post_request}
use comp6461_computer_networ.Network.{Network, Move, run, start}
use comp6461_computer_networ.Network.Completes.{exchange_completes}
use comp6461_computer_networ.Network.Safety.{Ends, exchange_safe}

-- A POST over both programs and the network. Take a client and a server at IPv4 addresses, a POST
-- text and a 201 response of at most 1022 times 1013 bytes, and let net/http read the POST and the
-- disk take the file. From the starts of both programs on, there are turns and deliveries after
-- which nothing has panicked, the client has received exactly the 201 response, the disk is the one
-- with the file written, and main of the server waits for acknowledgements. And whatever turns the
-- goroutines take, whatever timers fire and handshakes time out, and whatever datagrams that either
-- program has written the network delivers, at any time, any number of times or never, up to the
-- turn that ends the connection: nothing panics; if the client has received a text, it is exactly
-- the 201 response; the disk is as it was, or it is the one with the file written once and main
-- waits for acknowledgements; and in that wait the turn of main returns, and it ends the connection
-- only if the client's window holds the whole 201 response.
pub post_exchange :
    (lib : Library) (disk : Disk) (directory : List ℕ) (s s'' : disk.State) (url host : List ℕ)
    (headers : List (List ℕ)) (body : List ℕ) (c a : UdpAddr)
    → IsUdp4 c
    → IsUdp4 a
    → length (post_request url host headers body) ≤ 1022 * max_payload
    → length (make_response lib 201 [] [] []) ≤ 1022 * max_payload
    → IsStored lib disk directory s s'' url host headers body
    → ((ms : List Move) × (n : Network disk.State) × ((start a s
              (post_request url host headers body)
            >>= λ m. run (serve lib disk directory) a c m ms)
          ≡ ok n)
        × (n.client.phase ≡ received (make_response lib 201 [] [] []))
        × (n.server.phase ≡ await_acks)
        × (n.server.world ≡ s''))
      × ((ms : List Move)
          → (n : Network disk.State) × ((start a s (post_request url host headers body) >>= λ m.
                run (serve lib disk directory) a c m ms)
              ≡ ok n)
            × ((text : List ℕ)
                → n.client.phase ≡ received text
                → text ≡ make_response lib 201 [] [] [])
            × ((n.server.world ≡ s) ⊎ ((n.server.phase ≡ await_acks) × (n.server.world ≡ s'')))
            × (n.server.phase ≡ await_acks
                → Ends
                    (serve lib disk directory)
                    a
                    c
                    (post_request url host headers body)
                    (make_response lib 201 [] [] [])
                    s
                    s''
                    n))
post_exchange lib disk directory s s'' url host headers body c a vc va small fits h =
    let request = post_request url host headers body in
    let response = make_response lib 201 [] [] [] in
    let handled = serve-post_request lib disk directory s s'' url host headers body h in
    (
      exchange_completes (serve lib disk directory) a c va vc request response s s'' small fits
          handled,
      λ ms.
          exchange_safe (serve lib disk directory) a c request response s s'' ms va vc small fits
            handled,
    )
