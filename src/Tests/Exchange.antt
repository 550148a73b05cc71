-- ===== src/Tests/Exchange.antt =====
-- The theorems on whole exchanges, at concrete data.
use comp6461_computer_networ.Base.{ℕ, ◌*◌, ◌≤◌, ◌≡◌, ◌⊎◌, refl, arith, List, [], length, ok, ◌>>=◌}
use comp6461_computer_networ.Base.Bytes.{codes}
use comp6461_computer_networ.Text.{itoa, index_from, has_prefix}
use comp6461_computer_networ.Packet.{v4, UdpAddr, max_payload}
use comp6461_computer_networ.Packet.RoundTrip.{IsUdp4}
use comp6461_computer_networ.Endpoint.{}
use comp6461_computer_networ.Server.{await_acks}
use comp6461_computer_networ.Client.{received, post_request, header_lines}
use comp6461_computer_networ.Http
use comp6461_computer_networ.Http.{make_response}
use comp6461_computer_networ.Http.Files.{done}
use comp6461_computer_networ.Http.Serve.{IsStored}
use comp6461_computer_networ.Tests.Handlers.{library, one_file, post_a}
use comp6461_computer_networ.Network.{Network, Move, run, start}
use comp6461_computer_networ.Network.Safety.{Ends}
use comp6461_computer_networ.Network.Post.{post_exchange}

abbrev pub near : UdpAddr
near = record { ip = v4 10 0 0 7; port = 8007 }

abbrev pub far : UdpAddr
far = record { ip = v4 10 0 0 9; port = 55341 }

pub near-IsUdp4 : IsUdp4 near
near-IsUdp4 = record {
  ip_v4 = (omega arith, omega arith, omega arith, omega arith);
  port_u16 = omega arith;
}

pub far-IsUdp4 : IsUdp4 far
far-IsUdp4 = record {
  ip_v4 = (omega arith, omega arith, omega arith, omega arith);
  port_u16 = omega arith;
}

abbrev pub greeting : List ℕ
greeting = codes "hi"

abbrev pub address : List ℕ
address = codes "http://h/a"

pub stored :
    IsStored library one_file
      (codes "/tmp")
      ([], [])
      (codes "/tmp/a", greeting)
      address
      (codes "h")
      []
      greeting
unfolding index_from has_prefix itoa header_lines
stored = record {
  request = record post_a { read_body = done [] };
  slash = 47;
  name = codes "a";
  made = (codes "/tmp/a", []);
  first = refl;
  read = refl;
  declared = refl;
  post = refl;
  path = refl;
  allowed = refl;
  creates = refl;
  writes = refl;
}

abbrev post_text : List ℕ
post_text = post_request address (codes "h") [] greeting

abbrev created_text : List ℕ
created_text = make_response library 201 [] [] []

post_text_fits : length post_text ≤ 1022 * max_payload
unfolding post_request itoa header_lines
post_text_fits = omega arith

created_text_fits : length created_text ≤ 1022 * max_payload
unfolding make_response itoa
created_text_fits = omega arith

post_exchange_example :
    ((ms : List Move) × (n : Network (List ℕ × List ℕ)) × ((start near ([], []) post_text >>= λ m.
    run (Http.serve library one_file (codes "/tmp")) near far m ms)
        ≡ ok n)
      × (n.client.phase ≡ received created_text)
      × (n.server.phase ≡ await_acks)
      × (n.server.world ≡ (codes "/tmp/a", greeting)))
    × ((ms : List Move)
        → (n : Network (List ℕ × List ℕ)) × ((start near ([], []) post_text >>= λ m.
              run (Http.serve library one_file (codes "/tmp")) near far m ms)
            ≡ ok n)
          × ((text : List ℕ) → n.client.phase ≡ received text → text ≡ created_text)
          × ((n.server.world ≡ ([], []))
              ⊎ ((n.server.phase ≡ await_acks) × (n.server.world ≡ (codes "/tmp/a", greeting))))
          × (n.server.phase ≡ await_acks
              → Ends
                  (Http.serve library one_file (codes "/tmp"))
                  near
                  far
                  post_text
                  created_text
                  ([], [])
                  (codes "/tmp/a", greeting)
                  n))
post_exchange_example =
    post_exchange library one_file (codes "/tmp") ([], []) (codes "/tmp/a", greeting) address
      (codes "h") [] greeting far near far-IsUdp4 near-IsUdp4 post_text_fits created_text_fits
      stored
