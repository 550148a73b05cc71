-- ===== src/Network/Start.antt =====
-- What holds when both programs have started.
use comp6461_computer_networ.Base.{ℕ, ◌*◌, ◌≤◌, ◌≡◌, inl, refl, sym, ap, ◌∙◌, arith}
use comp6461_computer_networ.Base.{
  false, none, some, List, [], ◌∷◌, length, get_elem?, Go, ok, get_elem?-replicate,
}
use comp6461_computer_networ.Packet.{UdpAddr, raw, max_payload}
use comp6461_computer_networ.Packet.PacketType
use comp6461_computer_networ.Window.{WindowElement, make_window}
use comp6461_computer_networ.Endpoint.{Endpoint, write, looking}
use comp6461_computer_networ.Endpoint.Signal.{signal}
use comp6461_computer_networ.Endpoint.Complete.{fresh-IsReceiving}
use comp6461_computer_networ.Server
use comp6461_computer_networ.Server.{System, init_endpoint, init_http_server, Phase}
use comp6461_computer_networ.Client
use comp6461_computer_networ.Client.{Session, init_http_client, send_syn}
use comp6461_computer_networ.Network.{Network, start}
use comp6461_computer_networ.Network.Flow.{IsFlow}
use comp6461_computer_networ.Network.Invariant.{IsNetwork}
use comp6461_computer_networ.Network.ServerTurns.{}
use comp6461_computer_networ.Network.ClientTurns.{}

module _ {W : Type 0} (handle_request : W → List ℕ → Go (List ℕ × W)) (a c : UdpAddr)
    (req resp : List ℕ) (world world' : W) where
  -- The move returns, and what holds is kept.
  abbrev pub Kept : Go (Network W) → Type 0
  Kept g = (n : Network W) × (g ≡ ok n) × IsNetwork a c req resp world world' n

  empty-IsFlow :
      (from to : UdpAddr) (text : List ℕ) (e : Endpoint)
      → length text ≤ 1022 * max_payload
      → e.seq_num ≡ 0
      → e.sender_window ≡ make_window
      → IsFlow from to text false e make_window (looking none)
  unfolding make_window
  empty-IsFlow from to text e small zero empty =
      let start = fresh-IsReceiving from (some to) text e small in
      record {
        size = ap length empty;
        sending = (omega arith, none_there);
        only = λ j x at. absurd (none_there j x at);
        receiving = record {
          only = start.only;
          room = start.room;
          found = start.found;
          told = λ _. refl;
        };
      }
    where
      none_there : (j : ℕ) (x : WindowElement) → get_elem? e.sender_window j ≡ some (some x) → ⊥
      none_there j x at =
          cc (get_elem?-replicate 1024 j none (some x) (ap (λ w. get_elem? w j) (sym empty) ∙ at))

  pub start-IsNetwork :
      length req ≤ 1022 * max_payload → length resp ≤ 1022 * max_payload → Kept (start a world req)
  unfolding start Client.boot Server.boot send_syn write raw init_http_client init_http_server
      init_endpoint
  start-IsNetwork small fits = (
    record {
      server = Server.boot world;
      client = record {
        client = record (init_http_client a) {
          endpoint = record ((init_http_client a).endpoint) {
            written = signal PacketType.syn a ∷ [];
          };
        };
        checker = looking none;
        phase = Client.await_synack;
        request = req;
      };
    },
    refl,
    record {
      server_phase = (refl, refl, refl, refl);
      server_syn = λ p h. cc;
      server_told = λ h. cc;
      client_phase = refl;
      client_peer = refl;
      client_request = refl;
      client_told = λ h. cc;
      request_flow = empty-IsFlow c a req _ small refl refl;
      response_flow = empty-IsFlow a c resp _ fits refl refl;
      server_pool = tt;
      client_pool = (inl refl, tt);
    },
  )
