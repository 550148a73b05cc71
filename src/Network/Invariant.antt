-- ===== src/Network/Invariant.antt =====
-- What holds of client, server and network between any two moves of a first exchange.
use mathlib.Core.Path.{subst}
use comp6461_computer_networ.Base.{ℕ, suc, ◌≡◌, ◌⊎◌, inl, inr, sym}
use comp6461_computer_networ.Base.{
  Bool, true, false, none, some, List, ◌++◌, get_elem?, All, All-append, All-map,
}
use comp6461_computer_networ.Packet.{UdpAddr, Packet}
use comp6461_computer_networ.Packet.PacketType
use comp6461_computer_networ.Packet.RoundTrip.{arrived}
use comp6461_computer_networ.Window.{Window}
use comp6461_computer_networ.Endpoint.{ended}
use comp6461_computer_networ.Endpoint.Signal.{signal}
use comp6461_computer_networ.Server
use comp6461_computer_networ.Server.{System, HttpServer}
use comp6461_computer_networ.Client
use comp6461_computer_networ.Client.{Session, HttpClient}
use comp6461_computer_networ.Link.Invariant.{IsDatum, IsAnswer}
use comp6461_computer_networ.Network.{Network}
use comp6461_computer_networ.Network.Flow.{IsFlow}

-- The server has sent its response.
abbrev pub is_answering : Server.Phase → Bool
is_answering Server.await_acks = true
is_answering _ = false

-- The client has sent its request.
abbrev pub is_asking : Client.Phase → Bool
is_asking Client.await_synack = false
is_asking _ = true

IsAnswer-grows :
    (from to : UdpAddr) (text : List ℕ) (w w' : Window Packet)
    → ((j : ℕ) (q : Packet) → get_elem? w j ≡ some (some q) → get_elem? w' j ≡ some (some q))
    → (bytes : List ℕ) → IsAnswer from to text w bytes
    → IsAnswer from to text w' bytes
IsAnswer-grows from to text w w' grows bytes (k, p, at, same, there) =
    (k, p, at, same, grows (suc k) (arrived p from) there)

module _ {W : Type 0} (a c : UdpAddr) (req resp : List ℕ) (world world' : W) where
  -- What the server writes: a SYN-ACK, acknowledgements, and the packets of the response.
  abbrev pub IsServerDatum : Bool → Bool → Window Packet → List ℕ → Type 0
  IsServerDatum asking answering w bytes =
      (bytes ≡ signal PacketType.synack c)
      ⊎ ((asking ≡ true) × IsAnswer c a req w bytes)
      ⊎ ((answering ≡ true) × IsDatum a c resp bytes)

  -- What the client writes: a SYN, the ACK of the handshake, acknowledgements, and the packets of
  -- the request.
  abbrev pub IsClientDatum : Bool → Bool → Window Packet → List ℕ → Type 0
  IsClientDatum asking answering w bytes =
      (bytes ≡ signal PacketType.syn a)
      ⊎ (bytes ≡ signal PacketType.ack a)
      ⊎ ((answering ≡ true) × IsAnswer a c resp w bytes)
      ⊎ ((asking ≡ true) × IsDatum c a req bytes)

  abbrev pub ServerPhase : Server.Phase → HttpServer → W → Type 0
  ServerPhase Server.await_syn s w =
      (s.endpoint.seq_num ≡ 0) × (s.endpoint.peer ≡ none) × (s.connect ≡ false) × (w ≡ world)
  ServerPhase Server.await_ack s w =
      (s.endpoint.seq_num ≡ 0) × (s.endpoint.peer ≡ some c) × (s.connect ≡ false) × (w ≡ world)
  ServerPhase Server.await_delivery s w =
      (s.endpoint.seq_num ≡ 1) × (s.endpoint.peer ≡ some c) × (s.connect ≡ true) × (w ≡ world)
  ServerPhase Server.await_acks s w = (s.connect ≡ true) × (w ≡ world')

  abbrev pub ClientPhase : Client.Phase → HttpClient → Type 0
  ClientPhase Client.await_synack k = k.endpoint.seq_num ≡ 0
  ClientPhase Client.await_delivery k = Unit
  ClientPhase (Client.received text) k = text ≡ resp

  pub record IsNetwork (n : Network W) : Type 0 where
    pub server_phase : ServerPhase n.server.phase n.server.server n.server.world
    pub server_syn : (p : Packet) → n.server.server.handshake_syn ≡ some p → p.from_addr ≡ some c
    pub server_told : n.server.server.endpoint.delivery_message ≡ true → n.server.checker ≡ ended
    pub client_phase : ClientPhase n.client.phase n.client.client
    pub client_peer : n.client.client.endpoint.peer ≡ some a
    pub client_request : n.client.request ≡ req
    pub client_told : n.client.client.endpoint.delivery_message ≡ true → n.client.checker ≡ ended
    pub request_flow :
        IsFlow c a req
          (is_asking n.client.phase)
          n.client.client.endpoint
          n.server.server.endpoint.receiver_window
          n.server.checker
    pub response_flow :
        IsFlow a c resp
          (is_answering n.server.phase)
          n.server.server.endpoint
          n.client.client.endpoint.receiver_window
          n.client.checker
    pub server_pool :
        All
          (IsServerDatum
            (is_asking n.client.phase)
            (is_answering n.server.phase)
            n.server.server.endpoint.receiver_window)
          n.server.server.endpoint.written
    pub client_pool :
        All
          (IsClientDatum
            (is_asking n.client.phase)
            (is_answering n.server.phase)
            n.client.client.endpoint.receiver_window)
          n.client.client.endpoint.written

  IsServerDatum-grows :
      (b b' d d' : Bool) (w w' : Window Packet)
      → (b ≡ true → b' ≡ true)
      → (d ≡ true → d' ≡ true)
      → ((j : ℕ) (q : Packet) → get_elem? w j ≡ some (some q) → get_elem? w' j ≡ some (some q))
      → (bytes : List ℕ) → IsServerDatum b d w bytes
      → IsServerDatum b' d' w' bytes
  IsServerDatum-grows b b' d d' w w' hb hd grows bytes (inl same) = inl same
  IsServerDatum-grows b b' d d' w w' hb hd grows bytes (inr (inl (on, h))) =
      inr (inl (hb on, IsAnswer-grows c a req w w' grows bytes h))
  IsServerDatum-grows b b' d d' w w' hb hd grows bytes (inr (inr (on, h))) = inr (inr (hd on, h))

  IsClientDatum-grows :
      (b b' d d' : Bool) (w w' : Window Packet)
      → (b ≡ true → b' ≡ true)
      → (d ≡ true → d' ≡ true)
      → ((j : ℕ) (q : Packet) → get_elem? w j ≡ some (some q) → get_elem? w' j ≡ some (some q))
      → (bytes : List ℕ) → IsClientDatum b d w bytes
      → IsClientDatum b' d' w' bytes
  IsClientDatum-grows b b' d d' w w' hb hd grows bytes (inl same) = inl same
  IsClientDatum-grows b b' d d' w w' hb hd grows bytes (inr (inl same)) = inr (inl same)
  IsClientDatum-grows b b' d d' w w' hb hd grows bytes (inr (inr (inl (on, h)))) =
      inr (inr (inl (hd on, IsAnswer-grows a c resp w w' grows bytes h)))
  IsClientDatum-grows b b' d d' w w' hb hd grows bytes (inr (inr (inr (on, h)))) =
      inr (inr (inr (hb on, h)))

  -- The server after a turn, while the client stays as it is in `n`.
  pub record Serves (n : Network W) (y : System W) : Type 0 where
    pub phase : ServerPhase y.phase y.server y.world
    pub syn : (p : Packet) → y.server.handshake_syn ≡ some p → p.from_addr ≡ some c
    pub told : y.server.endpoint.delivery_message ≡ true → y.checker ≡ ended
    pub request :
        IsFlow c a req
          (is_asking n.client.phase)
          n.client.client.endpoint
          y.server.endpoint.receiver_window
          y.checker
    pub response :
        IsFlow a c resp
          (is_answering y.phase)
          y.server.endpoint
          n.client.client.endpoint.receiver_window
          n.client.checker
    pub grows :
        (j : ℕ) (q : Packet)
        → get_elem? n.server.server.endpoint.receiver_window j ≡ some (some q)
        → get_elem? y.server.endpoint.receiver_window j ≡ some (some q)
    pub on : is_answering n.server.phase ≡ true → is_answering y.phase ≡ true
    pub more : List (List ℕ)
    pub wrote : y.server.endpoint.written ≡ n.server.server.endpoint.written ++ more
    pub legit :
        All
          (IsServerDatum
            (is_asking n.client.phase)
            (is_answering y.phase)
            y.server.endpoint.receiver_window)
          more

  pub Serves-IsNetwork :
      (n : Network W) (y : System W)
      → IsNetwork n
      → Serves n y
      → IsNetwork (record n { server = y })
  Serves-IsNetwork n y v s = record {
    server_phase = s.phase;
    server_syn = s.syn;
    server_told = s.told;
    client_phase = v.client_phase;
    client_peer = v.client_peer;
    client_request = v.client_request;
    client_told = v.client_told;
    request_flow = s.request;
    response_flow = s.response;
    server_pool =
        let P =
          IsServerDatum (is_asking n.client.phase) (is_answering y.phase)
            y.server.endpoint.receiver_window in
        subst (All P) (sym s.wrote) (
          All-append P n.server.server.endpoint.written s.more
            (All-map
              (IsServerDatum-grows (is_asking n.client.phase) (is_asking n.client.phase)
                (is_answering n.server.phase) (is_answering y.phase)
                n.server.server.endpoint.receiver_window y.server.endpoint.receiver_window (λ b. b)
                s.on s.grows)
              n.server.server.endpoint.written v.server_pool)
            s.legit);
    client_pool =
        All-map
          (IsClientDatum-grows (is_asking n.client.phase) (is_asking n.client.phase)
            (is_answering n.server.phase) (is_answering y.phase)
            n.client.client.endpoint.receiver_window n.client.client.endpoint.receiver_window
            (λ b. b) s.on (λ j q h. h))
          n.client.client.endpoint.written v.client_pool;
  }

  -- The client after a turn, while the server stays as it is in `n`.
  pub record Asks (n : Network W) (y : Session) : Type 0 where
    pub phase : ClientPhase y.phase y.client
    pub peer : y.client.endpoint.peer ≡ some a
    pub request_text : y.request ≡ req
    pub told : y.client.endpoint.delivery_message ≡ true → y.checker ≡ ended
    pub request :
        IsFlow c a req
          (is_asking y.phase)
          y.client.endpoint
          n.server.server.endpoint.receiver_window
          n.server.checker
    pub response :
        IsFlow a c resp
          (is_answering n.server.phase)
          n.server.server.endpoint
          y.client.endpoint.receiver_window
          y.checker
    pub grows :
        (j : ℕ) (q : Packet)
        → get_elem? n.client.client.endpoint.receiver_window j ≡ some (some q)
        → get_elem? y.client.endpoint.receiver_window j ≡ some (some q)
    pub on : is_asking n.client.phase ≡ true → is_asking y.phase ≡ true
    pub more : List (List ℕ)
    pub wrote : y.client.endpoint.written ≡ n.client.client.endpoint.written ++ more
    pub legit :
        All
          (IsClientDatum
            (is_asking y.phase)
            (is_answering n.server.phase)
            y.client.endpoint.receiver_window)
          more

  pub Asks-IsNetwork :
      (n : Network W) (y : Session) → IsNetwork n → Asks n y → IsNetwork (record n { client = y })
  Asks-IsNetwork n y v s = record {
    server_phase = v.server_phase;
    server_syn = v.server_syn;
    server_told = v.server_told;
    client_phase = s.phase;
    client_peer = s.peer;
    client_request = s.request_text;
    client_told = s.told;
    request_flow = s.request;
    response_flow = s.response;
    server_pool =
        All-map
          (IsServerDatum-grows (is_asking n.client.phase) (is_asking y.phase)
            (is_answering n.server.phase) (is_answering n.server.phase)
            n.server.server.endpoint.receiver_window n.server.server.endpoint.receiver_window s.on
            (λ b. b) (λ j q h. h))
          n.server.server.endpoint.written v.server_pool;
    client_pool =
        let P =
          IsClientDatum (is_asking y.phase) (is_answering n.server.phase)
            y.client.endpoint.receiver_window in
        subst (All P) (sym s.wrote) (
          All-append P n.client.client.endpoint.written s.more
            (All-map
              (IsClientDatum-grows (is_asking n.client.phase) (is_asking y.phase)
                (is_answering n.server.phase) (is_answering n.server.phase)
                n.client.client.endpoint.receiver_window y.client.endpoint.receiver_window s.on
                (λ b. b) s.grows)
              n.client.client.endpoint.written v.client_pool)
            s.legit);
  }
