-- ===== src/Server/Reachable.antt =====
-- Every turn keeps the invariant, and only two kinds of turns can stop the server.
use comp6461_computer_networ.Base.{ℕ, ◌≡◌, refl, sym, ◌∙◌, arith}
use comp6461_computer_networ.Base.{Bool, true, false, Option, none, some, List, if◌then◌else◌}
use comp6461_computer_networ.Base.{Go, ok, ◌>>=◌, >>=-eq-ok, ok_injective}
use mathlib.Core.Path.{subst, subst₂}
use comp6461_computer_networ.Packet.{Packet}
use comp6461_computer_networ.Packet.PacketType
use comp6461_computer_networ.Endpoint.{Endpoint, control, write, Checker, looking}
use comp6461_computer_networ.Endpoint.{get_packets, is_blocked, send_request}
use comp6461_computer_networ.Server.{
  HttpServer, System, Phase, await_syn, await_ack, await_delivery, await_acks,
}
use comp6461_computer_networ.Server.{}
use comp6461_computer_networ.Server.{reset, disconnected, send_synack, set_client, proceed}
use comp6461_computer_networ.Server.Windows.{
  HasWindows, SameSending-HasWindows, write-SameSending, make_window-HasWindows,
}
use comp6461_computer_networ.Server.Windows.{}
use comp6461_computer_networ.Server.Sending.{send_request-HasWindows}
use comp6461_computer_networ.Server.Invariant.{Known, PhaseOk, SynOk, CheckOk, IsRunning}

-- The server's fields that the invariant reads, after a turn that changes them.
pub synack_sent :
    {W : Type 0} (y : System W) (s s' : HttpServer)
    → send_synack s ≡ ok s'
    → HasWindows s.endpoint
    → (s.endpoint.seq_num ≡ 0) × Known s.endpoint.peer × (s.connect ≡ false)
    → SynOk s.handshake_syn
    → CheckOk y.checker
    → IsRunning (record y { server = s'; phase = await_ack })
synack_sent y s s' done h (seq, known, off) syn k =
    let (e, wrote, last) =
      >>=-eq-ok (write s.endpoint (control PacketType.synack s.endpoint.seq_num s.endpoint.peer)) _
        done in
    let same = write-SameSending s.endpoint e _ wrote in
    subst (λ x. IsRunning (record y { server = x; phase = await_ack }))
      (ok_injective (record s { endpoint = e }) s' last)
      (record {
        windows = SameSending-HasWindows s.endpoint e same h;
        phase_ok = (same.0 ∙ seq, (known.0, same.1 ∙ known.1), off);
        syn_ok = syn;
        check_ok = k;
      })

module _ {W : Type 0} (handle_request : W → List ℕ → Go (List ℕ × W)) where
  accept_syn :
      (slot : Option Packet) (y y' : System W)
      → (elim slot [
        | none ↦ ok y
        | some p ↦ do
          s ← send_synack (set_client y.server p)
          ok (record y { server = s; phase = await_ack })
      ])
        ≡ ok y'
      → y.server.handshake_syn ≡ slot
      → y.phase ≡ await_syn
      → IsRunning y
      → IsRunning y'
  accept_syn none y y' done is at r = subst IsRunning (ok_injective y y' done) r
  accept_syn (some p) y y' done is at r =
      let (s, sent, last) = >>=-eq-ok (send_synack (set_client y.server p)) _ done in
      let (seq, fresh, off) : PhaseOk await_syn y.server.endpoint.seq_num y.server.endpoint.peer
          y.server.connect =
        subst (λ ph. PhaseOk ph y.server.endpoint.seq_num y.server.endpoint.peer y.server.connect)
          at r.phase_ok in
      let (a, from) = r.syn_ok p is in
      subst IsRunning (ok_injective (record y { server = s; phase = await_ack }) y' last) (
        synack_sent y (set_client y.server p) s sent
          (record {
            recv_size = r.windows.recv_size;
            send_size = r.windows.send_size;
            all_sent = r.windows.all_sent;
          })
          (seq, (a, ground arith), off) (λ q h. cc) r.check_ok)

  pub phase_of :
      (ph : Phase) (y : System W)
      → y.phase ≡ ph
      → IsRunning y
      → PhaseOk ph y.server.endpoint.seq_num y.server.endpoint.peer y.server.connect
  phase_of ph y at r =
      subst (λ x. PhaseOk x y.server.endpoint.seq_num y.server.endpoint.peer y.server.connect) at
        r.phase_ok

  -- A turn that changes the endpoint alone, and neither its number nor its peer.
  pub same_phase :
      (y : System W) (e : Endpoint) (c : Checker)
      → HasWindows e
      → e.seq_num ≡ y.server.endpoint.seq_num
      → e.peer ≡ y.server.endpoint.peer
      → CheckOk c
      → IsRunning y
      → IsRunning (record y { server = record (y.server) { endpoint = e }; checker = c })
  same_phase y e c h seq peer k r = record {
    windows = h;
    phase_ok = subst₂ (λ s p. PhaseOk y.phase s p y.server.connect) (sym seq) (sym peer) r.phase_ok;
    syn_ok = r.syn_ok;
    check_ok = k;
  }

  accept_ack :
      (slot : Option Packet) (y y' : System W)
      → y.server.handshake_ack ≡ slot
      → y.phase ≡ await_ack
      → proceed handle_request await_ack y ≡ ok y'
      → IsRunning y
      → IsRunning y'
  unfolding proceed
  accept_ack none y y' is at done r =
      subst IsRunning (ok_injective y y' (rw (is, proceed) at done)) r
  accept_ack (some p) y y' is at done r =
      let (seq, known, off) = phase_of await_ack y at r in
      subst IsRunning (ok_injective _ y' (rw (is, proceed) at done)) (record {
        windows = record {
          recv_size = r.windows.recv_size;
          send_size = r.windows.send_size;
          all_sent = r.windows.all_sent;
        };
        phase_ok = (omega (arith, seq), known, refl);
        syn_ok = r.syn_ok;
        check_ok = r.check_ok;
      })

  no_message :
      (y : System W)
      → y.server.endpoint.delivery_message ≡ false
      → proceed handle_request await_delivery y ≡ ok y
  unfolding proceed
  no_message y is = ground arith

  respond :
      (b : Bool) (y y' : System W)
      → y.server.endpoint.delivery_message ≡ b
      → y.phase ≡ await_delivery
      → proceed handle_request await_delivery y ≡ ok y'
      → IsRunning y
      → IsRunning y'
  unfolding proceed
  respond false y y' is at done r =
      subst IsRunning (ok_injective y y' (sym (no_message y is) ∙ done)) r
  respond true y y' is at done r =
      let done' = rw (is, proceed) at done in
      let (request, got, rest) =
        >>=-eq-ok (get_packets y.server.endpoint.receiver_window) _ done' in
      let ((response, world), handled, rest') = >>=-eq-ok (handle_request y.world request) _ rest in
      let (e, sent, last) =
        >>=-eq-ok (send_request (record (y.server.endpoint) { delivery_message = false }) response)
          _ rest' in
      let (seq, (a, to), on) = phase_of await_delivery y at r in
      let (h, le, peer) =
        send_request-HasWindows (record (y.server.endpoint) { delivery_message = false }) e a
          response sent to (omega (arith, seq))
          (record {
            recv_size = r.windows.recv_size;
            send_size = r.windows.send_size;
            all_sent = r.windows.all_sent;
          }) in
      subst IsRunning (ok_injective _ y' last) (record {
        windows = h;
        phase_ok = (le, (a, peer ∙ to), on);
        syn_ok = r.syn_ok;
        check_ok = r.check_ok;
      })

  finish :
      (y y' : System W)
      → y.phase ≡ await_acks
      → proceed handle_request await_acks y ≡ ok y'
      → IsRunning y
      → IsRunning y'
  unfolding proceed reset
  finish y y' at done r =
      let (b, waited, last) = >>=-eq-ok (is_blocked y.server.endpoint) _ done in go b last
    where
      go :
          (b : Bool)
          → ◌≡◌ {A = Go (System W)}
              (ok (
                if b then y else record y {
                  server = reset (disconnected y.server);
                  checker = looking none;
                  phase = await_syn;
                }))
              (ok y')
          → IsRunning y'
      go true last = subst IsRunning (ok_injective y y' last) r
      go false last = subst IsRunning (ok_injective _ y' last) (record {
        windows = make_window-HasWindows (reset (disconnected y.server)).endpoint;
        phase_ok = (refl, refl, refl);
        syn_ok = λ p h. cc;
        check_ok = λ d h. cc;
      })

  pub proceed-IsRunning :
      (ph : Phase) (y y' : System W)
      → y.phase ≡ ph
      → proceed handle_request ph y ≡ ok y'
      → IsRunning y
      → IsRunning y'
  proceed-IsRunning await_syn y y' at done r =
      accept_syn y.server.handshake_syn y y' (unfold proceed in done) refl at r
  proceed-IsRunning await_ack y y' at done r = accept_ack y.server.handshake_ack y y' refl at done r
  proceed-IsRunning await_delivery y y' at done r =
      respond y.server.endpoint.delivery_message y y' refl at done r
  proceed-IsRunning await_acks y y' at done r = finish y y' at done r
