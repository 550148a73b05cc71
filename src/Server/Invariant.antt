-- ===== src/Server/Invariant.antt =====
-- What holds of the server between any two turns of its goroutines.
use comp6461_computer_networ.Base.{ℕ, ◌≤◌, ◌<◌, ◌≡◌, refl, sym, ap, ◌∙◌, arith, inl, inr}
use comp6461_computer_networ.Base.{Bool, true, false, Option, none, some, List}
use comp6461_computer_networ.Base.{length, ok, deref, >>=-eq-ok, ok_injective, get_elem?-some_lt}
use mathlib.Core.Path.{subst}
use mathlib.Core.Option.{some-injective}
use comp6461_computer_networ.Server.{init_endpoint}
use comp6461_computer_networ.Base.{◌⊎◌}
use comp6461_computer_networ.Packet.{UdpAddr, Packet, parse_packet}
use comp6461_computer_networ.Packet.RoundTrip.{parse_packet-from_addr}
use comp6461_computer_networ.Window.{window_size}
use comp6461_computer_networ.Endpoint.{Endpoint, Checker, looking, ended, poll, check_for_deliver}
use comp6461_computer_networ.Endpoint.{find_deliver, receive_content}
use comp6461_computer_networ.Endpoint.Reassembly.{find_deliver_found}
use comp6461_computer_networ.Server.{
  HttpServer, System, Phase, await_syn, await_ack, await_delivery, await_acks,
}
use comp6461_computer_networ.Server.{receive, receive_ack}
use comp6461_computer_networ.Server.{receive_packet, receive_handshake}
use comp6461_computer_networ.Server.{boot}
use comp6461_computer_networ.Server.Windows.{
  HasWindows, SameSending-HasWindows, make_window-HasWindows,
}
use comp6461_computer_networ.Server.Windows.{receive_content-SameSending, receive_ack-HasWindows}
use comp6461_computer_networ.Server.Sending.{}

abbrev pub Known : Option UdpAddr → Type 0
Known peer = (a : UdpAddr) × (peer ≡ some a)

-- The number, the peer and the connection flag in each phase.
abbrev pub PhaseOk : Phase → ℕ → Option UdpAddr → Bool → Type 0
PhaseOk await_syn seq peer connect = (seq ≡ 0) × (peer ≡ none) × (connect ≡ false)
PhaseOk await_ack seq peer connect = (seq ≡ 0) × Known peer × (connect ≡ false)
PhaseOk await_delivery seq peer connect = (seq ≡ 1) × Known peer × (connect ≡ true)
PhaseOk await_acks seq peer connect = (seq ≤ window_size) × Known peer × (connect ≡ true)

-- A SYN that waits in its channel has a sender.
abbrev pub SynOk : Option Packet → Type 0
SynOk syn = (p : Packet) → syn ≡ some p → Known p.from_addr

-- What checkForDeliver has found is an index of the window.
abbrev pub CheckOk : Checker → Type 0
CheckOk c = (d : ℕ) → c ≡ looking (some d) → d < window_size

pub record IsRunning {W : Type 0} (y : System W) : Type 0 where
  pub windows : HasWindows y.server.endpoint
  pub phase_ok : PhaseOk y.phase y.server.endpoint.seq_num y.server.endpoint.peer y.server.connect
  pub syn_ok : SynOk y.server.handshake_syn
  pub check_ok : CheckOk y.checker

pub boot-IsRunning : {W : Type 0} (world : W) → IsRunning (boot world)
unfolding boot init_endpoint
boot-IsRunning world = record {
  windows = make_window-HasWindows init_endpoint;
  phase_ok = (refl, refl, refl);
  syn_ok = λ p h. cc;
  check_ok = λ d h. cc;
}

pub deref_inv : {A : Type 0} (o : Option A) (a : A) → deref o ≡ ok a → o ≡ some a
deref_inv none a h = cc
deref_inv (some b) a h = cc

pub receive_handshake_connect :
    (s : HttpServer) (p : Packet) → (receive_handshake s p).connect ≡ s.connect
receive_handshake_connect s p = ground arith

pub receive_handshake_syn :
    (s : HttpServer) (p : Packet)
    → ((receive_handshake s p).handshake_syn ≡ s.handshake_syn)
      ⊎ ((receive_handshake s p).handshake_syn ≡ some p)
receive_handshake_syn s p = ground arith

receive_handshake-SynOk :
    (s : HttpServer) (p : Packet)
    → Known p.from_addr
    → SynOk s.handshake_syn
    → SynOk (receive_handshake s p).handshake_syn
receive_handshake-SynOk s p from syn q at = elim (receive_handshake_syn s p) [
  | inl same ↦ syn q (sym same ∙ at)
  | inr new ↦ subst (λ x. Known x.from_addr) (some-injective p q (sym new ∙ at)) from
]

-- What a turn of `receive` keeps.
abbrev pub Kept : HttpServer → HttpServer → Type 0
Kept s s' =
    HasWindows s'.endpoint
    × SynOk s'.handshake_syn
    × (s'.connect ≡ s.connect)
    × (s'.endpoint.seq_num ≡ s.endpoint.seq_num)
    × (s'.endpoint.peer ≡ s.endpoint.peer)

receive_packet-Kept :
    (s s' : HttpServer) (p : Packet)
    → receive_packet s p ≡ ok s'
    → Known p.from_addr
    → HasWindows s.endpoint
    → SynOk s.handshake_syn
    → Kept s s'
unfolding receive_packet
receive_packet-Kept s s' p done from h syn =
    let (e, acked, rest) = >>=-eq-ok (receive_ack s.endpoint p) _ done in
    let (e', content, last) = >>=-eq-ok (receive_content e p) _ rest in
    let (h1, seq, peer) = receive_ack-HasWindows s.endpoint e p acked h in
    let same = receive_content-SameSending e e' p content in
    subst (Kept s) (ok_injective (record (receive_handshake s p) { endpoint = e' }) s' last) (
      SameSending-HasWindows e e' same h1,
      receive_handshake-SynOk s p from syn,
      receive_handshake_connect s p,
      same.0 ∙ seq,
      same.1 ∙ peer,
    )

pub receive-Kept :
    (s s' : HttpServer) (bytes : List ℕ)
    → receive s bytes ≡ ok s'
    → HasWindows s.endpoint
    → SynOk s.handshake_syn
    → Kept s s'
unfolding receive
receive-Kept s s' bytes done h syn =
    let ((p, err), parsed, rest) = >>=-eq-ok (parse_packet bytes) _ done in
    let (q, is_q, rest') = >>=-eq-ok (deref p) _ rest in
    let found : p ≡ some q = deref_inv p q is_q in
    let whole : parse_packet bytes ≡ ok (some q, err) = parsed ∙ ap (λ x. ok (x, err)) found in
    receive_packet-Kept s s' q rest' (parse_packet-from_addr bytes q whole).0 h syn

looking_inv :
    (e e' : Endpoint) (b d : ℕ) (c' : Checker)
    → poll e (looking (some b)) ≡ ok (e', c')
    → c' ≡ looking (some d)
    → b ≡ d
unfolding poll check_for_deliver
looking_inv e e' b d c' done at = ground arith

pub poll-CheckOk :
    (e e' : Endpoint) (c c' : Checker)
    → poll e c ≡ ok (e', c')
    → length e.receiver_window ≡ window_size
    → CheckOk c
    → CheckOk c'
unfolding poll check_for_deliver
poll-CheckOk e e' ended c' done h k d at = ground arith
poll-CheckOk e e' (looking none) c' done h k d at =
    let found : find_deliver e.receiver_window 0 ≡ some d = ground arith in
    let (i, p, here, slot, type) = find_deliver_found e.receiver_window 0 d found in
    omega (arith, get_elem?-some_lt e.receiver_window i (some p) slot)
poll-CheckOk e e' (looking (some b)) c' done h k d at =
    let same : b ≡ d = looking_inv e e' b d c' done at in omega (arith, k b refl)
