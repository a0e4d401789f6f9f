-- ===== src/Processor/Handshake.antt =====
-- A client's handshake makes a connection with frames on record.
use grpcreplay.Base.{
  ℕ, ◌≡◌, ◌≢◌, refl, sym, ap, subst, ◌∙◌, true, false, Option, none, some, List, [], ◌∷◌, arith,
  add_u32,
}
use grpcreplay.GoMap.{get, get-put_self}
use grpcreplay.NetPkg.{DirectConn, direct_conn_key, NetPkg, dir_incoming, dir_outcoming}
use grpcreplay.Packages.{SkipList, Hpack, Codecs}
use grpcreplay.TcpState.{
  state_number, new_tcp_connection, State, listen, syn_received1, syn_received2, established, Event,
  receive_syn, send_syn_ack, receive_ack, Transition, transitions, find_row, GoFsm,
  TcpConnectionState,
}
use grpcreplay.Conn.{Http2Conn, new_http2_conn}
use grpcreplay.TcpBuffer.{set_expected_seq}
use grpcreplay.Processor.{
  Processor, established_conn, on_enter, event_of, trigger_event, handle_connection_state,
  lookup_state, client_conn, process_tcp_pkg, process_tcp_pkgs, entered, with_input_seq,
}
use grpcreplay.Processor.Reachable.{control_idle}

module _ ⦃s : SkipList⦄ ⦃h : Hpack⦄ ⦃c : Codecs⦄ ⦃g : GoFsm⦄ where
  -- A packet that moves the state of its connection on.
  trigger_event_moves :
      (pkg : NetPkg) (p : Processor) (ts : TcpConnectionState) (a : State) (e : Event)
      (t : Transition)
      → ts.state ≡ a
      → find_row transitions a e ≡ some t
      → t.to ≢ a
      → trigger_event pkg (some e) (p, ts) ≡ on_enter pkg t.to (p, ts)
  unfolding trigger_event
  trigger_event_moves pkg p ts a e t q row ne =
      ap (λ y. y.0)
        (g.trigger_moves (Processor × TcpConnectionState) transitions (on_enter pkg) ts.state e
          (p, ts) t (subst (λ b. find_row transitions b e ≡ some t) (sym q) row)
          (subst (λ b. t.to ≢ b) (sym q) ne))

  process_moves :
      (fuel : ℕ) (pkg : NetPkg) (p : Processor) (dc : DirectConn) (o : Option TcpConnectionState)
      (a : State) (e : Event) (t : Transition)
      → pkg.tcp.payload ≡ []
      → client_conn pkg ≡ dc
      → get p.conn_states dc ≡ o
      → event_of pkg ≡ some e
      → (lookup_state p dc o).1.state ≡ a
      → find_row transitions a e ≡ some t
      → t.to ≢ a
      → process_tcp_pkg fuel p pkg ≡ some (on_enter pkg t.to (lookup_state p dc o)).0
  unfolding process_tcp_pkg handle_connection_state
  process_moves fuel pkg p dc o a e t empty own found ev q row ne =
      let x = lookup_state p dc o in
      let here : lookup_state p (client_conn pkg) (get p.conn_states (client_conn pkg)) ≡ x =
        ap (λ k. lookup_state p k (get p.conn_states k)) own ∙ ap (lookup_state p dc) found in
      control_idle fuel pkg _ empty
      ∙ ap (λ y. some (handle_connection_state pkg y).0) here
      ∙ ap (λ v. some (trigger_event pkg v x).0) ev
      ∙ ap (λ y. some y.0) (trigger_event_moves pkg x.0 x.1 a e t q row ne)

-- The three packets of a handshake, for the connection `dc` as its client sees it.
pub record IsSyn (dc : DirectConn) (pkg : NetPkg) : Type 0 where
  pub empty : pkg.tcp.payload ≡ []
  pub own : client_conn pkg ≡ dc
  pub incoming : pkg.direction ≡ dir_incoming
  pub syn_flag : pkg.tcp.syn_flag ≡ true

pub record IsSynAck (dc : DirectConn) (pkg : NetPkg) : Type 0 where
  pub empty : pkg.tcp.payload ≡ []
  pub own : client_conn pkg ≡ dc
  pub outcoming : pkg.direction ≡ dir_outcoming
  pub syn_flag : pkg.tcp.syn_flag ≡ true
  pub ack_flag : pkg.tcp.ack_flag ≡ true

pub record IsAck (dc : DirectConn) (pkg : NetPkg) : Type 0 where
  pub empty : pkg.tcp.payload ≡ []
  pub own : client_conn pkg ≡ dc
  pub incoming : pkg.direction ≡ dir_incoming
  pub syn_flag : pkg.tcp.syn_flag ≡ false
  pub fin_flag : pkg.tcp.fin_flag ≡ false
  pub rst_flag : pkg.tcp.rst_flag ≡ false
  pub ack_flag : pkg.tcp.ack_flag ≡ true

event_syn : (dc : DirectConn) (pkg : NetPkg) → IsSyn dc pkg → event_of pkg ≡ some receive_syn
unfolding event_of
event_syn dc pkg k = ground (arith, k.empty, k.incoming, k.syn_flag)

event_syn_ack :
    (dc : DirectConn) (pkg : NetPkg) → IsSynAck dc pkg → event_of pkg ≡ some send_syn_ack
unfolding event_of
event_syn_ack dc pkg k = ground (arith, k.empty, k.outcoming, k.syn_flag, k.ack_flag)

event_ack : (dc : DirectConn) (pkg : NetPkg) → IsAck dc pkg → event_of pkg ≡ some receive_ack
unfolding event_of
event_ack dc pkg k =
    ground (arith, k.empty, k.incoming, k.syn_flag, k.fin_flag, k.rst_flag, k.ack_flag)

different : (a b : State) → state_number a ≢ state_number b → a ≢ b
different a b h e = h (ap state_number e)

module _ ⦃s : SkipList⦄ ⦃h : Hpack⦄ ⦃c : Codecs⦄ ⦃g : GoFsm⦄ where
  abbrev pub at_state : DirectConn → State → List State → TcpConnectionState
  at_state dc state states = record { dc = dc; state = state; states = states }

  after :
      (fuel : ℕ) (p p' : Processor) (pkg : NetPkg) (pkgs : List NetPkg)
      → process_tcp_pkg fuel p pkg ≡ some p'
      → process_tcp_pkgs fuel p (pkg ∷ pkgs) ≡ process_tcp_pkgs fuel p' pkgs
  unfolding process_tcp_pkgs
  after fuel p p' pkg pkgs e =
      ap (λ (o : Option Processor). elim o [ none ↦ none | some n ↦ process_tcp_pkgs fuel n pkgs ])
        e

  -- A client's SYN for a connection that is not known, the server's SYN-ACK and the client's ACK,
  -- none with payload, and the ACK without SYN, FIN and RST: after them the connection is
  -- established, has gone through the states of the handshake, and is in the repository with its
  -- own key, where its input waits for the number after that of the ACK and its output for the
  -- number acknowledged.
  pub handshake_establishes :
      (fuel : ℕ) (p : Processor) (dc : DirectConn) (first second third : NetPkg)
      → IsSyn dc first
      → IsSynAck dc second
      → IsAck dc third
      → get p.conn_states dc ≡ none
      → (p' : Processor) × (process_tcp_pkgs fuel p (first ∷ second ∷ third ∷ []) ≡ some p')
        × (get p'.conn_states dc
            ≡ some (
                at_state dc established
                  (listen ∷ syn_received1 ∷ syn_received2 ∷ established ∷ [])))
        × (hc : Http2Conn) × (get p'.conn_repository dc ≡ some hc)
        × (hc.direct_conn ≡ dc)
        × (hc.input.tcp_buffer.expected_seq ≡ add_u32 third.tcp.seq 1)
        × (hc.output.tcp_buffer.expected_seq ≡ third.tcp.ack)
  unfolding process_tcp_pkgs lookup_state new_tcp_connection on_enter entered established_conn
      with_input_seq new_http2_conn set_expected_seq
  handshake_establishes fuel p dc first second third k1 k2 k3 unknown =
      let x0 = lookup_state p dc none in
      let x1 = on_enter first syn_received1 x0 in
      let x2 = on_enter second syn_received2 x1 in
      let x3 = on_enter third established x2 in
      let step1 : process_tcp_pkg fuel p first ≡ some x1.0 =
        process_moves fuel first p dc none listen receive_syn _ k1.empty k1.own unknown
          (event_syn dc first k1) refl refl (different syn_received1 listen (omega arith)) in
      let step2 : process_tcp_pkg fuel x1.0 second ≡ some x2.0 =
        process_moves fuel second x1.0 dc (some x1.1) syn_received1 send_syn_ack _ k2.empty k2.own
          (get-put_self x0.0.conn_states dc x1.1) (event_syn_ack dc second k2) refl refl
          (different syn_received2 syn_received1 (omega arith)) in
      let step3 : process_tcp_pkg fuel x2.0 third ≡ some x3.0 =
        process_moves fuel third x2.0 dc (some x2.1) syn_received2 receive_ack _ k3.empty k3.own
          (get-put_self x1.0.conn_states dc x2.1) (event_ack dc third k3) refl refl
          (different established syn_received2 (omega arith)) in
      (
        x3.0,
        after fuel p x1.0 first (second ∷ third ∷ []) step1
            ∙ after fuel x1.0 x2.0 second (third ∷ []) step2
            ∙ after fuel x2.0 x3.0 third [] step3,
        get-put_self x2.0.conn_states dc x3.1,
        established_conn dc third p.record_response,
        get-put_self x2.0.conn_repository dc (established_conn dc third p.record_response),
        refl,
        refl,
        refl,
      )
