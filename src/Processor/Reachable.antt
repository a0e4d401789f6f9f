-- ===== src/Processor/Reachable.antt =====
-- The invariant of the processor is kept by the state machine's part of a packet.
use grpcreplay.Base.{
  ℕ, ◌≡◌, refl, sym, subst, inl, inr, Option, none, some, [], arith, Option-cases,
}
use grpcreplay.GoMap.{get}
use grpcreplay.NetPkg.{direct_conn_key, NetPkg}
use grpcreplay.Packages.{SkipList, Hpack, Codecs}
use grpcreplay.TcpState.{Event, transitions, find_row, GoFsm, TcpConnectionState}
use grpcreplay.TcpState.Table.{find_row_⟶, State-discrete}
use grpcreplay.Processor.{
  Processor, on_enter, event_of, trigger_event, handle_connection_state, lookup_state, client_conn,
  deliver_payload, process_tcp_pkg,
}
use grpcreplay.Processor.Invariant.{Inv, Held, lookup_state-Inv, on_enter-Inv}

module _ ⦃s : SkipList⦄ ⦃h : Hpack⦄ ⦃c : Codecs⦄ where
  module _ ⦃g : GoFsm⦄ where
    trigger_event-Inv :
        (pkg : NetPkg) (p : Processor) (ts : TcpConnectionState) (event : Option Event)
        → Held ts.dc (p, ts)
        → Inv p
        → Inv (trigger_event pkg event (p, ts)).0
    unfolding trigger_event
    trigger_event-Inv pkg p ts none held v = v
    trigger_event-Inv pkg p ts (some e) held v =
        let S = Processor × TcpConnectionState in
        elim (Option-cases (find_row transitions ts.state e)) [
          | inl no_row ↦
              subst (λ y. Inv y.0.0)
                (sym (g.trigger_none S transitions (on_enter pkg) ts.state e (p, ts) no_row)) v
          | inr (t, row) ↦ elim (State-discrete t.to ts.state) [
            | yes same ↦
                subst (λ y. Inv y.0.0)
                  (sym (g.trigger_stays S transitions (on_enter pkg) ts.state e (p, ts) t row same))
                  v
            | no other ↦
                subst (λ y. Inv y.0.0)
                  (sym
                    (g.trigger_moves S transitions (on_enter pkg) ts.state e (p, ts) t row other))
                  (on_enter-Inv pkg p ts ts.state t.to (find_row_⟶ ts.state e t row other) refl held
                    v)
          ]
        ]

    pub control_idle :
        (fuel : ℕ) (pkg : NetPkg) (x : Processor × TcpConnectionState)
        → pkg.tcp.payload ≡ []
        → deliver_payload fuel pkg x ≡ some x.0
    unfolding deliver_payload
    control_idle fuel pkg (p, ts) e = ground arith

    -- From a processor with the invariant, a packet without payload is processed to its end,
    -- whatever the connections' buffers hold, and the invariant holds again: every connection
    -- is kept under its own key with a history that follows the edges of the state machine, and
    -- it has frames on record exactly while it is established or being closed by its client.
    pub process_tcp_pkg_control :
        (fuel : ℕ) (p : Processor) (pkg : NetPkg)
        → pkg.tcp.payload ≡ []
        → Inv p
        → (p' : Processor) × (process_tcp_pkg fuel p pkg ≡ some p') × Inv p'
    unfolding process_tcp_pkg handle_connection_state
    process_tcp_pkg_control fuel p pkg e v =
        let dc = client_conn pkg in
        let found = lookup_state p dc (get p.conn_states dc) in
        let runs : process_tcp_pkg fuel p pkg ≡ some (handle_connection_state pkg found).0 =
          control_idle fuel pkg (handle_connection_state pkg found) e in
        let entry : Inv found.0 × Held dc found =
          lookup_state-Inv p dc (get p.conn_states dc) refl v in
        let own : found.1.dc ≡ dc = (entry.0.traced dc found.1 entry.1).0 in
        (
          _,
          runs,
          trigger_event-Inv pkg found.0 found.1 (event_of pkg)
              (subst (λ k. Held k found) (sym own) entry.1) entry.0,
        )
