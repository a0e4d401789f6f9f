-- ===== src/RawInput/History.antt =====
-- The history connections while packets and the rounds of `Listen` are interleaved.
use grpcreplay.Base.{
  ℕ, ◌≡◌, refl, ap, ◌∙◌, Bool, true, false, not, ◌&&◌, ◌||◌, inl, inr, Option, none, some, List, [],
  ◌∷◌, arith, Bool-cases, ltb, Result, ok, err, panic,
}
use grpcreplay.GoMap.Keys.{in_list, mem-nil}
use grpcreplay.NetPkg.{
  DirectConn, direct_conn_eq, direct_conn_eq_iff, direct_conn_key, Dir, dir_unknown, dir_incoming,
  dir_outcoming, NetPkg, Packet, PacketError, direct_conn,
}
use grpcreplay.ConnSet.{ConnSet, has, size, remove, add_all, new_conn_set}
use grpcreplay.ConnSet.Laws.{conn_set_membership}
use grpcreplay.RawInput.{
  RawInput, Socket, list_all_conns, process_at, is_acked_ipv4, history_packet, listen_dir,
  listen_result, listen_packet, listen_next, intersect_round, assign_round, Listening, ListenEvent,
  packet_seen, intersected, assigned, listen_step, listen_run,
}

abbrev pub is_incoming : Dir → Bool
is_incoming dir_incoming = true
is_incoming dir_outcoming = false
is_incoming dir_unknown = false

-- A packet that opens the connection anew.
abbrev pub reopens : DirectConn → Result PacketError NetPkg → Bool
reopens c (ok p) =
    is_incoming p.direction
    && (direct_conn_eq (direct_conn p) c && (not (is_acked_ipv4 p) && p.tcp.syn_flag))
reopens c (err e) = false
reopens c panic = false

has-remove :
    (a : ConnSet) (c d : DirectConn) → has (remove a c) d ≡ (not (direct_conn_eq c d) && has a d)
has-remove a c d = (conn_set_membership a a c d []).1

not_there :
    (a : ConnSet) (c d : DirectConn)
    → has a c ≡ false
    → has a d ≡ (has a d && not (direct_conn_eq c d))
not_there a c d e = elim (Bool-cases (direct_conn_eq c d)) [
  | inl same ↦ let q = (direct_conn_eq_iff c d).0 same in ground (arith, same, ap (has a) q, e)
  | inr other ↦ ground (arith, other)
]

listen_dir-set :
    (i : RawInput) (c : DirectConn) (p : NetPkg) (d : Dir)
    → has (listen_dir d i p).0.conn_set c ≡ (
        has i.conn_set c
        && not (
            is_incoming d
            && (direct_conn_eq (direct_conn p) c && (not (is_acked_ipv4 p) && p.tcp.syn_flag))))
unfolding listen_dir history_packet
listen_dir-set i c p dir_unknown = ground arith
listen_dir-set i c p dir_outcoming = ground arith
listen_dir-set i c p dir_incoming = elim (Bool-cases (has i.conn_set (direct_conn p))) [
  | inl there ↦ ground (arith, there, has-remove i.conn_set (direct_conn p) c)
  | inr absent ↦ ground (arith, absent, not_there i.conn_set (direct_conn p) c absent)
]

pub listen_packet-set :
    (i : RawInput) (c : DirectConn) (packet : Packet)
    → has (listen_packet i packet).0.conn_set c
      ≡ (has i.conn_set c && not (reopens c (process_at i.port packet i.ip_set)))
unfolding listen_packet
listen_packet-set i c packet = go (process_at i.port packet i.ip_set)
  where
    go :
        (r : Result PacketError NetPkg)
        → has (listen_result i r).0.conn_set c ≡ (has i.conn_set c && not (reopens c r))
    go (ok p) = listen_dir-set i c p p.direction
    go (err e) = ground arith
    go panic = ground arith

pub has-new_conn_set : (c : DirectConn) → has new_conn_set c ≡ false
unfolding has new_conn_set
has-new_conn_set c = mem-nil c

pub has-listen_next :
    (i : RawInput) (sockets : List Socket) (c : DirectConn)
    → has (listen_next i sockets) c
      ≡ (has i.conn_set c && in_list (list_all_conns i.port sockets) c)
unfolding listen_next
has-listen_next i sockets c =
    let conns = list_all_conns i.port sockets in
    let added = add_all new_conn_set conns in
    ground (
      arith,
      (conn_set_membership i.conn_set added c c []).4,
      (conn_set_membership new_conn_set added c c conns).2,
      has-new_conn_set c,
    )

abbrev pub pending : Option ConnSet → DirectConn → Bool
pending none c = false
pending (some next) c = has next c

-- The connection is in the set, or is about to be.
abbrev pub held : Listening → DirectConn → Bool
held l c = has l.input.conn_set c || pending l.next c

held-intersect_round :
    (l : Listening) (n : Option ConnSet) (sockets : List Socket) (c : DirectConn)
    → l.next ≡ n
    → held (intersect_round n l sockets) c ≡ true
    → held l c ≡ true
held-intersect_round l (some n) sockets c e h = h
held-intersect_round l none sockets c e h = elim (Bool-cases (ltb 0 (size l.input.conn_set))) [
  | inl more ↦ ground (arith, e, more, has-listen_next l.input sockets c, h)
  | inr over ↦ ground (arith, e, over, h)
]

held-assign_round :
    (l : Listening) (n : Option ConnSet) (seq : DirectConn → ℕ) (c : DirectConn)
    → l.next ≡ n
    → held (assign_round n l seq) c ≡ true
    → held l c ≡ true
held-assign_round l none seq c e h = h
held-assign_round l (some n) seq c e h = ground (arith, e, h)

-- What a step holds was held before.
held-listen_step :
    (l : Listening) (e : ListenEvent) (c : DirectConn)
    → held (listen_step l e) c ≡ true
    → held l c ≡ true
unfolding listen_step
held-listen_step l (packet_seen packet) c h = ground (arith, listen_packet-set l.input c packet, h)
held-listen_step l (intersected sockets) c h = held-intersect_round l l.next sockets c refl h
held-listen_step l (assigned seq) c h = held-assign_round l l.next seq c refl h

pub held-listen_run :
    (l : Listening) (es : List ListenEvent) (c : DirectConn)
    → held (listen_run l es) c ≡ true
    → held l c ≡ true
unfolding listen_run
held-listen_run l [] c h = h
held-listen_run l (e ∷ es) c h = held-listen_step l e c (held-listen_run (listen_step l e) es c h)

-- The configuration stays.
listen_packet-config :
    (i : RawInput) (packet : Packet)
    → ((listen_packet i packet).0.port ≡ i.port) × ((listen_packet i packet).0.ip_set ≡ i.ip_set)
unfolding listen_packet listen_dir history_packet
listen_packet-config i packet = go (process_at i.port packet i.ip_set)
  where
    dir :
        (p : NetPkg) (d : Dir)
        → ((listen_dir d i p).0.port ≡ i.port) × ((listen_dir d i p).0.ip_set ≡ i.ip_set)
    dir p dir_unknown = (refl, refl)
    dir p dir_outcoming = (refl, refl)
    dir p dir_incoming = (ground arith, ground arith)

    go :
        (r : Result PacketError NetPkg)
        → ((listen_result i r).0.port ≡ i.port) × ((listen_result i r).0.ip_set ≡ i.ip_set)
    go (ok p) = dir p p.direction
    go (err e) = (refl, refl)
    go panic = (refl, refl)

listen_step-config :
    (l : Listening) (e : ListenEvent)
    → ((listen_step l e).input.port ≡ l.input.port)
      × ((listen_step l e).input.ip_set ≡ l.input.ip_set)
unfolding listen_step
listen_step-config l (packet_seen packet) = listen_packet-config l.input packet
listen_step-config l (intersected sockets) = go l.next
  where
    go :
        (n : Option ConnSet)
        → ((intersect_round n l sockets).input.port ≡ l.input.port)
          × ((intersect_round n l sockets).input.ip_set ≡ l.input.ip_set)
    go none = (ground arith, ground arith)
    go (some next) = (refl, refl)
listen_step-config l (assigned seq) = go l.next
  where
    go :
        (n : Option ConnSet)
        → ((assign_round n l seq).input.port ≡ l.input.port)
          × ((assign_round n l seq).input.ip_set ≡ l.input.ip_set)
    go none = (refl, refl)
    go (some next) = (refl, refl)

pub listen_run-config :
    (l : Listening) (es : List ListenEvent)
    → ((listen_run l es).input.port ≡ l.input.port)
      × ((listen_run l es).input.ip_set ≡ l.input.ip_set)
unfolding listen_run
listen_run-config l [] = (refl, refl)
listen_run-config l (e ∷ es) =
    let (p, q) = listen_run-config (listen_step l e) es in
    let (p', q') = listen_step-config l e in (p ∙ p', q ∙ q')
