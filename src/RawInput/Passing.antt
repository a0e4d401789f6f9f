-- ===== src/RawInput/Passing.antt =====
-- Which packets are passed on.
use grpcreplay.Base.{
  ℕ, ◌+◌, ◌*◌, ◌%◌, u32_mod, add_u32, ◌≡◌, ◌≢◌, refl, ap, ◌∙◌, Bool, true, false, ◌&&◌, ◌||◌, inl,
  inr, Option, none, some, List, [], ◌∷◌, ◌++◌, arith, Bool-cases, ltb, if◌then◌else◌, ok,
}
use grpcreplay.GoMap.Keys.{in_list}
use grpcreplay.TcpKill.{Segment, send_rst}
use grpcreplay.Packages.{Tcp}
use grpcreplay.NetPkg.{
  DirectConn, direct_conn_key, Dir, dir_unknown, dir_incoming, dir_outcoming, NetPkg, Packet,
  direct_conn, IpLayer,
}
use grpcreplay.ConnSet.{ConnSet, has, size}
use grpcreplay.ConnSet.Laws.{conn_set_membership}
use grpcreplay.RawInput.{
  RawInput, Socket, list_all_conns, process_at, is_acked_ipv4, rsts, rsts_of, rst_num,
  history_packet, listen_dir, listen_result, listen_packet, listen_start, intersect_round,
  assign_round, Listening, ListenEvent, packet_seen, intersected, assigned, listen_step, listen_run,
}
use grpcreplay.RawInput.History.{
  reopens, listen_packet-set, has-listen_next, held-listen_run, listen_run-config,
}

-- The listeners have started, and no round of `Listen` has.
abbrev pub started : RawInput → List Socket → Listening
started i sockets = record { input = listen_start i sockets; next = none; sent = [] }

listen_dir_free :
    (i : RawInput) (p : NetPkg) (d : Dir)
    → d ≢ dir_unknown
    → has i.conn_set (direct_conn p) ≡ false
    → (listen_dir d i p).0.output_chan ≡ i.output_chan ++ p ∷ []
unfolding listen_dir
listen_dir_free i p dir_unknown k h = absurd (k refl)
listen_dir_free i p dir_outcoming k h = refl
listen_dir_free i p dir_incoming k h = ground (arith, h)

listen_packet_free :
    (i : RawInput) (packet : Packet) (p : NetPkg)
    → process_at i.port packet i.ip_set ≡ ok p
    → p.direction ≢ dir_unknown
    → has i.conn_set (direct_conn p) ≡ false
    → (listen_packet i packet).0.output_chan ≡ i.output_chan ++ p ∷ []
unfolding listen_packet
listen_packet_free i packet p e k h =
    ap (λ r. (listen_result i r).0.output_chan) e ∙ listen_dir_free i p p.direction k h

has-listen_start :
    (i : RawInput) (sockets : List Socket) (c : DirectConn)
    → has (listen_start i sockets).conn_set c
      ≡ (in_list (list_all_conns i.port sockets) c || has i.conn_set c)
unfolding listen_start
has-listen_start i sockets c =
    (conn_set_membership i.conn_set i.conn_set c c (list_all_conns i.port sockets)).2

-- Whatever packets and rounds of `Listen` come first, and in whatever order, a packet in a known
-- direction is passed on if its connection was not among the established ones when the program
-- started and not in the set before: nothing ever makes a connection part of the history.
pub listen_run_passes_new :
    (i : RawInput) (sockets : List Socket) (es : List ListenEvent) (packet : Packet) (p : NetPkg)
    → process_at i.port packet i.ip_set ≡ ok p
    → p.direction ≢ dir_unknown
    → has i.conn_set (direct_conn p) ≡ false
    → in_list (list_all_conns i.port sockets) (direct_conn p) ≡ false
    → (listen_step (listen_run (started i sockets) es) (packet_seen packet)).input.output_chan
      ≡ (listen_run (started i sockets) es).input.output_chan ++ p ∷ []
unfolding listen_step
listen_run_passes_new i sockets es packet p e k before absent =
    let l = listen_run (started i sockets) es in
    let (port, ips) = listen_run-config (started i sockets) es in
    let start : (l.input.port ≡ i.port) × (l.input.ip_set ≡ i.ip_set) =
      unfold listen_start in (port, ips) in
    let free : has l.input.conn_set (direct_conn p) ≡ false =
      elim (Bool-cases (has l.input.conn_set (direct_conn p))) [
        | inl there ↦
            let h =
              held-listen_run (started i sockets) es (direct_conn p) (ground (arith, there)) in
            ground (arith, h, has-listen_start i sockets (direct_conn p), before, absent)
        | inr not_there ↦ not_there
      ] in
    listen_packet_free l.input packet p (rw (start.0, start.1) e) k free

-- An event after which the connection is still history, if it was.
abbrev pub Keeps : Listening → DirectConn → ListenEvent → Type 0
Keeps l c (packet_seen packet) = reopens c (process_at l.input.port packet l.input.ip_set) ≡ false
Keeps l c (intersected sockets) = in_list (list_all_conns l.input.port sockets) c ≡ true
Keeps l c (assigned seq) = Unit

abbrev pub Kept : Listening → DirectConn → List ListenEvent → Type 0
Kept l c [] = Unit
Kept l c (e ∷ es) = Keeps l c e × Kept (listen_step l e) c es

abbrev pub in_next : Option ConnSet → DirectConn → Bool
in_next none c = true
in_next (some next) c = has next c

-- In the set, and in the one that is about to replace it.
abbrev pub firm : Listening → DirectConn → Bool
firm l c = has l.input.conn_set c && in_next l.next c

firm-intersect_round :
    (l : Listening) (n : Option ConnSet) (sockets : List Socket) (c : DirectConn)
    → l.next ≡ n
    → in_list (list_all_conns l.input.port sockets) c ≡ true
    → firm l c ≡ true
    → firm (intersect_round n l sockets) c ≡ true
firm-intersect_round l (some n) sockets c e k h = h
firm-intersect_round l none sockets c e k h = elim (Bool-cases (ltb 0 (size l.input.conn_set))) [
  | inl more ↦ ground (arith, e, more, has-listen_next l.input sockets c, k, h)
  | inr over ↦ ground (arith, e, over, h)
]

firm-assign_round :
    (l : Listening) (n : Option ConnSet) (seq : DirectConn → ℕ) (c : DirectConn)
    → l.next ≡ n
    → firm l c ≡ true
    → firm (assign_round n l seq) c ≡ true
firm-assign_round l none seq c e h = h
firm-assign_round l (some n) seq c e h = ground (arith, e, h)

firm-listen_run :
    (l : Listening) (es : List ListenEvent) (c : DirectConn)
    → Kept l c es
    → firm l c ≡ true
    → firm (listen_run l es) c ≡ true
unfolding listen_run listen_step
firm-listen_run l [] c k h = h
firm-listen_run l (packet_seen packet ∷ es) c (k, ks) h =
    firm-listen_run (listen_step l (packet_seen packet)) es c ks
      (ground (arith, listen_packet-set l.input c packet, k, h))
firm-listen_run l (intersected sockets ∷ es) c (k, ks) h =
    firm-listen_run (listen_step l (intersected sockets)) es c ks
      (firm-intersect_round l l.next sockets c refl k h)
firm-listen_run l (assigned seq ∷ es) c (k, ks) h =
    firm-listen_run (listen_step l (assigned seq)) es c ks (firm-assign_round l l.next seq c refl h)

listen_packet_held :
    (i : RawInput) (packet : Packet) (p : NetPkg)
    → process_at i.port packet i.ip_set ≡ ok p
    → p.direction ≡ dir_incoming
    → has i.conn_set (direct_conn p) ≡ true
    → ((listen_packet i packet).0.output_chan ≡ i.output_chan)
      × ((listen_packet i packet).1 ≡ (if is_acked_ipv4 p then rsts_of p p.ipv4 else []))
unfolding listen_packet listen_dir history_packet
listen_packet_held i packet p e k h = (
  ap (λ r. (listen_result i r).0.output_chan) e
      ∙ ap (λ d. (listen_dir d i p).0.output_chan) k
      ∙ ground (arith, h),
  ap (λ r. (listen_result i r).1) e ∙ ap (λ d. (listen_dir d i p).1) k ∙ ground (arith, h),
)

-- A reset that answers a packet, numbered `seq`: over IPv4, with the ends swapped.
abbrev pub reset : IpLayer → Tcp → ℕ → Segment
reset ip tcp seq = record {
  src_ip = ip.dst_ip;
  dst_ip = ip.src_ip;
  version = 4;
  ttl = 64;
  protocol = 6;
  src_port = tcp.dst_port;
  dst_port = tcp.src_port;
  seq = seq;
  syn = false;
  rst = true;
}

-- The resets of an acknowledgement: at its number, and one and two windows ahead on the 32-bit circle.
abbrev pub resets : NetPkg → List Segment
resets p = elim p.ipv4 [
  | none ↦ []
  | some ip ↦
      if p.tcp.ack_flag
      then reset ip p.tcp (p.tcp.ack % u32_mod)
        ∷ reset ip p.tcp ((p.tcp.ack + p.tcp.window) % u32_mod)
        ∷ reset ip p.tcp ((p.tcp.ack + 2 * p.tcp.window) % u32_mod)
        ∷ []
      else []
]

reset_at :
    (ip : IpLayer) (tcp : Tcp) (i n : ℕ)
    → add_u32 tcp.ack (tcp.window * i % u32_mod) ≡ n
    → send_rst ip.dst_ip ip.src_ip tcp.dst_port tcp.src_port
        (add_u32 tcp.ack (tcp.window * i % u32_mod))
      ≡ reset ip tcp n
unfolding send_rst
reset_at ip tcp i n e = ap (reset ip tcp) e

three_resets :
    (p : NetPkg) (ip : IpLayer)
    → rsts p ip 0 rst_num
      ≡ reset ip p.tcp (p.tcp.ack % u32_mod)
        ∷ reset ip p.tcp ((p.tcp.ack + p.tcp.window) % u32_mod)
        ∷ reset ip p.tcp ((p.tcp.ack + 2 * p.tcp.window) % u32_mod)
        ∷ []
unfolding rsts
three_resets p ip =
    rw
      (
        reset_at ip p.tcp 0 (p.tcp.ack % u32_mod) (omega arith),
        reset_at ip p.tcp 1 ((p.tcp.ack + p.tcp.window) % u32_mod) (omega arith),
        reset_at ip p.tcp 2 ((p.tcp.ack + 2 * p.tcp.window) % u32_mod) (omega arith),
      )
      refl

resets_lem : (p : NetPkg) → (if is_acked_ipv4 p then rsts_of p p.ipv4 else []) ≡ resets p
unfolding is_acked_ipv4
resets_lem p = go p.ipv4 p.tcp.ack_flag
  where
    go :
        (o : Option IpLayer) (acked : Bool)
        → (if acked && elim o [ none ↦ false | some ip ↦ true ] then rsts_of p o else []) ≡ elim o [
          | none ↦ []
          | some ip ↦
              if acked
              then reset ip p.tcp (p.tcp.ack % u32_mod)
                ∷ reset ip p.tcp ((p.tcp.ack + p.tcp.window) % u32_mod)
                ∷ reset ip p.tcp ((p.tcp.ack + 2 * p.tcp.window) % u32_mod)
                ∷ []
              else []
        ]
    go none true = refl
    go none false = refl
    go (some ip) false = refl
    go (some ip) true = three_resets p ip

-- A connection of the history stays so as long as each round of `Listen` finds it established and no
-- packet opens it anew, in whatever order these come: an incoming packet of it is then not passed
-- on; if it is an acknowledgement over IPv4 it is answered with three resets, TCP segments with the
-- ends swapped that are numbered by its acknowledgement number and that plus once and twice its
-- window, in 32 bits, and otherwise with none.
pub listen_run_holds_history :
    (l : Listening) (es : List ListenEvent) (packet : Packet) (p : NetPkg)
    → process_at l.input.port packet l.input.ip_set ≡ ok p
    → p.direction ≡ dir_incoming
    → firm l (direct_conn p) ≡ true
    → Kept l (direct_conn p) es
    → ((listen_step (listen_run l es) (packet_seen packet)).input.output_chan
        ≡ (listen_run l es).input.output_chan)
      × ((listen_step (listen_run l es) (packet_seen packet)).sent
          ≡ (listen_run l es).sent ++ resets p)
unfolding listen_step
listen_run_holds_history l es packet p e k h kept =
    let l' = listen_run l es in
    let (port, ips) = listen_run-config l es in
    let there : has l'.input.conn_set (direct_conn p) ≡ true =
      ground (arith, firm-listen_run l es (direct_conn p) kept h) in
    let (out, sent) = listen_packet_held l'.input packet p (rw (port, ips) e) k there in
    (out, ap (◌++◌ l'.sent) (sent ∙ resets_lem p))
