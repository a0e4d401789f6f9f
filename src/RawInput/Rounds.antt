-- ===== src/RawInput/Rounds.antt =====
-- The rounds of `Listen`.
use grpcreplay.Base.{
  ℕ, ◌≡◌, refl, sym, subst, Bool, true, false, inl, inr, Option, none, some, List, [], ◌∷◌, arith,
  Bool-cases, ltb, length,
}
use grpcreplay.GoMap.Keys.{Keys, in_list, mem, mem-nil}
use grpcreplay.NetPkg.{DirectConn, direct_conn_key, Packet}
use grpcreplay.ConnSet.{ConnSet, has, size}
use grpcreplay.RawInput.{
  Socket, list_all_conns, process_at, intersect_round, assign_round, Listening, ListenEvent,
  packet_seen, intersected, assigned, listen_step, listen_run, listen_next,
}
use grpcreplay.RawInput.History.{reopens, held, listen_packet-set, has-listen_next, held-listen_run}

has_empty : (set : ConnSet) (c : DirectConn) → ltb 0 (size set) ≡ false → has set c ≡ false
unfolding has size
has_empty set c h = go set.internal h
  where
    go : (m : Keys DirectConn) → ltb 0 (length m) ≡ false → mem m c ≡ false
    go [] k = mem-nil c
    go (x ∷ m) k = absurd (ground (arith, k))

-- What the set will be when the round has ended.
abbrev left : Option ConnSet → ConnSet → DirectConn → Bool
left none set c = has set c
left (some next) set c = has next c

left-intersected :
    (l : Listening) (sockets : List Socket) (c : DirectConn)
    → l.next ≡ none
    → in_list (list_all_conns l.input.port sockets) c ≡ false
    → left (intersect_round none l sockets).next (intersect_round none l sockets).input.conn_set c
      ≡ false
left-intersected l sockets c e gone = elim (Bool-cases (ltb 0 (size l.input.conn_set))) [
  | inl more ↦ ground (arith, more, has-listen_next l.input sockets c, gone)
  | inr over ↦ ground (arith, e, over, has_empty l.input.conn_set c over)
]

-- The packets of a listener between two events of `Listen`.
abbrev pub seen : List Packet → List ListenEvent → List ListenEvent
seen [] es = es
seen (packet ∷ packets) es = packet_seen packet ∷ seen packets es

left-seen :
    (n : Option ConnSet) (l : Listening) (packet : Packet) (c : DirectConn)
    → left n l.input.conn_set c ≡ false
    → left n (listen_step l (packet_seen packet)).input.conn_set c ≡ false
unfolding listen_step
left-seen none l packet c h = ground (arith, listen_packet-set l.input c packet, h)
left-seen (some n) l packet c h = h

held-assigned :
    (n : Option ConnSet) (l : Listening) (seq : DirectConn → ℕ) (c : DirectConn)
    → l.next ≡ n
    → left n l.input.conn_set c ≡ false
    → held (assign_round n l seq) c ≡ false
held-assigned none l seq c e h = ground (arith, e, h)
held-assigned (some n) l seq c e h = ground (arith, h)

not_held :
    (l : Listening) (es : List ListenEvent) (c : DirectConn)
    → held l c ≡ false
    → has (listen_run l es).input.conn_set c ≡ false
not_held l es c h = elim (Bool-cases (has (listen_run l es).input.conn_set c)) [
  | inl there ↦ let k = held-listen_run l es c (ground (arith, there)) in absurd (cc (h, k))
  | inr gone ↦ gone
]

after_seen :
    (l : Listening) (packets : List Packet) (seq : DirectConn → ℕ) (es : List ListenEvent)
    (c : DirectConn)
    → left l.next l.input.conn_set c ≡ false
    → has (listen_run l (seen packets (assigned seq ∷ es))).input.conn_set c ≡ false
unfolding listen_run listen_step
after_seen l [] seq es c h =
    not_held (listen_step l (assigned seq)) es c (held-assigned l.next l seq c refl h)
after_seen l (packet ∷ packets) seq es c h =
    after_seen (listen_step l (packet_seen packet)) packets seq es c (left-seen l.next l packet c h)

-- A round of `Listen` that does not find a connection established takes it out of the history for
-- good, whatever packets come between its two halves, and whatever comes after it.
pub listen_run_drops_gone :
    (l : Listening) (sockets : List Socket) (packets : List Packet) (seq : DirectConn → ℕ)
    (es : List ListenEvent) (c : DirectConn)
    → l.next ≡ none
    → in_list (list_all_conns l.input.port sockets) c ≡ false
    → has (listen_run l (intersected sockets ∷ seen packets (assigned seq ∷ es))).input.conn_set c
      ≡ false
unfolding listen_run listen_step
listen_run_drops_gone l sockets packets seq es c e gone =
    after_seen (listen_step l (intersected sockets)) packets seq es c (
      subst
        (λ n.
          left (intersect_round n l sockets).next (intersect_round n l sockets).input.conn_set c
          ≡ false)
        (sym e) (left-intersected l sockets c e gone))

some_size : (set : ConnSet) (c : DirectConn) → has set c ≡ true → ltb 0 (size set) ≡ true
some_size set c h = elim (Bool-cases (ltb 0 (size set))) [
  | inl more ↦ more
  | inr over ↦ let k = has_empty set c over in absurd (cc (h, k))
]

-- A packet that opens a history connection anew takes it out of the set. If it comes between the
-- two halves of a round of `Listen` that has found the old connection established, its effect is
-- lost, and the connection is history again; if it comes after the round, it is not.
pub listen_run_loses_reopening :
    (l : Listening) (sockets : List Socket) (seq : DirectConn → ℕ) (packet : Packet)
    (c : DirectConn)
    → l.next ≡ none
    → has l.input.conn_set c ≡ true
    → in_list (list_all_conns l.input.port sockets) c ≡ true
    → reopens c (process_at l.input.port packet l.input.ip_set) ≡ true
    → (has
          (listen_run l
            (intersected sockets ∷ packet_seen packet ∷ assigned seq ∷ [])).input.conn_set
          c
        ≡ true)
      × (has
            (listen_run l
              (intersected sockets ∷ assigned seq ∷ packet_seen packet ∷ [])).input.conn_set
            c
          ≡ false)
unfolding listen_run listen_step
listen_run_loses_reopening l sockets seq packet c e h here again =
    let more = some_size l.input.conn_set c h in
    let next = has-listen_next l.input sockets c in
    (
      ground (arith, e, more, next, h, here),
      ground (
        arith,
        e,
        more,
        next,
        h,
        here,
        again,
        listen_packet-set (record l.input { conn_set = listen_next l.input sockets }) c packet,
      ),
    )
