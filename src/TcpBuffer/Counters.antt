-- ===== src/TcpBuffer/Counters.antt =====
-- The counter `actualCanReadSize` against what is pending, for every packet and every read.
use grpcreplay.Base.{
  ℕ, zero, suc, ◌%◌, ◌≡◌, refl, sym, ap, ◌∙◌, Bool, true, false, Option, some, List, [], ◌∷◌, ◌++◌,
  arith, Bytes, ◌==◌, length, u64_mod, add_i64, sub_i64, length-append, u32_mod, ◌<◌, Option-cases,
  inl, inr, ==_iff, Bool-cases, subst,
}
use grpcreplay.Packages.{Tcp, SkipList}
use grpcreplay.TcpBuffer.{
  TcpBuffer, ReadResult, pending, deliver, add_tcp, read, receive, read_buffer, Call, returned,
  waits, sent, send, without, announce, resume, valid_package, max_window_size,
}
use mathlib.Core.Option.{some-injective}
use grpcreplay.TcpBuffer.Reading.{read_empty, read_buffered, taken, read-Moved}
use grpcreplay.TcpBuffer.Running.{
  Moved-sent, Event, arrive, read_some, wake, Arrivals, read_at, give, run, Keeps, read_at-Keeps,
  give-Keeps, resume-Keeps,
}
use grpcreplay.TcpBuffer.Segments.{accepted, pushed, pending-pushed, IsSegment}
use grpcreplay.TcpBuffer.Deliver.{
  rounds, room-cases, send_full, send_end, send_more, deliver_next, deliver_idle, with_packet, Inv,
  add_tcp_outside, add_tcp_duplicate, add_tcp_new,
}

module _ ⦃s : SkipList⦄ where
  -- The counter is the number of the pending bytes, as an int64.
  abbrev pub IsCounted : TcpBuffer → Type 0
  IsCounted b = b.actual_can_read_size ≡ length (pending b) % u64_mod

  pushed-IsCounted :
      (b : TcpBuffer) (p : Tcp)
      → IsCounted b
      → IsCounted (pushed b p (add_i64 b.actual_can_read_size (length p.payload)))
  pushed-IsCounted b p h = omega (
    arith,
    ap length (pending-pushed b p (add_i64 b.actual_can_read_size (length p.payload))),
    length-append (pending b) p.payload,
  )

  -- Of a call: the payload that waits at a send is counted already.
  abbrev pub IsExact : Call → Type 0
  IsExact (returned b) = IsCounted b
  IsExact (waits b p removed) = IsCounted (accepted b p)

  -- What holds of the result of one way through holds of the result given.
  along : (x r : Call) (o : Option Call) → o ≡ some x → o ≡ some r → IsExact x → IsExact r
  along x r o e f h = subst (λ y. IsExact y) (some-injective x r (sym e ∙ f)) h

  deliver-IsExact :
      (fuel : ℕ) (b : TcpBuffer) (p : Tcp) (removed : List ℕ) (call : Call)
      → (IsCounted (sent (announce b p) p)
          → send (rounds fuel) (announce b p) p removed ≡ some call
          → IsExact call)
      → IsCounted b
      → deliver (suc fuel) b p removed ≡ some call
      → IsExact call
  deliver-IsExact fuel b p removed call from_send h e =
      elim (Bool-cases (b.expected_seq == p.seq)) [
        | inr ne ↦
            along (returned (without b removed)) call _
              (deliver_idle fuel b p removed (λ q. cc ((==_iff _ _).1 q))) e h
        | inl eq ↦
            from_send (pushed-IsCounted b p h)
              (sym (deliver_next fuel b p removed ((==_iff _ _).0 eq)) ∙ e)
      ]

  send-IsExact :
      (fuel : ℕ) (b : TcpBuffer) (p : Tcp) (removed : List ℕ) (call : Call)
      → IsCounted (sent b p)
      → send (rounds fuel) b p removed ≡ some call
      → IsExact call
  send-IsExact zero b p removed call h e = elim (room-cases b) [
    | inl full ↦ along (waits b p removed) call _ (send_full _ b p removed full) e h
    | inr room ↦ elim (Option-cases (s.get b.cache b.expected_seq)) [
      | inl end ↦ along _ call _ (send_end _ b p removed room end) e h
      | inr (next, found) ↦
          absurd (unfold deliver in cc (sym (send_more (rounds 0) b p next removed room found) ∙ e))
    ]
  ]
  send-IsExact (suc fuel) b p removed call h e = elim (room-cases b) [
    | inl full ↦ along (waits b p removed) call _ (send_full _ b p removed full) e h
    | inr room ↦ elim (Option-cases (s.get b.cache b.expected_seq)) [
      | inl end ↦ along _ call _ (send_end _ b p removed room end) e h
      | inr (next, found) ↦
          deliver-IsExact fuel (sent b p) next (removed ++ p.seq ∷ []) call
            (send-IsExact fuel (announce (sent b p) next) next (removed ++ p.seq ∷ []) call) h
            (sym (send_more _ b p next removed room found) ∙ e)
    ]
  ]

  -- `AddTCP` keeps the counter exact, whatever packet it is given.
  add_tcp-IsExact :
      (fuel : ℕ) (b : TcpBuffer) (p : Tcp) (call : Call)
      → IsCounted b
      → add_tcp fuel b p ≡ some call
      → IsExact call
  unfolding add_tcp
  add_tcp-IsExact fuel b p call h e =
      elim (Bool-cases (valid_package b.expected_seq max_window_size p.seq)) [
        | inr outside ↦ along (returned b) call _ (add_tcp_outside fuel b p outside) e h
        | inl valid ↦ elim (Option-cases (s.get b.cache p.seq)) [
          | inr (q, old) ↦ along (returned b) call _ (add_tcp_duplicate fuel b p q old) e h
          | inl fresh ↦ from_loop fuel (sym (add_tcp_new fuel b p valid fresh) ∙ e)
        ]
      ]
    where
      from_loop : (n : ℕ) → deliver n (with_packet b p) p [] ≡ some call → IsExact call
      from_loop zero k = absurd (unfold deliver in cc k)
      from_loop (suc n) k =
          deliver-IsExact n (with_packet b p) p [] call
            (send-IsExact n (announce (with_packet b p) p) p [] call) h k

  -- The counter goes down by what the caller is given.
  abbrev IsCharged : TcpBuffer → TcpBuffer × ReadResult → Type 0
  IsCharged b r = r.0.actual_can_read_size ≡ sub_i64 b.actual_can_read_size (length (taken r.1))

  read_buffer-IsCharged :
      (b : TcpBuffer) (n : ℕ) (l : Bytes) → b.buffer ≡ l → IsCharged b (read_buffer b n)
  unfolding read_buffer
  read_buffer-IsCharged b n [] e = ground (arith, e)
  read_buffer-IsCharged b n (x ∷ xs) e = ground (arith, e)

  receive-IsCharged :
      (closed : Bool) (chan : List Bytes) (pick : Bool) (b : TcpBuffer) (n : ℕ)
      → b.actual_can_read_size < u64_mod
      → IsCharged b (receive closed chan pick b n)
  unfolding receive
  receive-IsCharged true [] pick b n h = omega arith
  receive-IsCharged false [] pick b n h = omega arith
  receive-IsCharged true (chunk ∷ rest) true b n h = omega arith
  receive-IsCharged true (chunk ∷ rest) false b n h =
      read_buffer-IsCharged (record b { data_channel = rest; buffer = b.buffer ++ chunk }) n _ refl
  receive-IsCharged false (chunk ∷ rest) pick b n h =
      read_buffer-IsCharged (record b { data_channel = rest; buffer = b.buffer ++ chunk }) n _ refl

  read-IsCharged :
      (pick : Bool) (n : ℕ) (b : TcpBuffer)
      → b.actual_can_read_size < u64_mod
      → IsCharged b (read pick n b)
  read-IsCharged pick n b h = go b.buffer refl
    where
      go : (l : Bytes) → b.buffer ≡ l → IsCharged b (read pick n b)
      go [] e =
          subst (IsCharged b) (sym (read_empty pick n b e))
            (receive-IsCharged b.closed b.data_channel pick b n h)
      go (x ∷ xs) e =
          subst (IsCharged b) (sym (read_buffered pick n b x xs e))
            (read_buffer-IsCharged b n (x ∷ xs) e)

  -- If the counter is the number of the pending bytes, as an int64, it is so after every
  -- `Read`, also after one that blocks or fails.
  pub read-IsCounted :
      (pick : Bool) (n : ℕ) (b : TcpBuffer) → IsCounted b → IsCounted (read pick n b).0
  read-IsCounted pick n b h =
      let r = read pick n b in
      omega (
        arith,
        h,
        read-IsCharged pick n b (omega (arith, h)),
        ap length (read-Moved pick n b).conserved,
        length-append (taken r.1) (pending r.0),
      )

  read_at-IsExact :
      (pick : Bool) (n : ℕ) (call : Call) → IsExact call → IsExact (read_at pick n call).0
  read_at-IsExact pick n (returned b) h = read-IsCounted pick n b h
  read_at-IsExact pick n (waits b p removed) h =
      let r = read pick n b in
      omega (
        arith,
        h,
        read-IsCharged pick n b (omega (arith, h)),
        ap length (Moved-sent b p r (read-Moved pick n b)).conserved,
        length-append (taken r.1) (pending (sent r.0 p)),
      )

  give-IsExact :
      (fuel : ℕ) (call after : Call) (p : Tcp)
      → IsExact call
      → give fuel call p ≡ some after
      → IsExact after
  give-IsExact fuel (returned b) after p h e = add_tcp-IsExact fuel b p after h e
  give-IsExact fuel (waits b q removed) after p h e = along (waits b q removed) after _ refl e h

  resume-IsExact :
      (fuel : ℕ) (call after : Call) → IsExact call → resume fuel call ≡ some after → IsExact after
  unfolding resume
  resume-IsExact fuel (returned b) after h e = along (returned b) after _ refl e h
  resume-IsExact fuel (waits b p removed) after h e = send-IsExact fuel b p removed after h e

  module _ (isn : ℕ) (stream : Bytes) where
    run_from :
        (fuel : ℕ) (consumed : Bytes) (call : Call) (es : List Event)
        → length stream < u32_mod
        → length stream < fuel
        → Arrivals (IsSegment isn stream) es
        → Keeps isn stream consumed call
        → IsExact call
        → (c : Bytes) × (after : Call) × (run fuel consumed call es ≡ some (c, after))
          × IsExact after
    unfolding run
    run_from fuel c call [] small enough a v h = (c, call, refl, h)
    run_from fuel c call (arrive p ∷ es) small enough (g, a) v h =
        let (c1, runs, v1) = give-Keeps isn stream fuel c call p small enough g v in
        let (c2, b2, later, h2) =
          run_from fuel c c1 es small enough a v1 (give-IsExact fuel call c1 p h runs) in
        (c2, b2, rw (runs, run) later, h2)
    run_from fuel c call (wake ∷ es) small enough a v h =
        let (c1, runs, v1) = resume-Keeps isn stream fuel c call small enough v in
        let (c2, b2, later, h2) =
          run_from fuel c c1 es small enough a v1 (resume-IsExact fuel call c1 h runs) in
        (c2, b2, rw (runs, run) later, h2)
    run_from fuel c call (read_some pick n ∷ es) small enough a v h =
        run_from fuel (c ++ taken (read_at pick n call).1) (read_at pick n call).0 es small enough a
          (read_at-Keeps isn stream pick n c call v) (read_at-IsExact pick n call h)

    -- The buffer has delivered a prefix of a stream of fewer than 2^32 bytes, its counter is
    -- exact, and no call stands at its send; then packets of the stream arrive, none empty and none
    -- ending on 2^32 - 1, the reader reads, and calls that stand at a full channel try again. With
    -- more fuel than the stream has bytes, no loop runs on, and the counter is exact after every
    -- such history: the number of the pending bytes and, where a call stands, of those of the
    -- payload that waits, as an int64.
    pub run-IsExact :
        (fuel : ℕ) (consumed : Bytes) (b : TcpBuffer) (es : List Event)
        → length stream < u32_mod
        → length stream < fuel
        → Arrivals (IsSegment isn stream) es
        → Inv isn stream consumed b
        → IsCounted b
        → (c : Bytes) × (call : Call) × (run fuel consumed (returned b) es ≡ some (c, call))
          × IsExact call
    run-IsExact fuel c b es small enough a v h = run_from fuel c (returned b) es small enough a v h
