-- ===== src/TcpBuffer/Deliver.antt =====
-- The loop of `AddTCP` and the ways through its body.
use grpcreplay.Base.{
  ℕ, zero, suc, ◌+◌, ◌≤◌, ◌<◌, ◌≡◌, Option, ltb, ltb→lt, ltb-false, ◌⊎◌, ◌≢◌, refl, sym, ap, ◌∙◌,
  true, false, none, some, List, [], ◌∷◌, ◌++◌, arith, Bytes, ◌==◌, length, u32_mod, length-append,
  Option-cases, inl, inr, add_i64, subst, Bool-cases, ==_iff,
}
use grpcreplay.Packages.{Tcp, SkipList}
use grpcreplay.TcpBuffer.{
  TcpBuffer, pending, Call, returned, waits, sent, without, announce, send, channel_size, deliver,
  remove_all, add_tcp, valid_package, max_window_size,
}
use grpcreplay.TcpBuffer.Segments.{accepted, IsSegment, Flow, pending-pushed, pushed-Flow}

module _ ⦃s : SkipList⦄ where
  abbrev pub rounds : ℕ → TcpBuffer → Tcp → List ℕ → Option Call
  rounds fuel = λ b p removed. deliver fuel b p removed

  pub room-cases :
      (b : TcpBuffer)
      → (channel_size ≤ length b.data_channel) ⊎ (length b.data_channel < channel_size)
  room-cases b = elim (Bool-cases (ltb (length b.data_channel) channel_size)) [
    | inl room ↦ inr (ltb→lt _ _ room)
    | inr full ↦ inl (ltb-false _ _ full)
  ]

  pub send_full :
      (round : TcpBuffer → Tcp → List ℕ → Option Call) (b : TcpBuffer) (p : Tcp) (removed : List ℕ)
      → channel_size ≤ length b.data_channel
      → send round b p removed ≡ some (waits b p removed)
  unfolding send
  send_full round b p removed full = ground arith

  pub send_end :
      (round : TcpBuffer → Tcp → List ℕ → Option Call) (b : TcpBuffer) (p : Tcp) (removed : List ℕ)
      → length b.data_channel < channel_size
      → s.get b.cache b.expected_seq ≡ none
      → send round b p removed ≡ some (returned (without (sent b p) (removed ++ p.seq ∷ [])))
  unfolding send
  send_end round b p removed room end = ground arith

  pub send_more :
      (round : TcpBuffer → Tcp → List ℕ → Option Call) (b : TcpBuffer) (p next : Tcp)
      (removed : List ℕ)
      → length b.data_channel < channel_size
      → s.get b.cache b.expected_seq ≡ some next
      → send round b p removed ≡ round (sent b p) next (removed ++ p.seq ∷ [])
  unfolding send
  send_more round b p next removed room found = ground arith

  pub deliver_next :
      (fuel : ℕ) (b : TcpBuffer) (p : Tcp) (removed : List ℕ)
      → b.expected_seq ≡ p.seq
      → deliver (suc fuel) b p removed ≡ send (rounds fuel) (announce b p) p removed
  unfolding deliver
  deliver_next fuel b p removed e = ground arith

  pub deliver_idle :
      (fuel : ℕ) (b : TcpBuffer) (p : Tcp) (removed : List ℕ)
      → b.expected_seq ≢ p.seq
      → deliver (suc fuel) b p removed ≡ some (returned (without b removed))
  unfolding deliver
  deliver_idle fuel b p removed h = ground arith

  pub pending-sent : (b : TcpBuffer) (p : Tcp) → pending (sent b p) ≡ pending b ++ p.payload
  pending-sent b p = pending-pushed b p 0

  pub remove_all_get :
      (c : s.Cache) (ks : List ℕ) (k : ℕ) (p : Tcp)
      → s.get (remove_all c ks) k ≡ some p
      → s.get c k ≡ some p
  unfolding remove_all
  remove_all_get c [] k p h = h
  remove_all_get c (j ∷ ks) k p h =
      ground (arith, remove_all_get (s.remove c j) ks k p h, s.get-remove c j k)

  pub remove_all-none :
      (c : s.Cache) (ks : List ℕ) (k : ℕ) → s.get c k ≡ none → s.get (remove_all c ks) k ≡ none
  unfolding remove_all
  remove_all-none c [] k h = h
  remove_all-none c (j ∷ ks) k h =
      remove_all-none (s.remove c j) ks k (ground (arith, s.get-remove c j k))

  -- What has been delivered or waits at the send, and has not been read.
  abbrev pub offered : Call → Bytes
  offered (returned b) = pending b
  offered (waits b p removed) = pending b ++ p.payload

  -- The state in which the loop starts.
  abbrev pub with_packet : TcpBuffer → Tcp → TcpBuffer
  with_packet b p = record b {
    cache = s.set b.cache p.seq p;
    size = add_i64 b.size (length p.payload);
  }

  -- The ways through `AddTCP`.
  pub add_tcp_outside :
      (fuel : ℕ) (b : TcpBuffer) (p : Tcp)
      → valid_package b.expected_seq max_window_size p.seq ≡ false
      → add_tcp fuel b p ≡ some (returned b)
  unfolding add_tcp
  add_tcp_outside fuel b p h = rw h refl

  pub add_tcp_duplicate :
      (fuel : ℕ) (b : TcpBuffer) (p q : Tcp)
      → s.get b.cache p.seq ≡ some q
      → add_tcp fuel b p ≡ some (returned b)
  unfolding add_tcp
  add_tcp_duplicate fuel b p q h = ground arith

  pub add_tcp_new :
      (fuel : ℕ) (b : TcpBuffer) (p : Tcp)
      → valid_package b.expected_seq max_window_size p.seq ≡ true
      → s.get b.cache p.seq ≡ none
      → add_tcp fuel b p ≡ deliver fuel (with_packet b p) p []
  unfolding add_tcp
  add_tcp_new fuel b p v h = ground arith

module _ ⦃s : SkipList⦄ (isn : ℕ) (stream : Bytes) where
  -- Between two calls: no packet that could be delivered is left in the store.
  pub record Inv (consumed : Bytes) (b : TcpBuffer) : Type 0 where
    pub flow : Flow isn stream consumed b
    pub waiting : s.get b.cache b.expected_seq ≡ none

  pub without-Inv :
      (consumed : Bytes) (b : TcpBuffer) (ks : List ℕ)
      → Flow isn stream consumed b
      → s.get b.cache b.expected_seq ≡ none
      → Inv consumed (without b ks)
  without-Inv c b ks f w = record {
    flow = record {
      short = f.short;
      prefix = f.prefix;
      expected = f.expected;
      stored = λ k p h. f.stored k p (remove_all_get b.cache ks k p h);
    };
    waiting = remove_all-none b.cache ks b.expected_seq w;
  }

  pub with_packet-Flow :
      (consumed : Bytes) (b : TcpBuffer) (p : Tcp)
      → IsSegment isn stream p
      → Flow isn stream consumed b
      → Flow isn stream consumed (with_packet b p)
  with_packet-Flow c b p g f = record {
    short = f.short;
    prefix = f.prefix;
    expected = f.expected;
    stored = found;
  }
    where
      found :
          (k : ℕ) (q : Tcp)
          → s.get (s.set b.cache p.seq p) k ≡ some q
          → (q.seq ≡ k) × IsSegment isn stream q
      found k q h = elim (Bool-cases (p.seq == k)) [
        | inl same ↦
            let e : p ≡ q = ground (arith, s.get-set b.cache p.seq k p) in
            subst (λ (r : Tcp). (r.seq ≡ k) × IsSegment isn stream r) e ((==_iff _ _).0 same, g)
        | inr other ↦ f.stored k q (ground (arith, s.get-set b.cache p.seq k p))
      ]

  -- What holds at a send of a full channel: the payload that waits is the next piece of the stream.
  pub record Waiting (consumed : Bytes) (b : TcpBuffer) (p : Tcp) : Type 0 where
    pub flow : Flow isn stream consumed (accepted b p)
    pub full : 100 ≤ length b.data_channel

  -- Of a call that has got so far.
  abbrev pub Holds : Bytes → Call → Type 0
  Holds consumed (returned b) = Inv consumed b
  Holds consumed (waits b p removed) = Waiting consumed b p

  -- The loop from a send on. Each round passes at least one byte of the stream.
  pub send-Holds :
      (fuel : ℕ) (consumed : Bytes) (b : TcpBuffer) (p : Tcp) (removed : List ℕ)
      → length stream < u32_mod
      → length stream < fuel + (length consumed + length (pending (sent b p)))
      → Flow isn stream consumed (sent b p)
      → (call : Call) × (send (rounds fuel) b p removed ≡ some call)
        × Holds consumed call
        × (length (pending (sent b p)) ≤ length (offered call))
  send-Holds zero c b p removed small enough f = absurd (omega (arith, f.short))
  send-Holds (suc fuel) c b p removed small enough f = elim (room-cases b) [
    | inl full ↦ (
      waits b p removed,
      send_full _ b p removed full,
      record { flow = f; full = full },
      omega (arith, ap length (pending-sent b p)),
    )
    | inr room ↦ elim (Option-cases (s.get b.cache b.expected_seq)) [
      | inl end ↦ (
        _,
        send_end _ b p removed room end,
        without-Inv c (sent b p) (removed ++ p.seq ∷ []) f end,
        omega arith,
      )
      | inr (next, found) ↦
          let (same, g) = f.stored b.expected_seq next found in
          let b1 = announce (sent b p) next in
          let grow : length (pending (sent b p)) < length (pending (sent b1 next)) = omega (
            arith,
            g.not_empty,
            ap length (pending-sent b1 next),
            length-append (pending (sent b p)) next.payload,
          ) in
          let (call, runs, holds, more) =
            send-Holds fuel c b1 next (removed ++ p.seq ∷ []) small (omega (arith, grow))
              (pushed-Flow isn stream c (sent b p) next _ small g (sym same) f) in
          (
            call,
            send_more _ b p next removed room found
                ∙ deliver_next fuel (sent b p) next _ (sym same)
                ∙ runs,
            holds,
            omega (arith, grow, more),
          )
    ]
  ]
