-- ===== src/TcpBuffer/Reassembly.antt =====
-- One call of `AddTCP` with a packet of the stream.
use grpcreplay.Base.{
  refl, ℕ, zero, suc, ◌≤◌, ◌<◌, ◌≡◌, ◌≢◌, sym, true, none, some, [], arith, Bytes, ◌==◌, length,
  u32_mod, Option-cases, ap, ◌∙◌, length-append, inl, inr, subst, Bool-cases, ==_iff,
}
use grpcreplay.Packages.{Tcp, SkipList}
use grpcreplay.TcpBuffer.Window.{ahead, valid_package-ahead, valid_package_self}
use grpcreplay.TcpBuffer.{
  TcpBuffer, pending, add_tcp, valid_package, max_window_size, remove_all, Call, returned, sent,
  without, announce,
}
use grpcreplay.TcpBuffer.Segments.{IsSegment, pushed-Flow}
use grpcreplay.TcpBuffer.Deliver.{
  offered, Holds, send-Holds, pending-sent, deliver_next, Inv, with_packet, with_packet-Flow,
  without-Inv, add_tcp_outside, add_tcp_duplicate, add_tcp_new, deliver_idle,
}

module _ ⦃s : SkipList⦄ (isn : ℕ) (stream : Bytes) where
  -- What one call gives: what holds where it has got to, nothing lost, progress on the packet waited
  -- for, and a place in the store for one that came early within the window.
  pub record Added (consumed : Bytes) (b : TcpBuffer) (p : Tcp) (call : Call) : Type 0 where
    pub holds : Holds isn stream consumed call
    pub kept : length (pending b) ≤ length (offered call)
    pub progress : p.seq ≡ b.expected_seq → length (pending b) < length (offered call)
    pub early :
        p.seq ≢ b.expected_seq
        → ahead b.expected_seq p.seq ≤ 65536
        → (b' : TcpBuffer) × (q : Tcp) × (call ≡ returned b') × (s.get b'.cache p.seq ≡ some q)

  valid_ahead :
      (consumed : Bytes) (b : TcpBuffer) (p : Tcp)
      → IsSegment isn stream p
      → Inv isn stream consumed b
      → ahead b.expected_seq p.seq ≤ max_window_size
      → valid_package b.expected_seq max_window_size p.seq ≡ true
  valid_ahead c b p g v h =
      (valid_package-ahead b.expected_seq max_window_size p.seq (omega (arith, v.flow.expected))
          (omega arith) (omega (arith, g.seq_eq))).1
        (inl h)

  add_tcp_next :
      (fuel : ℕ) (consumed : Bytes) (b : TcpBuffer) (p : Tcp)
      → length stream < u32_mod
      → length stream < suc fuel
      → IsSegment isn stream p
      → Inv isn stream consumed b
      → b.expected_seq ≡ p.seq
      → (call : Call) × (add_tcp (suc fuel) b p ≡ some call) × Added consumed b p call
  add_tcp_next fuel c b p small enough g v e =
      let b1 = announce (with_packet b p) p in
      let grow : length (pending b) < length (pending (sent b1 p)) =
        omega (
          arith,
          g.not_empty,
          ap length (pending-sent b1 p),
          length-append (pending b) p.payload,
        ) in
      let (call, runs, holds, more) =
        send-Holds isn stream fuel c b1 p [] small (omega (arith, grow)) (
          pushed-Flow isn stream c (with_packet b p) p _ small g e
            (with_packet-Flow isn stream c b p g v.flow)) in
      (
        call,
        add_tcp_new (suc fuel) b p
              (subst (λ k. valid_package b.expected_seq max_window_size k ≡ true) e
                (valid_package_self b.expected_seq (omega (arith, v.flow.expected))))
              (subst (λ k. s.get b.cache k ≡ none) e v.waiting)
            ∙ deliver_next fuel (with_packet b p) p [] e
            ∙ runs,
        record {
          holds = holds;
          kept = omega (arith, grow, more);
          progress = λ _. omega (arith, grow, more);
          early = λ other near. absurd (other (sym e));
        },
      )

  -- The packet is outside the window, or one is stored under its number already.
  unchanged :
      (consumed : Bytes) (b : TcpBuffer) (p : Tcp)
      → Inv isn stream consumed b
      → b.expected_seq ≢ p.seq
      → (ahead b.expected_seq p.seq ≤ max_window_size → (q : Tcp) × (s.get b.cache p.seq ≡ some q))
      → Added consumed b p (returned b)
  unchanged c b p v h there = record {
    holds = v;
    kept = omega arith;
    progress = λ e. absurd (h (sym e));
    early = λ other near. let (q, e) = there near in (b, q, refl, e);
  }

  stored_early :
      (consumed : Bytes) (b : TcpBuffer) (p : Tcp)
      → IsSegment isn stream p
      → Inv isn stream consumed b
      → b.expected_seq ≢ p.seq
      → Added consumed b p (returned (without (with_packet b p) []))
  unfolding remove_all
  stored_early c b p g v h = record {
    holds =
        without-Inv isn stream c (with_packet b p) [] (with_packet-Flow isn stream c b p g v.flow)
          (ground (arith, v.waiting, s.get-set b.cache p.seq b.expected_seq p));
    kept = omega arith;
    progress = λ e. absurd (h (sym e));
    early = λ other near.
        (without (with_packet b p) [], p, refl, ground (arith, s.get-set b.cache p.seq p.seq p));
  }

  add_tcp_later :
      (fuel : ℕ) (consumed : Bytes) (b : TcpBuffer) (p : Tcp)
      → IsSegment isn stream p
      → Inv isn stream consumed b
      → b.expected_seq ≢ p.seq
      → (call : Call) × (add_tcp (suc fuel) b p ≡ some call) × Added consumed b p call
  add_tcp_later fuel c b p g v h =
      elim (Bool-cases (valid_package b.expected_seq max_window_size p.seq)) [
        | inr outside ↦ (
          returned b,
          add_tcp_outside (suc fuel) b p outside,
          unchanged c b p v h (λ near. absurd (cc (valid_ahead c b p g v near, outside))),
        )
        | inl valid ↦ elim (Option-cases (s.get b.cache p.seq)) [
          | inr (q, old) ↦ (
            returned b,
            add_tcp_duplicate (suc fuel) b p q old,
            unchanged c b p v h (λ near. (q, old)),
          )
          | inl fresh ↦ (
            returned (without (with_packet b p) []),
            add_tcp_new (suc fuel) b p valid fresh ∙ deliver_idle fuel (with_packet b p) p [] h,
            stored_early c b p g v h,
          )
        ]
      ]

  -- The buffer has delivered a prefix of a stream of fewer than 2^32 bytes and stores only
  -- packets of it, none under the expected sequence number; a packet of the stream arrives that
  -- is not empty and does not end on 2^32 - 1. With more fuel than the stream has bytes, the
  -- loop of `AddTCP` does not run on: either the call returns and all of this holds again, or it
  -- stands at the send of a payload because the channel holds 100 chunks, and then that payload
  -- is the next piece of the stream after what is pending. What is pending, with the payload that
  -- waits, has not become shorter, and it is longer if the packet is the one waited for. If the packet is
  -- another one, at most 65536 ahead on the 32-bit circle, the call returns and a packet is stored
  -- under its number.
  pub add_tcp-Added :
      (fuel : ℕ) (consumed : Bytes) (b : TcpBuffer) (p : Tcp)
      → length stream < u32_mod
      → length stream < fuel
      → IsSegment isn stream p
      → Inv isn stream consumed b
      → (call : Call) × (add_tcp fuel b p ≡ some call) × Added consumed b p call
  add_tcp-Added zero c b p small enough g v = absurd (omega arith)
  add_tcp-Added (suc fuel) c b p small enough g v = elim (Bool-cases (b.expected_seq == p.seq)) [
    | inl e ↦ add_tcp_next fuel c b p small enough g v ((==_iff _ _).0 e)
    | inr ne ↦ add_tcp_later fuel c b p g v (λ e. cc ((==_iff b.expected_seq p.seq).1 e))
  ]
