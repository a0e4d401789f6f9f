-- ===== src/TcpBuffer/Stalls.antt =====
-- Two inputs on which the reassembly of `AddTCP` does not get on.
use grpcreplay.Base.{
  ℕ, suc, ◌+◌, ◌%◌, ◌≡◌, ◌≢◌, ◌<◌, ◌∙◌, true, false, none, some, [], ◌∷◌, ◌++◌, arith, length,
  u32_mod, max_uint32, subst, add_i64,
}
use grpcreplay.Packages.{Tcp, SkipList}
use grpcreplay.TcpBuffer.{
  TcpBuffer, next_seq, pending, add_tcp, returned, without, announce, valid_package,
  max_window_size,
}
use grpcreplay.TcpBuffer.Segments.{pushed, pending-pushed}
use grpcreplay.TcpBuffer.Deliver.{
  rounds, send_end, deliver_next, with_packet, add_tcp_outside, add_tcp_new,
}
use grpcreplay.TcpBuffer.Window.{valid_package_self}

discarded :
    (expected seq : ℕ)
    → expected ≡ 0
    → seq ≡ max_uint32
    → valid_package expected max_window_size seq ≡ false
unfolding valid_package
discarded expected seq e h = ground arith

module _ ⦃s : SkipList⦄ where
  -- A packet whose end is its own sequence number is expected again and found again.
  record IsStuck (p : Tcp) (b : TcpBuffer) : Type 0 where
    stored : s.get b.cache p.seq ≡ some p
    expected : b.expected_seq ≡ p.seq

  -- The expected packet comes, not numbered 0, ends on 2^32 - 1, and nothing is stored under
  -- its number or under 0, and the channel is not full. Then the buffer delivers it and waits for
  -- sequence number 0, and it discards, whatever the fuel, a packet numbered 2^32 - 1, as the one that follows in the
  -- stream is.
  pub add_tcp_wrap_stall :
      (fuel fuel' : ℕ) (b : TcpBuffer) (p q : Tcp)
      → b.expected_seq ≡ p.seq
      → p.seq < u32_mod
      → (p.seq + length p.payload) % u32_mod ≡ max_uint32
      → s.get b.cache p.seq ≡ none
      → s.get b.cache 0 ≡ none
      → p.seq ≢ 0
      → q.seq ≡ max_uint32
      → length b.data_channel < 100
      → (b' : TcpBuffer) × (add_tcp (suc fuel) b p ≡ some (returned b'))
        × (pending b' ≡ pending b ++ p.payload)
        × (b'.expected_seq ≡ 0)
        × (add_tcp fuel' b' q ≡ some (returned b'))
  add_tcp_wrap_stall fuel fuel' b p q e small ends fresh empty ne last room =
      let valid : valid_package b.expected_seq max_window_size p.seq ≡ true =
        subst (λ k. valid_package b.expected_seq max_window_size k ≡ true) e
          (valid_package_self b.expected_seq (omega arith)) in
      let size = add_i64 b.actual_can_read_size (length p.payload) in
      let wraps : next_seq p ≡ 0 = omega arith in
      let none_left : s.get (s.set b.cache p.seq p) (next_seq p) ≡ none =
        ground (arith, wraps, empty, s.get-set b.cache p.seq 0 p) in
      let b' = without (pushed (with_packet b p) p size) ([] ++ p.seq ∷ []) in
      (
        b',
        add_tcp_new (suc fuel) b p valid fresh
            ∙ deliver_next fuel (with_packet b p) p [] e
            ∙ send_end (rounds fuel) (announce (with_packet b p) p) p [] room none_left,
        pending-pushed (with_packet b p) p size,
        wraps,
        add_tcp_outside fuel' b' q (discarded (next_seq p) q.seq wraps last),
      )
