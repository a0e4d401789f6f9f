-- ===== src/TcpBuffer/Running.antt =====
-- The sender and the reader of one direction together: in whatever order, and however often, the
-- packets of a stream arrive, the reader is given a prefix of the stream.
use grpcreplay.Base.{
  ℕ, ◌+◌, ◌<◌, ◌≡◌, refl, sym, ap, subst, ◌∙◌, Bool, Option, none, some, List, [], ◌∷◌, ◌++◌,
  append_assoc, arith, Bytes, length, take, drop, u32_mod, length-append, take-append-drop,
}
use grpcreplay.Packages.{Tcp, SkipList}
use grpcreplay.TcpBuffer.{
  TcpBuffer, ReadResult, pending, read, add_tcp, Call, returned, waits, sent, resume,
  new_tcp_buffer, set_expected_seq,
}
use grpcreplay.TcpBuffer.Segments.{IsSegment, seq_at, Flow, accepted}
use grpcreplay.TcpBuffer.Deliver.{Inv, Holds, offered, send-Holds, pending-sent}
use grpcreplay.TcpBuffer.Reassembly.{add_tcp-Added}
use grpcreplay.TcpBuffer.Reading.{taken, Moved, read-Moved}

-- What happens to one direction of a connection: the next packet is given to `AddTCP`, the reader
-- calls `Read`, or the call of `AddTCP` that stands at its send tries again. A packet that comes
-- while a call stands has not been given to the buffer yet: it changes nothing.
pub data Event : Type 0 where
  arrive : Tcp → Event
  read_some : Bool → ℕ → Event
  wake : Event

abbrev pub Arrivals : (Tcp → Type 0) → List Event → Type 0
Arrivals P [] = Unit
Arrivals P (arrive p ∷ es) = P p × Arrivals P es
Arrivals P (read_some pick n ∷ es) = Arrivals P es
Arrivals P (wake ∷ es) = Arrivals P es

module _ ⦃s : SkipList⦄ where
  -- The reader does not wait for the call.
  abbrev pub read_at : Bool → ℕ → Call → Call × ReadResult
  read_at pick n (returned b) = let r = read pick n b in (returned r.0, r.1)
  read_at pick n (waits b p removed) = let r = read pick n b in (waits r.0 p removed, r.1)

  abbrev pub give : ℕ → Call → Tcp → Option Call
  give fuel (returned b) p = add_tcp fuel b p
  give fuel (waits b q removed) p = some (waits b q removed)

  abbrev pub then_run : Option Call → (Call → Option (Bytes × Call)) → Option (Bytes × Call)
  then_run none next = none
  then_run (some call) next = next call

  -- The bytes read and where the sender is after a sequence of events. `none`: a loop has not ended.
  unfoldable pub run : ℕ → Bytes → Call → List Event → Option (Bytes × Call)
  run fuel consumed call [] = some (consumed, call)
  run fuel consumed call (arrive p ∷ es) =
      then_run (give fuel call p) (λ after. run fuel consumed after es)
  run fuel consumed call (wake ∷ es) =
      then_run (resume fuel call) (λ after. run fuel consumed after es)
  run fuel consumed call (read_some pick n ∷ es) =
      let r = read_at pick n call in run fuel (consumed ++ taken r.1) r.0 es

  -- A read beside a payload that waits.
  pub Moved-sent :
      (b : TcpBuffer) (p : Tcp) (r : TcpBuffer × ReadResult)
      → Moved b r
      → Moved (sent b p) (sent r.0 p, r.1)
  Moved-sent b p r m = record {
    conserved =
        ap (◌++◌ (taken r.1)) (pending-sent r.0 p)
        ∙ sym (append_assoc (taken r.1) (pending r.0) p.payload)
        ∙ ap (λ x. x ++ p.payload) m.conserved
        ∙ sym (pending-sent b p);
    same_cache = m.same_cache;
    same_seq = m.same_seq;
  }

  module _ (isn : ℕ) (stream : Bytes) where
    Moved-Flow :
        (consumed : Bytes) (b : TcpBuffer) (r : TcpBuffer × ReadResult)
        → Moved b r
        → Flow isn stream consumed b
        → Flow isn stream (consumed ++ taken r.1) r.0
    Moved-Flow c b r m f =
        let t = taken r.1 in
        let total : length (c ++ t) + length (pending r.0) ≡ length c + length (pending b) =
          omega (arith, length-append c t, length-append t (pending r.0), ap length m.conserved) in
        record {
          short = omega (arith, total, f.short);
          prefix =
              append_assoc c t (pending r.0)
              ∙ ap (◌++◌ c) m.conserved
              ∙ f.prefix
              ∙ ap (λ k. take k stream) (sym total);
          expected = m.same_seq ∙ f.expected ∙ ap (seq_at isn) (sym total);
          stored = λ k p h. f.stored k p (subst (λ cache. s.get cache k ≡ some p) m.same_cache h);
        }

    -- A read may have made room, so that the channel need not be full any more where a call stands.
    abbrev pub Keeps : Bytes → Call → Type 0
    Keeps consumed (returned b) = Inv isn stream consumed b
    Keeps consumed (waits b p removed) = Flow isn stream consumed (accepted b p)

    known : (consumed : Bytes) (call : Call) → Holds isn stream consumed call → Keeps consumed call
    known c (returned b) v = v
    known c (waits b p removed) w = w.flow

    Flow-prefix :
        (consumed : Bytes) (b : TcpBuffer)
        → Flow isn stream consumed b
        → (rest : Bytes) × (consumed ++ pending b ++ rest ≡ stream)
    Flow-prefix c b f =
        let n = length c + length (pending b) in
        (drop n stream, ap (λ x. x ++ drop n stream) f.prefix ∙ take-append-drop n stream)

    pub read_at-Keeps :
        (pick : Bool) (n : ℕ) (consumed : Bytes) (call : Call)
        → Keeps consumed call
        → Keeps (consumed ++ taken (read_at pick n call).1) (read_at pick n call).0
    read_at-Keeps pick n c (returned b) v =
        let m = read-Moved pick n b in
        let r = read pick n b in
        record {
          flow = Moved-Flow c b r m v.flow;
          waiting =
              subst (λ cache. s.get cache r.0.expected_seq ≡ none) (sym m.same_cache)
                (subst (λ k. s.get b.cache k ≡ none) (sym m.same_seq) v.waiting);
        }
    read_at-Keeps pick n c (waits b p removed) f =
        let r = read pick n b in
        Moved-Flow c (sent b p) (sent r.0 p, r.1) (Moved-sent b p r (read-Moved pick n b)) f

    pub give-Keeps :
        (fuel : ℕ) (consumed : Bytes) (call : Call) (p : Tcp)
        → length stream < u32_mod
        → length stream < fuel
        → IsSegment isn stream p
        → Keeps consumed call
        → (after : Call) × (give fuel call p ≡ some after) × Keeps consumed after
    give-Keeps fuel c (returned b) p small enough g v =
        let (after, runs, added) = add_tcp-Added isn stream fuel c b p small enough g v in
        (after, runs, known c after added.holds)
    give-Keeps fuel c (waits b q removed) p small enough g f = (waits b q removed, refl, f)

    pub resume-Keeps :
        (fuel : ℕ) (consumed : Bytes) (call : Call)
        → length stream < u32_mod
        → length stream < fuel
        → Keeps consumed call
        → (after : Call) × (resume fuel call ≡ some after) × Keeps consumed after
    unfolding resume
    resume-Keeps fuel c (returned b) small enough v = (returned b, refl, v)
    resume-Keeps fuel c (waits b p removed) small enough f =
        let (after, runs, holds, _) =
          send-Holds isn stream fuel c b p removed small (omega arith) f in
        (after, runs, known c after holds)

    run_total :
        (fuel : ℕ) (consumed : Bytes) (call : Call) (es : List Event)
        → length stream < u32_mod
        → length stream < fuel
        → Arrivals (IsSegment isn stream) es
        → Keeps consumed call
        → (c : Bytes) × (after : Call) × (run fuel consumed call es ≡ some (c, after))
          × Keeps c after
    unfolding run
    run_total fuel c call [] small enough a v = (c, call, refl, v)
    run_total fuel c call (arrive p ∷ es) small enough (g, a) v =
        let (c1, runs, v1) = give-Keeps fuel c call p small enough g v in
        let (c2, b2, later, v2) = run_total fuel c c1 es small enough a v1 in
        (c2, b2, rw (runs, run) later, v2)
    run_total fuel c call (wake ∷ es) small enough a v =
        let (c1, runs, v1) = resume-Keeps fuel c call small enough v in
        let (c2, b2, later, v2) = run_total fuel c c1 es small enough a v1 in
        (c2, b2, rw (runs, run) later, v2)
    run_total fuel c call (read_some pick n ∷ es) small enough a v =
        run_total fuel (c ++ taken (read_at pick n call).1) (read_at pick n call).0 es small enough
          a (read_at-Keeps pick n c call v)

    pub start-Inv : isn < u32_mod → Inv isn stream [] (set_expected_seq new_tcp_buffer isn)
    unfolding set_expected_seq new_tcp_buffer
    start-Inv h = record {
      flow = record {
        short = omega arith;
        prefix = refl;
        expected = omega arith;
        stored = λ k p e. absurd (cc (s.get-new k));
      };
      waiting = s.get-new isn;
    }

    Holds-prefix :
        (consumed : Bytes) (call : Call)
        → Keeps consumed call
        → (rest : Bytes) × (consumed ++ offered call ++ rest ≡ stream)
    Holds-prefix c (returned b) v = Flow-prefix c b v.flow
    Holds-prefix c (waits b p removed) f =
        let (rest, e) = Flow-prefix c (sent b p) f in
        (rest, ap (λ x. c ++ x ++ rest) (sym (pending-sent b p)) ∙ e)

    -- Packets of a stream of fewer than 2^32 bytes arrive in any order, any number of times,
    -- some never; reads, and attempts of a call that stands at a full channel, come in between; no
    -- packet is empty and none ends on sequence number 2^32 - 1. With more fuel than the stream
    -- has bytes, no loop runs on, and after every such history what the reads have returned, in
    -- order, what is pending, and the payload that a standing call waits to send are together a
    -- prefix of the stream.
    pub run_delivers_prefix :
        (fuel : ℕ) (es : List Event)
        → isn < u32_mod
        → length stream < u32_mod
        → length stream < fuel
        → Arrivals (IsSegment isn stream) es
        → (c : Bytes) × (call : Call) × (rest : Bytes) × (run fuel []
              (returned (set_expected_seq new_tcp_buffer isn))
              es
            ≡ some (c, call))
          × (c ++ offered call ++ rest ≡ stream)
    run_delivers_prefix fuel es hi small enough a =
        let (c, call, runs, v) =
          run_total fuel [] (returned (set_expected_seq new_tcp_buffer isn)) es small enough a
            (start-Inv hi) in
        let (rest, e) = Holds-prefix c call v in (c, call, rest, runs, e)
