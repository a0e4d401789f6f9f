-- ===== src/Deal/Gather.antt =====
-- A stage of the loop collects the bytes it waits for.
use grpcreplay.Base.{
  ℕ, zero, suc, ◌+◌, ◌-◌, ◌≤◌, ◌<◌, ◌≡◌, ◌≢◌, refl, sym, ap, subst, ◌∙◌, Bool, true, false, [], ◌∷◌,
  ◌++◌, append_assoc, append-nil, Bytes, ◌==◌, if◌then◌else◌, length, length-append, arith, ==_refl,
  ==_ne,
}
use grpcreplay.Packages.{SkipList, Hpack, Codecs}
use grpcreplay.TcpBuffer.{TcpBuffer, got, pending, read}
use grpcreplay.TcpBuffer.Reading.{read-Moved, taken}
use grpcreplay.Stream.{Finder, Stamp}
use grpcreplay.Conn.{Http2Conn}
use grpcreplay.Handlers.{parser_of, set_parser}
use grpcreplay.Deal.{Stage, read_side, use_read, deal_step}
use grpcreplay.Deal.Reads.{IsOpen, read_something}

-- The front of one list is the front of the other.
front :
    (bytes p more rest : Bytes)
    → bytes ++ p ≡ more ++ rest
    → length bytes ≤ length more
    → (more' : Bytes) × (more ≡ bytes ++ more') × (p ≡ more' ++ rest)
front [] p more rest e h = (more, refl, e)
front (x ∷ bytes) p [] rest e h = absurd (omega (arith, h))
front (x ∷ bytes) p (y ∷ more) rest e h =
    let (more', q, r) = front bytes p more rest (cc e) (omega (arith, h)) in
    let same : x ≡ y = cc e in (more', ap (◌∷◌ y) q ∙ ap (λ c. c ∷ (bytes ++ more')) (sym same), r)

module _ ⦃s : SkipList⦄ ⦃h : Hpack⦄ ⦃c : Codecs⦄ (side : Bool) (finder : Finder)
    (stamp : Stamp) where
  -- So many calls of `Read`.
  abbrev pub deal_run : ℕ → (ℕ → Bool) → Http2Conn × Stage → Http2Conn × Stage
  deal_run zero pick x = x
  deal_run (suc n) pick x = deal_run n (λ i. pick (suc i)) (deal_step side finder stamp (pick 0) x)

  -- What the scheduler chooses after some calls.
  abbrev pub later : ℕ → (ℕ → Bool) → ℕ → Bool
  later zero pick = pick
  later (suc m) pick = later m (λ i. pick (suc i))

  abbrev pub plus : ℕ → ℕ → ℕ
  plus zero n = n
  plus (suc m) n = suc (plus m n)

  pub plus_lem : (m n : ℕ) → plus m n ≡ m + n
  plus_lem zero n = omega arith
  plus_lem (suc m) n = omega (arith, plus_lem m n)

  pub deal_run-plus :
      (m n : ℕ) (pick : ℕ → Bool) (x : Http2Conn × Stage)
      → deal_run (plus m n) pick x ≡ deal_run n (later m pick) (deal_run m pick x)
  deal_run-plus zero n pick x = refl
  deal_run-plus (suc m) n pick x =
      deal_run-plus m n (λ i. pick (suc i)) (deal_step side finder stamp (pick 0) x)

  abbrev pub buffer_of : Http2Conn → TcpBuffer
  buffer_of hc = (parser_of side hc).tcp_buffer

  abbrev pub with_buffer : Http2Conn → TcpBuffer → Http2Conn
  with_buffer hc b = set_parser side hc (record (parser_of side hc) { tcp_buffer = b })

  buffer_of-with_buffer : (hc : Http2Conn) (b : TcpBuffer) → buffer_of (with_buffer hc b) ≡ b
  unfolding parser_of set_parser
  buffer_of-with_buffer hc b = go side
    where
      go :
          (d : Bool)
          → (parser_of d (set_parser d hc (record (parser_of d hc) { tcp_buffer = b }))).tcp_buffer
            ≡ b
      go true = refl
      go false = refl

  with_buffer_twice :
      (hc : Http2Conn) (a b : TcpBuffer) → with_buffer (with_buffer hc a) b ≡ with_buffer hc b
  unfolding parser_of set_parser
  with_buffer_twice hc a b = go side
    where
      go :
          (d : Bool)
          → set_parser d
              (set_parser d hc (record (parser_of d hc) { tcp_buffer = a }))
              (record (parser_of d (set_parser d hc (record (parser_of d hc) { tcp_buffer = a }))) {
                tcp_buffer = b;
              })
            ≡ set_parser d hc (record (parser_of d hc) { tcp_buffer = b })
      go true = refl
      go false = refl

  pub with_buffer_own : (hc : Http2Conn) → with_buffer hc (buffer_of hc) ≡ hc
  unfolding parser_of set_parser
  with_buffer_own hc = go side
    where
      go :
          (d : Bool)
          → set_parser d hc (record (parser_of d hc) { tcp_buffer = (parser_of d hc).tcp_buffer })
            ≡ hc
      go true = refl
      go false = refl

  read_side_some :
      (pick : Bool) (n : ℕ) (hc : Http2Conn) (b : TcpBuffer) (after : TcpBuffer) (bytes : Bytes)
      → read pick n b ≡ (after, got bytes)
      → read_side side pick n (with_buffer hc b) ≡ (with_buffer hc after, got bytes)
  unfolding read_side
  read_side_some pick n hc b after bytes e =
      let q : read pick n (buffer_of (with_buffer hc b)) ≡ (after, got bytes) =
        ap (read pick n) (buffer_of-with_buffer hc b) ∙ e in
      rw q (ap (λ x. (x, got bytes)) (with_buffer_twice hc b after))

  -- A stage that collects `total` bytes.
  module _ (total : ℕ) (stage : Bytes → Stage) (done : Http2Conn → Bytes → Http2Conn × Stage)
      (step : (pick : Bool) (hc : Http2Conn) (buf : Bytes)
        → deal_step side finder stamp pick (hc, stage buf)
          ≡ use_read
              (λ hc' bytes.
                if length (buf ++ bytes) == total
                then done hc' (buf ++ bytes)
                else (hc', stage (buf ++ bytes)))
              (stage buf)
              (read_side side pick (total - length buf) hc)) where
    -- What has been reached once the bytes are there.
    abbrev pub Reached : (ℕ → Bool) → Http2Conn → TcpBuffer → Bytes → Bytes → Bytes → Type 0
    Reached pick hc b buf more rest =
        (n : ℕ) × (b' : TcpBuffer) × (n ≤ length more)
        × (deal_run n pick (with_buffer hc b, stage buf) ≡ done (with_buffer hc b') (buf ++ more))
        × (pending b' ≡ rest)
        × IsOpen b'

    one_read :
        (pick : Bool) (hc : Http2Conn) (b after : TcpBuffer) (buf bytes : Bytes)
        → read pick (total - length buf) b ≡ (after, got bytes)
        → deal_step side finder stamp pick (with_buffer hc b, stage buf) ≡ (
            if length (buf ++ bytes) == total
            then done (with_buffer hc after) (buf ++ bytes)
            else (with_buffer hc after, stage (buf ++ bytes)))
    unfolding use_read
    one_read pick hc b after buf bytes e =
        step pick (with_buffer hc b) buf
        ∙ rw (read_side_some pick (total - length buf) hc b after bytes e) refl

    last_read :
        (pick : ℕ → Bool) (hc : Http2Conn) (b after : TcpBuffer) (buf bytes rest : Bytes)
        → read (pick 0) (total - length buf) b ≡ (after, got bytes)
        → length (buf ++ bytes) ≡ total
        → 0 < length bytes
        → pending after ≡ rest
        → IsOpen after
        → Reached pick hc b buf bytes rest
    last_read pick hc b after buf bytes rest e all more p o = (
      1,
      after,
      omega (arith, more),
      one_read (pick 0) hc b after buf bytes e
          ∙ ap
              (λ t.
                if t
                then done (with_buffer hc after) (buf ++ bytes)
                else (with_buffer hc after, stage (buf ++ bytes)))
              (ap (λ x. x == total) all ∙ ==_refl total),
      p,
      o,
    )

    more_read :
        (pick : ℕ → Bool) (hc : Http2Conn) (b after : TcpBuffer) (buf bytes more rest : Bytes)
        → read (pick 0) (total - length buf) b ≡ (after, got bytes)
        → length (buf ++ bytes) ≢ total
        → 0 < length bytes
        → Reached (λ i. pick (suc i)) hc after (buf ++ bytes) more rest
        → Reached pick hc b buf (bytes ++ more) rest
    more_read pick hc b after buf bytes more rest e short more0 (n, b', le, run, p, o) = (
      suc n,
      b',
      omega (arith, le, more0, length-append bytes more),
      ap (deal_run n (λ i. pick (suc i))) (
            one_read (pick 0) hc b after buf bytes e
            ∙ ap
                (λ t.
                  if t
                  then done (with_buffer hc after) (buf ++ bytes)
                  else (with_buffer hc after, stage (buf ++ bytes)))
                (==_ne (length (buf ++ bytes)) total short))
          ∙ run
          ∙ ap (done (with_buffer hc b')) (append_assoc buf bytes more),
      p,
      o,
    )

    -- The rest of the work after a read, where `ih` does it for what is then left.
    go_on :
        (pick : ℕ → Bool) (hc : Http2Conn) (b after : TcpBuffer) (buf bytes more rest : Bytes)
        → read (pick 0) (total - length buf) b ≡ (after, got bytes)
        → length buf + length (bytes ++ more) ≡ total
        → 0 < length bytes
        → pending after ≡ more ++ rest
        → IsOpen after
        → (0 < length more
            → length (buf ++ bytes) + length more ≡ total
            → Reached (λ i. pick (suc i)) hc after (buf ++ bytes) more rest)
        → Reached pick hc b buf (bytes ++ more) rest
    go_on pick hc b after buf bytes [] rest e all more0 p o ih =
        subst (λ m. Reached pick hc b buf m rest) (sym (append-nil bytes))
          (last_read pick hc b after buf bytes rest e
            (omega (arith, all, length-append buf bytes, length-append bytes [])) more0 p o)
    go_on pick hc b after buf bytes (x ∷ more) rest e all more0 p o ih =
        let s1 = length-append buf bytes in
        let s2 = length-append bytes (x ∷ more) in
        more_read pick hc b after buf bytes (x ∷ more) rest e
          (λ q. absurd (omega (arith, all, q, s1, s2))) more0
          (ih (omega arith) (omega (arith, all, s1, s2)))

    pub gather :
        (k : ℕ) (pick : ℕ → Bool) (hc : Http2Conn) (b : TcpBuffer) (buf more rest : Bytes)
        → length more ≤ k
        → 0 < length more
        → length buf + length more ≡ total
        → IsOpen b
        → pending b ≡ more ++ rest
        → Reached pick hc b buf more rest
    gather zero pick hc b buf more rest hk h0 ht o e = absurd (omega (arith, hk, h0))
    gather (suc k) pick hc b buf more rest hk h0 ht o e =
        let n = total - length buf in
        let there : 0 < length (pending b) =
          omega (arith, ap length e, length-append more rest, h0) in
        let r = read_something n b (pick 0) (omega (arith, ht, h0)) o there in
        let moved : r.bytes ++ pending r.after ≡ more ++ rest =
          subst (λ x. taken x.1 ++ pending x.0 ≡ more ++ rest) r.result
            ((read-Moved (pick 0) n b).conserved ∙ e) in
        let (more', split, left) =
          front r.bytes (pending r.after) more rest moved (omega (arith, r.not_more, ht)) in
        subst (λ m. Reached pick hc b buf m rest) (sym split)
          (go_on pick hc b r.after buf r.bytes more' rest r.result
            (ap (λ m. length buf + length m) (sym split) ∙ ht) r.not_none left r.still
            (λ h1 h2.
              gather k (λ i. pick (suc i)) hc r.after (buf ++ r.bytes) more' rest
                (omega (arith, hk, ap length split, length-append r.bytes more', r.not_none)) h1 h2
                r.still left))
