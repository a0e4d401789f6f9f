-- ===== src/FileInput/Conserved.antt =====
-- No message is lost on the way from the files through the timer and the channel to the caller.
use grpcreplay.Base.{
  length, length-append, ltb, ℕ, zero, suc, ◌+◌, ◌<◌, ◌≤◌, ◌≡◌, refl, sym, ap, subst, ◌∙◌, Bool,
  true, false, Option, none, some, List, [], ◌∷◌, ◌++◌, if◌then◌else◌, arith, Result, ok, err,
  panic,
}
use mathlib.Core.Option.{some-injective}
use grpcreplay.Packages.{Disk}
use grpcreplay.Protocol.{Message}
use grpcreplay.Registry.{Codec}
use grpcreplay.Replay.{ReadError, Reader, read_message}
use grpcreplay.Replay.Ends.{left, read_message-Ends}
use grpcreplay.FileInput.{
  FileDirInput, Fired, channel_size, refilled, take_out, fired, fire, taken, read,
}
use grpcreplay.FileInput.Running.{
  count, held, ready, one_more, Event, fires, reads, Ran, then_run, handed, run, sendings_after,
  sendings, put_first, ahead_of, read_ahead, Runs,
}

count-append : (t : Message → Bool) (l r : List Message) → count t (l ++ r) ≡ count t l + count t r
count-append t [] r = omega arith
count-append t (m ∷ l) r = omega (arith, count-append t l r)

take_out_lem :
    (t : Message → Bool) (i : ℕ) (ms : List Message) (x : Message) (rest : List Message)
    → take_out i ms ≡ some (x, rest)
    → count t ms ≡ (if t x then 1 else 0) + count t rest
take_out_lem t i [] x rest e = absurd (cc e)
take_out_lem t zero (m ∷ ms) x rest e =
    let p : (m, ms) ≡ (x, rest) = some-injective _ _ e in
    ap (λ (q : Message × List Message). (if t q.0 then 1 else 0) + count t q.1) p
take_out_lem t (suc i) (m ∷ ms) x rest e = go (take_out i ms) (take_out_lem t i ms) e
  where
    go :
        (o : Option (Message × List Message))
        → ((y : Message) (ys : List Message)
            → o ≡ some (y, ys)
            → count t ms ≡ (if t y then 1 else 0) + count t ys)
        → elim o as (λ _. Option (Message × List Message)) [
          | none ↦ none
          | some (y, ys) ↦ some (y, m ∷ ys)
        ]
          ≡ some (x, rest)
        → count t (m ∷ ms) ≡ (if t x then 1 else 0) + count t rest
    go none q k = absurd (cc k)
    go (some (y, ys)) q k =
        let p : (y, m ∷ ys) ≡ (x, rest) = some-injective _ _ k in
        omega (
          arith,
          q y ys refl,
          ap (λ (z : Message × List Message). (if t z.0 then 1 else 0) + count t z.1) p,
        )

abbrev present {ℓ} : {A : Type ℓ} → Option A → Bool
present none = false
present (some x) = true

take_out_bound : (i : ℕ) (ms : List Message) → present (take_out i ms) ≡ ltb i (length ms)
take_out_bound i [] = ground arith
take_out_bound zero (m ∷ ms) = ground arith
take_out_bound (suc i) (m ∷ ms) = ground (arith, take_out_bound i ms)

module _ ⦃d : Disk⦄ where
  -- What one task does.
  data Step (fuel : ℕ) (codec : Codec) (i : FileDirInput) : Bool → Fired → Type 0 where
    idle : Step fuel codec i false (some (ok i))
    refill :
        (i' : FileDirInput) (m : Message)
        → read_message fuel codec i.reader ≡ some (i'.reader, ok m)
        → left i'.reader ≤ left i.reader
        → length i'.msg_chan ≡ suc (length i.msg_chan)
        → ((t : Message → Bool) → held t i' ≡ held t i + (if t m then 1 else 0))
        → Step fuel codec i true (some (ok i'))
    no_more :
        (i' : FileDirInput) (e : ReadError)
        → read_message fuel codec i.reader ≡ some (i'.reader, err e)
        → left i'.reader ≤ left i.reader
        → length i'.msg_chan ≡ suc (length i.msg_chan)
        → ((t : Message → Bool) → held t i' ≡ held t i)
        → Step fuel codec i true (some (ok i'))
    breaks :
        (r : Reader)
        → read_message fuel codec i.reader ≡ some (r, panic)
        → Step fuel codec i true (some panic)

  refilled-Step :
      (fuel : ℕ) (codec : Codec) (i : FileDirInput) (m : Message) (rest : List Message) (r : Reader)
      (a : Result ReadError Message)
      → ((t : Message → Bool) → count t i.timer ≡ (if t m then 1 else 0) + count t rest)
      → read_message fuel codec i.reader ≡ some (r, a)
      → left r ≤ left i.reader
      → Step fuel codec i true
          (refilled (record i { msg_chan = i.msg_chan ++ m ∷ []; timer = rest }) (some (r, a)))
  refilled-Step fuel codec i m rest r (ok n) h e le =
      refill _ n e le (omega (arith, length-append i.msg_chan (m ∷ [])))
        (λ t. omega (arith, h t, count-append t i.msg_chan (m ∷ []), count-append t rest (n ∷ [])))
  refilled-Step fuel codec i m rest r (err x) h e le =
      no_more _ x e le (omega (arith, length-append i.msg_chan (m ∷ [])))
        (λ t. omega (arith, h t, count-append t i.msg_chan (m ∷ [])))
  refilled-Step fuel codec i m rest r panic h e le = breaks r e

  fire-Step :
      (fuel : ℕ) (codec : Codec) (i : FileDirInput) (task : ℕ)
      → left i.reader < fuel
      → Step fuel codec i (ready i task) (fire fuel codec i task)
  unfolding fire
  fire-Step fuel codec i task h =
      go (ltb (length i.msg_chan) channel_size) (take_out task i.timer) refl refl
    where
      go :
          (room : Bool) (o : Option (Message × List Message))
          → ltb (length i.msg_chan) channel_size ≡ room
          → take_out task i.timer ≡ o
          → Step fuel codec i (ready i task) (fired fuel codec i room o)
      go room none r e =
          let absent : ready i task ≡ false =
            ground (arith, take_out_bound task i.timer, ap present e) in
          subst (λ t. Step fuel codec i t (some (ok i))) (sym absent) idle
      go false (some (m, rest)) r e =
          let full : ready i task ≡ false = ground (arith, r) in
          subst (λ t. Step fuel codec i t (some (ok i))) (sym full) idle
      go true (some (m, rest)) r e =
          let k = read_message-Ends fuel codec i.reader h in
          let i1 : FileDirInput = record i { msg_chan = i.msg_chan ++ m ∷ []; timer = rest } in
          let there : ready i task ≡ true =
            ground (arith, r, take_out_bound task i.timer, ap present e) in
          subst (λ t. Step fuel codec i t (refilled i1 (read_message fuel codec i.reader)))
            (sym there)
            (subst (λ o. Step fuel codec i true (refilled i1 o)) (sym k.returns)
              (refilled-Step fuel codec i m rest k.reader k.answer
                (λ t. take_out_lem t task i.timer m rest e) k.returns k.no_more))

  then_run-Runs :
      (fuel : ℕ) (codec : Codec) (i : FileDirInput) (now : Bool) (o : Fired)
      (next : FileDirInput → Ran) (sends : FileDirInput → ℕ)
      → left i.reader < fuel
      → Step fuel codec i now o
      → ((i' : FileDirInput) → left i'.reader < fuel → Runs fuel codec i' (sends i') (next i'))
      → Runs fuel codec i (one_more now (sendings_after o sends)) (then_run o next)
  unfolding read_ahead
  then_run-Runs fuel codec i _ _ next sends h idle more = more i h
  then_run-Runs fuel codec i _ _ next sends h (refill i' m e le grown held_now) more =
      after (more i' (omega (arith, h, le)))
    where
      after : Runs fuel codec i' (sends i') (next i') → Runs fuel codec i (suc (sends i')) (next i')
      after (ok (j, out), q, k) = (
        ok (j, out),
        q,
        record {
          messages = m ∷ k.messages;
          sent = omega (arith, k.sent, grown);
          ahead =
              ap (λ o. ahead_of o (λ r. read_ahead (sends i') fuel codec r)) e
              ∙ ap (put_first m) k.ahead;
          conserved = λ t. omega (arith, k.conserved t, held_now t);
        },
      )
      after (err x, q, k) = absurd k
      after (panic, q, k) = (
        panic,
        q,
        ap (λ o. ahead_of o (λ r. read_ahead (sends i') fuel codec r)) e ∙ ap (put_first m) k,
      )
  then_run-Runs fuel codec i _ _ next sends h (no_more i' x e le grown held_now) more =
      after (more i' (omega (arith, h, le)))
    where
      after : Runs fuel codec i' (sends i') (next i') → Runs fuel codec i (suc (sends i')) (next i')
      after (ok (j, out), q, k) = (
        ok (j, out),
        q,
        record {
          messages = k.messages;
          sent = omega (arith, k.sent, grown);
          ahead = ap (λ o. ahead_of o (λ r. read_ahead (sends i') fuel codec r)) e ∙ k.ahead;
          conserved = λ t. omega (arith, k.conserved t, held_now t);
        },
      )
      after (err y, q, k) = absurd k
      after (panic, q, k) =
          (panic, q, ap (λ o. ahead_of o (λ r. read_ahead (sends i') fuel codec r)) e ∙ k)
  then_run-Runs fuel codec i _ _ next sends h (breaks r e) more =
      (panic, refl, ap (λ o. ahead_of o (λ r'. read_ahead 0 fuel codec r')) e)

  handed-Runs :
      (fuel : ℕ) (codec : Codec) (i : FileDirInput) (chan : List Message)
      (later : FileDirInput → Ran) (sends : FileDirInput → ℕ)
      → i.msg_chan ≡ chan
      → ((i' : FileDirInput) → i'.reader ≡ i.reader → Runs fuel codec i' (sends i') (later i'))
      → Runs fuel codec i
          (sends (taken i chan).0)
          (handed (taken i chan).1 (later (taken i chan).0))
  handed-Runs fuel codec i [] later sends e more = more i refl
  handed-Runs fuel codec i (m ∷ ms) later sends e more =
      after (more (record i { msg_chan = ms }) refl)
    where
      i1 : FileDirInput
      i1 = record i { msg_chan = ms }

      after :
          Runs fuel codec i1 (sends i1) (later i1)
          → Runs fuel codec i (sends i1) (handed (some m) (later i1))
      after (ok (j, out), q, k) = (
        ok (j, m ∷ out),
        ap (handed (some m)) q,
        record {
          messages = k.messages;
          sent = omega (arith, k.sent, ap length e);
          ahead = k.ahead;
          conserved = λ t. omega (arith, k.conserved t, ap (count t) e);
        },
      )
      after (err x, q, k) = absurd k
      after (panic, q, k) = (panic, ap (handed (some m)) q, k)

  -- Tasks run in any order, and the caller reads in between. With more rounds for each read of the
  -- files than there are bytes and files before the reader, every such history ends. Each task
  -- that is on the timer when it runs, while fewer than 100 messages are in the channel, sends one
  -- message, and no other does. If as many calls of `ReadMessage` in a row go through without a
  -- panic, then the reader stands where these calls leave it, and every message that waited on
  -- the timer or was in the channel at the start, and every message that these calls return, has
  -- been handed to the caller or is in the channel or on the timer, as often as before: none is
  -- lost and none is doubled. The history breaks off in a panic only where such a row of calls
  -- panics.
  pub run-Runs :
      (fuel : ℕ) (codec : Codec) (i : FileDirInput) (es : List Event)
      → left i.reader < fuel
      → Runs fuel codec i (sendings fuel codec i es) (run fuel codec i es)
  unfolding run read read_ahead sendings
  run-Runs fuel codec i [] h = (
    ok (i, []),
    refl,
    record { messages = []; sent = omega arith; ahead = refl; conserved = λ t. omega arith },
  )
  run-Runs fuel codec i (fires task ∷ es) h =
      then_run-Runs fuel codec i (ready i task) (fire fuel codec i task)
        (λ i'. run fuel codec i' es) (λ i'. sendings fuel codec i' es) h
        (fire-Step fuel codec i task h) (λ i' h'. run-Runs fuel codec i' es h')
  run-Runs fuel codec i (reads ∷ es) h =
      handed-Runs fuel codec i i.msg_chan (λ i'. run fuel codec i' es)
        (λ i'. sendings fuel codec i' es) refl
        (λ i' same. run-Runs fuel codec i' es (subst (λ r. left r < fuel) (sym same) h))
