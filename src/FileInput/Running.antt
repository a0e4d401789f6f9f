-- ===== src/FileInput/Running.antt =====
-- The tasks of the timer and the caller together, and what is to hold of their histories, said by the
-- calls of `ReadMessage` alone.
use grpcreplay.Base.{
  ◌&&◌, length, ltb, ℕ, zero, suc, ◌+◌, ◌≡◌, Bool, true, false, Option, none, some, List, [], ◌∷◌,
  if◌then◌else◌, Result, ok, err, panic,
}
use grpcreplay.Packages.{Disk}
use grpcreplay.Protocol.{Message}
use grpcreplay.Registry.{Codec}
use grpcreplay.Replay.{ReadError, Reader, read_message}
use grpcreplay.FileInput.{FileDirInput, Fired, fire, read}

-- How many of the messages pass a test.
abbrev pub count : (Message → Bool) → List Message → ℕ
count t [] = 0
count t (m ∷ ms) = (if t m then 1 else 0) + count t ms

-- The messages that are passed on or wait.
abbrev pub held : (Message → Bool) → FileDirInput → ℕ
held t i = count t i.msg_chan + count t i.timer

-- There is a task at this place of the timer, and the channel, of 100 places, has room.
abbrev pub ready : FileDirInput → ℕ → Bool
ready i task = ltb task (length i.timer) && ltb (length i.msg_chan) 100

abbrev pub one_more : Bool → ℕ → ℕ
one_more true n = suc n
one_more false n = n

-- The task at this place of the timer runs, or the caller reads.
pub data Event : Type 0 where
  fires : ℕ → Event
  reads : Event

module _ ⦃d : Disk⦄ where
  abbrev pub Ran : Type 0
  Ran = Option (Result ReadError (FileDirInput × List Message))

  abbrev pub then_run : Fired → (FileDirInput → Ran) → Ran
  then_run none next = none
  then_run (some (ok i)) next = next i
  then_run (some (err e)) next = some (err e)
  then_run (some panic) next = some panic

  abbrev pub handed : Option Message → Ran → Ran
  handed none o = o
  handed (some m) none = none
  handed (some m) (some (ok (i, out))) = some (ok (i, m ∷ out))
  handed (some m) (some (err e)) = some (err e)
  handed (some m) (some panic) = some panic

  -- The input after a sequence of events, and what the calls of `Read` returned.
  unfoldable pub run : ℕ → Codec → FileDirInput → List Event → Ran
  run fuel codec i [] = some (ok (i, []))
  run fuel codec i (fires task ∷ es) =
      then_run (fire fuel codec i task) (λ i'. run fuel codec i' es)
  run fuel codec i (reads ∷ es) =
      let later = run fuel codec (read i).0 es in handed (read i).1 later

  abbrev pub sendings_after : Fired → (FileDirInput → ℕ) → ℕ
  sendings_after none next = 0
  sendings_after (some (ok i)) next = next i
  sendings_after (some (err e)) next = 0
  sendings_after (some panic) next = 0

  -- How many of the events are tasks that can send their message.
  unfoldable pub sendings : ℕ → Codec → FileDirInput → List Event → ℕ
  sendings fuel codec i [] = 0
  sendings fuel codec i (fires task ∷ es) =
      one_more (ready i task)
        (sendings_after (fire fuel codec i task) (λ i'. sendings fuel codec i' es))
  sendings fuel codec i (reads ∷ es) = sendings fuel codec (read i).0 es

  abbrev pub Ahead : Type 0
  Ahead = Option (Result ReadError (Reader × List Message))

  abbrev pub put_first : Message → Ahead → Ahead
  put_first m none = none
  put_first m (some (ok (r, ms))) = some (ok (r, m ∷ ms))
  put_first m (some (err e)) = some (err e)
  put_first m (some panic) = some panic

  abbrev pub ahead_of : Option (Reader × Result ReadError Message) → (Reader → Ahead) → Ahead
  ahead_of none next = none
  ahead_of (some (r, ok m)) next = put_first m (next r)
  ahead_of (some (r, err e)) next = next r
  ahead_of (some (r, panic)) next = some panic

  -- So many calls of `ReadMessage`, one after another, and nothing else: the reader afterwards and
  -- the messages of those that did not fail.
  unfoldable pub read_ahead : ℕ → ℕ → Codec → Reader → Ahead
  read_ahead zero fuel codec r = some (ok (r, []))
  read_ahead (suc k) fuel codec r =
      ahead_of (read_message fuel codec r) (λ r'. read_ahead k fuel codec r')

  -- Of an input after it has sent so many messages: it has read as often.
  pub record Kept (fuel : ℕ) (codec : Codec) (i : FileDirInput) (sends : ℕ) (i' : FileDirInput)
      (out : List Message) : Type 0 where
    pub messages : List Message
    pub sent : length out + length i'.msg_chan ≡ length i.msg_chan + sends
    pub ahead : read_ahead sends fuel codec i.reader ≡ some (ok (i'.reader, messages))
    pub conserved : (t : Message → Bool) → count t out + held t i' ≡ held t i + count t messages

  abbrev pub Conserved :
      ℕ → Codec → FileDirInput → ℕ → Result ReadError (FileDirInput × List Message) → Type 0
  Conserved fuel codec i sends (ok (i', out)) = Kept fuel codec i sends i' out
  Conserved fuel codec i sends (err e) = ⊥
  Conserved fuel codec i sends panic = read_ahead sends fuel codec i.reader ≡ some panic

  abbrev pub Runs : ℕ → Codec → FileDirInput → ℕ → Ran → Type 0
  Runs fuel codec i sends o =
      (a : Result ReadError (FileDirInput × List Message)) × (o ≡ some a)
      × Conserved fuel codec i sends a
