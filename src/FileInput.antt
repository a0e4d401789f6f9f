-- ===== src/FileInput.antt =====
-- plugin/input_file_dir.go, `FileDirInput`: the messages of the capture files are put on a timer, and
-- each one that is due is passed on and replaced by the next one that is read. When a task is due is the
-- timer's matter (the message's offset from the smallest timestamp, over the replay speed); here any
-- task may be next. The channel holds 100 messages: a task that finds it full stands at its send until
-- `Read` has made room, and is here still one of the timer's tasks, which may try again. The tasks run
-- one at a time; the timer's goroutines, between whose reads the reader's lock decides, are not
-- modelled.
pub mod Running
pub mod Conserved
use grpcreplay.Base.{
  ℕ, zero, suc, Bool, true, false, Option, none, some, List, [], ◌∷◌, ◌++◌, Bytes, ltb, length,
  if◌then◌else◌, Result, ok, err, panic,
}
use grpcreplay.Base.Int.{ℤ, pos, negsuc}
use grpcreplay.Packages.{Disk}
use grpcreplay.Protocol.{Message}
use grpcreplay.Registry.{Codec}
use grpcreplay.Replay.{ReadError, eof, open_failed, unmarshal_failed, Reader, read_message}

pub record FileDirInput : Type 0 where
  pub reader : Reader
  pub benchmark_timestamp : ℤ
  pub timer : List Message
  pub msg_chan : List Message

abbrev pub channel_size : ℕ
channel_size = 100

-- a < b
unfoldable pub less : ℤ → ℤ → Bool
less (pos a) (pos b) = ltb a b
less (pos a) (negsuc b) = false
less (negsuc a) (pos b) = true
less (negsuc a) (negsuc b) = ltb b a

-- The test for each message behind the first.
unfoldable pub lowest : ℤ → List Message → ℤ
lowest t [] = t
lowest t (m ∷ ms) = lowest (if less m.meta.timestamp t then m.meta.timestamp else t) ms

unfoldable pub benchmark : List Message → ℤ
benchmark [] = pos 0
benchmark (m ∷ ms) = lowest m.meta.timestamp ms

abbrev pub at_end : ReadError → Bool
at_end eof = true
at_end open_failed = false
at_end (unmarshal_failed e) = false

abbrev Filled : Type 0
Filled = Reader × Result ReadError (List Message)

abbrev put_first : Message → Option Filled → Option Filled
put_first m none = none
put_first m (some (r, ok ms)) = some (r, ok (m ∷ ms))
put_first m (some (r, err e)) = some (r, err e)
put_first m (some (r, panic)) = some (r, panic)

-- The list without its i-th member, and that member.
abbrev pub take_out : ℕ → List Message → Option (Message × List Message)
take_out i [] = none
take_out zero (m ∷ ms) = some (m, ms)
take_out (suc i) (m ∷ ms) = elim (take_out i ms) [
  | none ↦ none
  | some (x, rest) ↦ some (x, m ∷ rest)
]

module _ ⦃d : Disk⦄ where
  -- The first loop of `init`, for so many rounds; `none`: a read has not ended.
  unfoldable pub fill : ℕ → ℕ → Codec → Reader → Option Filled
  fill zero fuel codec r = some (r, ok [])
  fill (suc n) fuel codec r = elim (read_message fuel codec r) [
    | none ↦ none
    | some (r', a) ↦ elim a [
      | ok m ↦ put_first m (fill n fuel codec r')
      | err e ↦ some (r', if at_end e then ok [] else err e)
      | panic ↦ some (r', panic)
    ]
  ]

  started : Option Filled → Option (Result ReadError FileDirInput)
  started none = none
  started (some (r, ok ms)) =
      some
        (ok (record { reader = r; benchmark_timestamp = benchmark ms; timer = ms; msg_chan = [] }))
  started (some (r, err e)) = some (err e)
  started (some (r, panic)) = some panic

  -- `init`, where the reader has been made; an error ends the program.
  unfoldable pub init : ℕ → ℕ → Codec → Reader → Option (Result ReadError FileDirInput)
  unfolding started
  init read_depth fuel codec r = started (fill read_depth fuel codec r)

  -- What a task leaves. `none`: a read has not ended.
  abbrev pub Fired : Type 0
  Fired = Option (Result ReadError FileDirInput)

  -- What the task does with what it has read: an error is logged.
  abbrev pub refilled : FileDirInput → Option (Reader × Result ReadError Message) → Fired
  refilled i none = none
  refilled i (some (r, ok m)) = some (ok (record i { reader = r; timer = i.timer ++ m ∷ [] }))
  refilled i (some (r, err e)) = some (ok (record i { reader = r }))
  refilled i (some (r, panic)) = some panic

  -- The send of a full channel waits.
  abbrev pub fired : ℕ → Codec → FileDirInput → Bool → Option (Message × List Message) → Fired
  fired fuel codec i room none = some (ok i)
  fired fuel codec i false (some (m, rest)) = some (ok i)
  fired fuel codec i true (some (m, rest)) =
      refilled (record i { msg_chan = i.msg_chan ++ m ∷ []; timer = rest })
        (read_message fuel codec i.reader)

  -- The function that `addTaskToTimer` makes, for the task at this place.
  unfoldable pub fire : ℕ → Codec → FileDirInput → ℕ → Fired
  fire fuel codec i task =
      fired fuel codec i (ltb (length i.msg_chan) channel_size) (take_out task i.timer)

  abbrev pub taken : FileDirInput → List Message → FileDirInput × Option Message
  taken i [] = (i, none)
  taken i (m ∷ ms) = (record i { msg_chan = ms }, some m)

  -- `Read`. `none`: it waits.
  unfoldable pub read : FileDirInput → FileDirInput × Option Message
  read i = taken i i.msg_chan
