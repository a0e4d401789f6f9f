-- ===== src/Emitter.antt =====
-- biz/emitter.go, `CopyMulty`: each message that is read goes through the filter and the limiter and
-- is then written to every output. An error of a writer is logged, so that what a writer did with a
-- message does not matter to the loop; a writer is here the list of the messages it was given. The
-- limiter (golang.org/x/time/rate, if there is one) is the answers of its `Allow`, call by call.
pub mod Copying
use grpcreplay.Base.{
  ℕ, suc, Bool, true, false, Option, none, some, List, [], ◌∷◌, ◌++◌, map, if◌then◌else◌, Result,
  ok, err, panic,
}
use grpcreplay.Filter.{Filter}
use grpcreplay.Protocol.{Message}

abbrev pub Limiter : Type 0
Limiter = Option (ℕ → Bool)

pub record Copy : Type 0 where
  pub allow_calls : ℕ
  pub written : List (List Message)

-- The loop over `writers`.
unfoldable pub write_all : List (List Message) → Message → List (List Message)
write_all [] msg = []
write_all (w ∷ ws) msg = (w ++ msg ∷ []) ∷ write_all ws msg

-- `e.limiter != nil && !e.limiter.Allow()`, and the writes.
limited : Limiter → Copy → Message → Copy
limited none c msg = record c { written = write_all c.written msg }
limited (some allow) c msg =
    if allow c.allow_calls
    then record c { allow_calls = suc c.allow_calls; written = write_all c.written msg }
    else record c { allow_calls = suc c.allow_calls }

filtered : Limiter → Copy → Option Message → Copy
unfolding limited
filtered limiter c none = c
filtered limiter c (some msg) = limited limiter c msg

-- One round, for what `src.Read` returned: `none` is an error.
unfoldable pub copy_round : Filter → Limiter → Copy → Option Message → Copy
unfolding filtered
copy_round f limiter c none = c
copy_round f limiter c (some msg) = filtered limiter c (f msg)

-- The loop never returns: this is its state after the given reads.
unfoldable pub copy_multy : Filter → Limiter → Copy → List (Option Message) → Copy
copy_multy f limiter c [] = c
copy_multy f limiter c (r ∷ rs) = copy_multy f limiter (copy_round f limiter c r) rs
