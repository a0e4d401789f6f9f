-- ===== src/Emitter/Copying.antt =====
-- What the outputs are given.
use grpcreplay.Base.{
  ℕ, suc, ◌≡◌, refl, ap, ◌∙◌, Option, none, some, List, [], ◌∷◌, ◌++◌, map, append-nil,
  append_assoc, if◌then◌else◌, Bool-cases, inl, inr,
}
use grpcreplay.Filter.{Filter}
use grpcreplay.Protocol.{Message}
use grpcreplay.Emitter.{Limiter, Copy, write_all, limited, filtered, copy_round, copy_multy}

-- The messages among the reads that the filter lets pass, as it returns them.
abbrev pub passed_by : Option Message → List Message
passed_by none = []
passed_by (some msg) = msg ∷ []

abbrev pub passed : Filter → List (Option Message) → List Message
passed f [] = []
passed f (none ∷ rs) = passed f rs
passed f (some msg ∷ rs) = passed_by (f msg) ++ passed f rs

-- Those for which the limiter says yes, when it is asked once for each.
abbrev pub allowed : Limiter → ℕ → List Message → List Message
allowed none n msgs = msgs
allowed (some allow) n [] = []
allowed (some allow) n (msg ∷ msgs) =
    let rest = allowed (some allow) (suc n) msgs in if allow n then msg ∷ rest else rest

-- Each of the lists has `more` behind it.
abbrev pub appended : List Message → List (List Message) → List (List Message)
appended more ws = map (λ w. w ++ more) ws

write_all_lem :
    (ws : List (List Message)) (msg : Message) → write_all ws msg ≡ appended (msg ∷ []) ws
unfolding write_all
write_all_lem [] msg = refl
write_all_lem (w ∷ ws) msg = ap (◌∷◌ (w ++ msg ∷ [])) (write_all_lem ws msg)

appended_nothing : (ws : List (List Message)) → ws ≡ appended [] ws
appended_nothing [] = refl
appended_nothing (w ∷ ws) = rw (append-nil w) (ap (◌∷◌ w) (appended_nothing ws))

appended-appended :
    (m n : List Message) (ws : List (List Message))
    → appended n (appended m ws) ≡ appended (m ++ n) ws
appended-appended m n [] = refl
appended-appended m n (w ∷ ws) =
    rw (append_assoc w m n) (ap (◌∷◌ (w ++ (m ++ n))) (appended-appended m n ws))

-- One message more for each output.
extended :
    (msg : Message) (more : List Message) (ws l : List (List Message))
    → l ≡ appended more (write_all ws msg)
    → l ≡ appended (msg ∷ more) ws
extended msg more ws l e =
    e ∙ ap (appended more) (write_all_lem ws msg) ∙ appended-appended (msg ∷ []) more ws

-- A round with what the filter made of the message, where the rounds after it do what they must.
round_lem :
    (f : Filter) (limiter : Limiter) (rs : List (Option Message)) (o : Option Message) (c : Copy)
    → ((d : Copy)
        → (copy_multy f limiter d rs).written
          ≡ appended (allowed limiter d.allow_calls (passed f rs)) d.written)
    → (copy_multy f limiter (filtered limiter c o) rs).written
      ≡ appended (allowed limiter c.allow_calls (passed_by o ++ passed f rs)) c.written
unfolding filtered limited
round_lem f limiter rs none c after = after c
round_lem f none rs (some msg) c after =
    extended msg (passed f rs) c.written _ (after (record c { written = write_all c.written msg }))
round_lem f (some allow) rs (some msg) c after = elim (Bool-cases (allow c.allow_calls)) [
  | inl allows ↦ rw allows (
      extended msg (allowed (some allow) (suc c.allow_calls) (passed f rs)) c.written _
        (after (record c { allow_calls = suc c.allow_calls; written = write_all c.written msg })))
  | inr denies ↦ rw denies (after (record c { allow_calls = suc c.allow_calls }))
]

-- Whatever is read, in whatever order with errors in between: every output is given, after what it
-- had, the same messages, in the order of their reading: those that the filter lets pass and the limiter, asked
-- once for each of these and for no other, allows. Reads that fail change nothing.
pub copy_multy_lem :
    (f : Filter) (limiter : Limiter) (c : Copy) (reads : List (Option Message))
    → (copy_multy f limiter c reads).written
      ≡ appended (allowed limiter c.allow_calls (passed f reads)) c.written
unfolding copy_multy copy_round
copy_multy_lem f none c [] = appended_nothing c.written
copy_multy_lem f (some allow) c [] = appended_nothing c.written
copy_multy_lem f limiter c (none ∷ rs) = copy_multy_lem f limiter c rs
copy_multy_lem f limiter c (some msg ∷ rs) =
    round_lem f limiter rs (f msg) c (λ d. copy_multy_lem f limiter d rs)
