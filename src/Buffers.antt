-- ===== src/Buffers.antt =====
-- util/goroutine_safe_buffer.go, whose lock makes each method one step, and buffpool/buffpool.go. A
-- bytes.Buffer is what it holds unread.
use grpcreplay.Base.{
  sym, ◌∙◌, ℕ, zero, suc, ◌≡◌, refl, Option, none, some, List, [], ◌∷◌, ◌++◌, Bytes, ◌==◌,
  if◌then◌else◌, length, take, drop, drop_all, take_all, arith, All,
}
use mathlib.Core.Option.{some-injective}

pub record GoroutineSafeBuffer : Type 0 where
  pub buf : Bytes

unfoldable pub new_goroutine_safe_buffer : GoroutineSafeBuffer
new_goroutine_safe_buffer = record { buf = [] }

-- The count that `Write` returns is the length of what it is given.
unfoldable pub write : GoroutineSafeBuffer → Bytes → GoroutineSafeBuffer × ℕ
write g p = (record { buf = g.buf ++ p }, length p)

-- `Read` into n bytes; `none` is io.EOF.
unfoldable pub read : GoroutineSafeBuffer → ℕ → GoroutineSafeBuffer × Option Bytes
read g n = elim g.buf [
  | [] ↦ (g, if n == 0 then some [] else none)
  | c ∷ s ↦ (record { buf = drop n (c ∷ s) }, some (take n (c ∷ s)))
]

-- `Bytes` gives a copy.
unfoldable pub to_bytes : GoroutineSafeBuffer → Bytes
to_bytes g = g.buf

unfoldable pub to_string : GoroutineSafeBuffer → Bytes
to_string g = g.buf

unfoldable pub reset : GoroutineSafeBuffer → GoroutineSafeBuffer
reset g = record { buf = [] }

unfoldable pub len : GoroutineSafeBuffer → ℕ
len g = length g.buf

-- What is written into an empty buffer is read back by one read of its length, and nothing is left.
read-write :
    (c : ℕ) (p : Bytes)
    → read (write (reset new_goroutine_safe_buffer) (c ∷ p)).0 (length (c ∷ p))
      ≡ (new_goroutine_safe_buffer, some (c ∷ p))
unfolding read write reset new_goroutine_safe_buffer
read-write c p = rw (drop_all (length p) p (omega arith), take_all (length p) p (omega arith)) refl

-- The pool, with the buffers that it keeps; sync.Pool may give any of them, or none.
abbrev pub Pool : Type 0
Pool = List Bytes

abbrev without : ℕ → Pool → Pool
without i [] = []
without zero (b ∷ pool) = pool
without (suc i) (b ∷ pool) = b ∷ without i pool

abbrev at : Pool → ℕ → Option Bytes
at [] i = none
at (b ∷ pool) zero = some b
at (b ∷ pool) (suc i) = at pool i

-- `GetBuff`, where the pool answers with the i-th buffer, or with none.
unfoldable pub get_buff : Pool → ℕ → Pool × Bytes
get_buff pool i = elim (at pool i) [ none ↦ (pool, []) | some buffer ↦ (without i pool, buffer) ]

-- `PutBuff`: the buffer is reset.
unfoldable pub put_buff : Pool → Bytes → Pool
put_buff pool buffer = [] ∷ pool

at_empty : (pool : Pool) (i : ℕ) (b : Bytes) → All (λ s. s ≡ []) pool → at pool i ≡ some b → b ≡ []
at_empty [] i b h e = absurd (cc e)
at_empty (x ∷ pool) zero b (hx, h) e = sym (some-injective _ _ e) ∙ hx
at_empty (x ∷ pool) (suc i) b (hx, h) e = at_empty pool i b h e

-- A pool that only `PutBuff` fills gives an empty buffer, and so does an empty pool.
get_buff-put_buff :
    (pool : Pool) (buffer : Bytes) (i : ℕ)
    → All (λ s. s ≡ []) pool
    → (get_buff (put_buff pool buffer) i).1 ≡ []
unfolding get_buff put_buff
get_buff-put_buff pool buffer i h =
    go (at ([] ∷ pool) i) (λ b e. at_empty ([] ∷ pool) i b (refl, h) e)
  where
    go :
        (o : Option Bytes)
        → ((b : Bytes) → o ≡ some b → b ≡ [])
        → (elim o as (λ _. Pool × Bytes) [
          | none ↦ ([] ∷ pool, [])
          | some b ↦ (without i ([] ∷ pool), b)
        ]).1
          ≡ []
    go none k = refl
    go (some b) k = k b refl
