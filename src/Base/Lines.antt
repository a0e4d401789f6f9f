-- ===== src/Base/Lines.antt =====
-- Text in lines.
use grpcreplay.Base.{
  ℕ, ◌≡◌, ◌≢◌, refl, List, [], ◌∷◌, ◌++◌, Bytes, ◌==◌, if◌then◌else◌, Option, none, some, ==_ne,
}
use grpcreplay.Base.Split.{Lacks}

-- A line of its own: not empty, without the delimiter.
abbrev pub IsLine : Bytes → Type 0
IsLine l = (l ≢ []) × Lacks b'\n' l

abbrev pub unlines : List Bytes → Bytes
unlines [] = []
unlines (l ∷ ls) = l ++ (b'\n' ∷ unlines ls)

abbrev pub push_line : ℕ → Option (Bytes × Bytes) → Option (Bytes × Bytes)
push_line c none = none
push_line c (some (line, rest)) = some (c ∷ line, rest)

-- `ReadBytes('\n')`: the line with its delimiter, and what is left; `none` at the end of the input, also behind
-- a line without delimiter, which is then lost to the caller that does not look at it.
unfoldable pub read_bytes : Bytes → Option (Bytes × Bytes)
read_bytes [] = none
read_bytes (c ∷ s) =
    let more = read_bytes s in if c == b'\n' then some (c ∷ [], s) else push_line c more

pub read_bytes_line :
    (l rest : Bytes)
    → Lacks b'\n' l
    → read_bytes (l ++ (b'\n' ∷ rest)) ≡ some (l ++ b'\n' ∷ [], rest)
unfolding read_bytes
read_bytes_line [] rest h = refl
read_bytes_line (c ∷ l) rest (hc, h) = rw (==_ne c b'\n' hc, read_bytes_line l rest h) refl
