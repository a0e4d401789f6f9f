-- ===== src/Base/BigEndian.antt =====
-- Big-endian numbers and encoding/binary's `Read` of one, on a reader that is its unread bytes.
use grpcreplay.Base.{
  ℕ, ◌+◌, ◌*◌, ◌<◌, ◌≡◌, [], ◌∷◌, Bytes, length, take, drop, leb, ◌==◌, if◌then◌else◌, Result, ok,
  err, arith,
}

pub data IoError : Type 0 where
  eof : IoError
  unexpected_eof : IoError

abbrev pub be_from : ℕ → Bytes → ℕ
be_from acc [] = acc
be_from acc (b ∷ bs) = be_from (acc * 256 + b) bs

abbrev pub big_endian : Bytes → ℕ
big_endian = be_from 0

-- binary.Read of an n-byte unsigned number.
unfoldable pub read_uint : ℕ → Bytes → Result IoError (ℕ × Bytes)
read_uint n r =
    if leb n (length r)
    then ok (big_endian (take n r), drop n r)
    else if length r == 0
    then err eof
    else err unexpected_eof

pub read_uint_1 : (a : ℕ) (r : Bytes) → read_uint 1 (a ∷ r) ≡ ok (a, r)
unfolding read_uint
read_uint_1 a r = ground arith

pub read_uint_2 : (a b : ℕ) (r : Bytes) → read_uint 2 (a ∷ b ∷ r) ≡ ok (a * 256 + b, r)
unfolding read_uint
read_uint_2 a b r = ground arith

pub read_uint_4 :
    (a b c d : ℕ) (r : Bytes)
    → read_uint 4 (a ∷ b ∷ c ∷ d ∷ r) ≡ ok (((a * 256 + b) * 256 + c) * 256 + d, r)
unfolding read_uint
read_uint_4 a b c d r = ground arith

pub read_uint_short : (n : ℕ) (r : Bytes) → length r < n → (e : IoError) × (read_uint n r ≡ err e)
unfolding read_uint
read_uint_short n [] h = (eof, ground arith)
read_uint_short n (x ∷ xs) h = (unexpected_eof, ground arith)
