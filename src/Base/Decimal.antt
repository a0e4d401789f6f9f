-- ===== src/Base/Decimal.antt =====
-- Numbers in decimal: what `%d` prints, and `strconv.Atoi` on a machine of 64 bits.
use grpcreplay.Base.{
  ℕ, zero, suc, ◌+◌, ◌-◌, ◌*◌, ◌/◌, ◌%◌, ◌<◌, ◌≤◌, ◌≡◌, refl, sym, ap, ◌∙◌, ◌||◌, Option, none,
  some, [], ◌∷◌, Bytes, ◌==◌, ltb, leb, if◌then◌else◌, arith, All, Bool-cases, inl, inr, ◌⊎◌,
  ltb-false, ltb→lt,
}
use grpcreplay.Base.Int.{ℤ, pos, negsuc}

-- The digits of `n` before `out`; each round divides by ten, so that a round for each unit of `n`
-- and one more is enough.
unfoldable pub digits : ℕ → ℕ → Bytes → Bytes
digits zero n out = out
digits (suc fuel) n out =
    let more = digits fuel (n / 10) ((b'0' + n % 10) ∷ out) in
    if ltb n 10 then (b'0' + n) ∷ out else more

unfoldable pub format_nat : ℕ → Bytes
format_nat n = digits (suc n) n []

-- `%d`
unfoldable pub format_int : ℤ → Bytes
format_int (pos n) = format_nat n
format_int (negsuc n) = b'-' ∷ format_nat (suc n)

-- The number that `s` spells behind `n`, if all of it are digits.
unfoldable pub scan_digits : Bytes → ℕ → Option ℕ
scan_digits [] n = some n
scan_digits (c ∷ s) n =
    let rest = scan_digits s (n * 10 + (c - b'0')) in
    if ltb c b'0' || ltb b'9' c then none else rest

abbrev pub max_int64 : ℕ
max_int64 = 9223372036854775807

positive : Option ℕ → Option ℤ
positive none = none
positive (some n) = if leb n max_int64 then some (pos n) else none

negate : ℕ → ℤ
negate zero = pos zero
negate (suc n) = negsuc n

negative : Option ℕ → Option ℤ
unfolding negate
negative none = none
negative (some n) = if leb n (max_int64 + 1) then some (negate n) else none

-- One digit at least.
scan_some : Bytes → Option ℕ
unfolding scan_digits
scan_some [] = none
scan_some (c ∷ s) = scan_digits (c ∷ s) 0

-- `none`: a syntax or a range error.
unfoldable pub atoi : Bytes → Option ℤ
unfolding positive negative scan_some
atoi [] = none
atoi (c ∷ s) =
    if c == b'-'
    then negative (scan_some s)
    else if c == b'+'
    then positive (scan_some s)
    else positive (scan_some (c ∷ s))

-- What an int64 can be.
abbrev pub IsInt64 : ℤ → Type 0
IsInt64 (pos n) = n ≤ max_int64
IsInt64 (negsuc n) = n ≤ max_int64

scan_last : (n : ℕ) (out : Bytes) → scan_digits ((b'0' + n % 10) ∷ out) (n / 10) ≡ scan_digits out n
unfolding scan_digits
scan_last n out = ground arith

scan-digits :
    (fuel n : ℕ) (out : Bytes) → n < fuel → scan_digits (digits fuel n out) 0 ≡ scan_digits out n
unfolding digits
scan-digits zero n out h = absurd (omega arith)
scan-digits (suc fuel) n out h = elim (Bool-cases (ltb n 10)) [
  | inl small ↦ rw small (unfold scan_digits in ground (arith, small))
  | inr large ↦ rw large (
      scan-digits fuel (n / 10) ((b'0' + n % 10) ∷ out)
        (let ten : 10 ≤ n = ltb-false n 10 large in omega arith)
      ∙ scan_last n out)
]

-- The first digit stays the first.
digits-cons :
    (fuel n c : ℕ) (out : Bytes)
    → b'0' ≤ c
    → (d : ℕ) × (more : Bytes) × (digits fuel n (c ∷ out) ≡ d ∷ more) × (b'0' ≤ d)
unfolding digits
digits-cons zero n c out h = (c, out, refl, h)
digits-cons (suc fuel) n c out h = elim (Bool-cases (ltb n 10)) [
  | inl small ↦ (b'0' + n, c ∷ out, rw small refl, omega arith)
  | inr large ↦
      let (d, more, e, g) = digits-cons fuel (n / 10) (b'0' + n % 10) (c ∷ out) (omega arith) in
      (d, more, rw large e, g)
]

-- A printed number is a digit and what comes after it.
format_nat-cons : (n : ℕ) → (d : ℕ) × (more : Bytes) × (format_nat n ≡ d ∷ more) × (b'0' ≤ d)
unfolding format_nat digits
format_nat-cons n = elim (Bool-cases (ltb n 10)) [
  | inl small ↦ (b'0' + n, [], rw small refl, omega arith)
  | inr large ↦
      let (d, more, e, g) = digits-cons n (n / 10) (b'0' + n % 10) [] (omega arith) in
      (d, more, rw large e, g)
]

scan_some-format_nat : (n : ℕ) → scan_some (format_nat n) ≡ some n
unfolding scan_some
scan_some-format_nat n =
    let (d, more, e, g) = format_nat-cons n in
    rw e (
      sym (ap (λ s. scan_digits s 0) e)
      ∙ (unfold format_nat in unfold scan_digits in scan-digits (suc n) n [] (omega arith)))

atoi_digit :
    (s : Bytes) (d : ℕ) (more : Bytes) → s ≡ d ∷ more → b'0' ≤ d → atoi s ≡ positive (scan_some s)
unfolding atoi
atoi_digit s d more e h = ground (arith, e)

-- Every int64 is read back from its decimal print.
pub atoi-format_int : (i : ℤ) → IsInt64 i → atoi (format_int i) ≡ some i
unfolding format_int positive
atoi-format_int (pos n) h =
    let (d, more, e, g) = format_nat-cons n in
    atoi_digit (format_nat n) d more e g ∙ rw (scan_some-format_nat n) (ground (arith, h))
atoi-format_int (negsuc n) h =
    unfold atoi in
    unfold negative in unfold negate in rw (scan_some-format_nat (suc n)) (ground (arith, h))

-- What a printed number is made of.
abbrev pub IsDecimal : ℕ → Type 0
IsDecimal c = (c ≡ b'-') ⊎ ((b'0' ≤ c) × (c ≤ b'9'))

digits-IsDecimal :
    (fuel n : ℕ) (out : Bytes) → n < fuel → All IsDecimal out → All IsDecimal (digits fuel n out)
unfolding digits
digits-IsDecimal zero n out h o = absurd (omega arith)
digits-IsDecimal (suc fuel) n out h o = elim (Bool-cases (ltb n 10)) [
  | inl small ↦
      rw small (let lt : n < 10 = ltb→lt n 10 small in (inr (omega arith, omega arith), o))
  | inr large ↦ rw large (
      let ten : 10 ≤ n = ltb-false n 10 large in
      digits-IsDecimal fuel (n / 10) ((b'0' + n % 10) ∷ out) (omega arith)
        (inr (omega arith, omega arith), o))
]

pub format_int-IsDecimal : (i : ℤ) → All IsDecimal (format_int i)
unfolding format_int format_nat
format_int-IsDecimal (pos n) = digits-IsDecimal (suc n) n [] (omega arith) tt
format_int-IsDecimal (negsuc n) =
    (inl refl, digits-IsDecimal (suc (suc n)) (suc n) [] (omega arith) tt)
