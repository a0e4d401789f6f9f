-- ===== src/Base/Words.antt =====
-- Go's machine words as native numbers: a value of w bits is below 2 ^ w, and a sum wraps.
use Prim.Native.Nat.{ℕ, ◌+◌, ◌-◌, ◌%◌}

abbrev pub u32_mod : ℕ
u32_mod = 4294967296

-- math.MaxUint32
abbrev pub max_uint32 : ℕ
max_uint32 = 4294967295

abbrev pub u64_mod : ℕ
u64_mod = 18446744073709551616

-- a + b in uint32
abbrev pub add_u32 : ℕ → ℕ → ℕ
add_u32 a b = (a + b) % u32_mod

-- An atomic.Int64 is kept as its 64-bit pattern: Add(n) and Add(-n).
abbrev pub add_i64 : ℕ → ℕ → ℕ
add_i64 c n = (c + n) % u64_mod

abbrev pub sub_i64 : ℕ → ℕ → ℕ
sub_i64 c n = (c + (u64_mod - n % u64_mod)) % u64_mod
