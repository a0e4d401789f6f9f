-- ===== src/Base/Split.antt =====
-- Parts of a byte string: `bytes.Split` and `strings.Split` at one byte, and `strings.LastIndex` of one byte.
use grpcreplay.Base.{
  ℕ, suc, ◌≡◌, ◌≢◌, refl, Option, none, some, List, [], ◌∷◌, ◌++◌, Bytes, ◌==◌, if◌then◌else◌,
  arith, All, ==_ne, ==_refl, length,
}

-- The byte at the front of the first part.
abbrev pub push : ℕ → List Bytes → List Bytes
push c [] = (c ∷ []) ∷ []
push c (p ∷ ps) = (c ∷ p) ∷ ps

unfoldable pub split : Bytes → ℕ → List Bytes
split [] sep = [] ∷ []
split (c ∷ s) sep = let rest = split s sep in if c == sep then [] ∷ rest else push c rest

abbrev pub Lacks : ℕ → Bytes → Type 0
Lacks b = All (λ c. c ≢ b)

-- A part without the separator is the first one.
pub split-append :
    (p rest : Bytes) (sep : ℕ) → Lacks sep p → split (p ++ sep ∷ rest) sep ≡ p ∷ split rest sep
unfolding split
split-append [] rest sep h = rw (==_refl sep) refl
split-append (c ∷ p) rest sep (hc, h) = rw (==_ne c sep hc, split-append p rest sep h) refl

-- A text without the separator is one part.
pub split_whole : (p : Bytes) (sep : ℕ) → Lacks sep p → split p sep ≡ p ∷ []
unfolding split
split_whole [] sep h = refl
split_whole (c ∷ p) sep (hc, h) = rw (==_ne c sep hc, split_whole p sep h) refl

pub All-map {ℓ κ μ} :
    {A : Type ℓ} (P : A → Type κ) (Q : A → Type μ) (l : List A)
    → ((a : A) → P a → Q a)
    → All P l
    → All Q l
All-map P Q [] f h = tt
All-map P Q (x ∷ l) f (p, h) = (f x p, All-map P Q l f h)

pub All-append {ℓ κ} :
    {A : Type ℓ} (P : A → Type κ) (l r : List A) → All P l → All P r → All P (l ++ r)
All-append P [] r h k = k
All-append P (x ∷ l) r (p, h) k = (p, All-append P l r h k)

-- Where the byte stands last; `none` for -1.
unfoldable pub last_index : Bytes → ℕ → Option ℕ
last_index [] b = none
last_index (c ∷ s) b = elim (last_index s b) [
  | none ↦ if c == b then some 0 else none
  | some i ↦ some (suc i)
]

pub last_index-none : (s : Bytes) (b : ℕ) → Lacks b s → last_index s b ≡ none
unfolding last_index
last_index-none [] b h = refl
last_index-none (c ∷ s) b (hc, h) = ground (arith, last_index-none s b h, ==_ne c b hc)

pub last_index-append :
    (p s : Bytes) (b : ℕ) → Lacks b s → last_index (p ++ (b ∷ s)) b ≡ some (length p)
unfolding last_index
last_index-append [] s b h = ground (arith, last_index-none s b h, ==_refl b)
last_index-append (c ∷ p) s b h = ground (arith, last_index-append p s b h)
