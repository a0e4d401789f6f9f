-- ===== src/GoMap.antt =====
-- A Go map, as the list of its entries, newest first. `delete` of an absent key does nothing; the
-- order in which `range` meets the entries is not specified by the language and none is relied on.
pub mod Keys
use grpcreplay.Base.{◌≡◌, Option, none, some, List, [], ◌∷◌, arith, Eq, if◌then◌else◌, beq_refl}

abbrev pub GoMap {ℓ κ} : Type ℓ → Type κ → Type (ℓ ⊔ κ)
GoMap K V = List (K × V)

module _ {ℓ κ} {K : Type ℓ} {V : Type κ} ⦃e : Eq K⦄ where
  -- v, ok := m[k]
  unfoldable pub get : GoMap K V → K → Option V
  get [] k = none
  get ((j, v) ∷ m) k = if e.beq j k then some v else get m k

  -- delete(m, k)
  unfoldable pub delete : GoMap K V → K → GoMap K V
  delete [] k = []
  delete ((j, v) ∷ m) k = let rest = delete m k in if e.beq j k then rest else (j, v) ∷ rest

  -- m[k] = v
  unfoldable pub put : GoMap K V → K → V → GoMap K V
  put m k v = (k, v) ∷ delete m k

  unfoldable pub keys : GoMap K V → List K
  keys [] = []
  keys ((j, v) ∷ m) = j ∷ keys m

  pub get-delete :
      (m : GoMap K V) (k j : K) → get (delete m k) j ≡ (if e.beq k j then none else get m j)
  unfolding get delete
  get-delete [] k j = ground arith
  get-delete ((i, v) ∷ m) k j =
      ground (arith, get-delete m k j, e.beq_iff i k, e.beq_iff i j, e.beq_iff k j)

  pub get-put :
      (m : GoMap K V) (k j : K) (v : V)
      → get (put m k v) j ≡ (if e.beq k j then some v else get m j)
  unfolding get put
  get-put m k j v = ground (arith, get-delete m k j)

  pub get-put_self : (m : GoMap K V) (k : K) (v : V) → get (put m k v) k ≡ some v
  get-put_self m k v = ground (arith, get-put m k k v, beq_refl k)

  pub get-delete_self : (m : GoMap K V) (k : K) → get (delete m k) k ≡ none
  get-delete_self m k = ground (arith, get-delete m k k, beq_refl k)
