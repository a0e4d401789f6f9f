-- ===== src/GoMap/Keys.antt =====
-- A Go map used as the set of its keys: the loops over keys that the set types share, and which
-- keys each of them leaves.
use grpcreplay.Base.{
  ◌≡◌, refl, Bool, true, false, not, ◌&&◌, ◌||◌, Option, none, some, List, [], ◌∷◌, arith, Eq,
  if◌then◌else◌, Bool-cases, inl, inr,
}
use grpcreplay.GoMap.{GoMap, get, put, delete, keys, get-put, get-delete}

abbrev pub Keys {ℓ} : Type ℓ → Type ℓ
Keys K = GoMap K (Unit {0})

abbrev pub is_present : Option (Unit {0}) → Bool
is_present none = false
is_present (some _) = true

module _ {ℓ} {K : Type ℓ} ⦃e : Eq K⦄ where
  -- _, ok := m[k]
  unfoldable pub mem : Keys K → K → Bool
  mem m k = is_present (get m k)

  unfoldable pub put_all : Keys K → List K → Keys K
  put_all m [] = m
  put_all m (k ∷ ks) = put_all (put m k tt) ks

  unfoldable pub delete_all : Keys K → List K → Keys K
  delete_all m [] = m
  delete_all m (k ∷ ks) = delete_all (delete m k) ks

  -- The keys of the list that the map has, put into `result`.
  unfoldable pub collect : List K → Keys K → Keys K → Keys K
  collect [] m result = result
  collect (k ∷ ks) m result = collect ks m (if mem m k then put result k tt else result)

  unfoldable pub in_list : List K → K → Bool
  in_list [] j = false
  in_list (k ∷ ks) j = e.beq k j || in_list ks j

  pub mem-put : (m : Keys K) (k j : K) → mem (put m k tt) j ≡ (e.beq k j || mem m j)
  unfolding mem
  mem-put m k j = ground (arith, get-put m k j tt)

  pub mem-delete : (m : Keys K) (k j : K) → mem (delete m k) j ≡ (not (e.beq k j) && mem m j)
  unfolding mem
  mem-delete m k j = ground (arith, get-delete m k j)

  pub mem-put_all :
      (m : Keys K) (ks : List K) (j : K) → mem (put_all m ks) j ≡ (in_list ks j || mem m j)
  unfolding put_all in_list
  mem-put_all m [] j = refl
  mem-put_all m (k ∷ ks) j = ground (arith, mem-put_all (put m k tt) ks j, mem-put m k j)

  pub mem-delete_all :
      (m : Keys K) (ks : List K) (j : K) → mem (delete_all m ks) j ≡ (not (in_list ks j) && mem m j)
  unfolding delete_all in_list
  mem-delete_all m [] j = refl
  mem-delete_all m (k ∷ ks) j = ground (arith, mem-delete_all (delete m k) ks j, mem-delete m k j)

  pub in_list-keys : (m : Keys K) (j : K) → in_list (keys m) j ≡ mem m j
  unfolding in_list mem keys get
  in_list-keys [] j = refl
  in_list-keys ((k, _) ∷ m) j = ground (arith, in_list-keys m j)

  pub mem-collect :
      (ks : List K) (m result : Keys K) (j : K)
      → mem (collect ks m result) j ≡ ((in_list ks j && mem m j) || mem result j)
  unfolding collect in_list
  mem-collect [] m result j = refl
  mem-collect (k ∷ ks) m result j = elim (Bool-cases (mem m k)) [
    | inl has ↦ rw has (
        ground
          (arith, mem-collect ks m (put result k tt) j, mem-put result k j, has, e.beq_iff k j))
    | inr lacks ↦ rw lacks (ground (arith, mem-collect ks m result j, lacks, e.beq_iff k j))
  ]

  pub mem-nil : (j : K) → mem [] j ≡ false
  unfolding mem get
  mem-nil j = refl
