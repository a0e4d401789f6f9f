-- ===== src/GrpcOutput/Cached.antt =====
-- The cache in front of the descriptor source.
use grpcreplay.Base.{
  ℕ, ◌≡◌, refl, ap, ◌∙◌, sym, Bool-cases, inl, inr, Option, none, some, List, [], ◌∷◌, ◌++◌, Bytes,
  bytes_key, bytes_eq, bytes_eq_iff, codes, arith, Result, ok, err, panic,
}
use mathlib.Core.Option.{some-injective}
use grpcreplay.GoMap.{get, put, get-put}
use grpcreplay.GrpcOutput.{
  Grpcurl, CallError, source_failed, CacheValue, services, descriptor, extensions, InnerCache,
  as_services, as_descriptor, as_extensions, asked, answered, services_key, symbol_key,
  extensions_key, list_services, find_symbol, all_extensions_for_type,
}

-- What may be asked.
pub data Query : Type 0 where
  services_query : Query
  symbol_query : Bytes → Query
  extensions_query : Bytes → Query

abbrev first_byte : Bytes → ℕ
first_byte [] = 0
first_byte (c ∷ s) = c

module _ ⦃g : Grpcurl⦄ where
  abbrev pub key_of : Query → Bytes
  key_of services_query = services_key
  key_of (symbol_query name) = symbol_key name
  key_of (extensions_query name) = extensions_key name

  abbrev pub wrapped : {A : Type 0} → (A → CacheValue) → Option A → Option CacheValue
  wrapped wrap none = none
  wrapped wrap (some a) = some (wrap a)

  -- The source's own answer.
  abbrev pub source : Query → Option CacheValue
  source services_query = wrapped services g.list_services
  source (symbol_query name) = wrapped descriptor (g.find_symbol name)
  source (extensions_query name) = wrapped extensions (g.all_extensions_for_type name)

  abbrev pub as_cached :
      {A : Type 0} → (A → CacheValue) → Result CallError A → Result CallError CacheValue
  as_cached wrap (ok a) = ok (wrap a)
  as_cached wrap (err e) = err e
  as_cached wrap panic = panic

  -- One of the three methods.
  abbrev pub ask : InnerCache → Query → InnerCache × Result CallError CacheValue
  ask c services_query = ((list_services c).0, as_cached services (list_services c).1)
  ask c (symbol_query name) = ((find_symbol c name).0, as_cached descriptor (find_symbol c name).1)
  ask c (extensions_query name) =
      ((all_extensions_for_type c name).0, as_cached extensions (all_extensions_for_type c name).1)

  unfoldable pub ask_all : InnerCache → List Query → List (Result CallError CacheValue)
  ask_all c [] = []
  ask_all c (q ∷ qs) = let r = ask c q in r.1 ∷ ask_all r.0 qs

  abbrev pub plain : Option CacheValue → Result CallError CacheValue
  plain none = err source_failed
  plain (some value) = ok value

  abbrev pub plain_all : List Query → List (Result CallError CacheValue)
  plain_all [] = []
  plain_all (q ∷ qs) = plain (source q) ∷ plain_all qs

  prefix_cancel : (p l r : Bytes) → p ++ l ≡ p ++ r → l ≡ r
  prefix_cancel [] l r e = e
  prefix_cancel (c ∷ p) l r e = prefix_cancel p l r (cc e)

  -- No two queries have one key.
  source-key : (a b : Query) → key_of a ≡ key_of b → source a ≡ source b
  source-key services_query services_query e = refl
  source-key services_query (symbol_query n) e = absurd (omega (arith, ap first_byte e))
  source-key services_query (extensions_query n) e = absurd (omega (arith, ap first_byte e))
  source-key (symbol_query m) services_query e = absurd (omega (arith, ap first_byte e))
  source-key (symbol_query m) (symbol_query n) e =
      ap (λ x. source (symbol_query x)) (prefix_cancel (codes "fullyQualifiedName:") m n e)
  source-key (symbol_query m) (extensions_query n) e = absurd (omega (arith, ap first_byte e))
  source-key (extensions_query m) services_query e = absurd (omega (arith, ap first_byte e))
  source-key (extensions_query m) (symbol_query n) e = absurd (omega (arith, ap first_byte e))
  source-key (extensions_query m) (extensions_query n) e =
      ap (λ x. source (extensions_query x)) (prefix_cancel (codes "AllExtensionsForType:") m n e)

  abbrev Sound : InnerCache → Type 0
  Sound c = (q : Query) (v : CacheValue) → get c (key_of q) ≡ some v → source q ≡ some v

  put-Sound :
      (c : InnerCache) (q : Query) (v : CacheValue)
      → Sound c
      → source q ≡ some v
      → Sound (put c (key_of q) v)
  put-Sound c q v h e j w k = elim (Bool-cases (bytes_eq (key_of q) (key_of j))) [
    | inl same ↦
        let here : some v ≡ some w = ground (arith, get-put c (key_of q) (key_of j) v, same, k) in
        sym (source-key q j ((bytes_eq_iff (key_of q) (key_of j)).0 same)) ∙ e ∙ here
    | inr other ↦ h j w (ground (arith, get-put c (key_of q) (key_of j) v, other, k))
  ]

  answered_lem :
      {A : Type 0} (c : InnerCache) (q : Query) (assert : CacheValue → Result CallError A)
      (wrap : A → CacheValue) (s : Option A) (o : Option CacheValue)
      → Sound c
      → source q ≡ wrapped wrap s
      → ((a : A) → assert (wrap a) ≡ ok a)
      → get c (key_of q) ≡ o
      → (as_cached wrap (answered c (key_of q) assert wrap s o).1 ≡ plain (wrapped wrap s))
        × Sound (answered c (key_of q) assert wrap s o).0
  unfolding answered asked
  answered_lem c q assert wrap none none h e back k = (refl, h)
  answered_lem c q assert wrap (some a) none h e back k = (refl, put-Sound c q (wrap a) h e)
  answered_lem c q assert wrap none (some v) h e back k = absurd (cc (h q v k, e))
  answered_lem c q assert wrap (some a) (some v) h e back k =
      let same : v ≡ wrap a = some-injective _ _ (sym (h q v k) ∙ e) in
      (ap (as_cached wrap) (ap assert same ∙ back a), h)

  ask_lem :
      (c : InnerCache) (q : Query) → Sound c → ((ask c q).1 ≡ plain (source q)) × Sound (ask c q).0
  unfolding list_services find_symbol all_extensions_for_type
  ask_lem c services_query h =
      answered_lem c services_query as_services services g.list_services (get c services_key) h refl
        (λ a. refl) refl
  ask_lem c (symbol_query n) h =
      answered_lem c (symbol_query n) as_descriptor descriptor (g.find_symbol n)
        (get c (symbol_key n)) h refl (λ a. refl) refl
  ask_lem c (extensions_query n) h =
      answered_lem c (extensions_query n) as_extensions extensions (g.all_extensions_for_type n)
        (get c (extensions_key n)) h refl (λ a. refl) refl

  ask_all_from : (c : InnerCache) (qs : List Query) → Sound c → ask_all c qs ≡ plain_all qs
  unfolding ask_all
  ask_all_from c [] h = refl
  ask_all_from c (q ∷ qs) h =
      let (e, next) = ask_lem c q h in
      ap (λ x. x ∷ ask_all (ask c q).0 qs) e
      ∙ ap (◌∷◌ (plain (source q))) (ask_all_from (ask c q).0 qs next)

  get_empty : (k : Bytes) → get {V = CacheValue} [] k ≡ none
  unfolding get
  get_empty k = refl

  -- From an empty cache, any sequence of calls of the three methods gives what the source itself
  -- gives, its errors included: although the values of all three stand in one cache, no type
  -- assertion on a cached value ever panics.
  pub ask_all_lem : (qs : List Query) → ask_all [] qs ≡ plain_all qs
  ask_all_lem qs = ask_all_from [] qs (λ q v e. absurd (cc (get_empty (key_of q), e)))
