-- ===== src/MethodFinder/Symbol.antt =====
-- The names in a symbol.
use grpcreplay.Base.{ℕ, ◌≡◌, ◌≢◌, refl, ap, [], ◌∷◌, ◌++◌, Bytes, arith, length, ==_ne, ok}
use grpcreplay.Base.Split.{Lacks, last_index-append, last_index-none, All-append}
use grpcreplay.MethodFinder.{parse_symbol, cut_at}

cut_at_sep :
    (svc method : Bytes) (sep : ℕ) → cut_at (svc ++ (sep ∷ method)) (length svc) ≡ (svc, method)
cut_at_sep [] method sep = refl
cut_at_sep (c ∷ svc) method sep =
    ap (λ (x : Bytes × Bytes). (c ∷ x.0, x.1)) (cut_at_sep svc method sep)

plain :
    (c : ℕ) (svc method : Bytes)
    → c ≢ b'/'
    → Lacks b'/' method
    → parse_symbol ((c ∷ svc) ++ (b'/' ∷ method)) ≡ ok (c ∷ svc, method)
unfolding parse_symbol
plain c svc method hc h =
    let e = last_index-append (c ∷ svc) method b'/' h in
    let q = cut_at_sep (c ∷ svc) method b'/' in ground (arith, ==_ne c b'/' hc, e, q)

slashed :
    (c : ℕ) (svc method : Bytes)
    → Lacks b'/' method
    → parse_symbol (b'/' ∷ ((c ∷ svc) ++ (b'/' ∷ method))) ≡ ok (c ∷ svc, method)
unfolding parse_symbol
slashed c svc method h =
    let e = last_index-append (c ∷ svc) method b'/' h in
    let q = cut_at_sep (c ∷ svc) method b'/' in ground (arith, e, q)

dotted :
    (c : ℕ) (svc method : Bytes)
    → c ≢ b'/'
    → Lacks b'/' svc
    → Lacks b'/' method
    → Lacks b'.' method
    → parse_symbol ((c ∷ svc) ++ (b'.' ∷ method)) ≡ ok (c ∷ svc, method)
unfolding parse_symbol
dotted c svc method hc hs hm h =
    let e = last_index-append (c ∷ svc) method b'.' h in
    let n =
      last_index-none ((c ∷ svc) ++ (b'.' ∷ method)) b'/'
        (All-append (λ b. b ≢ b'/') (c ∷ svc) (b'.' ∷ method) (hc, hs) (omega arith, hm)) in
    let q = cut_at_sep (c ∷ svc) method b'.' in ground (arith, ==_ne c b'/' hc, e, n, q)

-- A service name without slashes and a method name without slashes and dots are found in all three
-- ways to write them: /service/method, service/method and service.method.
pub parse_symbol_lem :
    (c : ℕ) (svc method : Bytes)
    → Lacks b'/' (c ∷ svc)
    → Lacks b'/' method
    → Lacks b'.' method
    → (parse_symbol (b'/' ∷ ((c ∷ svc) ++ (b'/' ∷ method))) ≡ ok (c ∷ svc, method))
      × (parse_symbol ((c ∷ svc) ++ (b'/' ∷ method)) ≡ ok (c ∷ svc, method))
      × (parse_symbol ((c ∷ svc) ++ (b'.' ∷ method)) ≡ ok (c ∷ svc, method))
parse_symbol_lem c svc method (hc, hs) hm hd =
    (slashed c svc method hm, plain c svc method hc hm, dotted c svc method hc hs hm hd)
