-- ===== src/Filter/Passing.antt =====
-- Which messages a chain of filters lets pass.
use grpcreplay.Base.{
  ◌≡◌, refl, ap, Bool, true, false, not, ◌&&◌, Option, none, some, [], ◌∷◌, Bytes, codes,
  if◌then◌else◌, arith, Bool-cases, inl, inr,
}
use mathlib.Core.Option.{some-injective, none-ne-some}
use grpcreplay.Base.Text.{contains, is_empty}
use grpcreplay.Packages.{Regexps}
use grpcreplay.Protocol.{Message}
use grpcreplay.Filter.{
  FilterChain, new_chain, add_include_filter, add_exclude_filters, all_pass, chain_filter,
  method_exclude_filter, method_match_include_filter, new_filter_chain,
}

module _ ⦃r : Regexps⦄ where
  -- What the filters of the program let pass: no reflection call, and with an expression only the
  -- methods that it matches.
  abbrev pub may_pass : Option r.Regexp → Bytes → Bool
  may_pass none method = not (contains method (codes "grpc.reflection"))
  may_pass (some expr) method =
      r.match_string expr method && not (contains method (codes "grpc.reflection"))

  abbrev compiled_by : Bool → Option r.Regexp → Option (Option r.Regexp)
  compiled_by true o = some none
  compiled_by false none = none
  compiled_by false (some expr) = some (some expr)

  -- The expression of a pattern, if there is a pattern.
  abbrev pub compiled : Bytes → Option (Option r.Regexp)
  compiled pattern = compiled_by (is_empty pattern) (r.compile pattern)

  abbrev plain_chain : FilterChain
  plain_chain = add_exclude_filters new_chain (method_exclude_filter (codes "grpc.reflection"))

  abbrev the_chain : Option r.Regexp → FilterChain
  the_chain none = plain_chain
  the_chain (some expr) = add_include_filter plain_chain (method_match_include_filter expr)

  exclude_passes :
      (exclude : Bytes) (msg : Message)
      → all_pass (method_exclude_filter exclude ∷ []) msg ≡ not (contains msg.method exclude)
  unfolding all_pass method_exclude_filter
  exclude_passes exclude msg = elim (Bool-cases (contains msg.method exclude)) [
    | inl found ↦ ground (arith, found)
    | inr absent ↦ ground (arith, absent)
  ]

  match_passes :
      (expr : r.Regexp) (msg : Message)
      → all_pass (method_match_include_filter expr ∷ []) msg ≡ r.match_string expr msg.method
  unfolding all_pass method_match_include_filter
  match_passes expr msg = elim (Bool-cases (r.match_string expr msg.method)) [
    | inl hit ↦ ground (arith, hit)
    | inr miss ↦ ground (arith, miss)
  ]

  chosen :
      (a b : Bool) (msg : Message)
      → (if a then if b then some msg else none else none) ≡ (if a && b then some msg else none)
  chosen true b msg = refl
  chosen false b msg = refl

  the_chain_passes :
      (expr : Option r.Regexp) (msg : Message)
      → chain_filter (the_chain expr) msg ≡ (if may_pass expr msg.method then some msg else none)
  unfolding add_include_filter add_exclude_filters new_chain chain_filter all_pass contains
  the_chain_passes none msg =
      rw (exclude_passes (codes "grpc.reflection") msg, chain_filter)
        (chosen true (not (contains msg.method (codes "grpc.reflection"))) msg)
  the_chain_passes (some expr) msg =
      rw (exclude_passes (codes "grpc.reflection") msg, match_passes expr msg, chain_filter)
        (chosen (r.match_string expr msg.method)
          (not (contains msg.method (codes "grpc.reflection"))) msg)

  abbrev chain_by : Bool → Option r.Regexp → Option FilterChain
  chain_by empty o = if empty then some plain_chain else elim o [
    | none ↦ none
    | some expr ↦ some (add_include_filter plain_chain (method_match_include_filter expr))
  ]

  chain_by_lem :
      (empty : Bool) (o : Option r.Regexp) (expr : Option r.Regexp)
      → compiled_by empty o ≡ some expr
      → chain_by empty o ≡ some (the_chain expr)
  chain_by_lem true o expr e = ap (λ x. some (the_chain x)) (some-injective none expr e)
  chain_by_lem false none expr e = absurd (none-ne-some expr e)
  chain_by_lem false (some x) expr e = ap (λ y. some (the_chain y)) (some-injective (some x) expr e)

  built :
      (pattern : Bytes) (expr : Option r.Regexp)
      → compiled pattern ≡ some expr
      → new_filter_chain pattern ≡ some (the_chain expr)
  unfolding new_filter_chain
  built pattern expr e = chain_by_lem (is_empty pattern) (r.compile pattern) expr e

  -- With a pattern that compiles, or none at all, the program has a filter chain, and the chain lets a
  -- message pass, unchanged, exactly if its method matches the pattern (if there is one) and does
  -- not contain "grpc.reflection".
  pub new_filter_chain_passes :
      (pattern : Bytes) (expr : Option r.Regexp)
      → compiled pattern ≡ some expr
      → (c : FilterChain) × (new_filter_chain pattern ≡ some c)
        × ((msg : Message)
            → chain_filter c msg ≡ (if may_pass expr msg.method then some msg else none))
  new_filter_chain_passes pattern expr e =
      (the_chain expr, built pattern expr e, λ msg. the_chain_passes expr msg)
