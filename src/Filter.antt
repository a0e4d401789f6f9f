-- ===== src/Filter.antt =====
-- filter/filter.go, filter/include_filter.go, filter/exclude_filter.go and biz/filter.go: what may
-- pass from the inputs to the outputs. A `Filter` is its one method; the message that a filter
-- returns is used only where the chain is not the caller.
pub mod Passing
use grpcreplay.Base.{
  ℕ, Bool, true, false, not, Option, none, some, List, [], ◌∷◌, ◌++◌, Bytes, codes, if◌then◌else◌,
}
use grpcreplay.Base.Text.{contains, is_empty}
use grpcreplay.Packages.{Regexps}
use grpcreplay.Protocol.{Message}

abbrev pub Filter : Type 0
Filter = Message → Option Message

pub record FilterChain : Type 0 where
  pub include_filters : List Filter
  pub exclude_filters : List Filter

unfoldable pub new_chain : FilterChain
new_chain = record { include_filters = []; exclude_filters = [] }

unfoldable pub add_include_filter : FilterChain → Filter → FilterChain
add_include_filter c f = record c { include_filters = c.include_filters ++ f ∷ [] }

unfoldable pub add_exclude_filters : FilterChain → Filter → FilterChain
add_exclude_filters c f = record c { exclude_filters = c.exclude_filters ++ f ∷ [] }

-- One loop of `FilterChain.Filter`: whether it comes to its end.
unfoldable pub all_pass : List Filter → Message → Bool
all_pass [] msg = true
all_pass (f ∷ fs) msg = elim (f msg) [ none ↦ false | some out ↦ all_pass fs msg ]

unfoldable pub chain_filter : FilterChain → Filter
chain_filter c msg =
    if all_pass c.include_filters msg
    then if all_pass c.exclude_filters msg then some msg else none
    else none

unfoldable pub method_exclude_filter : Bytes → Filter
method_exclude_filter exclude msg = if contains msg.method exclude then none else some msg

module _ ⦃r : Regexps⦄ where
  unfoldable pub method_match_include_filter : r.Regexp → Filter
  method_match_include_filter expr msg = if r.match_string expr msg.method then some msg else none

  -- `none`: the program ends, since the expression does not compile.
  unfoldable pub new_filter_chain : Bytes → Option FilterChain
  new_filter_chain include_filter_method_match =
      let c = add_exclude_filters new_chain (method_exclude_filter (codes "grpc.reflection")) in
      if is_empty include_filter_method_match
      then some c
      else elim (r.compile include_filter_method_match) [
        | none ↦ none
        | some expr ↦ some (add_include_filter c (method_match_include_filter expr))
      ]
