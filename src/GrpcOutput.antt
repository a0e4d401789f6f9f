-- ===== src/GrpcOutput.antt =====
-- plugin/output_grpc.go: the descriptor source with a cache, and the call of a message. What the
-- program asks of the grpcurl package is a parameter.
pub mod Cached
pub mod Calls
use grpcreplay.Base.{
  ℕ, Bool, true, false, not, Option, none, some, List, [], ◌∷◌, ◌++◌, Bytes, bytes_key, codes,
  if◌then◌else◌, Result, ok, err, panic,
}
use grpcreplay.Base.Text.{has_prefix, is_empty}
use grpcreplay.GoMap.{GoMap, get, put}
use grpcreplay.Protocol.{MsgItem, Message}

-- grpcurl's `DescriptorSource`; an error is `none`. `request_parser` tells whether the parser and
-- formatter of a body are made, and `invoke_rpc` whether a call with a symbol, headers and a body succeeds.
pub record Grpcurl : Type 1 where
  pub Descriptor : Type 0
  pub Extension : Type 0
  pub list_services : Option (List Bytes)
  pub find_symbol : Bytes → Option Descriptor
  pub all_extensions_for_type : Bytes → Option (List Extension)
  pub request_parser : Bytes → Bool
  pub invoke_rpc : Bytes → List Bytes → Bytes → Bool

pub data CallError : Type 0 where
  source_failed invalid_msg rpc_failed : CallError

module _ ⦃g : Grpcurl⦄ where
  -- What the cache holds: values of any type.
  pub data CacheValue : Type 0 where
    services : List Bytes → CacheValue
    descriptor : g.Descriptor → CacheValue
    extensions : List g.Extension → CacheValue

  abbrev pub InnerCache : Type 0
  InnerCache = GoMap Bytes CacheValue

  -- `(value).(T)` panics on a value of another type.
  abbrev pub as_services : CacheValue → Result CallError (List Bytes)
  as_services (services l) = ok l
  as_services (descriptor x) = panic
  as_services (extensions l) = panic

  abbrev pub as_descriptor : CacheValue → Result CallError g.Descriptor
  as_descriptor (services l) = panic
  as_descriptor (descriptor x) = ok x
  as_descriptor (extensions l) = panic

  abbrev pub as_extensions : CacheValue → Result CallError (List g.Extension)
  as_extensions (services l) = panic
  as_extensions (descriptor x) = panic
  as_extensions (extensions l) = ok l

  -- The three methods by what they have in common: the key, the type and the source's answer.
  asked :
      {A : Type 0}
      → InnerCache
      → Bytes
      → (A → CacheValue)
      → Option A
      → InnerCache × Result CallError A
  asked inner_cache key wrap none = (inner_cache, err source_failed)
  asked inner_cache key wrap (some a) = (put inner_cache key (wrap a), ok a)

  answered :
      {A : Type 0}
      → InnerCache
      → Bytes
      → (CacheValue → Result CallError A)
      → (A → CacheValue)
      → Option A
      → Option CacheValue
      → InnerCache × Result CallError A
  unfolding asked
  answered inner_cache key assert wrap source (some value) = (inner_cache, assert value)
  answered inner_cache key assert wrap source none = asked inner_cache key wrap source

  abbrev pub services_key : Bytes
  services_key = codes "ListServices"

  abbrev pub symbol_key : Bytes → Bytes
  symbol_key fully_qualified_name = codes "fullyQualifiedName:" ++ fully_qualified_name

  abbrev pub extensions_key : Bytes → Bytes
  extensions_key type_name = codes "AllExtensionsForType:" ++ type_name

  unfoldable pub list_services : InnerCache → InnerCache × Result CallError (List Bytes)
  unfolding answered
  list_services inner_cache =
      answered inner_cache services_key as_services services g.list_services
        (get inner_cache services_key)

  unfoldable pub find_symbol : InnerCache → Bytes → InnerCache × Result CallError g.Descriptor
  unfolding answered
  find_symbol inner_cache fully_qualified_name =
      answered inner_cache (symbol_key fully_qualified_name) as_descriptor descriptor
        (g.find_symbol fully_qualified_name) (get inner_cache (symbol_key fully_qualified_name))

  unfoldable pub all_extensions_for_type :
      InnerCache → Bytes → InnerCache × Result CallError (List g.Extension)
  unfolding answered
  all_extensions_for_type inner_cache type_name =
      answered inner_cache (extensions_key type_name) as_extensions extensions
        (g.all_extensions_for_type type_name) (get inner_cache (extensions_key type_name))

unfoldable pub is_pseudo : Bytes → Bool
is_pseudo key = has_prefix key (codes ":")

unfoldable pub convert_headers : GoMap Bytes Bytes → List Bytes
unfolding is_pseudo
convert_headers [] = []
convert_headers ((key, value) ∷ headers) =
    let rest = convert_headers headers in
    if is_pseudo key then rest else (key ++ (b':' ∷ value)) ∷ rest

-- `none`: the request is nil.
unfoldable pub convert_header : Message → Option (List Bytes)
convert_header msg = elim msg.request [
  | none ↦ none
  | some item ↦ some (convert_headers item.headers)
]

unfoldable pub symbol_of : Bytes → Bytes
symbol_of [] = []
symbol_of (c ∷ s) = if has_prefix (c ∷ s) (codes "/") then s else c ∷ s

module _ ⦃g : Grpcurl⦄ where
  -- An RPC that is asked of the server: symbol, headers and body.
  abbrev pub Attempt : Type 0
  Attempt = Bytes × List Bytes × Bytes

  -- The call with a request; a parser that is not made ends the program.
  invoked : Bytes → Option MsgItem → List Attempt × Result CallError (Unit {0})
  invoked method none = ([], panic)
  invoked method (some item) =
      let attempt : Attempt = (symbol_of method, convert_headers item.headers, item.body) in
      let made : List Attempt × Result CallError (Unit {0}) = (
        attempt ∷ [],
        if g.invoke_rpc attempt.0 attempt.1 attempt.2 then ok tt else err rpc_failed,
      ) in
      if g.request_parser item.body then made else ([], panic)

  -- What `Call` asks of the server, and what it returns.
  unfoldable pub call : Message → List Attempt × Result CallError (Unit {0})
  unfolding invoked
  call msg = if is_empty msg.method then ([], err invalid_msg) else invoked msg.method msg.request

  -- An error is logged; a panic ends the worker.
  abbrev pub go_on :
      List Attempt × Result CallError (Unit {0}) → List Attempt × Bool → List Attempt × Bool
  go_on (made, ok done) rest = (made ++ rest.0, rest.1)
  go_on (made, err e) rest = (made ++ rest.0, rest.1)
  go_on (made, panic) rest = (made, false)

  -- A worker takes the messages of the channel one by one: what it asks of the server, and whether it
  -- has not panicked.
  unfoldable pub execute : List Message → List Attempt × Bool
  execute [] = ([], true)
  execute (msg ∷ msgs) = go_on (call msg) (execute msgs)
