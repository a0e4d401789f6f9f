-- ===== src/Protocol.antt =====
-- protocol/protocol.go: what the plugins exchange. A nil pointer is `none`.
use grpcreplay.Base.{◌≡◌, Bool, true, Option, none, some, Bytes, bytes_key}
use grpcreplay.Base.Int.{ℤ}
use grpcreplay.GoMap.{GoMap, get}

pub record Meta : Type 0 where
  pub version : ℤ
  pub uuid : Bytes
  pub timestamp : ℤ
  pub contain_response : Bool

pub record MsgItem : Type 0 where
  pub headers : GoMap Bytes Bytes
  pub body : Bytes

pub record Message : Type 0 where
  pub meta : Meta
  pub method : Bytes
  pub request : Option MsgItem
  pub response : Option MsgItem

-- Every string of the item is accepted.
abbrev pub IsText : (Bytes → Bool) → Option MsgItem → Type 0
IsText valid none = Unit
IsText valid (some item) =
    (valid item.body ≡ true)
    × ((key value : Bytes)
        → get item.headers key ≡ some value
        → (valid key ≡ true) × (valid value ≡ true))

-- Items that no reader of their maps can tell apart.
abbrev pub SameItem : Option MsgItem → Option MsgItem → Type 0
SameItem none none = Unit
SameItem none (some y) = ⊥
SameItem (some x) none = ⊥
SameItem (some x) (some y) =
    (x.body ≡ y.body) × ((key : Bytes) → get x.headers key ≡ get y.headers key)

pub record SameMessage (x y : Message) : Type 0 where
  pub same_meta : x.meta ≡ y.meta
  pub same_method : x.method ≡ y.method
  pub same_request : SameItem x.request y.request
  pub same_response : SameItem x.response y.response
