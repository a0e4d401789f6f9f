-- ===== src/GrpcOutput/Calls.antt =====
-- What a message becomes.
use grpcreplay.Base.{
  ℕ, Bool, false, ◌==◌, ◌≡◌, true, some, List, [], ◌∷◌, ◌++◌, Bytes, bytes_key, if◌then◌else◌, All,
}
use grpcreplay.GoMap.{GoMap}
use grpcreplay.Protocol.{MsgItem, Message}
use grpcreplay.GrpcOutput.{Grpcurl}

-- The first byte is this one.
abbrev pub begins : ℕ → Bytes → Bool
begins b [] = false
begins b (c ∷ s) = c == b

-- The entries of a map whose key does not begin with a colon.
abbrev pub own : GoMap Bytes Bytes → GoMap Bytes Bytes
own [] = []
own ((key, value) ∷ headers) =
    let rest = own headers in if begins b':' key then rest else (key, value) ∷ rest

-- A method without a first slash.
abbrev pub bare : Bytes → Bytes
bare [] = []
bare (c ∷ s) = if c == b'/' then s else c ∷ s

abbrev pub lines_of : GoMap Bytes Bytes → List Bytes
lines_of [] = []
lines_of ((key, value) ∷ headers) = (key ++ (b':' ∷ value)) ∷ lines_of headers

module _ ⦃g : Grpcurl⦄ where
  -- A request that can be called: it has a method and a request whose parser is made.
  pub record IsCallable (m : Message) : Type 0 where
    pub item : MsgItem
    pub requested : m.request ≡ some item
    pub parsed : g.request_parser item.body ≡ true

  -- What is to be asked of the server: nothing for a message that has no method.
  abbrev pub made_of : Bytes → MsgItem → List (Bytes × List Bytes × Bytes)
  made_of [] item = []
  made_of (c ∷ s) item = (bare (c ∷ s), lines_of (own item.headers), item.body) ∷ []

  abbrev pub expected : (ms : List Message) → All IsCallable ms → List (Bytes × List Bytes × Bytes)
  expected [] h = []
  expected (m ∷ ms) (k, h) = made_of m.method k.item ++ expected ms h
