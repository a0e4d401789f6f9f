-- ===== src/CodecSimple.antt =====
-- protocol/codec_simple.go: a message as three or four lines of text. The items are JSON, by
-- encoding/json.
pub mod RoundTrip
pub mod Lines
pub mod Truncated
use grpcreplay.Base.{
  ℕ, zero, suc, Bool, true, false, ◌&&◌, Option, none, some, List, [], ◌∷◌, ◌++◌, Bytes, codes, leb,
  ltb, ◌==◌, if◌then◌else◌, length, get_elem?, Result, ok, err, panic, ◌>>=◌,
}
use grpcreplay.Base.Int.{ℤ, pos, negsuc}
use grpcreplay.Base.Decimal.{format_int, atoi}
use grpcreplay.Base.Split.{split}
use grpcreplay.Packages.{Json}
use grpcreplay.Protocol.{Meta, MsgItem, Message}
use grpcreplay.Registry.{Codec, CodecError, err_protocol, err_number, err_json}

abbrev pub codec_simple_name : Bytes
codec_simple_name = codes "simple"

unfoldable pub bool2int : Bool → ℤ
bool2int true = pos 1
bool2int false = pos 0

unfoldable pub int2bool : ℤ → Bool
int2bool (pos n) = ltb 0 n
int2bool (negsuc n) = false

-- An error value in place of `none`.
abbrev pub or_error {ℓ} : {A : Type ℓ} → CodecError → Option A → Result CodecError A
or_error e none = err e
or_error e (some a) = ok a

-- `lines[i]`
abbrev pub at_line : List Bytes → ℕ → Result CodecError Bytes
at_line lines i = elim (get_elem? lines i) [ none ↦ panic | some line ↦ ok line ]

-- {version} {uuid} {start-timestamp} {containResponse}
unfoldable pub meta_line : Meta → Bytes
unfolding bool2int
meta_line m =
    format_int m.version
    ++ (b' '
        ∷ (m.uuid
            ++ (b' '
                ∷ (format_int m.timestamp ++ (b' ' ∷ format_int (bool2int m.contain_response))))))

unfoldable pub parse_meta : List Bytes → Result CodecError Meta
unfolding int2bool
parse_meta (version ∷ uuid ∷ timestamp ∷ contain_response ∷ []) =
    or_error err_number (atoi version) >>= λ v. or_error err_number (atoi timestamp) >>= λ t.
    or_error err_number (atoi contain_response) >>= λ r.
    ok (record { version = v; uuid = uuid; timestamp = t; contain_response = int2bool r })
parse_meta _ = err err_protocol

module _ ⦃j : Json⦄ where
  unfoldable pub marshal_response : Bool → Option MsgItem → Option Bytes
  marshal_response false response = some []
  marshal_response true response = elim (j.marshal_item response) [
    | none ↦ none
    | some bytes ↦ some (b'\n' ∷ bytes)
  ]

  -- `none`: an error of the JSON package.
  unfoldable pub marshal : Message → Option Bytes
  unfolding meta_line marshal_response
  marshal msg = elim (j.marshal_item msg.request) [
    | none ↦ none
    | some request ↦ elim (marshal_response msg.meta.contain_response msg.response) [
      | none ↦ none
      | some response ↦
          some (meta_line msg.meta ++ (b'\n' ∷ (msg.method ++ (b'\n' ∷ (request ++ response)))))
    ]
  ]

  -- The response is a new item if the message says that it has one, and is read over that if there
  -- is a line for it.
  parse_response : Bool → List Bytes → Result CodecError (Option MsgItem)
  parse_response false lines = ok none
  parse_response true lines =
      if leb 4 (length lines)
      then (at_line lines 3 >>= λ line. or_error err_json (j.unmarshal_item line))
      else ok (some (record { headers = []; body = [] }))

  -- `Unmarshal` into a zero message.
  unfoldable pub unmarshal : Bytes → Result CodecError Message
  unfolding parse_meta parse_response
  unmarshal text =
      let lines = split text b'\n' in
      at_line lines 0 >>= λ line1. parse_meta (split line1 b' ') >>= λ meta.
      at_line lines 1 >>= λ method. at_line lines 2 >>= λ line3.
      or_error err_json (j.unmarshal_item line3) >>= λ request.
      parse_response meta.contain_response lines >>= λ response.
      ok (record { meta = meta; method = method; request = request; response = response })

  unfoldable pub codec_simple : Codec
  codec_simple = record { marshal = marshal; unmarshal = unmarshal; name = codec_simple_name }
