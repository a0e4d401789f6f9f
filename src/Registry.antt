-- ===== src/Registry.antt =====
-- protocol/encoding.go: the codecs of messages by name, a map that `RegisterCodec` fills.
use grpcreplay.Base.{
  ◌+◌, ◌≡◌, false, ◌&&◌, Option, none, some, refl, map, Bytes, bytes_eq, bytes_key, leb,
  if◌then◌else◌, Result,
}
use grpcreplay.Base.Text.{is_empty}
use grpcreplay.GoMap.{GoMap, get, put, get-put}
use grpcreplay.Protocol.{Message}

-- How `Unmarshal` fails; `err_protocol` is `consts.ErrProtocal`.
pub data CodecError : Type 0 where
  err_protocol err_number err_json : CodecError

-- The interface; an error of `Marshal` is `none`.
pub record Codec : Type 0 where
  pub marshal : Message → Option Bytes
  pub unmarshal : Bytes → Result CodecError Message
  pub name : Bytes

-- `strings.ToLower` on ASCII.
abbrev pub to_lower : Bytes → Bytes
to_lower s = map (λ c. if leb 65 c && leb c 90 then c + 32 else c) s

-- A nil codec and an empty name are panics, so `none`.
unfoldable pub register_codec : GoMap Bytes Codec → Option Codec → Option (GoMap Bytes Codec)
register_codec registered_codecs none = none
register_codec registered_codecs (some codec) =
    if is_empty codec.name then none else some (put registered_codecs (to_lower codec.name) codec)

unfoldable pub get_codec : GoMap Bytes Codec → Bytes → Option Codec
get_codec registered_codecs codec_type = get registered_codecs codec_type

-- A codec with a name is registered under the name in lower case, in place of the one that was
-- there, and every other name has the codec that it had.
pub get_codec-register_codec :
    (m : GoMap Bytes Codec) (codec : Codec)
    → is_empty codec.name ≡ false
    → (m' : GoMap Bytes Codec) × (register_codec m (some codec) ≡ some m')
      × ((codec_type : Bytes)
          → get_codec m' codec_type ≡ (
              if bytes_eq (to_lower codec.name) codec_type
              then some codec
              else get_codec m codec_type))
unfolding register_codec get_codec
get_codec-register_codec m codec e = (
  put m (to_lower codec.name) codec,
  rw e refl,
  λ codec_type. get-put m (to_lower codec.name) codec_type codec,
)
