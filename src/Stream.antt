-- ===== src/Stream.antt =====
-- http2/http2.go: a stream of a connection with its request and its response, and `toMsg`, by which a
-- finished stream becomes a message.
use grpcreplay.Base.{
  ℕ, Bool, true, false, Option, none, some, [], Bytes, codes, bytes_eq, bytes_key, if◌then◌else◌,
  Result, ok, err, panic,
}
use grpcreplay.Base.Int.{pos}
use grpcreplay.Base.Text.{contains, is_empty, trim_space}
use grpcreplay.GoMap.{GoMap, get}
use grpcreplay.Packages.{Codecs}
use grpcreplay.Protocol.{MsgItem, Message}

pub record HttpItem : Type 0 where
  pub end_header : Bool
  pub end_stream : Bool
  pub headers : GoMap Bytes Bytes
  pub data_buf : Bytes

unfoldable pub new_http_item : HttpItem
new_http_item = record { end_header = false; end_stream = false; headers = []; data_buf = [] }

unfoldable pub reset_item : HttpItem → HttpItem
reset_item item = record item {
  end_header = false;
  end_stream = false;
  headers = [];
  data_buf = [];
}

-- `done` holds whether the channel, of capacity one, has an element.
pub record Stream : Type 0 where
  pub stream_id : ℕ
  pub record_response : Bool
  pub request : HttpItem
  pub response : Option HttpItem
  pub done : Bool

unfoldable pub new_stream : Bool → Stream
unfolding new_http_item
new_stream record_response = record {
  stream_id = 0;
  record_response = record_response;
  request = new_http_item;
  response = if record_response then some new_http_item else none;
  done = false;
}

reset_response : Option HttpItem → Option HttpItem
unfolding reset_item
reset_response none = none
reset_response (some item) = some (reset_item item)

unfoldable pub reset : Stream → Stream
unfolding reset_item reset_response
reset s = record s {
  stream_id = 0;
  request = reset_item s.request;
  response = reset_response s.response;
  done = false;
}

-- `getMethod`: the keys of a map are distinct, so the last one met is the only one.
unfoldable pub get_method : GoMap Bytes Bytes → Bytes
get_method m = elim (get m (codes ":path")) [ none ↦ [] | some method ↦ method ]

pub data Codec : Type 0 where
  codec_protobuf codec_other : Codec

-- http2/processor.go
unfoldable pub get_codec_type : GoMap Bytes Bytes → Codec
get_codec_type headers = elim (get headers (codes "content-type")) [
  | none ↦ codec_protobuf
  | some content_type ↦
      if bytes_eq content_type (codes "application/grpc") then codec_protobuf else codec_other
]

-- What `uuid.NewUUID` and `time.Now` gave.
pub record Stamp : Type 0 where
  pub uuid : Bytes
  pub now : ℕ

pub data MsgError : Type 0 where
  method_empty method_reflection type_unknown body_unreadable response_nil : MsgError

module _ ⦃c : Codecs⦄ where
  -- `finder.Get`: the message types of a method.
  abbrev pub Finder : Type 0
  Finder = Bytes → Option (c.Descriptor × c.Descriptor)

  to_body : Option c.Descriptor → Bytes → Result MsgError Bytes
  to_body none bytes = err type_unknown
  to_body (some type) bytes = elim (c.to_json type bytes) [
    | none ↦ err body_unreadable
    | some json ↦ ok json
  ]

  in_type : Option (c.Descriptor × c.Descriptor) → Option c.Descriptor
  in_type none = none
  in_type (some types) = some types.0

  out_type : Option (c.Descriptor × c.Descriptor) → Option c.Descriptor
  out_type none = none
  out_type (some types) = some types.1

  item_body : Codec → Option c.Descriptor → Bytes → Result MsgError Bytes
  unfolding to_body
  item_body codec_protobuf type bytes = to_body type bytes
  item_body codec_other type bytes = ok bytes

  -- The part of a message that an item becomes; `type` is what the finder said of the method.
  unfoldable pub to_msg_item : Option c.Descriptor → HttpItem → Result MsgError MsgItem
  unfolding item_body
  to_msg_item type item = elim (item_body (get_codec_type item.headers) type item.data_buf) [
    | ok body ↦ ok (record { headers = item.headers; body = body })
    | err e ↦ err e
    | panic ↦ panic
  ]

  -- A nil response is dereferenced only where responses are recorded, and is not nil there.
  response_part : Bool → Option c.Descriptor → Option HttpItem → Result MsgError (Option MsgItem)
  unfolding to_msg_item
  response_part false type response = ok none
  response_part true type none = panic
  response_part true type (some item) = elim (to_msg_item type item) [
    | ok part ↦ ok (some part)
    | err e ↦ err e
    | panic ↦ panic
  ]

  unfoldable pub to_msg : Finder → Stamp → Stream → Result MsgError Message
  unfolding in_type out_type response_part to_msg_item
  to_msg finder stamp s =
      let method = trim_space (get_method s.request.headers) in
      if is_empty method
      then err method_empty
      else if contains method (codes "grpc.reflection")
      then err method_reflection
      else elim (to_msg_item (in_type (finder method)) s.request) [
        | err e ↦ err e
        | panic ↦ panic
        | ok request ↦
            elim (response_part s.record_response (out_type (finder method)) s.response) [
              | err e ↦ err e
              | panic ↦ panic
              | ok response ↦ ok (record {
                meta = record {
                  version = pos 2;
                  uuid = stamp.uuid;
                  timestamp = pos stamp.now;
                  contain_response = s.record_response;
                };
                method = method;
                request = some request;
                response = response;
              })
            ]
      ]
