-- ===== src/Queue.antt =====
-- plugin/output_rocketmq.go, plugin/input_rocketmq.go and protocol/codec_json.go: a message as JSON
-- through a queue. The client of the queue is a parameter.
use grpcreplay.Base.{
  Option, none, some, List, [], ◌∷◌, Bytes, codes, if◌then◌else◌, Result, ok, err,
}
use grpcreplay.Base.Text.{is_empty}
use grpcreplay.Protocol.{Message}
use grpcreplay.Registry.{Codec, CodecError, err_json}

-- encoding/json for a message.
pub record JsonMessage : Type 0 where
  pub marshal_message : Message → Option Bytes
  pub unmarshal_message : Bytes → Option Message

abbrev pub codec_json_name : Bytes
codec_json_name = codes "json"

-- What a producer or a consumer of the queue is made with; the credentials only if there is a key.
pub record QueueOptions : Type 0 where
  pub name_servers : List Bytes
  pub group_name : Bytes
  pub credentials : Option (Bytes × Bytes)

unfoldable pub queue_options : List Bytes → Bytes → Bytes → Bytes → QueueOptions
queue_options name_servers group_name access_key secret_key = record {
  name_servers = name_servers;
  group_name = group_name;
  credentials = if is_empty access_key then none else some (access_key, secret_key);
}

module _ ⦃j : JsonMessage⦄ where
  abbrev as_result : Option Message → Result CodecError Message
  as_result none = err err_json
  as_result (some msg) = ok msg

  -- `CodecJson`
  unfoldable pub codec_json : Codec
  codec_json = record {
    marshal = j.marshal_message;
    unmarshal = λ bytes. as_result (j.unmarshal_message bytes);
    name = codec_json_name;
  }

  abbrev or_nothing : Option Bytes → Bytes
  or_nothing none = []
  or_nothing (some b) = b

  -- `RocketMQOutput.Write`: the body that is sent with the topic; an error of the JSON package is
  -- dropped, and nothing is sent as the body.
  unfoldable pub queue_write : Bytes → Message → Bytes × Bytes
  queue_write topic msg = (topic, or_nothing (j.marshal_message msg))

  -- `RocketMQInput.Read` from the channel of what has been received: `none` if it blocks.
  unfoldable pub queue_read : List Bytes → Option (List Bytes × Result CodecError Message)
  queue_read [] = none
  queue_read (body ∷ msg_chan) = some (msg_chan, as_result (j.unmarshal_message body))
