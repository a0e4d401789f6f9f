-- ===== src/Conn.antt =====
-- http2/http2.go: one HTTP/2 connection with its two message parsers, its array of stream slots, and
-- a handler for each frame type. The handlers of the two directions run in two goroutines: a handler
-- is one step, but for the wait in which a finished response waits for its request, which is a
-- result of its own; `finish_stream` is then the rest of that handler. Messages are appended to
-- `outbox` where the source sends them to `OutputChan`.
use grpcreplay.Base.{
  ℕ, ◌%◌, Bool, true, none, some, List, [], ◌∷◌, ◌++◌, Bytes, ◌==◌, bytes_key, if◌then◌else◌, ok,
  err, panic,
}
use grpcreplay.GoMap.{GoMap, put}
use grpcreplay.NetPkg.{DirectConn}
use grpcreplay.Packages.{SkipList, Hpack, Codecs}
use grpcreplay.Protocol.{Message}
use grpcreplay.TcpBuffer.{TcpBuffer, new_tcp_buffer}
use grpcreplay.Stream.{HttpItem, Stream, new_stream}
use grpcreplay.Frame.{
  FrameBase, GrpcMessage, parse_frame_data, parse_frame_header, parse_frame_continuation,
  parse_grpc_message,
}

abbrev pub stream_array_size : ℕ
stream_array_size = 10000

abbrev pub http2_initial_header_table_size : ℕ
http2_initial_header_table_size = 4096

module _ ⦃s : SkipList⦄ ⦃h : Hpack⦄ ⦃c : Codecs⦄ where
  pub record MessageParser : Type 0 where
    pub tcp_buffer : TcpBuffer
    pub max_dynamic_table_size : ℕ
    pub header_decoder : h.Decoder

  unfoldable pub new_message_parser : ℕ → MessageParser
  new_message_parser size = record {
    tcp_buffer = new_tcp_buffer;
    max_dynamic_table_size = size;
    header_decoder = h.new_decoder size;
  }

  -- `in_repository` is whether the processor's `ConnRepository` still has the connection.
  pub record Http2Conn : Type 0 where
    pub direct_conn : DirectConn
    pub streams : ℕ → Stream
    pub input : MessageParser
    pub output : MessageParser
    pub record_response : Bool
    pub outbox : List Message
    pub in_repository : Bool

  unfoldable pub new_http2_conn : DirectConn → ℕ → Bool → Http2Conn
  unfolding new_message_parser
  new_http2_conn conn size record_response = record {
    direct_conn = conn;
    streams = λ slot. new_stream record_response;
    input = new_message_parser size;
    output = new_message_parser size;
    record_response = record_response;
    outbox = [];
    in_repository = true;
  }

  -- How a handler ends. `waits`: in `WaitTimeout`, for the request in this slot or the time to pass.
  -- `blocked`: on a send to a full channel. `crashed`: by a panic.
  pub data Outcome : Type 0 where
    running : Http2Conn → Outcome
    waits : Http2Conn → ℕ → Outcome
    blocked : Outcome
    crashed : Outcome

  -- How the work on one item ends; `item_error`: a frame that does not parse, the item not touched.
  pub data ItemResult : Type 0 where
    item_done : h.Decoder → HttpItem → ItemResult
    item_error : h.Decoder → ItemResult
    item_panic : ItemResult

  unfoldable pub slot_of : FrameBase → ℕ
  slot_of f = f.stream_id % stream_array_size

  unfoldable pub set_stream : Http2Conn → ℕ → Stream → Http2Conn
  set_stream hc slot stream = record hc {
    streams = λ i. if i == slot then stream else hc.streams i;
  }

  -- What is appended to the buffer: the message, unpacked if it says so.
  write_message : HttpItem → GrpcMessage → HttpItem
  write_message item msg =
      if msg.payload_format == 1
      then elim (c.gunzip msg.encoded_message) [
        | none ↦ item
        | some plain ↦ record item { data_buf = item.data_buf ++ plain }
      ]
      else record item { data_buf = item.data_buf ++ msg.encoded_message }

  write_data : HttpItem → Bytes → h.Decoder → ItemResult
  unfolding write_message
  write_data item [] decoder = item_done decoder item
  write_data item (x ∷ xs) decoder = elim (parse_grpc_message (x ∷ xs)) [
    | ok msg ↦ item_done decoder (write_message item msg)
    | err e ↦ item_done decoder item
    | panic ↦ item_panic
  ]

  -- `_processFrameData`
  unfoldable pub process_item_data : FrameBase → h.Decoder → HttpItem → ItemResult
  unfolding write_data
  process_item_data f decoder item = elim (parse_frame_data f) [
    | err e ↦ item_error decoder
    | panic ↦ item_panic
    | ok fd ↦ write_data (record item { end_stream = fd.end_stream }) fd.content decoder
  ]

  store_all : GoMap Bytes Bytes → List (Bytes × Bytes) → GoMap Bytes Bytes
  store_all headers [] = headers
  store_all headers ((name, value) ∷ fields) = store_all (put headers name value) fields

  -- `DecodeFull` and the loop over its fields.
  decode_headers : h.Decoder → Bytes → HttpItem → ItemResult
  unfolding store_all
  decode_headers decoder fragment item =
      let (decoder', found) = h.decode_full decoder fragment in
      elim found [
        | none ↦ item_done decoder' item
        | some fields ↦ item_done decoder' (record item { headers = store_all item.headers fields })
      ]

  -- `_processFrameHeader`
  unfoldable pub process_item_header : FrameBase → h.Decoder → HttpItem → ItemResult
  unfolding decode_headers
  process_item_header f decoder item = elim (parse_frame_header f) [
    | err e ↦ item_error decoder
    | panic ↦ item_panic
    | ok fh ↦
        decode_headers decoder fh.header_block_fragment
          (record item { end_header = fh.end_header; end_stream = fh.end_stream })
  ]

  -- `_processFrameContinuation`
  unfoldable pub process_item_continuation : FrameBase → h.Decoder → HttpItem → ItemResult
  unfolding decode_headers
  process_item_continuation f decoder item = elim (parse_frame_continuation f) [
    | err e ↦ item_error decoder
    | panic ↦ item_panic
    | ok fc ↦
        decode_headers decoder fc.header_block_fragment (record item { end_header = fc.end_header })
  ]
