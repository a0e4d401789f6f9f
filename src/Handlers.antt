-- ===== src/Handlers.antt =====
-- http2/http2.go: `ProcessFrame` and the handler of each frame type. `Wait…` and `FinishStream` come
-- at the end of the handlers of DATA and HEADERS frames.
pub mod Kept
pub mod Items
pub mod Isolation
use grpcreplay.Base.{
  ℕ, Bool, true, false, not, ◌&&◌, Option, none, some, List, [], ◌∷◌, ◌++◌, ◌==◌, bytes_key,
  if◌then◌else◌, ok, err, panic,
}
use grpcreplay.Packages.{SkipList, Hpack, Codecs}
use grpcreplay.Stream.{HttpItem, Finder, Stamp, reset, to_msg}
use grpcreplay.Frame.{
  FrameBase, Setting, parse_frame_setting, setting_header_table_size, frame_type_data,
  frame_type_header, frame_type_continuation, frame_type_rst_stream, frame_type_go_away,
  frame_type_setting,
}
use grpcreplay.Conn.{
  MessageParser, Http2Conn, Outcome, running, waits, blocked, crashed, ItemResult, item_done,
  item_error, item_panic, slot_of, set_stream, process_item_data, process_item_header,
  process_item_continuation,
}

module _ ⦃s : SkipList⦄ ⦃h : Hpack⦄ ⦃c : Codecs⦄ where
  -- The sides of a frame: the parser and the item that it concerns.
  unfoldable pub parser_of : Bool → Http2Conn → MessageParser
  parser_of true hc = hc.input
  parser_of false hc = hc.output

  unfoldable pub set_parser : Bool → Http2Conn → MessageParser → Http2Conn
  set_parser true hc parser = record hc { input = parser }
  set_parser false hc parser = record hc { output = parser }

  unfoldable pub set_decoder : Bool → Http2Conn → h.Decoder → Http2Conn
  unfolding parser_of set_parser
  set_decoder side hc decoder =
      set_parser side hc (record (parser_of side hc) { header_decoder = decoder })

  -- `FinishStream`
  unfoldable pub finish_stream : Finder → Stamp → ℕ → Http2Conn → Outcome
  finish_stream finder stamp slot hc =
      let stream = hc.streams slot in
      elim (to_msg finder stamp stream) [
        | ok msg ↦
            running (set_stream (record hc { outbox = hc.outbox ++ msg ∷ [] }) slot (reset stream))
        | err e ↦ running (set_stream hc slot (reset stream))
        | panic ↦ crashed
      ]

  -- `WaitTimeout` and the end of the handler: at once if the request has come to its end.
  unfoldable pub wait_timeout : Finder → Stamp → ℕ → Http2Conn → Outcome
  wait_timeout finder stamp slot hc =
      if (hc.streams slot).done then finish_stream finder stamp slot hc else waits hc slot

  unfoldable pub response_ended : Option HttpItem → Bool
  response_ended none = false
  response_ended (some item) = item.end_stream

  -- The end of the handlers of DATA and HEADERS frames.
  unfoldable pub finish_ended : Finder → Stamp → ℕ → Http2Conn → Outcome
  unfolding wait_timeout response_ended
  finish_ended finder stamp slot hc =
      let stream = hc.streams slot in
      if not hc.record_response && stream.request.end_stream
      then finish_stream finder stamp slot hc
      else if hc.record_response && response_ended stream.response
      then wait_timeout finder stamp slot hc
      else running hc

  -- After the work on a request: `stream.done <- struct{}{}` if the request has ended.
  unfoldable pub signal_done : (Http2Conn → Outcome) → ℕ → Http2Conn → Outcome
  signal_done rest slot hc =
      let stream = hc.streams slot in
      if stream.request.end_stream
      then if stream.done
        then blocked
        else rest (set_stream hc slot (record stream { done = true }))
      else rest hc

  -- The work on a request, and on a response; a nil response is dereferenced unless the frame does
  -- not parse.
  unfoldable pub on_request :
      (h.Decoder → HttpItem → ItemResult) → (Http2Conn → Outcome) → ℕ → Http2Conn → Outcome
  unfolding set_decoder
  on_request work rest slot hc =
      let stream = hc.streams slot in
      elim (work hc.input.header_decoder stream.request) [
        | item_panic ↦ crashed
        | item_error decoder ↦ rest (set_decoder true hc decoder)
        | item_done decoder item ↦
            rest (set_stream (set_decoder true hc decoder) slot (record stream { request = item }))
      ]

  unfoldable pub on_response_item :
      (h.Decoder → HttpItem → ItemResult)
      → (Http2Conn → Outcome)
      → ℕ
      → Http2Conn
      → Option HttpItem
      → Outcome
  unfolding set_decoder
  on_response_item work rest slot hc none =
      elim (work hc.output.header_decoder
        (record { end_header = false; end_stream = false; headers = []; data_buf = [] })) [
          | item_error decoder ↦ rest (set_decoder false hc decoder)
          | _ ↦ crashed
        ]
  on_response_item work rest slot hc (some response) =
      elim (work hc.output.header_decoder response) [
        | item_panic ↦ crashed
        | item_error decoder ↦ rest (set_decoder false hc decoder)
        | item_done decoder item ↦ rest (
            set_stream (set_decoder false hc decoder) slot
              (record (hc.streams slot) { response = some item }))
      ]

  unfoldable pub on_response :
      (h.Decoder → HttpItem → ItemResult) → (Http2Conn → Outcome) → ℕ → Http2Conn → Outcome
  unfolding on_response_item
  on_response work rest slot hc = on_response_item work rest slot hc (hc.streams slot).response

  -- `atomic.StoreUint32(&stream.StreamID, f.StreamID)`
  unfoldable pub enter_stream : FrameBase → Http2Conn → Http2Conn
  enter_stream f hc =
      set_stream hc (slot_of f) (record (hc.streams (slot_of f)) { stream_id = f.stream_id })

  -- The common body of `processFrameData` and `processFrameHeader`.
  unfoldable pub process_message_frame :
      (h.Decoder → HttpItem → ItemResult) → Finder → Stamp → FrameBase → Http2Conn → Outcome
  unfolding on_request on_response
  process_message_frame work finder stamp f hc =
      let slot = slot_of f in
      let finish = finish_ended finder stamp slot in
      if f.input_flag
      then on_request work (signal_done finish slot) slot (enter_stream f hc)
      else on_response work finish slot (enter_stream f hc)

  unfoldable pub process_frame_data : Finder → Stamp → FrameBase → Http2Conn → Outcome
  process_frame_data finder stamp f hc =
      process_message_frame (process_item_data f) finder stamp f hc

  unfoldable pub process_frame_header : Finder → Stamp → FrameBase → Http2Conn → Outcome
  process_frame_header finder stamp f hc =
      process_message_frame (process_item_header f) finder stamp f hc

  unfoldable pub process_frame_continuation : FrameBase → Http2Conn → Outcome
  unfolding on_request on_response
  process_frame_continuation f hc =
      let slot = slot_of f in
      let work = process_item_continuation f in
      if f.input_flag
      then on_request work running slot (enter_stream f hc)
      else on_response work running slot (enter_stream f hc)

  unfoldable pub process_frame_go_away : FrameBase → Http2Conn → Outcome
  process_frame_go_away f hc = running (record hc { in_repository = false })

  unfoldable pub process_frame_rst_stream : FrameBase → Http2Conn → Outcome
  process_frame_rst_stream f hc =
      running (set_stream hc (slot_of f) (reset (hc.streams (slot_of f))))

  unfoldable pub apply_settings : List Setting → MessageParser → MessageParser
  apply_settings [] parser = parser
  apply_settings (item ∷ items) parser = apply_settings items (
      if item.id == setting_header_table_size
      then record parser {
        max_dynamic_table_size = item.val;
        header_decoder = h.set_max_dynamic_table_size parser.header_decoder item.val;
      }
      else parser)

  unfoldable pub process_parser_setting : FrameBase → MessageParser → MessageParser
  process_parser_setting f parser = elim (parse_frame_setting f) [
    | ok fs ↦ if fs.ack then parser else apply_settings fs.settings parser
    | _ ↦ parser
  ]

  unfoldable pub process_frame_setting : FrameBase → Http2Conn → Outcome
  unfolding parser_of set_parser
  process_frame_setting f hc =
      let hc' = enter_stream f hc in
      let side = f.input_flag in
      running (set_parser side hc' (process_parser_setting f (parser_of side hc')))

  unfoldable pub process_frame : Finder → Stamp → FrameBase → Http2Conn → Outcome
  process_frame finder stamp f hc =
      if f.type == frame_type_data
      then process_frame_data finder stamp f hc
      else if f.type == frame_type_header
      then process_frame_header finder stamp f hc
      else if f.type == frame_type_continuation
      then process_frame_continuation f hc
      else if f.type == frame_type_rst_stream
      then process_frame_rst_stream f hc
      else if f.type == frame_type_go_away
      then process_frame_go_away f hc
      else if f.type == frame_type_setting
      then process_frame_setting f hc
      else running hc
