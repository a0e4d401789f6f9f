-- ===== src/Handlers/Isolation.antt =====
-- What a frame can touch: the stream of its slot, and the parser of its direction.
use grpcreplay.Base.{
  ℕ, ◌≡◌, refl, ap, ◌∙◌, Bool, true, false, ◌==◌, List, [], ◌∷◌, arith, if◌then◌else◌, Bool-cases,
  inl, inr, Result, ok, err, panic,
}
use grpcreplay.Packages.{SkipList, Hpack, Codecs}
use grpcreplay.Stream.{HttpItem, Finder, Stamp, reset}
use grpcreplay.Base.BigEndian.{IoError}
use grpcreplay.Frame.{
  FrameBase, FrameSetting, Setting, parse_frame_setting, setting_header_table_size, frame_type_data,
  frame_type_header, frame_type_continuation, frame_type_rst_stream, frame_type_go_away,
  frame_type_setting,
}
use grpcreplay.Conn.{
  MessageParser, Http2Conn, Outcome, running, ItemResult, slot_of, process_item_data,
  process_item_header, process_item_continuation,
}
use grpcreplay.Handlers.{
  parser_of, finish_ended, signal_done, on_request, on_response, enter_stream,
  process_message_frame, process_frame_data, process_frame_header, process_frame_continuation,
  process_frame_go_away, process_frame_rst_stream, process_frame_setting, process_parser_setting,
  apply_settings, process_frame,
}
use grpcreplay.Handlers.Kept.{
  Kept, Ends, Keeps, Other-refl, Other-next, Kept-refl, Kept-set_stream, Kept-set_parser, either,
}
use grpcreplay.Handlers.Items.{
  finish_ended-Keeps, signal_done-Keeps, on_request-Keeps, on_response-Keeps,
}

module _ ⦃s : SkipList⦄ ⦃h : Hpack⦄ ⦃c : Codecs⦄ where
  -- `StreamID` is stored in the frame's slot.
  entered-Kept :
      (f : FrameBase) (a : Http2Conn) → Kept (slot_of f) f.input_flag a (enter_stream f a)
  unfolding enter_stream
  entered-Kept f a =
      Kept-set_stream (slot_of f) f.input_flag a a _ (Kept-refl (slot_of f) f.input_flag a)

  -- Work on the item of the frame's direction, with what comes after it.
  directed :
      (work : h.Decoder → HttpItem → ItemResult) (input output : Http2Conn → Outcome) (slot : ℕ)
      (side : Bool) (a b : Http2Conn)
      → Keeps slot true input
      → Keeps slot false output
      → Kept slot side a b
      → Ends slot side a
          (if side then on_request work input slot b else on_response work output slot b)
  directed work input output slot true a b i o k = on_request-Keeps slot work input i a b k
  directed work input output slot false a b i o k = on_response-Keeps slot work output o a b k

  process_message_frame-Ends :
      (work : h.Decoder → HttpItem → ItemResult) (finder : Finder) (stamp : Stamp) (f : FrameBase)
      (a : Http2Conn)
      → Ends (slot_of f) f.input_flag a (process_message_frame work finder stamp f a)
  unfolding process_message_frame
  process_message_frame-Ends work finder stamp f a =
      let slot = slot_of f in
      let finish = finish_ended finder stamp slot in
      directed work (signal_done finish slot) finish slot f.input_flag a (enter_stream f a)
        (signal_done-Keeps slot true finish (finish_ended-Keeps slot finder stamp true))
        (finish_ended-Keeps slot finder stamp false) (entered-Kept f a)

  process_frame_continuation-Ends :
      (f : FrameBase) (a : Http2Conn)
      → Ends (slot_of f) f.input_flag a (process_frame_continuation f a)
  unfolding process_frame_continuation
  process_frame_continuation-Ends f a =
      directed (process_item_continuation f) running running (slot_of f) f.input_flag a
        (enter_stream f a) (λ x y k. k) (λ x y k. k) (entered-Kept f a)

  apply_settings_buffer :
      (items : List Setting) (parser : MessageParser)
      → (apply_settings items parser).tcp_buffer ≡ parser.tcp_buffer
  unfolding apply_settings
  apply_settings_buffer [] parser = refl
  apply_settings_buffer (item ∷ items) parser =
      apply_settings_buffer items _ ∙ one (item.id == setting_header_table_size)
    where
      one :
          (t : Bool)
          → (if t
              then record parser {
                max_dynamic_table_size = item.val;
                header_decoder = h.set_max_dynamic_table_size parser.header_decoder item.val;
              }
              else parser).tcp_buffer
            ≡ parser.tcp_buffer
      one true = refl
      one false = refl

  abbrev with_settings : Result IoError FrameSetting → MessageParser → MessageParser
  with_settings (ok fs) parser = if fs.ack then parser else apply_settings fs.settings parser
  with_settings _ parser = parser

  with_settings_buffer :
      (r : Result IoError FrameSetting) (parser : MessageParser)
      → (with_settings r parser).tcp_buffer ≡ parser.tcp_buffer
  with_settings_buffer (ok fs) parser = elim (Bool-cases fs.ack) [
    | inl ack ↦ rw ack refl
    | inr new ↦ rw new (apply_settings_buffer fs.settings parser)
  ]
  with_settings_buffer (err e) parser = refl
  with_settings_buffer panic parser = refl

  process_parser_setting_lem :
      (f : FrameBase) (parser : MessageParser) (r : Result IoError FrameSetting)
      → parse_frame_setting f ≡ r
      → process_parser_setting f parser ≡ with_settings r parser
  unfolding process_parser_setting
  process_parser_setting_lem f parser (ok fs) e = ground (arith, e)
  process_parser_setting_lem f parser (err x) e = ground (arith, e)
  process_parser_setting_lem f parser panic e = ground (arith, e)

  process_frame_setting-Ends :
      (f : FrameBase) (a : Http2Conn) → Ends (slot_of f) f.input_flag a (process_frame_setting f a)
  unfolding process_frame_setting
  process_frame_setting-Ends f a =
      let side = f.input_flag in
      let b = enter_stream f a in
      let parser = parser_of side b in
      Kept-set_parser (slot_of f) side a b (process_parser_setting f parser)
        (ap (λ (q : MessageParser). q.tcp_buffer) (process_parser_setting_lem f parser _ refl)
          ∙ with_settings_buffer (parse_frame_setting f) parser)
        (entered-Kept f a)

  process_frame_rst_stream-Ends :
      (f : FrameBase) (a : Http2Conn)
      → Ends (slot_of f) f.input_flag a (process_frame_rst_stream f a)
  unfolding process_frame_rst_stream
  process_frame_rst_stream-Ends f a =
      Kept-set_stream (slot_of f) f.input_flag a a (reset (a.streams (slot_of f)))
        (Kept-refl (slot_of f) f.input_flag a)

  process_frame_go_away-Ends :
      (f : FrameBase) (a : Http2Conn) → Ends (slot_of f) f.input_flag a (process_frame_go_away f a)
  unfolding process_frame_go_away
  process_frame_go_away-Ends f a = record {
    streams = λ j e. refl;
    other =
        Other-next f.input_flag a a (record a { in_repository = false }) refl refl
          (Other-refl f.input_flag a);
    input_buffer = refl;
    output_buffer = refl;
    same_conn = refl;
    same_mode = refl;
  }

  -- Whatever frame comes, of any type, whether it parses or not, and whatever its handler finds in
  -- the stream: if the handler goes on or waits, then the streams of all other slots are as they were, so is the parser of the
  -- other direction, and neither direction's buffer of packets is touched; and it waits for no slot
  -- but the frame's own.
  pub process_frame-Ends :
      (finder : Finder) (stamp : Stamp) (f : FrameBase) (a : Http2Conn)
      → Ends (slot_of f) f.input_flag a (process_frame finder stamp f a)
  unfolding process_frame process_frame_data process_frame_header
  process_frame-Ends finder stamp f a =
      let t = f.type in
      let which = either (slot_of f) f.input_flag a in
      let settings = if t == frame_type_setting then process_frame_setting f a else running a in
      let go_away = if t == frame_type_go_away then process_frame_go_away f a else settings in
      let rst = if t == frame_type_rst_stream then process_frame_rst_stream f a else go_away in
      let more = if t == frame_type_continuation then process_frame_continuation f a else rst in
      let header = process_message_frame (process_item_header f) finder stamp f a in
      let content = process_message_frame (process_item_data f) finder stamp f a in
      which (t == frame_type_data) content (if t == frame_type_header then header else more)
        (process_message_frame-Ends (process_item_data f) finder stamp f a)
        (which (t == frame_type_header) header more
          (process_message_frame-Ends (process_item_header f) finder stamp f a)
          (which (t == frame_type_continuation) (process_frame_continuation f a) rst
            (process_frame_continuation-Ends f a)
            (which (t == frame_type_rst_stream) (process_frame_rst_stream f a) go_away
              (process_frame_rst_stream-Ends f a)
              (which (t == frame_type_go_away) (process_frame_go_away f a) settings
                (process_frame_go_away-Ends f a)
                (which (t == frame_type_setting) (process_frame_setting f a) (running a)
                  (process_frame_setting-Ends f a) (Kept-refl (slot_of f) f.input_flag a))))))
