-- ===== src/Deal.antt =====
-- http2/http2.go, `DealInput` and `DealOutput`: the loop of a direction of a connection. It takes a
-- frame header and then the payload off the buffer of its direction and hands the frame on. One
-- step is one call of `Read` within `io.ReadFull`; a `Read` that blocks leaves everything as it is.
-- Where `WaitTimeout` holds the loop up, `deal_wake` goes on when the request has ended or the time
-- is over.
pub mod Reads
pub mod Gather
pub mod Frames
use grpcreplay.Base.{
  ℕ, ◌-◌, Bool, Option, none, some, List, [], ◌∷◌, ◌++◌, Bytes, codes, ◌==◌, if◌then◌else◌, nat_eq,
  length, Result, ok, err, panic,
}
use grpcreplay.Packages.{SkipList, Hpack, Codecs}
use grpcreplay.Base.BigEndian.{IoError}
use grpcreplay.GoMap.{get}
use grpcreplay.TcpBuffer.{ReadResult, got, eof, err_closed, read}
use grpcreplay.Frame.{
  FrameBase, parse_frame_base, header_size, frame_type_data, frame_type_header,
  frame_type_rst_stream, frame_type_setting, frame_type_go_away, frame_type_continuation,
}
use grpcreplay.Stream.{Finder, Stamp}
use grpcreplay.Conn.{Http2Conn, Outcome, running, waits, blocked, crashed}
use grpcreplay.Handlers.{process_frame, finish_stream, parser_of, set_parser}

abbrev pub frame_type_str : List (ℕ × Bytes)
frame_type_str =
    (frame_type_data, codes "FrameData")
    ∷ (frame_type_header, codes "FrameHeader")
    ∷ (0x2, codes "FramePriority")
    ∷ (frame_type_rst_stream, codes "FrameRSTStream")
    ∷ (frame_type_setting, codes "FrameSetting")
    ∷ (0x5, codes "FramePushPromise")
    ∷ (0x6, codes "FramePing")
    ∷ (frame_type_go_away, codes "FrameGoAway")
    ∷ (0x8, codes "FrameWindowUpdate")
    ∷ (frame_type_continuation, codes "FrameContinuation")
    ∷ []

abbrev name_or_unknown : Option Bytes → Bytes
name_or_unknown none = codes "UNKNOW"
name_or_unknown (some name) = name

-- `GetFrameType`, for the log.
unfoldable pub get_frame_type : ℕ → Bytes
get_frame_type t = name_or_unknown (get frame_type_str t)

module _ ⦃s : SkipList⦄ ⦃h : Hpack⦄ ⦃c : Codecs⦄ where
  -- Where the loop stands: in the first `ReadFull` with some bytes of the header, in the second with
  -- some of the payload, in `WaitTimeout` for a slot, or at its end; `failed`: by a panic; `stuck`: on
  -- a send that is never received.
  pub data Stage : Type 0 where
    reading_header : Bytes → Stage
    reading_payload : FrameBase → Bytes → Stage
    waiting : ℕ → Stage
    ended failed stuck : Stage

  -- After `hc.ProcessFrame(fb)`.
  pub after_frame : Http2Conn → Outcome → Http2Conn × Stage
  after_frame hc (running hc') = (hc', reading_header [])
  after_frame hc (waits hc' slot) = (hc', waiting slot)
  after_frame hc blocked = (hc, stuck)
  after_frame hc crashed = (hc, failed)

  pub whole_frame : Finder → Stamp → Http2Conn → FrameBase → Bytes → Http2Conn × Stage
  unfolding after_frame
  whole_frame finder stamp hc fb buf =
      after_frame hc (process_frame finder stamp (record fb { payload = buf }) hc)

  pub parsed_header : Finder → Stamp → Http2Conn → Result IoError FrameBase → Http2Conn × Stage
  unfolding whole_frame
  parsed_header finder stamp hc (ok fb) =
      if fb.len == 0 then whole_frame finder stamp hc fb [] else (hc, reading_payload fb [])
  parsed_header finder stamp hc (err e) = (hc, ended)
  parsed_header finder stamp hc panic = (hc, failed)

  -- The bytes that one `Read` gave are put behind those before.
  pub take_header : Bool → Finder → Stamp → Http2Conn → Bytes → Http2Conn × Stage
  unfolding parsed_header
  take_header side finder stamp hc buf =
      if length buf == header_size
      then parsed_header finder stamp hc (parse_frame_base buf side)
      else (hc, reading_header buf)

  pub take_payload : Finder → Stamp → Http2Conn → FrameBase → Bytes → Http2Conn × Stage
  unfolding whole_frame
  take_payload finder stamp hc fb buf =
      if length buf == fb.len
      then whole_frame finder stamp hc fb buf
      else (hc, reading_payload fb buf)

  pub read_side : Bool → Bool → ℕ → Http2Conn → Http2Conn × ReadResult
  unfolding parser_of set_parser
  read_side side pick n hc =
      let parser = parser_of side hc in
      let r = read pick n parser.tcp_buffer in
      (set_parser side hc (record parser { tcp_buffer = r.0 }), r.1)

  -- `old`: the stage to stay in where the `Read` blocks.
  pub use_read :
      (Http2Conn → Bytes → Http2Conn × Stage) → Stage → Http2Conn × ReadResult → Http2Conn × Stage
  use_read next old (hc, got bytes) = next hc bytes
  use_read next old (hc, eof) = (hc, ended)
  use_read next old (hc, err_closed) = (hc, ended)
  use_read next old (hc, _) = (hc, old)

  -- One `Read` of the loop of the direction `side` (`DealInput` for true, `DealOutput` for false).
  unfoldable pub deal_step : Bool → Finder → Stamp → Bool → Http2Conn × Stage → Http2Conn × Stage
  unfolding take_header take_payload read_side use_read
  deal_step side finder stamp pick (hc, reading_header buf) =
      use_read (λ hc' bytes. take_header side finder stamp hc' (buf ++ bytes)) (reading_header buf)
        (read_side side pick (header_size - length buf) hc)
  deal_step side finder stamp pick (hc, reading_payload fb buf) =
      use_read (λ hc' bytes. take_payload finder stamp hc' fb (buf ++ bytes))
        (reading_payload fb buf) (read_side side pick (fb.len - length buf) hc)
  deal_step side finder stamp pick x = x

  -- The end of `WaitTimeout`: the signal is taken, or the time is over.
  unfoldable pub deal_wake : Finder → Stamp → Http2Conn × Stage → Http2Conn × Stage
  unfolding after_frame
  deal_wake finder stamp (hc, waiting slot) = after_frame hc (finish_stream finder stamp slot hc)
  deal_wake finder stamp x = x
