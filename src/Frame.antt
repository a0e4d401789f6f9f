-- ===== src/Frame.antt =====
-- http2/http2.go, the frame parsers: `ParseFrameBase`, `ParseFrameSetting`, `ParseFrameHeader`,
-- `ParseFrameData`, `ParseFrameContinuation` and `ParseGRPCMessage`. The connection that a frame
-- carries along for its log lines is left out; slicing out of range is a panic.
pub mod Header
pub mod Settings
pub mod Padding
use grpcreplay.Base.{
  ℕ, zero, suc, ◌+◌, ◌-◌, ◌*◌, ◌%◌, ◌≡◌, Bool, true, false, not, List, [], ◌∷◌, ◌++◌, bit_and,
  Bytes, length, take, drop, leb, ◌==◌, if◌then◌else◌, Result, ok, err, panic, ◌>>=◌, add_u32,
}
use grpcreplay.Base.BigEndian.{IoError, read_uint, big_endian}

abbrev pub header_size : ℕ
header_size = 9

abbrev pub length_size : ℕ
length_size = 3

-- The frame types that `ProcessFrame` tells apart.
abbrev pub frame_type_data : ℕ
frame_type_data = 0x0

abbrev pub frame_type_header : ℕ
frame_type_header = 0x1

abbrev pub frame_type_rst_stream : ℕ
frame_type_rst_stream = 0x3

abbrev pub frame_type_setting : ℕ
frame_type_setting = 0x4

abbrev pub frame_type_go_away : ℕ
frame_type_go_away = 0x7

abbrev pub frame_type_continuation : ℕ
frame_type_continuation = 0x9

pub record FrameBase : Type 0 where
  pub input_flag : Bool
  pub stream_id : ℕ
  pub type : ℕ
  pub flags : ℕ
  pub len : ℕ
  pub payload : Bytes

-- `f.Flags & mask != 0`
unfoldable pub has_flag : ℕ → ℕ → Bool
has_flag flags mask = not (bit_and flags mask == 0)

-- The first loop: `rounds` bytes are left to read into the uint32 length.
unfoldable pub read_length : ℕ → ℕ → Bytes → Result IoError (ℕ × Bytes)
read_length zero len r = ok (len, r)
read_length (suc rounds) len r =
    read_uint 1 r >>= λ t. read_length rounds ((len * 256 + t.0) % 4294967296) t.1

unfoldable pub parse_frame_base : Bytes → Bool → Result IoError FrameBase
parse_frame_base b input_flag = read_length length_size 0 b >>= λ l. read_uint 1 l.1 >>= λ t.
    read_uint 1 t.1 >>= λ g. read_uint 4 g.1 >>= λ i. ok (record {
      input_flag = input_flag;
      stream_id = i.0;
      type = t.0;
      flags = g.0;
      len = l.0;
      payload =
          if leb (add_u32 l.0 header_size) (length b)
          then take l.0 (drop header_size b)
          else drop header_size b;
    })

abbrev pub setting_header_table_size : ℕ
setting_header_table_size = 0x1

pub record Setting : Type 0 where
  pub id : ℕ
  pub val : ℕ

pub record FrameSetting : Type 0 where
  pub ack : Bool
  pub settings : List Setting

-- The loop over the parameters. Each round reads at least one byte, so that a round for each byte
-- of the payload is enough: when none is left, the reader is empty.
unfoldable pub read_settings : ℕ → Bytes → List Setting → Result IoError (List Setting)
read_settings zero r settings = ok settings
read_settings (suc rounds) [] settings = ok settings
read_settings (suc rounds) (x ∷ xs) settings = read_uint 2 (x ∷ xs) >>= λ i.
    read_uint 4 i.1 >>= λ v. read_settings rounds v.1 (
      if i.0 == setting_header_table_size
      then settings ++ record { id = setting_header_table_size; val = v.0 } ∷ []
      else settings)

unfoldable pub parse_frame_setting : FrameBase → Result IoError FrameSetting
parse_frame_setting f = read_settings (length f.payload) f.payload [] >>= λ settings.
    ok (record { ack = has_flag f.flags 0x1; settings = settings })

-- `payload[start : len(payload)-pad]`
unfoldable pub slice : Bytes → ℕ → ℕ → Result IoError Bytes
slice payload start pad =
    if leb (start + pad) (length payload)
    then ok (take (length payload - pad - start) (drop start payload))
    else panic

-- The pad length, if the frame has one.
unfoldable pub read_pad : Bool → Bytes → Result IoError ℕ
read_pad true payload = read_uint 1 payload >>= λ t. ok t.0
read_pad false payload = ok 0

pub record FrameHeader : Type 0 where
  pub end_stream : Bool
  pub end_header : Bool
  pub padded : Bool
  pub priority : Bool
  pub pad_length : ℕ
  pub header_block_fragment : Bytes

unfoldable pub parse_frame_header : FrameBase → Result IoError FrameHeader
parse_frame_header f =
    let padded = has_flag f.flags 0x8 in
    let priority = has_flag f.flags 0x20 in
    let start = (if padded then 1 else 0) + (if priority then 5 else 0) in
    read_pad padded f.payload >>= λ pad_length. slice f.payload start pad_length >>= λ fragment.
    ok (record {
      end_stream = has_flag f.flags 0x1;
      end_header = has_flag f.flags 0x4;
      padded = padded;
      priority = priority;
      pad_length = pad_length;
      header_block_fragment = fragment;
    })

pub record FrameData : Type 0 where
  pub end_stream : Bool
  pub padded : Bool
  pub pad_length : ℕ
  pub content : Bytes

unfoldable pub parse_frame_data : FrameBase → Result IoError FrameData
parse_frame_data f =
    let padded = has_flag f.flags 0x8 in
    read_pad padded f.payload >>= λ pad_length.
    slice f.payload (if padded then 1 else 0) pad_length >>= λ content. ok (record {
      end_stream = has_flag f.flags 0x1;
      padded = padded;
      pad_length = pad_length;
      content = content;
    })

pub record FrameContinuation : Type 0 where
  pub end_header : Bool
  pub header_block_fragment : Bytes

unfoldable pub parse_frame_continuation : FrameBase → Result IoError FrameContinuation
parse_frame_continuation f =
    ok (record { end_header = has_flag f.flags 0x4; header_block_fragment = f.payload })

pub record GrpcMessage : Type 0 where
  pub payload_format : ℕ
  pub len : ℕ
  pub encoded_message : Bytes

-- data[0], then Uint32(data[1:]), which wants four bytes, then data[5:].
unfoldable pub parse_grpc_message : Bytes → Result IoError GrpcMessage
parse_grpc_message [] = panic
parse_grpc_message (format ∷ rest) =
    if leb 4 (length rest)
    then ok (record {
      payload_format = format;
      len = big_endian (take 4 rest);
      encoded_message = drop 4 rest;
    })
    else panic
