-- ===== src/Tests/Frames.antt =====
-- Frames with three bytes of content.
use grpcreplay.Base.{ℕ, ◌≡◌, refl, true, List, [], ◌∷◌, ◌++◌, Bytes, ok, err, panic, arith, length}
use grpcreplay.Base.BigEndian.{IoError}
use grpcreplay.Frame.{
  FrameBase, Setting, has_flag, parse_frame_base, parse_frame_setting, parse_frame_data,
  parse_frame_header,
}
use grpcreplay.Frame.Header.{encode_frame_header, parse_frame_base-encode}
use grpcreplay.Frame.Settings.{
  encode_settings, table_sizes, parse_frame_setting-encode, parse_frame_setting_ragged,
}
use grpcreplay.Frame.Padding.{
  IsPriority, parse_frame_data_padded, parse_frame_data_overrun, parse_frame_header_padded,
}

abbrev frame : ℕ → ℕ → Bytes → FrameBase
frame type flags payload = record {
  input_flag = true;
  stream_id = 3;
  type = type;
  flags = flags;
  len = length payload;
  payload = payload;
}

parse_frame_base-encode_example :
    parse_frame_base (encode_frame_header 3 0 1 1 5 ++ 10 ∷ 20 ∷ 30 ∷ []) true
    ≡ ok (record {
      input_flag = true;
      stream_id = 2147483653;
      type = 0;
      flags = 1;
      len = 3;
      payload = 10 ∷ 20 ∷ 30 ∷ [];
    })
parse_frame_base-encode_example =
    parse_frame_base-encode 3 0 1 1 5 (10 ∷ 20 ∷ 30 ∷ []) true (omega arith) (omega arith)
      (omega arith) refl

abbrev parameters : List Setting
parameters = record { id = 4; val = 65535 } ∷ record { id = 1; val = 8192 } ∷ []

parse_frame_setting-encode_example :
    parse_frame_setting (frame 4 0 (encode_settings parameters))
    ≡ ok (record { ack = has_flag 0 0x1; settings = table_sizes parameters })
parse_frame_setting-encode_example =
    parse_frame_setting-encode (frame 4 0 (encode_settings parameters)) parameters
      ((omega arith, omega arith), ((omega arith, omega arith), tt)) refl

parse_frame_setting_ragged_example :
    (e : IoError) × (parse_frame_setting (frame 4 0 (0 ∷ 1 ∷ 0 ∷ [])) ≡ err e)
parse_frame_setting_ragged_example =
    parse_frame_setting_ragged (frame 4 0 (0 ∷ 1 ∷ 0 ∷ [])) (omega arith)

pad_flag : has_flag 0x9 0x8 ≡ true
unfolding has_flag
pad_flag = refl

parse_frame_data_padded_example :
    parse_frame_data (frame 0 0x9 (2 ∷ 10 ∷ 20 ∷ 30 ∷ 0 ∷ 0 ∷ []))
    ≡ ok (record {
      end_stream = has_flag 0x9 0x1;
      padded = true;
      pad_length = 2;
      content = 10 ∷ 20 ∷ 30 ∷ [];
    })
parse_frame_data_padded_example =
    parse_frame_data_padded (frame 0 0x9 (2 ∷ 10 ∷ 20 ∷ 30 ∷ 0 ∷ 0 ∷ [])) (10 ∷ 20 ∷ 30 ∷ [])
      (0 ∷ 0 ∷ []) pad_flag refl

parse_frame_data_overrun_example : parse_frame_data (frame 0 0x9 (4 ∷ 10 ∷ 20 ∷ 30 ∷ [])) ≡ panic
parse_frame_data_overrun_example =
    parse_frame_data_overrun (frame 0 0x9 (4 ∷ 10 ∷ 20 ∷ 30 ∷ [])) 4 (10 ∷ 20 ∷ 30 ∷ []) pad_flag
      refl (omega arith)

priority_flag : has_flag 0x2c 0x20 ≡ true
unfolding has_flag
priority_flag = refl

header_pad_flag : has_flag 0x2c 0x8 ≡ true
unfolding has_flag
header_pad_flag = refl

five_bytes : IsPriority (has_flag 0x2c 0x20) (0 ∷ 0 ∷ 0 ∷ 0 ∷ 16 ∷ [])
unfolding has_flag
five_bytes = refl

parse_frame_header_padded_example :
    parse_frame_header (frame 1 0x2c (1 ∷ 0 ∷ 0 ∷ 0 ∷ 0 ∷ 16 ∷ 130 ∷ 132 ∷ 0 ∷ []))
    ≡ ok (record {
      end_stream = has_flag 0x2c 0x1;
      end_header = has_flag 0x2c 0x4;
      padded = true;
      priority = has_flag 0x2c 0x20;
      pad_length = 1;
      header_block_fragment = 130 ∷ 132 ∷ [];
    })
parse_frame_header_padded_example =
    parse_frame_header_padded (frame 1 0x2c (1 ∷ 0 ∷ 0 ∷ 0 ∷ 0 ∷ 16 ∷ 130 ∷ 132 ∷ 0 ∷ []))
      (0 ∷ 0 ∷ 0 ∷ 0 ∷ 16 ∷ []) (130 ∷ 132 ∷ []) (0 ∷ []) header_pad_flag five_bytes refl
