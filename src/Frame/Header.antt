-- ===== src/Frame/Header.antt =====
-- `ParseFrameBase` against the frame layout of RFC 7540, section 4.1.
use grpcreplay.Base.{
  ℕ, ◌+◌, ◌*◌, ◌/◌, ◌%◌, ◌<◌, ◌≡◌, Bool, [], ◌∷◌, ◌++◌, arith, Bytes, length, ok, take_all, ◌∙◌,
}
use grpcreplay.Base.BigEndian.{read_uint_1, read_uint_4}
use grpcreplay.Frame.{parse_frame_base, read_length}

-- The nine bytes before a frame's payload: a 24-bit length, type, flags, a reserved bit and a
-- 31-bit stream identifier.
pub encode_frame_header : ℕ → ℕ → ℕ → ℕ → ℕ → Bytes
encode_frame_header len type flags reserved id =
    len / 65536
    ∷ len / 256 % 256
    ∷ len % 256
    ∷ type
    ∷ flags
    ∷ (reserved * 128 + id / 16777216)
    ∷ id / 65536 % 256
    ∷ id / 256 % 256
    ∷ id % 256
    ∷ []

read_length_3 :
    (a b c : ℕ) (r : Bytes)
    → a < 256
    → b < 256
    → c < 256
    → read_length 3 0 (a ∷ b ∷ c ∷ r) ≡ ok ((a * 256 + b) * 256 + c, r)
unfolding read_length
read_length_3 a b c r ha hb hc = simp read_uint_1 (ground arith)

parse_9 :
    (a b c type flags d e f g : ℕ) (rest : Bytes) (input : Bool)
    → a < 256
    → b < 256
    → c < 256
    → length rest ≡ (a * 256 + b) * 256 + c
    → parse_frame_base (a ∷ b ∷ c ∷ type ∷ flags ∷ d ∷ e ∷ f ∷ g ∷ rest) input
      ≡ ok (record {
        input_flag = input;
        stream_id = ((d * 256 + e) * 256 + f) * 256 + g;
        type = type;
        flags = flags;
        len = (a * 256 + b) * 256 + c;
        payload = rest;
      })
unfolding parse_frame_base
parse_9 a b c type flags d e f g rest input ha hb hc size =
    simp
      (read_length_3 a b c (type ∷ flags ∷ d ∷ e ∷ f ∷ g ∷ rest) ha hb hc, read_uint_1, read_uint_4)
      (ground (arith, take_all ((a * 256 + b) * 256 + c) rest (omega (arith, size))))

-- A frame as RFC 7540 writes it, with a length below 2^24 that is the payload's, a reserved bit
-- and a 31-bit identifier, is parsed to its parts: length, type, flags, and the payload whole.
-- The stream identifier is the 32-bit field, the reserved bit included.
pub parse_frame_base-encode :
    (len type flags reserved id : ℕ) (payload : Bytes) (input : Bool)
    → len < 16777216
    → reserved < 2
    → id < 2147483648
    → length payload ≡ len
    → parse_frame_base (encode_frame_header len type flags reserved id ++ payload) input
      ≡ ok (record {
        input_flag = input;
        stream_id = reserved * 2147483648 + id;
        type = type;
        flags = flags;
        len = len;
        payload = payload;
      })
unfolding encode_frame_header
parse_frame_base-encode len type flags reserved id payload input hl hr hi size =
    parse_9 (len / 65536) (len / 256 % 256) (len % 256) type flags _ _ _ _ payload input
      (omega arith) (omega arith) (omega arith) (omega arith)
    ∙ ground arith
