-- ===== src/Frame/Padding.antt =====
-- The payload of DATA and HEADERS frames between the pad length in front and the padding behind.
use grpcreplay.Base.{
  ℕ, ◌+◌, ◌-◌, ◌<◌, ◌≡◌, Bool, true, false, [], ◌∷◌, ◌++◌, arith, Bytes, length, ok, panic, take,
  drop, take-append_length, length-append, ap, append-nil, drop-append_length, ◌∙◌, sym,
  if◌then◌else◌,
}
use mathlib.Core.Path.{ap₂}
use grpcreplay.Base.BigEndian.{read_uint_1}
use grpcreplay.Frame.{FrameBase, parse_frame_data, parse_frame_header, slice, read_pad, has_flag}

-- The bytes between `start` and the padding are what the slice gives.
slice_middle :
    (front body padding : Bytes)
    → slice (front ++ (body ++ padding)) (length front) (length padding) ≡ ok body
unfolding slice
slice_middle front body padding =
    let total = length-append front (body ++ padding) in
    let rest = length-append body padding in
    let count : length (front ++ (body ++ padding)) - length padding - length front ≡ length body =
      omega (arith, total, rest) in
    let cut : take (length (front ++ (body ++ padding)) - length padding - length front)
          (drop (length front) (front ++ (body ++ padding)))
        ≡ body =
      ap₂ take count (drop-append_length front (body ++ padding))
      ∙ take-append_length body padding in
    ground (arith, total, rest, cut)

slice_at :
    (start : ℕ) (front body padding : Bytes)
    → start ≡ length front
    → slice (front ++ (body ++ padding)) start (length padding) ≡ ok body
slice_at start front body padding e = rw e (slice_middle front body padding)

slice_overrun :
    (payload : Bytes) (start pad : ℕ)
    → length payload < start + pad
    → slice payload start pad ≡ panic
unfolding slice
slice_overrun payload start pad h = ground arith

-- A DATA frame without padding yields its payload.
pub parse_frame_data_plain :
    (f : FrameBase)
    → has_flag f.flags 0x8 ≡ false
    → parse_frame_data f
      ≡ ok (record {
        end_stream = has_flag f.flags 0x1;
        padded = false;
        pad_length = 0;
        content = f.payload;
      })
unfolding parse_frame_data
parse_frame_data_plain f h =
    let sliced : slice f.payload 0 0 ≡ ok f.payload =
      ap (λ x. slice x 0 0) (sym (append-nil f.payload)) ∙ slice_middle [] f.payload [] in
    rw h (unfold read_pad in rw sliced)

-- A DATA frame with the padded flag, whose payload is the pad length, a body and padding of
-- that length, yields the body.
pub parse_frame_data_padded :
    (f : FrameBase) (body padding : Bytes)
    → has_flag f.flags 0x8 ≡ true
    → f.payload ≡ length padding ∷ (body ++ padding)
    → parse_frame_data f
      ≡ ok (record {
        end_stream = has_flag f.flags 0x1;
        padded = true;
        pad_length = length padding;
        content = body;
      })
unfolding parse_frame_data
parse_frame_data_padded f body padding h e =
    rw (h, e)
      (unfold read_pad in rw read_uint_1 (rw (slice_middle (length padding ∷ []) body padding)))

-- A DATA frame with the padded flag and a pad length beyond the rest of the payload, which RFC
-- 7540 makes a connection error, is a slice out of range: the parser panics, and so the program
-- ends.
pub parse_frame_data_overrun :
    (f : FrameBase) (pad : ℕ) (rest : Bytes)
    → has_flag f.flags 0x8 ≡ true
    → f.payload ≡ pad ∷ rest
    → length rest < pad
    → parse_frame_data f ≡ panic
unfolding parse_frame_data
parse_frame_data_overrun f pad rest h e over =
    rw (h, e)
      (unfold read_pad in rw read_uint_1 (rw (slice_overrun (pad ∷ rest) 1 pad (omega arith))))

-- The five bytes of stream dependency and weight, if the frame has them.
abbrev pub IsPriority : Bool → Bytes → Type 0
IsPriority true fields = length fields ≡ 5
IsPriority false fields = fields ≡ []

priority_length :
    (b : Bool) (fields : Bytes) → IsPriority b fields → (if b then 5 else 0) ≡ length fields
priority_length true fields p = sym p
priority_length false fields p = rw p

-- A HEADERS frame with the padded flag, whose payload is the pad length, the five bytes of
-- priority if the frame has that flag, a fragment and padding of that length, yields the
-- fragment.
pub parse_frame_header_padded :
    (f : FrameBase) (fields body padding : Bytes)
    → has_flag f.flags 0x8 ≡ true
    → IsPriority (has_flag f.flags 0x20) fields
    → f.payload ≡ length padding ∷ (fields ++ (body ++ padding))
    → parse_frame_header f
      ≡ ok (record {
        end_stream = has_flag f.flags 0x1;
        end_header = has_flag f.flags 0x4;
        padded = true;
        priority = has_flag f.flags 0x20;
        pad_length = length padding;
        header_block_fragment = body;
      })
unfolding parse_frame_header
parse_frame_header_padded f fields body padding h p e =
    let size = priority_length (has_flag f.flags 0x20) fields p in
    let sliced : slice (length padding ∷ (fields ++ (body ++ padding)))
          (1 + (if has_flag f.flags 0x20 then 5 else 0)) (length padding)
        ≡ ok body =
      slice_at _ (length padding ∷ fields) body padding (omega (arith, size)) in
    rw (h, e) (unfold read_pad in rw read_uint_1 (rw sliced))
