-- ===== src/Replay/Reading.antt =====
-- The messages that were written to a capture file are read back from it.
use grpcreplay.Base.{
  ℕ, zero, suc, ◌+◌, ◌-◌, ◌<◌, ◌≤◌, ◌≡◌, ◌≢◌, refl, sym, ap, ◌∙◌, Bool, true, false, ◌||◌, some,
  List, [], ◌∷◌, ◌++◌, append_assoc, append-nil, Bytes, ltb, if◌then◌else◌, length, take, arith,
  All, Result, ok, err, panic, length-append, take-append_length,
}
use grpcreplay.Base.Lines.{read_bytes_line, IsLine, unlines}
use grpcreplay.Base.Split.{Lacks}
use grpcreplay.Packages.{Disk}
use grpcreplay.Protocol.{Message}
use grpcreplay.Registry.{Codec, CodecError}
use grpcreplay.CodecSimple.Lines.{IsRecord}
use grpcreplay.Replay.{
  ReadError, unmarshal_failed, Reader, read_loop, read_message, decoded, collected,
}

-- A reader with a file open.
abbrev pub reader_at : List Bytes → ℕ → Bytes → Reader
reader_at paths index rest = record {
  filepaths = paths;
  index = index;
  rest = some rest;
  eof_reached = false;
}

module _ ⦃d : Disk⦄ (paths : List Bytes) (index : ℕ) where
  -- One round on a line.
  round :
      (fuel : ℕ) (l rest : Bytes) (first : Bool) (line bf : Bytes)
      → Lacks b'\n' l
      → (first || ltb 1 (length line)) ≡ true
      → read_loop (suc fuel) (reader_at paths index (l ++ (b'\n' ∷ rest))) first line bf
        ≡ read_loop fuel
            (reader_at paths index rest)
            false
            (l ++ b'\n' ∷ [])
            (if ltb 1 (length (l ++ b'\n' ∷ [])) then bf ++ (l ++ b'\n' ∷ []) else bf)
  unfolding read_loop
  round fuel l rest first line bf lacks go = ground (arith, read_bytes_line l rest lacks, go)

  -- The blank line ends the record.
  last_round :
      (fuel : ℕ) (r : Reader) (bf : Bytes)
      → read_loop (suc fuel) r false (b'\n' ∷ []) bf ≡ some (r, ok bf)
  unfolding read_loop
  last_round fuel r bf = refl

  long : (l : Bytes) → l ≢ [] → ltb 1 (length (l ++ b'\n' ∷ [])) ≡ true
  long [] h = absurd (h refl)
  long (c ∷ l) h = ground (arith, length-append l (b'\n' ∷ []))

  pub loop_lines :
      (fuel : ℕ) (lines : List Bytes) (tail : Bytes) (first : Bool) (line bf : Bytes)
      → length lines + 1 < fuel
      → All IsLine lines
      → (first || ltb 1 (length line)) ≡ true
      → read_loop fuel (reader_at paths index (unlines lines ++ (b'\n' ∷ tail))) first line bf
        ≡ some (reader_at paths index tail, ok (bf ++ unlines lines))
  loop_lines zero lines tail first line bf h all go = absurd (omega arith)
  loop_lines (suc zero) lines tail first line bf h all go = absurd (omega arith)
  loop_lines (suc (suc fuel)) [] tail first line bf h all go =
      round (suc fuel) [] tail first line bf tt go
      ∙ last_round fuel (reader_at paths index tail) bf
      ∙ ap (λ x. some (reader_at paths index tail, ok x)) (sym (append-nil bf))
  loop_lines (suc (suc fuel)) (l ∷ lines) tail first line bf h (hl, all) go =
      let more = unlines lines ++ (b'\n' ∷ tail) in
      let grown = bf ++ (l ++ b'\n' ∷ []) in
      let big = long l hl.0 in
      ap (λ x. read_loop (suc (suc fuel)) (reader_at paths index x) first line bf)
        (append_assoc l (b'\n' ∷ unlines lines) (b'\n' ∷ tail))
      ∙ round (suc fuel) l more first line bf hl.1 go
      ∙ ap
          (λ (b : Bool).
            read_loop (suc fuel) (reader_at paths index more) false (l ++ b'\n' ∷ [])
              (if b then grown else bf))
          big
      ∙ loop_lines (suc fuel) lines tail false (l ++ b'\n' ∷ []) grown (omega arith) all big
      ∙ ap (λ x. some (reader_at paths index tail, ok x))
          (append_assoc bf (l ++ b'\n' ∷ []) (unlines lines)
            ∙ ap (◌++◌ bf) (append_assoc l (b'\n' ∷ []) (unlines lines)))

length-unlines : (lines : List Bytes) → length lines ≤ length (unlines lines)
length-unlines [] = omega arith
length-unlines (l ∷ lines) =
    omega (arith, length-unlines lines, length-append l (b'\n' ∷ unlines lines))

record-length : (text : Bytes) → (k : IsRecord text) → (length k.lines ≤ length text) × (text ≢ [])
record-length text k = go k.lines k.some_lines k.all_lines k.spelled
  where
    go :
        (lines : List Bytes)
        → lines ≢ []
        → All IsLine lines
        → text ++ b'\n' ∷ [] ≡ unlines lines
        → (length lines ≤ length text) × (text ≢ [])
    go [] h all e = absurd (h refl)
    go ([] ∷ lines) h ((ne, lacks), all) e = absurd (ne refl)
    go ((c ∷ l) ∷ lines) h all e =
        let bound : length lines + 1 ≤ length text = omega (
          arith,
          ap length e,
          length-append text (b'\n' ∷ []),
          length-append l (b'\n' ∷ unlines lines),
          length-unlines lines,
        ) in
        (omega (arith, bound), λ p. absurd (omega (arith, bound, ap length p)))

-- What the codec's answer becomes.
abbrev pub answer : Result CodecError Message → Result ReadError Message
answer (ok msg) = ok msg
answer (err e) = err (unmarshal_failed e)
answer panic = panic

module _ ⦃d : Disk⦄ where
  decoded_text :
      (codec : Codec) (r : Reader) (text : Bytes) (a : Result CodecError Message)
      → text ≢ []
      → codec.unmarshal text ≡ a
      → decoded codec r (text ++ b'\n' ∷ []) ≡ (r, answer a)
  unfolding decoded
  decoded_text codec r [] a h e = absurd (h refl)
  decoded_text codec r (c ∷ t) a h e =
      let whole : take (length (c ∷ (t ++ b'\n' ∷ [])) - 1) (c ∷ (t ++ b'\n' ∷ [])) ≡ c ∷ t =
        let n : length (c ∷ (t ++ b'\n' ∷ [])) - 1 ≡ length (c ∷ t) =
          omega (arith, length-append t (b'\n' ∷ [])) in
        ap (λ k. take k ((c ∷ t) ++ b'\n' ∷ [])) n ∙ take-append_length (c ∷ t) (b'\n' ∷ []) in
      go a (ap codec.unmarshal whole ∙ e)
    where
      go :
          (a : Result CodecError Message)
          → codec.unmarshal (take (length (c ∷ (t ++ b'\n' ∷ [])) - 1) (c ∷ (t ++ b'\n' ∷ []))) ≡ a
          → decoded codec r ((c ∷ t) ++ b'\n' ∷ []) ≡ (r, answer a)
      go (ok m) q = ground (arith, q)
      go (err x) q = ground (arith, q)
      go panic q = ground (arith, q)

  -- One message off the front of a file, and the blank line behind it.
  pub read_message_record :
      (paths : List Bytes) (index fuel : ℕ) (codec : Codec) (text tail : Bytes)
      → IsRecord text
      → length text + 1 < fuel
      → read_message fuel codec (reader_at paths index (text ++ (b'\n' ∷ b'\n' ∷ tail)))
        ≡ some (reader_at paths index tail, answer (codec.unmarshal text))
  unfolding read_message collected
  read_message_record paths index fuel codec text tail k enough =
      let (short, ne) = record-length text k in
      ap (λ x. collected codec (read_loop fuel (reader_at paths index x) true [] []))
        (sym (append_assoc text (b'\n' ∷ []) (b'\n' ∷ tail))
          ∙ ap (λ x. x ++ (b'\n' ∷ tail)) k.spelled)
      ∙ ap (collected codec) (
          loop_lines paths index fuel k.lines tail true [] [] (omega (arith, short)) k.all_lines
            refl)
      ∙ ap (λ x. some (decoded codec (reader_at paths index tail) x)) (sym k.spelled)
      ∙ ap some (decoded_text codec (reader_at paths index tail) text _ ne refl)
