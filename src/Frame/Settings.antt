-- ===== src/Frame/Settings.antt =====
-- `ParseFrameSetting` against the parameter list of RFC 7540, section 6.5.1.
use grpcreplay.Base.{
  ℕ, zero, suc, ◌+◌, ◌*◌, ◌/◌, ◌%◌, ◌≤◌, ◌<◌, ◌≡◌, ◌≢◌, refl, true, List, [], ◌∷◌, ◌++◌, append-nil,
  append_assoc, arith, Bytes, length, ok, err, ◌==◌, if◌then◌else◌, ap, ◌∙◌, Bool-cases, inl, inr,
}
use grpcreplay.Base.BigEndian.{IoError, read_uint, read_uint_2, read_uint_4, eof, unexpected_eof}
use grpcreplay.Frame.{
  FrameBase, Setting, parse_frame_setting, read_settings, setting_header_table_size, has_flag,
}

-- One parameter on the wire: a 16-bit identifier and a 32-bit value.
pub encode_setting : Setting → Bytes → Bytes
encode_setting s rest =
    s.id / 256
    ∷ s.id % 256
    ∷ s.val / 16777216
    ∷ s.val / 65536 % 256
    ∷ s.val / 256 % 256
    ∷ s.val % 256
    ∷ rest

pub encode_settings : List Setting → Bytes
encode_settings [] = []
encode_settings (s ∷ ss) = encode_setting s (encode_settings ss)

-- The parameters that concern the program.
pub table_sizes : List Setting → List Setting
table_sizes [] = []
table_sizes (s ∷ ss) =
    let rest = table_sizes ss in if s.id == setting_header_table_size then s ∷ rest else rest

abbrev pub InRange : List Setting → Type 0
InRange [] = Unit
InRange (s ∷ ss) = ((s.id < 65536) × (s.val < 4294967296)) × InRange ss

read_settings_six :
    (rounds a b c d e f : ℕ) (rest : Bytes) (acc : List Setting)
    → read_settings (suc rounds) (a ∷ b ∷ c ∷ d ∷ e ∷ f ∷ rest) acc
      ≡ read_settings rounds rest (
          if (a * 256 + b) == setting_header_table_size
          then acc
            ++ record { id = setting_header_table_size; val = ((c * 256 + d) * 256 + e) * 256 + f }
              ∷ []
          else acc)
unfolding read_settings
read_settings_six rounds a b c d e f rest acc = rw (read_uint_2, read_uint_4)

-- What the code appends for a table-size parameter is the parameter itself.
abbrev stored : Setting → Setting
stored s = record { id = setting_header_table_size; val = s.val }

abbrev kept : Setting → List Setting
kept s = stored s ∷ []

kept_eq : (s : Setting) → (s.id == setting_header_table_size) ≡ true → stored s ≡ s
kept_eq s e = ground arith

read_settings-encode :
    (rounds : ℕ) (ss acc : List Setting)
    → InRange ss
    → length (encode_settings ss) ≤ rounds
    → read_settings rounds (encode_settings ss) acc ≡ ok (acc ++ table_sizes ss)
unfolding encode_settings encode_setting table_sizes
read_settings-encode zero [] acc r h = unfold read_settings in rw append-nil
read_settings-encode (suc rounds) [] acc r h = unfold read_settings in rw append-nil
read_settings-encode zero (s ∷ ss) acc r h = absurd (omega arith)
read_settings-encode (suc rounds) (s ∷ ss) acc ((hi, hv), r) h =
    let id_eq : s.id / 256 * 256 + s.id % 256 ≡ s.id = omega arith in
    let val_eq : ((s.val / 16777216 * 256 + s.val / 65536 % 256) * 256 + s.val / 256 % 256) * 256
          + s.val % 256
        ≡ s.val =
      omega arith in
    read_settings_six rounds _ _ _ _ _ _ (encode_settings ss) acc
    ∙ rw (id_eq, val_eq)
        (elim (Bool-cases (s.id == setting_header_table_size)) [
          | inl e ↦ rw e (
              read_settings-encode rounds ss (acc ++ kept s) r (omega arith)
              ∙ ap ok (
                  append_assoc acc (kept s) (table_sizes ss)
                  ∙ ap (λ x. acc ++ x ∷ table_sizes ss) (kept_eq s e)))
          | inr e ↦ rw e (read_settings-encode rounds ss acc r (omega arith))
        ])

-- A payload that is a list of parameters, with 16-bit identifiers and 32-bit values, is parsed
-- to the table-size parameters among them, in order; the others are skipped.
pub parse_frame_setting-encode :
    (f : FrameBase) (ss : List Setting)
    → InRange ss
    → f.payload ≡ encode_settings ss
    → parse_frame_setting f ≡ ok (record { ack = has_flag f.flags 0x1; settings = table_sizes ss })
unfolding parse_frame_setting
parse_frame_setting-encode f ss r e =
    let runs : read_settings (length f.payload) f.payload [] ≡ ok (table_sizes ss) =
      rw e (read_settings-encode (length (encode_settings ss)) ss [] r (omega arith)) in
    rw runs

read_settings_ragged :
    (rounds : ℕ) (r : Bytes) (acc : List Setting)
    → length r ≤ rounds
    → length r % 6 ≢ 0
    → (e : IoError) × (read_settings rounds r acc ≡ err e)
read_settings_ragged rounds [] acc h m = absurd (m (omega arith))
read_settings_ragged zero (a ∷ r) acc h m = absurd (omega arith)
read_settings_ragged (suc n) (a ∷ []) acc h m =
    (unexpected_eof, unfold read_settings read_uint in refl)
read_settings_ragged (suc n) (a ∷ b ∷ []) acc h m = (eof, unfold read_settings read_uint in refl)
read_settings_ragged (suc n) (a ∷ b ∷ c ∷ []) acc h m =
    (unexpected_eof, unfold read_settings read_uint in refl)
read_settings_ragged (suc n) (a ∷ b ∷ c ∷ d ∷ []) acc h m =
    (unexpected_eof, unfold read_settings read_uint in refl)
read_settings_ragged (suc n) (a ∷ b ∷ c ∷ d ∷ e ∷ []) acc h m =
    (unexpected_eof, unfold read_settings read_uint in refl)
read_settings_ragged (suc n) (a ∷ b ∷ c ∷ d ∷ e ∷ f ∷ r) acc h m =
    let (x, runs) =
      read_settings_ragged n r
        (if (a * 256 + b) == setting_header_table_size
          then acc
            ++ record { id = setting_header_table_size; val = ((c * 256 + d) * 256 + e) * 256 + f }
              ∷ []
          else acc)
        (omega arith) (λ z. m (omega arith)) in
    (x, read_settings_six n a b c d e f r acc ∙ runs)

-- A SETTINGS payload whose length is no multiple of six is refused with an error.
pub parse_frame_setting_ragged :
    (f : FrameBase) → length f.payload % 6 ≢ 0 → (e : IoError) × (parse_frame_setting f ≡ err e)
unfolding parse_frame_setting
parse_frame_setting_ragged f h =
    let (e, runs) = read_settings_ragged (length f.payload) f.payload [] (omega arith) h in
    (e, rw runs)
