-- ===== src/CodecSimple/RoundTrip.antt =====
-- A message that is written is read back.
use grpcreplay.Base.{
  ℕ, ◌≡◌, ◌≢◌, ◌≤◌, refl, sym, ap, subst, ◌∙◌, Bool, true, false, Option, none, some, List, [], ◌∷◌,
  ◌++◌, Bytes, arith, Bool-cases, append-nil, ok, inl, inr, ◌⊎◌,
}
use grpcreplay.Base.Int.{ℤ}
use grpcreplay.Base.Decimal.{format_int, IsInt64, IsDecimal, atoi-format_int, format_int-IsDecimal}
use grpcreplay.Base.Split.{split, Lacks, split-append, split_whole, All-map, All-append}
use grpcreplay.Packages.{Json}
use grpcreplay.Protocol.{Meta, MsgItem, Message, IsText, SameItem, SameMessage}
use grpcreplay.CodecSimple.{
  bool2int, int2bool, meta_line, parse_meta, marshal, unmarshal, marshal_response, parse_response,
}

-- What a message must be for its text to be unambiguous: 64-bit numbers, no separator within the
-- words of the first line or the method, and no response unless it says that it has one.
pub record IsWritable (m : Message) : Type 0 where
  pub version : IsInt64 m.meta.version
  pub timestamp : IsInt64 m.meta.timestamp
  pub uuid_word : Lacks b' ' m.meta.uuid
  pub uuid_line : Lacks b'\n' m.meta.uuid
  pub method_line : Lacks b'\n' m.method

decimal-Lacks : (b : ℕ) (i : ℤ) → b ≢ b'-' → (b ≤ 47) → Lacks b (format_int i)
decimal-Lacks b i m h =
    All-map IsDecimal (λ c. c ≢ b) (format_int i)
      (λ c d. λ e. elim d [
        | inl minus ↦ m (sym e ∙ minus)
        | inr digit ↦ absurd (omega (arith, digit.0, e))
      ])
      (format_int-IsDecimal i)

bool2int-IsInt64 : (b : Bool) → IsInt64 (bool2int b)
unfolding bool2int
bool2int-IsInt64 true = omega arith
bool2int-IsInt64 false = omega arith

int2bool-bool2int : (b : Bool) → int2bool (bool2int b) ≡ b
unfolding int2bool bool2int
int2bool-bool2int true = refl
int2bool-bool2int false = refl

words :
    (m : Meta)
    → Lacks b' ' m.uuid
    → split (meta_line m) b' '
      ≡ format_int m.version
        ∷ m.uuid
        ∷ format_int m.timestamp
        ∷ format_int (bool2int m.contain_response)
        ∷ []
unfolding meta_line
words m h =
    rw
      (
        split-append (format_int m.version) _ b' '
            (decimal-Lacks b' ' m.version (omega arith) (omega arith)),
        split-append m.uuid _ b' ' h,
        split-append (format_int m.timestamp) _ b' '
            (decimal-Lacks b' ' m.timestamp (omega arith) (omega arith)),
        split_whole (format_int (bool2int m.contain_response)) b' '
            (decimal-Lacks b' ' (bool2int m.contain_response) (omega arith) (omega arith)),
      )
      refl

pub parse_meta-meta_line :
    (m : Meta)
    → IsInt64 m.version
    → IsInt64 m.timestamp
    → Lacks b' ' m.uuid
    → parse_meta (split (meta_line m) b' ') ≡ ok m
parse_meta-meta_line m v t u =
    ap parse_meta (words m u)
    ∙ (unfold parse_meta in
        rw
          (
            atoi-format_int m.version v,
            atoi-format_int m.timestamp t,
            atoi-format_int (bool2int m.contain_response) (bool2int-IsInt64 m.contain_response),
            int2bool-bool2int m.contain_response,
          )
          refl)

pub one_line : (m : Meta) → Lacks b'\n' m.uuid → Lacks b'\n' (meta_line m)
unfolding meta_line
one_line m u =
    let lacks : (i : ℤ) → Lacks b'\n' (format_int i) =
      λ i. decimal-Lacks b'\n' i (omega arith) (omega arith) in
    let P = λ (c : ℕ). c ≢ b'\n' in
    All-append P (format_int m.version) _ (lacks m.version) (
      omega arith,
      All-append P m.uuid _ u (
        omega arith,
        All-append P (format_int m.timestamp) _ (lacks m.timestamp)
            (omega arith, lacks (bool2int m.contain_response)),
      ),
    )

module _ ⦃j : Json⦄ where
  -- What `Unmarshal` does once the lines are known.
  from_lines :
      (text : Bytes) (m : Meta) (method a : Bytes) (rest : List Bytes)
      (request response : Option MsgItem)
      → split text b'\n' ≡ meta_line m ∷ method ∷ a ∷ rest
      → parse_meta (split (meta_line m) b' ') ≡ ok m
      → j.unmarshal_item a ≡ some request
      → parse_response m.contain_response (meta_line m ∷ method ∷ a ∷ rest) ≡ ok response
      → unmarshal text
        ≡ ok (record { meta = m; method = method; request = request; response = response })
  unfolding unmarshal
  from_lines text m method a rest request response lines first r s = rw (lines, first, r, s) refl

  -- The lines of the text behind the first.
  abbrev pub tail_text : Bytes → Bytes → Bytes → Bytes
  tail_text method a rest = b'\n' ∷ (method ++ (b'\n' ∷ (a ++ rest)))

  pub written :
      (m : Message) (c : Bool) (a rest : Bytes)
      → m.meta.contain_response ≡ c
      → j.marshal_item m.request ≡ some a
      → marshal_response c m.response ≡ some rest
      → marshal m ≡ some (meta_line m.meta ++ tail_text m.method a rest)
  unfolding marshal
  written m c a rest e ea er =
      let here : marshal_response m.meta.contain_response m.response ≡ some rest =
        ap (λ x. marshal_response x m.response) e ∙ er in
      ground (arith, ea, here)

  pub cut :
      (m : Message) (a rest : Bytes) (more : List Bytes)
      → IsWritable m
      → split (a ++ rest) b'\n' ≡ a ∷ more
      → split (meta_line m.meta ++ tail_text m.method a rest) b'\n'
        ≡ meta_line m.meta ∷ m.method ∷ a ∷ more
  cut m a rest more w e =
      rw
        (
          split-append (meta_line m.meta) _ b'\n' (one_line m.meta w.uuid_line),
          split-append m.method _ b'\n' w.method_line,
          e,
        )
        refl

  -- The two sides for what stands behind the request.
  both :
      (m : Message) (c : Bool) (a rest : Bytes) (more : List Bytes) (response : Option MsgItem)
      → IsWritable m
      → IsText j.valid_string m.request
      → m.meta.contain_response ≡ c
      → j.marshal_item m.request ≡ some a
      → marshal_response c m.response ≡ some rest
      → split (a ++ rest) b'\n' ≡ a ∷ more
      → parse_response c (meta_line m.meta ∷ m.method ∷ a ∷ more) ≡ ok response
      → SameItem m.response response
      → (text : Bytes) × (m' : Message) × (marshal m ≡ some text)
        × (unmarshal text ≡ ok m')
        × SameMessage m m'
  both m c a rest more response w ta e ea er lines pr same =
      let (request, reads, like) = j.reads_back m.request a ta ea in
      (
        meta_line m.meta ++ tail_text m.method a rest,
        record { meta = m.meta; method = m.method; request = request; response = response },
        written m c a rest e ea er,
        from_lines _ m.meta m.method a more request response (cut m a rest more w lines)
            (parse_meta-meta_line m.meta w.version w.timestamp w.uuid_word) reads
            (ap (λ x. parse_response x (meta_line m.meta ∷ m.method ∷ a ∷ more)) e ∙ pr),
        record { same_meta = refl; same_method = refl; same_request = like; same_response = same },
      )

  -- A message whose items the JSON package accepts, with valid strings, 64-bit numbers, no separator
  -- within the words of the first line or the method, and with a response only if it says so, is
  -- written as a text, and reading that text gives the same message: the same meta data and
  -- method, and items with the same bodies and the same headers.
  pub unmarshal-marshal :
      (m : Message) (a b : Bytes)
      → IsWritable m
      → IsText j.valid_string m.request
      → IsText j.valid_string m.response
      → j.marshal_item m.request ≡ some a
      → j.marshal_item m.response ≡ some b
      → (m.meta.contain_response ≡ true) ⊎ (m.response ≡ none)
      → (text : Bytes) × (m' : Message) × (marshal m ≡ some text)
        × (unmarshal text ≡ ok m')
        × SameMessage m m'
  unmarshal-marshal m a b w ta tb ea eb has = elim (Bool-cases m.meta.contain_response) [
    | inl with ↦
        let (response, reads, like) = j.reads_back m.response b tb eb in
        both m true a (b'\n' ∷ b) (b ∷ []) response w ta with ea
          (unfold marshal_response in ground (arith, eb))
          (split-append a b b'\n' (j.one_line m.request a ea).0
            ∙ ap (◌∷◌ a) (split_whole b b'\n' (j.one_line m.response b eb).0))
          (unfold parse_response in rw reads refl) like
    | inr without ↦
        let none_there : m.response ≡ none = elim has [
          | inl it_has ↦ absurd (cc (without, it_has))
          | inr it ↦ it
        ] in
        both m false a [] [] none w ta without ea (unfold marshal_response in refl)
          (ap (λ x. split x b'\n') (append-nil a)
            ∙ split_whole a b'\n' (j.one_line m.request a ea).0)
          (unfold parse_response in refl) (subst (λ r. SameItem r none) (sym none_there) tt)
  ]
