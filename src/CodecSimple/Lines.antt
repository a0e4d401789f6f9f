-- ===== src/CodecSimple/Lines.antt =====
-- A text as the lines of a file.
use grpcreplay.Base.{
  ℕ, ◌≡◌, ◌≢◌, refl, sym, ap, ◌∙◌, inl, inr, true, false, some, List, [], ◌∷◌, ◌++◌, append_assoc,
  append-nil, Bytes, arith, All, Bool-cases,
}
use mathlib.Core.Option.{some-injective}
use grpcreplay.Base.Lines.{IsLine, unlines}
use grpcreplay.Base.Decimal.{format_int}
use grpcreplay.Packages.{Json}
use grpcreplay.Protocol.{Meta, Message}
use grpcreplay.CodecSimple.{meta_line, marshal, marshal_response}
use grpcreplay.CodecSimple.RoundTrip.{IsWritable, one_line, written, tail_text}

-- The text of a message with a method is lines that are not empty.
pub record IsRecord (text : Bytes) : Type 0 where
  pub lines : List Bytes
  pub some_lines : lines ≢ []
  pub all_lines : All IsLine lines
  pub spelled : text ++ b'\n' ∷ [] ≡ unlines lines

join_ne : (l r : Bytes) (c : ℕ) → l ++ (c ∷ r) ≢ []
join_ne [] r c e = cc
join_ne (x ∷ l) r c e = cc

meta_line-ne-nil : (m : Meta) → meta_line m ≢ []
unfolding meta_line
meta_line-ne-nil m = join_ne (format_int m.version) _ b' '

module _ ⦃j : Json⦄ where
  lines-IsRecord :
      (l m a : Bytes) (rest : Bytes) (more : List Bytes) (text : Bytes)
      → IsLine l
      → IsLine m
      → IsLine a
      → All IsLine more
      → (a ++ rest) ++ b'\n' ∷ [] ≡ a ++ (b'\n' ∷ unlines more)
      → text ≡ l ++ tail_text m a rest
      → IsRecord text
  lines-IsRecord l m a rest more text hl hm ha hr e t = record {
    lines = l ∷ m ∷ a ∷ more;
    some_lines = λ p. cc;
    all_lines = (hl, (hm, (ha, hr)));
    spelled =
        ap (λ x. x ++ b'\n' ∷ []) t
        ∙ append_assoc l (tail_text m a rest) (b'\n' ∷ [])
        ∙ ap (λ x. l ++ (b'\n' ∷ x))
            (append_assoc m (b'\n' ∷ (a ++ rest)) (b'\n' ∷ []) ∙ ap (λ x. m ++ (b'\n' ∷ x)) e);
  }

  pub marshal-IsRecord :
      (m : Message) (a b text : Bytes)
      → IsWritable m
      → m.method ≢ []
      → j.marshal_item m.request ≡ some a
      → j.marshal_item m.response ≡ some b
      → marshal m ≡ some text
      → IsRecord text
  marshal-IsRecord m a b text w named ea eb e =
      let L = meta_line m.meta in
      let hl : IsLine L = (meta_line-ne-nil m.meta, one_line m.meta w.uuid_line) in
      let hm : IsLine m.method = (named, w.method_line) in
      let oa = j.one_line m.request a ea in
      let ob = j.one_line m.response b eb in
      elim (Bool-cases m.meta.contain_response) [
        | inl with ↦
            lines-IsRecord L m.method a (b'\n' ∷ b) (b ∷ []) text hl hm (oa.1, oa.0)
              ((ob.1, ob.0), tt) (append_assoc a (b'\n' ∷ b) (b'\n' ∷ []))
              (some-injective _ _ (
                sym e
                ∙ written m true a (b'\n' ∷ b) with ea
                    (unfold marshal_response in ground (arith, eb))))
        | inr without ↦
            lines-IsRecord L m.method a [] [] text hl hm (oa.1, oa.0) tt
              (ap (λ x. x ++ b'\n' ∷ []) (append-nil a))
              (some-injective _ _
                (sym e ∙ written m false a [] without ea (unfold marshal_response in refl)))
      ]
