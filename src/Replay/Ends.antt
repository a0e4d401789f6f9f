-- ===== src/Replay/Ends.antt =====
-- A read of a message always ends.
use grpcreplay.Base.{
  ℕ, zero, suc, ◌+◌, ◌-◌, ◌<◌, ◌≤◌, ◌≡◌, refl, sym, ap, subst, ◌∙◌, Bool, true, false, ◌||◌,
  Bool-cases, inl, inr, Option, none, some, List, [], ◌∷◌, ◌++◌, Bytes, ◌==◌, if◌then◌else◌, ltb,
  length, get_elem?, drop, take, arith, Result, ok, err, panic,
}
use mathlib.Core.Option.{some-injective}
use grpcreplay.Base.Lines.{read_bytes, push_line}
use grpcreplay.Packages.{Disk}
use grpcreplay.Protocol.{Message}
use grpcreplay.Registry.{Codec, CodecError}
use grpcreplay.Replay.{
  ReadError, eof, unmarshal_failed, Reader, create_reader, next_file, switched, opened, read_loop,
  read_message, decoded, collected,
}

-- How long what `ReadBytes` leaves is.
abbrev Shorter : ℕ → Option (Bytes × Bytes) → Type 0
Shorter n none = Unit
Shorter n (some (line, rest)) = length rest < n

read_bytes-Shorter : (s : Bytes) → Shorter (length s) (read_bytes s)
unfolding read_bytes
read_bytes-Shorter [] = tt
read_bytes-Shorter (c ∷ s) = go (c == b'\n') (read_bytes s) (read_bytes-Shorter s)
  where
    go :
        (t : Bool) (more : Option (Bytes × Bytes))
        → Shorter (length s) more
        → Shorter (suc (length s)) (if t then some (c ∷ [], s) else push_line c more)
    go true more h = omega arith
    go false none h = tt
    go false (some (line, rest)) h = omega (arith, h)

module _ ⦃d : Disk⦄ where
  abbrev size_of : Option Bytes → ℕ
  size_of none = 0
  size_of (some content) = length content

  -- The bytes of the files, and one for each of them.
  abbrev weight : List Bytes → ℕ
  weight [] = 0
  weight (path ∷ paths) = suc (size_of (create_reader path)) + weight paths

  -- What a reader has before it.
  abbrev pub left : Reader → ℕ
  left r = size_of r.rest + weight (drop (suc r.index) r.filepaths)

  weight-drop :
      (paths : List Bytes) (i : ℕ) (path : Bytes)
      → get_elem? paths i ≡ some path
      → weight (drop i paths) ≡ suc (size_of (create_reader path)) + weight (drop (suc i) paths)
  weight-drop [] i path e = absurd (cc e)
  weight-drop (p ∷ paths) zero path e =
      ap (λ x. suc (size_of (create_reader x)) + weight paths) (some-injective _ _ e)
  weight-drop (p ∷ paths) (suc i) path e = weight-drop paths i path e

  -- The next file is heavier than what is left of it.
  record Next (r : Reader) (x : Reader × Option ReadError) : Type 0 where
    at_most : left x.0 ≤ left r
    fewer : x.1 ≡ none → left x.0 < left r

  next_file-Next : (r : Reader) → Next r (next_file r)
  unfolding next_file switched opened
  next_file-Next r = go (get_elem? r.filepaths (suc r.index)) refl
    where
      content :
          (path : Bytes) (o : Option Bytes)
          → create_reader path ≡ o
          → get_elem? r.filepaths (suc r.index) ≡ some path
          → Next r (opened r o)
      content path none e q = record {
        at_most = omega (arith, weight-drop r.filepaths (suc r.index) path q);
        fewer = λ p. absurd (cc p);
      }
      content path (some bytes) e q =
          let w = weight-drop r.filepaths (suc r.index) path q in
          let n : size_of (create_reader path) ≡ length bytes = ap size_of e in
          record { at_most = omega (arith, w, n); fewer = λ p. omega (arith, w, n) }

      go : (o : Option Bytes) → get_elem? r.filepaths (suc r.index) ≡ o → Next r (switched r o)
      go none e = record { at_most = omega arith; fewer = λ p. absurd (cc p) }
      go (some path) e = content path (create_reader path) refl e

  -- There is a result, with no more before the reader than there was.
  pub record Ends {A : Type 0} (r : Reader) (o : Option (Reader × A)) : Type 0 where
    pub reader : Reader
    pub answer : A
    pub returns : o ≡ some (reader, answer)
    pub no_more : left reader ≤ left r

  returned : {A : Type 0} (r r' : Reader) (a : A) → left r' ≤ left r → Ends r (some (r', a))
  returned r r' a h = record { reader = r'; answer = a; returns = refl; no_more = h }

  later :
      {A : Type 0} (r r' : Reader) (o : Option (Reader × A))
      → left r' ≤ left r
      → Ends r' o
      → Ends r o
  later r r' o h k = record {
    reader = k.reader;
    answer = k.answer;
    returns = k.returns;
    no_more = omega (arith, h, k.no_more);
  }

  -- The round of the loop, where the rounds after it end.
  abbrev After : ℕ → Reader → Type 0
  After fuel r =
      (r' : Reader) (first : Bool) (line bf : Bytes)
      → left r' < left r
      → Ends r' (read_loop fuel r' first line bf)

  switch :
      (fuel : ℕ) (r : Reader) (rest bf : Bytes) (x : Reader × Option ReadError)
      → Next r x
      → After fuel r
      → Ends r (elim x.1 as (λ _. Option (Reader × Result ReadError Bytes)) [
        | some e ↦ some (x.0, err e)
        | none ↦ read_loop fuel x.0 true rest bf
      ])
  switch fuel r rest bf (r', some e) n k = returned r r' (err e) n.at_most
  switch fuel r rest bf (r', none) n k = later r r' _ n.at_most (k r' true rest bf (n.fewer refl))

  one_round :
      (fuel : ℕ) (r : Reader) (rest bf : Bytes) (o : Option (Bytes × Bytes))
      → r.rest ≡ some rest
      → Shorter (length rest) o
      → After fuel r
      → Ends r (elim o as (λ _. Option (Reader × Result ReadError Bytes)) [
        | some (line', rest') ↦
            read_loop fuel
              (record r { rest = some rest' })
              false
              line'
              (if ltb 1 (length line') then bf ++ line' else bf)
        | none ↦ elim (next_file r).1 [
          | some e ↦ some ((next_file r).0, err e)
          | none ↦ read_loop fuel (next_file r).0 true rest bf
        ]
      ])
  one_round fuel r rest bf none e h k = switch fuel r rest bf (next_file r) (next_file-Next r) k
  one_round fuel r rest bf (some (line', rest')) e h k =
      let n : size_of r.rest ≡ length rest = ap size_of e in
      let r' : Reader = record r { rest = some rest' } in
      later r r' _ (omega (arith, n, h)) (k r' false line' _ (omega (arith, n, h)))

  pub read_loop-Ends :
      (fuel : ℕ) (r : Reader) (first : Bool) (line bf : Bytes)
      → left r < fuel
      → Ends r (read_loop fuel r first line bf)
  unfolding read_loop
  read_loop-Ends zero r first line bf h = absurd (omega (arith, h))
  read_loop-Ends (suc fuel) r first line bf h =
      let smaller : After fuel r =
        λ r' first' line' bf' k. read_loop-Ends fuel r' first' line' bf' (omega (arith, h, k)) in
      test (first || ltb 1 (length line)) (from_rest smaller r.rest refl)
    where
      test :
          (t : Bool) {o : Option (Reader × Result ReadError Bytes)}
          → Ends r o
          → Ends r (if t then o else some (r, ok bf))
      test true k = k
      test false k = returned r r (ok bf) (omega arith)

      from_rest :
          After fuel r
          → (x : Option Bytes) → r.rest ≡ x
          → Ends r (elim x as (λ _. Option (Reader × Result ReadError Bytes)) [
            | none ↦ some (r, panic)
            | some rest ↦ elim (read_bytes rest) [
              | some (line', rest') ↦
                  read_loop fuel
                    (record r { rest = some rest' })
                    false
                    line'
                    (if ltb 1 (length line') then bf ++ line' else bf)
              | none ↦ elim (next_file r).1 [
                | some e ↦ some ((next_file r).0, err e)
                | none ↦ read_loop fuel (next_file r).0 true rest bf
              ]
            ]
          ])
      from_rest smaller none e = returned r r panic (omega arith)
      from_rest smaller (some rest) e =
          one_round fuel r rest bf (read_bytes rest) e (read_bytes-Shorter rest) smaller

  decoded-same : (codec : Codec) (r : Reader) (bf : Bytes) → (decoded codec r bf).0 ≡ r
  unfolding decoded
  decoded-same codec r [] = refl
  decoded-same codec r (c ∷ bf) = go (codec.unmarshal (take (length (c ∷ bf) - 1) (c ∷ bf)))
    where
      go :
          (a : Result CodecError Message)
          → (elim a as (λ _. Reader × Result ReadError Message) [
            | ok msg ↦ (r, ok msg)
            | err e ↦ (r, err (unmarshal_failed e))
            | panic ↦ (r, panic)
          ]).0
            ≡ r
      go (ok m) = refl
      go (err e) = refl
      go panic = refl

  collected-Ends :
      (codec : Codec) (r r' : Reader) (a : Result ReadError Bytes)
      → left r' ≤ left r
      → Ends r (collected codec (some (r', a)))
  unfolding collected
  collected-Ends codec r r' (ok bf) h = record {
    reader = r';
    answer = (decoded codec r' bf).1;
    returns = ap (λ x. some (x, (decoded codec r' bf).1)) (decoded-same codec r' bf);
    no_more = h;
  }
  collected-Ends codec r r' (err e) h = returned r r' (err e) h
  collected-Ends codec r r' panic h = returned r r' panic h

  -- Whatever the files hold, a read of a message ends, with a message, an error or a panic, after
  -- fewer rounds than there are bytes in the current file and the files behind it, and files; and
  -- never are there more of these before the reader afterwards.
  pub read_message-Ends :
      (fuel : ℕ) (codec : Codec) (r : Reader) → left r < fuel → Ends r (read_message fuel codec r)
  unfolding read_message
  read_message-Ends fuel codec r h = elim (Bool-cases r.eof_reached) [
    | inl over ↦
        let e : read_message fuel codec r ≡ some (r, err eof) = ground (arith, over) in
        subst (Ends r) (sym e) (returned r r (err eof) (omega arith))
    | inr more ↦
        let k = read_loop-Ends fuel r true [] [] h in
        let e : read_message fuel codec r ≡ collected codec (read_loop fuel r true [] []) =
          ground (arith, more) in
        subst (Ends r) (sym (e ∙ ap (collected codec) k.returns))
          (collected-Ends codec r k.reader k.answer k.no_more)
  ]
