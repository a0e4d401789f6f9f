-- ===== src/TcpBuffer/Segments.antt =====
-- The packets that carry a given stream, and what holds of a buffer that has delivered a prefix of
-- it: one more packet makes the prefix longer.
use grpcreplay.Base.{
  ℕ, zero, suc, ◌+◌, ◌%◌, ◌≤◌, ◌<◌, ◌≡◌, ◌≢◌, refl, sym, ap, ◌∙◌, some, List, [], ◌∷◌, ◌++◌,
  append-nil, append_assoc, arith, Bytes, length, take, drop, concat, u32_mod, max_uint32,
  length-append, subst,
}
use grpcreplay.Packages.{Tcp, SkipList}
use grpcreplay.TcpBuffer.{TcpBuffer, next_seq, pending}

-- The sequence number of a position of the stream.
abbrev pub seq_at : ℕ → ℕ → ℕ
seq_at isn pos = (isn + pos) % u32_mod

-- The packet carries the bytes of the stream from `pos` on. Its end does not fall on 2^32 - 1, the
-- one sequence number that the code's `% math.MaxUint32` turns into another.
pub record IsSegment (isn : ℕ) (stream : Bytes) (p : Tcp) : Type 0 where
  pub pos : ℕ
  pub seq_eq : p.seq ≡ seq_at isn pos
  pub payload_eq : p.payload ≡ take (length p.payload) (drop pos stream)
  pub not_empty : 0 < length p.payload
  pub inside : pos + length p.payload ≤ length stream
  pub end_ok : seq_at isn (pos + length p.payload) ≢ max_uint32

concat-append : (xs ys : List Bytes) → concat (xs ++ ys) ≡ concat xs ++ concat ys
concat-append [] ys = refl
concat-append (x ∷ xs) ys = rw (concat-append xs ys) (sym (append_assoc x (concat xs) (concat ys)))

take-nil : (m : ℕ) → ◌≡◌ {A = Bytes} [] (take m [])
take-nil zero = refl
take-nil (suc m) = refl

take-add : (n m : ℕ) (xs : Bytes) → take (n + m) xs ≡ take n xs ++ take m (drop n xs)
take-add zero m xs = let e : zero + m ≡ m = omega arith in rw e
take-add (suc n) m [] = let e : suc n + m ≡ suc (n + m) = omega arith in rw e (take-nil m)
take-add (suc n) m (x ∷ xs) =
    let e : suc n + m ≡ suc (n + m) = omega arith in rw e (ap (◌∷◌ x) (take-add n m xs))

-- A prefix of the stream and the bytes that follow it are a longer prefix.
extend-prefix :
    (c p q p' st : Bytes)
    → p' ≡ p ++ q
    → c ++ p ≡ take (length c + length p) st
    → q ≡ take (length q) (drop (length c + length p) st)
    → c ++ p' ≡ take (length c + length p') st
extend-prefix c p q p' st grown e f =
    subst (λ x. c ++ x ≡ take (length c + length x) st) (sym grown)
      (sym (append_assoc c p q)
        ∙ ap (λ x. x ++ q) e
        ∙ ap (◌++◌ (take n st)) f
        ∙ sym (take-add n (length q) st)
        ∙ ap (λ k. take k st) size)
  where
    n : ℕ
    n = length c + length p

    size : length c + length p + length q ≡ length c + length (p ++ q)
    size = omega (arith, length-append p q)

module _ ⦃s : SkipList⦄ where
  -- The state after one round of the loop.
  abbrev pub pushed : TcpBuffer → Tcp → ℕ → TcpBuffer
  pushed b p size = record b {
    actual_can_read_size = size;
    expected_seq = next_seq p;
    data_channel = b.data_channel ++ p.payload ∷ [];
  }

  -- The payload as if it were in the channel, behind what is pending.
  abbrev pub accepted : TcpBuffer → Tcp → TcpBuffer
  accepted b p = record b { data_channel = b.data_channel ++ p.payload ∷ [] }

  pub pending-pushed :
      (b : TcpBuffer) (p : Tcp) (size : ℕ) → pending (pushed b p size) ≡ pending b ++ p.payload
  pending-pushed b p size =
      ap (◌++◌ b.buffer) (concat-append b.data_channel (p.payload ∷ []))
      ∙ simp (append_assoc, append-nil)

module _ ⦃s : SkipList⦄ (isn : ℕ) (stream : Bytes) where
  -- `consumed` is what the reader has taken.
  pub record Flow (consumed : Bytes) (b : TcpBuffer) : Type 0 where
    pub short : length consumed + length (pending b) ≤ length stream
    pub prefix : consumed ++ pending b ≡ take (length consumed + length (pending b)) stream
    pub expected : b.expected_seq ≡ seq_at isn (length consumed + length (pending b))
    pub stored : (k : ℕ) (p : Tcp) → s.get b.cache k ≡ some p → (p.seq ≡ k) × IsSegment isn stream p

  pub pushed-Flow :
      (consumed : Bytes) (b : TcpBuffer) (p : Tcp) (size : ℕ)
      → length stream < u32_mod
      → IsSegment isn stream p
      → b.expected_seq ≡ p.seq
      → Flow consumed b
      → Flow consumed (pushed b p size)
  pushed-Flow c b p size small g e f =
      let n = length c + length (pending b) in
      let at : g.pos ≡ n = omega (arith, g.seq_eq, g.inside, g.not_empty, f.expected, f.short, e) in
      let grow : length (pending (pushed b p size)) ≡ length (pending b) + length p.payload =
        ap length (pending-pushed b p size) ∙ length-append (pending b) p.payload in
      record {
        short = omega (arith, grow, g.inside, at);
        prefix =
            extend-prefix c (pending b) p.payload _ stream (pending-pushed b p size) f.prefix
              (subst (λ k. p.payload ≡ take (length p.payload) (drop k stream)) at g.payload_eq);
        expected = omega (arith, grow, g.seq_eq, g.end_ok, at);
        stored = f.stored;
      }
