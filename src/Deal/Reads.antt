-- ===== src/Deal/Reads.antt =====
-- A read from a buffer that has bytes gives some.
use grpcreplay.Base.{
  ℕ, zero, suc, ◌≤◌, ◌<◌, ◌≡◌, ◌≢◌, refl, sym, ap, subst, Bool, false, List, [], ◌∷◌, ◌++◌, Bytes,
  length, take, drop, concat, arith, All,
}
use grpcreplay.Packages.{SkipList}
use grpcreplay.TcpBuffer.{
  TcpBuffer, ReadResult, got, pending, read, read_buffer, receive, update_counters,
}

module _ ⦃s : SkipList⦄ where
  -- A buffer that is not closed, with no empty payload on its way.
  pub record IsOpen (b : TcpBuffer) : Type 0 where
    pub not_closed : b.closed ≡ false
    pub filled : All (λ (chunk : Bytes). chunk ≢ []) b.data_channel

  -- What a `Read` gives.
  pub record Some (n : ℕ) (r : TcpBuffer × ReadResult) : Type 0 where
    pub bytes : Bytes
    pub after : TcpBuffer
    pub result : r ≡ (after, got bytes)
    pub not_none : 0 < length bytes
    pub not_more : length bytes ≤ n
    pub still : IsOpen after

  length-take_bound :
      (n : ℕ) (l : Bytes) → 0 < n → 0 < length l → (0 < length (take n l)) × (length (take n l) ≤ n)
  length-take_bound zero l h k = absurd (omega (arith, h))
  length-take_bound (suc n) [] h k = absurd (omega (arith, k))
  length-take_bound (suc n) (x ∷ l) h k = (omega arith, at_most n l)
    where
      at_most : (n : ℕ) (l : Bytes) → length (take (suc n) (x ∷ l)) ≤ suc n
      at_most zero [] = omega arith
      at_most zero (y ∷ l) = omega arith
      at_most (suc n) [] = omega arith
      at_most (suc n) (y ∷ l) = omega (arith, at_most n l)

  from_buffer :
      (n : ℕ) (b : TcpBuffer) (x : ℕ) (xs : Bytes)
      → 0 < n
      → IsOpen b
      → b.buffer ≡ x ∷ xs
      → Some n (read_buffer b n)
  unfolding read_buffer update_counters
  from_buffer n b x xs h o e =
      let (more, most) = length-take_bound n (x ∷ xs) h (omega arith) in
      record {
        bytes = take n (x ∷ xs);
        after = update_counters (record b { buffer = drop n (x ∷ xs) }) (length (take n (x ∷ xs)));
        result = ground (arith, e);
        not_none = more;
        not_more = most;
        still = record { not_closed = o.not_closed; filled = o.filled };
      }

  from_channel :
      (n : ℕ) (b : TcpBuffer) (pick : Bool) (l : List Bytes)
      → 0 < n
      → IsOpen b
      → b.buffer ≡ []
      → b.data_channel ≡ l
      → 0 < length (concat l)
      → Some n (read pick n b)
  from_channel n b pick [] h o e k more = absurd (omega (arith, more))
  from_channel n b pick ([] ∷ rest) h o e k more =
      absurd ((subst (All (λ (chunk : Bytes). chunk ≢ [])) k o.filled).0 refl)
  from_channel n b pick ((x ∷ xs) ∷ rest) h o e k more =
      let b' = record b { data_channel = rest; buffer = b.buffer ++ (x ∷ xs) } in
      let here : read pick n b ≡ read_buffer b' n =
        unfold read receive in ground (arith, e, k, o.not_closed) in
      let o' : IsOpen b' = record {
        not_closed = o.not_closed;
        filled = (subst (All (λ (chunk : Bytes). chunk ≢ [])) k o.filled).1;
      } in
      subst (Some n) (sym here) (from_buffer n b' x xs h o' (ap (λ l. l ++ (x ∷ xs)) e))

  pub read_something :
      (n : ℕ) (b : TcpBuffer) (pick : Bool)
      → 0 < n
      → IsOpen b
      → 0 < length (pending b)
      → Some n (read pick n b)
  read_something n b pick h o more = go b.buffer refl
    where
      go : (l : Bytes) → b.buffer ≡ l → Some n (read pick n b)
      go [] e =
          from_channel n b pick b.data_channel h o e refl
            (subst (λ l. 0 < length (l ++ concat b.data_channel)) e more)
      go (x ∷ xs) e =
          let here : read pick n b ≡ read_buffer b n = unfold read in ground (arith, e) in
          subst (Some n) (sym here) (from_buffer n b x xs h o e)
