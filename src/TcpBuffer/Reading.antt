-- ===== src/TcpBuffer/Reading.antt =====
-- The reader's side: `Read` takes bytes off the front of what is pending, and nothing else.
use grpcreplay.Base.{
  ℕ, ◌≡◌, refl, sym, ap, subst, ◌∙◌, Bool, true, false, List, [], ◌∷◌, ◌++◌, append_assoc, arith,
  Bytes, take, drop, concat, take-append-drop,
}
use grpcreplay.Packages.{SkipList}
use grpcreplay.TcpBuffer.{
  TcpBuffer, ReadResult, got, eof, err_closed, blocked, pending, read_buffer, receive, read,
}

-- The bytes that a call handed to its caller.
abbrev pub taken : ReadResult → Bytes
taken (got bs) = bs
taken eof = []
taken err_closed = []
taken blocked = []

module _ ⦃s : SkipList⦄ where
  -- A read moves bytes and leaves the store and the expected sequence number alone.
  pub record Moved (b : TcpBuffer) (r : TcpBuffer × ReadResult) : Type 0 where
    pub conserved : taken r.1 ++ pending r.0 ≡ pending b
    pub same_cache : r.0.cache ≡ b.cache
    pub same_seq : r.0.expected_seq ≡ b.expected_seq

  read_buffer-Moved : (b : TcpBuffer) (n : ℕ) (l : Bytes) → b.buffer ≡ l → Moved b (read_buffer b n)
  unfolding read_buffer
  read_buffer-Moved b n [] e = record {
    conserved = ground (arith, e);
    same_cache = ground (arith, e);
    same_seq = ground (arith, e);
  }
  read_buffer-Moved b n (x ∷ xs) e = record {
    conserved =
        rw (e, read_buffer)
          (sym (append_assoc (take n (x ∷ xs)) (drop n (x ∷ xs)) (concat b.data_channel))
            ∙ ap (λ l. l ++ concat b.data_channel) (take-append-drop n (x ∷ xs)));
    same_cache = ground (arith, e);
    same_seq = ground (arith, e);
  }

  -- Taking a chunk off the channel and reading from it.
  received :
      (chunk : Bytes) (rest : List Bytes) (b : TcpBuffer) (n : ℕ)
      → b.data_channel ≡ chunk ∷ rest
      → Moved b (read_buffer (record b { data_channel = rest; buffer = b.buffer ++ chunk }) n)
  received chunk rest b n e =
      let filled = record b { data_channel = rest; buffer = b.buffer ++ chunk } in
      let m = read_buffer-Moved filled n (b.buffer ++ chunk) refl in
      record {
        conserved =
            m.conserved
            ∙ append_assoc b.buffer chunk (concat rest)
            ∙ ap (λ l. b.buffer ++ concat l) (sym e);
        same_cache = m.same_cache;
        same_seq = m.same_seq;
      }

  receive-Moved :
      (closed : Bool) (chan : List Bytes) (pick : Bool) (b : TcpBuffer) (n : ℕ)
      → b.data_channel ≡ chan
      → Moved b (receive closed chan pick b n)
  unfolding receive
  receive-Moved true [] pick b n e = record { conserved = refl; same_cache = refl; same_seq = refl }
  receive-Moved false [] pick b n e = record {
    conserved = refl;
    same_cache = refl;
    same_seq = refl;
  }
  receive-Moved true (chunk ∷ rest) true b n e = record {
    conserved = refl;
    same_cache = refl;
    same_seq = refl;
  }
  receive-Moved true (chunk ∷ rest) false b n e = received chunk rest b n e
  receive-Moved false (chunk ∷ rest) pick b n e = received chunk rest b n e

  pub read_empty :
      (pick : Bool) (n : ℕ) (b : TcpBuffer)
      → b.buffer ≡ []
      → read pick n b ≡ receive b.closed b.data_channel pick b n
  unfolding read
  read_empty pick n b e = ground (arith, e)

  pub read_buffered :
      (pick : Bool) (n : ℕ) (b : TcpBuffer) (x : ℕ) (xs : Bytes)
      → b.buffer ≡ x ∷ xs
      → read pick n b ≡ read_buffer b n
  unfolding read
  read_buffered pick n b x xs e = ground (arith, e)

  -- Every read conserves the stream of bytes: what it returns and what is still pending afterwards
  -- are together what was pending before.
  pub read-Moved : (pick : Bool) (n : ℕ) (b : TcpBuffer) → Moved b (read pick n b)
  read-Moved pick n b = go b.buffer refl
    where
      go : (l : Bytes) → b.buffer ≡ l → Moved b (read pick n b)
      go [] e =
          subst (λ r. Moved b r) (sym (read_empty pick n b e))
            (receive-Moved b.closed b.data_channel pick b n refl)
      go (x ∷ xs) e =
          subst (λ r. Moved b r) (sym (read_buffered pick n b x xs e))
            (read_buffer-Moved b n (x ∷ xs) e)
