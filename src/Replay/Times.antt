-- ===== src/Replay/Times.antt =====
-- Several reads, and the step from one file to the next.
use grpcreplay.Base.{
  ℕ, suc, ◌≡◌, sym, ap, ◌∙◌, Option, none, some, List, [], ◌∷◌, ◌++◌, Bytes, length, get_elem?,
  arith, Result, ok, err, panic,
}
use mathlib.Core.Option.{some-injective}
use grpcreplay.Base.Lines.{read_bytes}
use grpcreplay.Packages.{Disk}
use grpcreplay.Protocol.{Message}
use grpcreplay.Registry.{Codec}
use grpcreplay.Replay.{
  ReadError, Reader, create_reader, next_file, switched, opened, read_loop, read_message,
}
use grpcreplay.Replay.Reading.{reader_at}
use grpcreplay.Replay.RoundTrip.{read_times, with_message, after_read}

module _ ⦃d : Disk⦄ where
  -- At the end of a file the next one is read, with a round less.
  next_read :
      (paths : List Bytes) (index fuel : ℕ) (codec : Codec) (path content : Bytes)
      → get_elem? paths (suc index) ≡ some path
      → create_reader path ≡ some content
      → read_message (suc fuel) codec (reader_at paths index [])
        ≡ read_message fuel codec (reader_at paths (suc index) content)
  unfolding read_message read_loop next_file switched opened read_bytes
  next_read paths index fuel codec path content e c = ground (arith, e, c)

  with_message_inv :
      (m : Message) (o : Option (Reader × List Message)) (r : Reader) (a : List Message)
      → with_message m o ≡ some (r, a)
      → (a' : List Message) × (o ≡ some (r, a')) × (a ≡ m ∷ a')
  with_message_inv m none r a e = absurd (cc e)
  with_message_inv m (some (r', a')) r a e =
      let p : (r', m ∷ a') ≡ (r, a) = some-injective _ _ e in
      (
        a',
        ap (λ (x : Reader × List Message). some (x.0, a')) p,
        sym (ap (λ (x : Reader × List Message). x.1) p),
      )

  after_read-append :
      (o : Option (Reader × Result ReadError Message))
      (f g : Reader → Option (Reader × List Message)) (r1 r2 : Reader) (a b : List Message)
      → ((r' : Reader) (a' : List Message) → f r' ≡ some (r1, a') → g r' ≡ some (r2, a' ++ b))
      → after_read o f ≡ some (r1, a)
      → after_read o g ≡ some (r2, a ++ b)
  after_read-append none f g r1 r2 a b k e = absurd (cc e)
  after_read-append (some (r', ok m)) f g r1 r2 a b k e =
      let (a', q, w) = with_message_inv m (f r') r1 a e in
      ap (with_message m) (k r' a' q) ∙ ap (λ l. some (r2, l ++ b)) (sym w)
  after_read-append (some (r', err x)) f g r1 r2 a b k e = absurd (cc e)
  after_read-append (some (r', panic)) f g r1 r2 a b k e = absurd (cc e)

  -- The reads of two lists of messages one after another.
  pub read_times-append :
      (fuel : ℕ) (codec : Codec) (ms ns : List Message) (r r1 r2 : Reader) (a b : List Message)
      → read_times (length ms) fuel codec r ≡ some (r1, a)
      → read_times (length ns) fuel codec r1 ≡ some (r2, b)
      → read_times (length (ms ++ ns)) fuel codec r ≡ some (r2, a ++ b)
  unfolding read_times
  read_times-append fuel codec [] ns r r1 r2 a b e k =
      let p : (r, []) ≡ (r1, a) = some-injective _ _ e in
      ap (read_times (length ns) fuel codec) (ap (λ (x : Reader × List Message). x.0) p)
      ∙ k
      ∙ ap (λ (x : Reader × List Message). some (r2, x.1 ++ b)) p
  read_times-append fuel codec (m ∷ ms) ns r r1 r2 a b e k =
      after_read-append (read_message fuel codec r) (λ r'. read_times (length ms) fuel codec r')
        (λ r'. read_times (length (ms ++ ns)) fuel codec r') r1 r2 a b
        (λ r' a' q. read_times-append fuel codec ms ns r' r1 r2 a' b q k) e

  -- The first read of a file comes from the end of the file before.
  pub read_times_next :
      (paths : List Bytes) (index fuel n : ℕ) (path content : Bytes) (codec : Codec)
      → get_elem? paths (suc index) ≡ some path
      → create_reader path ≡ some content
      → read_message fuel codec (reader_at paths (suc index) content)
        ≡ read_message (suc fuel) codec (reader_at paths (suc index) content)
      → read_times (suc n) (suc fuel) codec (reader_at paths index [])
        ≡ read_times (suc n) (suc fuel) codec (reader_at paths (suc index) content)
  unfolding read_times
  read_times_next paths index fuel n path content codec e c same =
      ap (λ o. after_read o (λ r'. read_times n (suc fuel) codec r'))
        (next_read paths index fuel codec path content e c ∙ same)
