-- ===== src/Replay/Files.antt =====
-- Several capture files that were written message by message are replayed one after another.
use grpcreplay.Base.{
  ℕ, zero, suc, ◌+◌, ◌<◌, ◌≡◌, ◌≢◌, refl, ap, subst, ◌∙◌, true, false, Option, none, some, List, [],
  ◌∷◌, ◌++◌, Bytes, codes, length, get_elem?, drop, map, arith, All, err,
}
use grpcreplay.Base.Lines.{read_bytes}
use grpcreplay.Base.Text.{has_suffix}
use grpcreplay.Packages.{Disk, Json}
use grpcreplay.Protocol.{Message}
use grpcreplay.CodecSimple.{codec_simple}
use grpcreplay.Replay.{
  eof, Reader, create_reader, new_reader, sort_strings, next_file, switched, read_loop,
  read_message, collected,
}
use grpcreplay.Replay.Reading.{reader_at}
use grpcreplay.Replay.Times.{read_times-append, read_times_next}
use grpcreplay.Replay.RoundTrip.{IsReplayable, SameMessages, write_messages, read_times, replay}

SameMessages-append :
    (a b c e : List Message) → SameMessages a c → SameMessages b e → SameMessages (a ++ b) (c ++ e)
SameMessages-append [] b [] e h k = k
SameMessages-append [] b (y ∷ c) e h k = absurd h
SameMessages-append (x ∷ a) b [] e h k = absurd h
SameMessages-append (x ∷ a) b (y ∷ c) e (hx, h) k = (hx, SameMessages-append a b c e h k)

drop-nil : (ps : List Bytes) (i : ℕ) → drop i ps ≡ [] → get_elem? ps i ≡ none
drop-nil [] i e = refl
drop-nil (p ∷ ps) zero e = absurd (cc e)
drop-nil (p ∷ ps) (suc i) e = drop-nil ps i e

drop-cons :
    (ps : List Bytes) (i : ℕ) (p : Bytes) (rest : List Bytes)
    → drop i ps ≡ p ∷ rest
    → (get_elem? ps i ≡ some p) × (drop (suc i) ps ≡ rest)
drop-cons [] zero p rest e = absurd (cc e)
drop-cons [] (suc i) p rest e = absurd (cc e)
drop-cons (q ∷ ps) zero p rest e = (cc e, cc e)
drop-cons (q ∷ ps) (suc i) p rest e = drop-cons ps i p rest e

module _ ⦃j : Json⦄ ⦃d : Disk⦄ where
  -- A file that holds the messages that were written to it, which are not none.
  pub record IsSaved (path : Bytes) (ms : List Message) : Type 0 where
    pub not_packed : has_suffix path (codes ".gz") ≡ false
    pub not_none : ms ≢ []
    pub replayable : All IsReplayable ms
    pub holds : d.open_file path ≡ write_messages codec_simple [] ms

  abbrev pub all_messages : List (Bytes × List Message) → List Message
  all_messages [] = []
  all_messages ((path, ms) ∷ files) = ms ++ all_messages files

  abbrev pub size_of : Option Bytes → ℕ
  size_of none = 0
  size_of (some content) = length content

  -- The bytes of the files.
  abbrev pub total : List (Bytes × List Message) → ℕ
  total [] = 0
  total ((path, ms) ∷ files) = size_of (d.open_file path) + total files

  abbrev pub paths_of : List (Bytes × List Message) → List Bytes
  paths_of files = map (λ (f : Bytes × List Message). f.0) files

  plain_reader :
      (path content : Bytes)
      → has_suffix path (codes ".gz") ≡ false
      → d.open_file path ≡ some content
      → create_reader path ≡ some content
  unfolding create_reader
  plain_reader path content plain there = ground (arith, plain, there)

  -- What the reads of the files give.
  abbrev Replayed : ℕ → Reader → List Bytes → List Message → Type 0
  Replayed fuel r paths ms =
      (last : ℕ) × (ms' : List Message) × (read_times (length ms) fuel codec_simple r
        ≡ some (reader_at paths last [], ms'))
      × SameMessages ms ms'
      × (get_elem? paths (suc last) ≡ none)

  one_file :
      (paths : List Bytes) (index fuel : ℕ) (path : Bytes) (ms : List Message)
      → IsSaved path ms
      → get_elem? paths (suc index) ≡ some path
      → size_of (d.open_file path) + 1 < fuel
      → (ms' : List Message) × (read_times
            (length ms)
            (suc fuel)
            codec_simple
            (reader_at paths index [])
          ≡ some (reader_at paths (suc index) [], ms'))
        × SameMessages ms ms'
  one_file paths index fuel path [] k e enough = absurd (k.not_none refl)
  one_file paths index fuel path (m ∷ ms) k e enough =
      let (content, ms', w, r, same, stable) = replay (m ∷ ms) k.replayable in
      let there : d.open_file path ≡ some content = k.holds ∙ w [] in
      let size : length content + 1 < fuel = omega (arith, enough, ap size_of there) in
      (
        ms',
        read_times_next paths index fuel (length ms) path content codec_simple e
              (plain_reader path content k.not_packed there)
              (stable paths (suc index) fuel (λ p. cc) size)
            ∙ r paths (suc index) (suc fuel) (omega (arith, size)),
        same,
      )

  abbrev pub AllSaved : List (Bytes × List Message) → Type 0
  AllSaved [] = Unit
  AllSaved ((path, ms) ∷ files) = IsSaved path ms × AllSaved files

  files_from :
      (paths : List Bytes) (index fuel : ℕ) (files : List (Bytes × List Message))
      → drop (suc index) paths ≡ paths_of files
      → AllSaved files
      → total files + 1 < fuel
      → Replayed (suc fuel) (reader_at paths index []) paths (all_messages files)
  unfolding read_times
  files_from paths index fuel [] e h enough = (index, [], refl, tt, drop-nil paths (suc index) e)
  files_from paths index fuel ((path, ms) ∷ files) e (k, h) enough =
      let (here, more) = drop-cons paths (suc index) path (paths_of files) e in
      let (ms', r, same) = one_file paths index fuel path ms k here (omega (arith, enough)) in
      let (last, ns', r', same', over) =
        files_from paths (suc index) fuel files more h (omega (arith, enough)) in
      (
        last,
        ms' ++ ns',
        read_times-append (suc fuel) codec_simple ms (all_messages files) (reader_at paths index [])
            (reader_at paths (suc index) []) (reader_at paths last []) ms' ns' r r',
        SameMessages-append ms (all_messages files) ms' ns' same same',
        over,
      )

  read_message_over :
      (paths : List Bytes) (last fuel : ℕ)
      → get_elem? paths (suc last) ≡ none
      → read_message (suc fuel) codec_simple (reader_at paths last [])
        ≡ some (record (reader_at paths last []) { eof_reached = true }, err eof)
  unfolding read_message collected read_loop next_file switched read_bytes
  read_message_over paths last fuel e = ground (arith, e)

  new_reader_first :
      (path content : Bytes) (more : List Bytes)
      → sort_strings (path ∷ more) ≡ path ∷ more
      → create_reader path ≡ some content
      → new_reader (path ∷ more) ≡ some (reader_at (path ∷ more) 0 content)
  unfolding new_reader
  new_reader_first path content more sorted c = ground (arith, sorted, c)

  -- Capture files in the order of their names, none of them packed or empty, each hold what was
  -- written for their messages, which are each accepted by the JSON package, unambiguous in the text
  -- codec and with a method. A reader opens on them; as many reads as there are messages give the
  -- messages of all files back, file by file and in their order; and the read after that is the end of
  -- the input. As many rounds for each read as the files have bytes, and three more, are enough.
  pub read_times_files :
      (path : Bytes) (ms : List Message) (files : List (Bytes × List Message))
      → sort_strings (path ∷ paths_of files) ≡ path ∷ paths_of files
      → AllSaved ((path, ms) ∷ files)
      → (r r' : Reader) × (ms' : List Message) × (new_reader (path ∷ paths_of files) ≡ some r)
        × (read_times
              (length (ms ++ all_messages files))
              (total ((path, ms) ∷ files) + 3)
              codec_simple
              r
            ≡ some (r', ms'))
        × SameMessages (ms ++ all_messages files) ms'
        × (read_message (total ((path, ms) ∷ files) + 3) codec_simple r'
            ≡ some (record r' { eof_reached = true }, err eof))
  read_times_files path ms files sorted (k, h) =
      let paths = path ∷ paths_of files in
      let fuel = total ((path, ms) ∷ files) + 2 in
      let (content, ms', w, r, same, _) = replay ms k.replayable in
      let there : d.open_file path ≡ some content = k.holds ∙ w [] in
      let size : length content + 1 < fuel = omega (arith, ap size_of there) in
      let (last, ns', r', same', over) = files_from paths 0 fuel files refl h (omega arith) in
      let first = r paths 0 (suc fuel) (omega (arith, size)) in
      let rounds : suc fuel ≡ total ((path, ms) ∷ files) + 3 = omega arith in
      (
        reader_at paths 0 content,
        reader_at paths last [],
        ms' ++ ns',
        new_reader_first path content (paths_of files) sorted
            (plain_reader path content k.not_packed there),
        subst
            (λ n.
              read_times (length (ms ++ all_messages files)) n codec_simple
                (reader_at paths 0 content)
              ≡ some (reader_at paths last [], ms' ++ ns'))
            rounds
            (read_times-append (suc fuel) codec_simple ms (all_messages files)
              (reader_at paths 0 content) (reader_at paths 0 []) (reader_at paths last []) ms' ns'
              first r'),
        SameMessages-append ms (all_messages files) ms' ns' same same',
        subst
            (λ n.
              read_message n codec_simple (reader_at paths last [])
              ≡ some (record (reader_at paths last []) { eof_reached = true }, err eof))
            rounds (read_message_over paths last fuel over),
      )
