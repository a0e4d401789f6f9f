-- ===== src/Tests/Files.antt =====
-- The text codec and the capture files at concrete messages. The JSON package is one that writes
-- items without headers, each byte moved by 20.
use grpcreplay.Base.{
  bytes_eq, ◌<◌, bytes_key, ◌+◌, ◌-◌, ◌≡◌, ◌≢◌, refl, ap, ◌∙◌, sym, subst, inl, inr, ◌==◌,
  if◌then◌else◌, true, false, Option, none, some, List, [], ◌∷◌, ◌++◌, Bytes, codes, arith, All,
  map, ok, panic, err,
}
use mathlib.Core.Option.{some-injective}
use grpcreplay.Base.Int.{pos}
use grpcreplay.Base.Decimal.{format_int, atoi, atoi-format_int}
use grpcreplay.Base.Text.{has_suffix}
use grpcreplay.GoMap.{GoMap, get}
use grpcreplay.Packages.{Json, Disk}
use grpcreplay.Protocol.{MsgItem, Message, IsText, SameItem, SameMessage}
use grpcreplay.CodecSimple.{marshal, unmarshal, codec_simple, meta_line}
use grpcreplay.CodecSimple.RoundTrip.{IsWritable, unmarshal-marshal}
use grpcreplay.CodecSimple.Truncated.{unmarshal_truncated}
use grpcreplay.Replay.{sort_strings, eof, Reader, new_reader, read_message}
use grpcreplay.Replay.Files.{IsSaved, total, read_times_files}
use grpcreplay.Replay.Ends.{left}
use grpcreplay.Replay.Reading.{reader_at}
use grpcreplay.FileInput.{FileDirInput}
use grpcreplay.FileInput.Running.{fires, reads, run, sendings, Runs}
use grpcreplay.FileInput.Conserved.{run-Runs}
use grpcreplay.Replay.RoundTrip.{IsReplayable, SameMessages, write_messages, read_times}

abbrev spelled : Option MsgItem → Option Bytes
spelled none = some (codes "null")
spelled (some item) = elim item.headers [
  | [] ↦ some (b'"' ∷ map (λ c. c + 20) item.body)
  | e ∷ es ↦ none
]

abbrev parsed : Bytes → Option (Option MsgItem)
parsed [] = none
parsed (c ∷ s) =
    if c == b'"'
    then some (some (record { headers = []; body = map (λ d. d - 20) s }))
    else some none

moved_back : (s : Bytes) → map (λ d. d - 20) (map (λ c. c + 20) s) ≡ s
moved_back [] = refl
moved_back (c ∷ s) = rw (moved_back s) (ap (λ x. x ∷ s) (omega arith))

moved_lacks : (s : Bytes) → All (λ c. c ≢ b'\n') (map (λ c. c + 20) s)
moved_lacks [] = tt
moved_lacks (c ∷ s) = (omega arith, moved_lacks s)

spelled_line :
    (x : Option MsgItem) (b : Bytes) → spelled x ≡ some b → All (λ c. c ≢ b'\n') b × (b ≢ [])
spelled_line none b e =
    subst (λ r. All (λ c. c ≢ b'\n') r × (r ≢ [])) (some-injective _ _ e)
      ((omega arith, (omega arith, (omega arith, (omega arith, tt)))), λ p. cc)
spelled_line (some item) b e = go item.headers e
  where
    go :
        (hs : GoMap Bytes Bytes)
        → elim hs [ [] ↦ some (b'"' ∷ map (λ c. c + 20) item.body) | h ∷ t ↦ none ] ≡ some b
        → All (λ c. c ≢ b'\n') b × (b ≢ [])
    go [] q =
        subst (λ r. All (λ c. c ≢ b'\n') r × (r ≢ [])) (some-injective _ _ q)
          ((omega arith, moved_lacks item.body), λ p. cc)
    go (h ∷ t) q = absurd (cc q)

spelled_back :
    (x : Option MsgItem) (b : Bytes)
    → IsText (λ s. true) x
    → spelled x ≡ some b
    → (y : Option MsgItem) × (parsed b ≡ some y) × SameItem x y
spelled_back none b v e = (none, ap parsed (sym (some-injective _ _ e)), tt)
spelled_back (some item) b v e = go item.headers refl e
  where
    go :
        (hs : GoMap Bytes Bytes)
        → item.headers ≡ hs
        → elim hs [ [] ↦ some (b'"' ∷ map (λ c. c + 20) item.body) | h ∷ t ↦ none ] ≡ some b
        → (y : Option MsgItem) × (parsed b ≡ some y) × SameItem (some item) y
    go [] h q = (
      some (record { headers = []; body = item.body }),
      ap parsed (sym (some-injective _ _ q))
          ∙ ap (λ s. some (some (record { headers = []; body = s }))) (moved_back item.body),
      (refl, λ key. ap (λ m. get m key) h),
    )
    go (k ∷ t) h q = absurd (cc q)

instance abbrev json : Json
json = record {
  marshal_item = spelled;
  unmarshal_item = parsed;
  valid_string = λ s. true;
  one_line = spelled_line;
  reads_back = spelled_back;
}

abbrev hello : Message
hello = record {
  meta = record {
    version = pos 2;
    uuid = codes "a-b";
    timestamp = pos 17;
    contain_response = true;
  };
  method = codes "/S/M";
  request = some (record { headers = []; body = codes "{}" });
  response = some (record { headers = []; body = codes "[]" });
}

abbrev silent : Message
silent = record {
  meta = record { version = pos 2; uuid = codes "c"; timestamp = pos 18; contain_response = false };
  method = codes "/S/N";
  request = none;
  response = none;
}

hello-IsWritable : IsWritable hello
hello-IsWritable = record {
  version = omega arith;
  timestamp = omega arith;
  uuid_word = (omega arith, (omega arith, (omega arith, tt)));
  uuid_line = (omega arith, (omega arith, (omega arith, tt)));
  method_line = (omega arith, (omega arith, (omega arith, (omega arith, tt))));
}

silent-IsWritable : IsWritable silent
silent-IsWritable = record {
  version = omega arith;
  timestamp = omega arith;
  uuid_word = (omega arith, tt);
  uuid_line = (omega arith, tt);
  method_line = (omega arith, (omega arith, (omega arith, (omega arith, tt))));
}

hello_valid : IsText (λ s. true) hello.request
unfolding get
hello_valid = (refl, λ key value e. (refl, refl))

hello_response_valid : IsText (λ s. true) hello.response
hello_response_valid = (refl, λ key value e. (refl, refl))

hello-IsReplayable : IsReplayable hello
hello-IsReplayable = record {
  writable = hello-IsWritable;
  named = λ p. cc;
  request_valid = hello_valid;
  response_valid = hello_response_valid;
  request_text = b'"' ∷ map (λ c. c + 20) (codes "{}");
  response_text = b'"' ∷ map (λ c. c + 20) (codes "[]");
  request_marshals = refl;
  response_marshals = refl;
  response_told = inl refl;
}

silent-IsReplayable : IsReplayable silent
silent-IsReplayable = record {
  writable = silent-IsWritable;
  named = λ p. cc;
  request_valid = tt;
  response_valid = tt;
  request_text = codes "null";
  response_text = codes "null";
  request_marshals = refl;
  response_marshals = refl;
  response_told = inr refl;
}

-- The file a.log has the first message, every other one the second.
abbrev disk_content : Bytes → Option Bytes
disk_content path =
    if bytes_eq path (codes "a.log")
    then write_messages codec_simple [] (hello ∷ [])
    else write_messages codec_simple [] (silent ∷ [])

instance abbrev disk : Disk
disk = record { open_file = disk_content; gunzip = λ packed. none }

plain_name : has_suffix (codes "a.log") (codes ".gz") ≡ false
unfolding has_suffix
plain_name = refl

other_plain_name : has_suffix (codes "b.log") (codes ".gz") ≡ false
unfolding has_suffix
other_plain_name = refl

in_order : sort_strings (codes "a.log" ∷ codes "b.log" ∷ []) ≡ codes "a.log" ∷ codes "b.log" ∷ []
unfolding sort_strings
in_order = refl

a-IsSaved : IsSaved (codes "a.log") (hello ∷ [])
a-IsSaved = record {
  not_packed = plain_name;
  not_none = λ p. cc;
  replayable = (hello-IsReplayable, tt);
  holds = refl;
}

b-IsSaved : IsSaved (codes "b.log") (silent ∷ [])
b-IsSaved = record {
  not_packed = other_plain_name;
  not_none = λ p. cc;
  replayable = (silent-IsReplayable, tt);
  holds = refl;
}

read_times_files_example :
    (r r' : Reader) × (ms' : List Message) × (new_reader (codes "a.log" ∷ codes "b.log" ∷ [])
      ≡ some r)
    × (read_times 2
          (total ((codes "a.log", hello ∷ []) ∷ (codes "b.log", silent ∷ []) ∷ []) + 3)
          codec_simple
          r
        ≡ some (r', ms'))
    × SameMessages (hello ∷ silent ∷ []) ms'
    × (read_message
          (total ((codes "a.log", hello ∷ []) ∷ (codes "b.log", silent ∷ []) ∷ []) + 3)
          codec_simple
          r'
        ≡ some (record r' { eof_reached = true }, err eof))
read_times_files_example =
    read_times_files (codes "a.log") (hello ∷ []) ((codes "b.log", silent ∷ []) ∷ []) in_order
      (a-IsSaved, (b-IsSaved, tt))

unmarshal-marshal_example :
    (text : Bytes) × (m' : Message) × (marshal hello ≡ some text)
    × (unmarshal text ≡ ok m')
    × SameMessage hello m'
unmarshal-marshal_example =
    unmarshal-marshal hello (b'"' ∷ map (λ c. c + 20) (codes "{}"))
      (b'"' ∷ map (λ c. c + 20) (codes "[]")) hello-IsWritable hello_valid hello_response_valid refl
      refl (inl refl)

unmarshal_truncated_example :
    (unmarshal (meta_line silent.meta) ≡ panic)
    × (unmarshal (meta_line silent.meta ++ (b'\n' ∷ silent.method)) ≡ panic)
unmarshal_truncated_example = unmarshal_truncated silent silent-IsWritable

-- The most negative number there is.
atoi-format_int_example : atoi (format_int (pos 17)) ≡ some (pos 17)
atoi-format_int_example = atoi-format_int (pos 17) (omega arith)

-- Two tasks are due, the later one first; a cut record is left in the file.
abbrev replaying : FileDirInput
replaying = record {
  reader = reader_at (codes "a.log" ∷ []) 0 (codes "2 c");
  benchmark_timestamp = pos 17;
  timer = hello ∷ silent ∷ [];
  msg_chan = [];
}

enough : left replaying.reader < 10
enough = omega arith

run-Runs_example :
    Runs 10 codec_simple replaying
      (sendings 10 codec_simple replaying (fires 1 ∷ reads ∷ fires 0 ∷ []))
      (run 10 codec_simple replaying (fires 1 ∷ reads ∷ fires 0 ∷ []))
run-Runs_example = run-Runs 10 codec_simple replaying (fires 1 ∷ reads ∷ fires 0 ∷ []) enough
