-- ===== src/Replay.antt =====
-- plugin/input_file_dir.go, `ReinforcedReader`: the messages of several capture files, one after
-- another; and plugin/output_file_dir.go, which writes them. A gzip file is its bytes when they are
-- unpacked; one that is damaged behind its header is not modelled, and `Close` of a file succeeds.
pub mod Reading
pub mod Ends
pub mod Times
pub mod Files
pub mod RoundTrip
use grpcreplay.Base.{
  ℕ, zero, suc, ◌-◌, Bool, true, false, ◌&&◌, ◌||◌, Option, none, some, List, [], ◌∷◌, ◌++◌, Bytes,
  codes, ltb, ◌==◌, if◌then◌else◌, length, take, get_elem?, Result, ok, err, panic,
}
use grpcreplay.Base.Lines.{read_bytes}
use grpcreplay.Base.Text.{has_suffix}
use grpcreplay.Packages.{Disk}
use grpcreplay.Protocol.{Message}
use grpcreplay.Registry.{Codec, CodecError}

-- `FileDirOutput.Write` and `StdOutput.Write`: what is written so far, with the message behind it.
-- `none`: the codec's error. The log file is not rotated.
unfoldable pub write : Codec → Bytes → Message → Option Bytes
write codec written msg = elim (codec.marshal msg) [
  | none ↦ none
  | some text ↦ some (written ++ (text ++ (b'\n' ∷ b'\n' ∷ [])))
]

-- a < b for strings
abbrev pub before : Bytes → Bytes → Bool
before [] [] = false
before [] (c ∷ s) = true
before (b ∷ r) [] = false
before (b ∷ r) (c ∷ s) = ltb b c || ((b == c) && before r s)

abbrev pub insert : Bytes → List Bytes → List Bytes
insert s [] = s ∷ []
insert s (p ∷ ps) = let rest = insert s ps in if before p s then p ∷ rest else s ∷ p ∷ ps

-- `sort.Strings`
unfoldable pub sort_strings : List Bytes → List Bytes
sort_strings [] = []
sort_strings (s ∷ ss) = insert s (sort_strings ss)

pub data ReadError : Type 0 where
  eof open_failed : ReadError
  unmarshal_failed : CodecError → ReadError

-- `rest` is what the reader of the current file has left; `none` is a nil reader.
pub record Reader : Type 0 where
  pub filepaths : List Bytes
  pub index : ℕ
  pub rest : Option Bytes
  pub eof_reached : Bool

module _ ⦃d : Disk⦄ where
  inflated : Option Bytes → Option Bytes
  inflated none = none
  inflated (some packed) = d.gunzip packed

  unfoldable pub create_reader : Bytes → Option Bytes
  unfolding inflated
  create_reader path =
      if has_suffix path (codes ".gz") then inflated (d.open_file path) else d.open_file path

  -- `none`: the program ends.
  unfoldable pub new_reader : List Bytes → Option Reader
  new_reader filepaths = elim (sort_strings filepaths) [
    | [] ↦ none
    | first ∷ others ↦ elim (create_reader first) [
      | none ↦ none
      | some content ↦ some (record {
        filepaths = first ∷ others;
        index = 0;
        rest = some content;
        eof_reached = false;
      })
    ]
  ]

  opened : Reader → Option Bytes → Reader × Option ReadError
  opened r none = (record r { index = suc r.index; rest = none }, some open_failed)
  opened r (some content) = (record r { index = suc r.index; rest = some content }, none)

  switched : Reader → Option Bytes → Reader × Option ReadError
  unfolding opened
  switched r none = (record r { eof_reached = true }, some eof)
  switched r (some path) = opened r (create_reader path)

  -- The next path, or io.EOF if there is none.
  unfoldable pub next_file : Reader → Reader × Option ReadError
  unfolding switched
  next_file r = switched r (get_elem? r.filepaths (suc r.index))

  -- The loop of `ReadMessage`. `none`: it has not ended.
  unfoldable pub read_loop :
      ℕ → Reader → Bool → Bytes → Bytes → Option (Reader × Result ReadError Bytes)
  read_loop zero r first line bf = none
  read_loop (suc fuel) r first line bf =
      let round : Option (Reader × Result ReadError Bytes) = elim r.rest [
        | none ↦ some (r, panic)
        | some rest ↦ elim (read_bytes rest) [
          | some (line', rest') ↦
              read_loop fuel (record r { rest = some rest' }) false line'
                (if ltb 1 (length line') then bf ++ line' else bf)
          | none ↦ elim (next_file r).1 [
            | some e ↦ some ((next_file r).0, err e)
            | none ↦ read_loop fuel (next_file r).0 true rest bf
          ]
        ]
      ] in
      if first || ltb 1 (length line) then round else some (r, ok bf)

  -- `data[0 : len(data)-1]` and what the codec makes of it.
  decoded : Codec → Reader → Bytes → Reader × Result ReadError Message
  decoded codec r [] = (r, panic)
  decoded codec r (c ∷ bf) = elim (codec.unmarshal (take (length (c ∷ bf) - 1) (c ∷ bf))) [
    | ok msg ↦ (r, ok msg)
    | err e ↦ (r, err (unmarshal_failed e))
    | panic ↦ (r, panic)
  ]

  collected :
      Codec → Option (Reader × Result ReadError Bytes) → Option (Reader × Result ReadError Message)
  unfolding decoded
  collected codec none = none
  collected codec (some (r, ok bf)) = some (decoded codec r bf)
  collected codec (some (r, err e)) = some (r, err e)
  collected codec (some (r, panic)) = some (r, panic)

  unfoldable pub read_message : ℕ → Codec → Reader → Option (Reader × Result ReadError Message)
  unfolding collected
  read_message fuel codec r =
      if r.eof_reached then some (r, err eof) else collected codec (read_loop fuel r true [] [])
