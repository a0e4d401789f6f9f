-- ===== src/Replay/RoundTrip.antt =====
-- A capture file that is written message by message is replayed message by message.
use grpcreplay.Base.{
  Result, ℕ, zero, suc, ◌+◌, ◌<◌, ◌≡◌, ◌≢◌, refl, sym, ap, ◌∙◌, true, ◌⊎◌, Option, none, some, List,
  [], ◌∷◌, ◌++◌, append_assoc, append-nil, Bytes, length, arith, All, ok, err, panic, length-append,
}
use grpcreplay.Packages.{Disk, Json}
use grpcreplay.Protocol.{Message, IsText, SameMessage}
use grpcreplay.Registry.{Codec}
use grpcreplay.CodecSimple.{marshal, unmarshal, codec_simple}
use grpcreplay.CodecSimple.RoundTrip.{IsWritable, unmarshal-marshal}
use grpcreplay.CodecSimple.Lines.{IsRecord, marshal-IsRecord}
use grpcreplay.Replay.{write, ReadError, Reader, read_message}
use grpcreplay.Replay.Reading.{reader_at, read_message_record, answer}

-- The messages one after another; `none` if one of them is not written.
unfoldable pub write_messages : Codec → Bytes → List Message → Option Bytes
write_messages codec written [] = some written
write_messages codec written (m ∷ ms) = elim (write codec written m) [
  | none ↦ none
  | some written' ↦ write_messages codec written' ms
]

abbrev pub with_message : Message → Option (Reader × List Message) → Option (Reader × List Message)
with_message m none = none
with_message m (some (r, ms)) = some (r, m ∷ ms)

abbrev pub after_read :
    Option (Reader × Result ReadError Message)
    → (Reader → Option (Reader × List Message))
    → Option (Reader × List Message)
after_read none next = none
after_read (some (r, ok m)) next = with_message m (next r)
after_read (some (r, err e)) next = none
after_read (some (r, panic)) next = none

-- So many calls of `ReadMessage`; `none` if one of them does not give a message.
unfoldable pub read_times : ⦃d : Disk⦄ → ℕ → ℕ → Codec → Reader → Option (Reader × List Message)
read_times zero fuel codec r = some (r, [])
read_times (suc n) fuel codec r =
    after_read (read_message fuel codec r) (λ r'. read_times n fuel codec r')

abbrev pub SameMessages : List Message → List Message → Type 0
SameMessages [] [] = Unit
SameMessages [] (y ∷ ys) = ⊥
SameMessages (x ∷ xs) [] = ⊥
SameMessages (x ∷ xs) (y ∷ ys) = SameMessage x y × SameMessages xs ys

module _ ⦃j : Json⦄ where
  -- A message with a method that is written and read back as it is.
  pub record IsReplayable (m : Message) : Type 0 where
    pub writable : IsWritable m
    pub named : m.method ≢ []
    pub request_valid : IsText j.valid_string m.request
    pub response_valid : IsText j.valid_string m.response
    pub request_text : Bytes
    pub response_text : Bytes
    pub request_marshals : j.marshal_item m.request ≡ some request_text
    pub response_marshals : j.marshal_item m.response ≡ some response_text
    pub response_told : (m.meta.contain_response ≡ true) ⊎ (m.response ≡ none)

  one :
      (m : Message)
      → IsReplayable m
      → (text : Bytes) × (m' : Message) × (marshal m ≡ some text)
        × (unmarshal text ≡ ok m')
        × SameMessage m m'
        × IsRecord text
  one m k =
      let (text, m', e, q, s) =
        unmarshal-marshal m k.request_text k.response_text k.writable k.request_valid
          k.response_valid k.request_marshals k.response_marshals k.response_told in
      (
        text,
        m',
        e,
        q,
        s,
        marshal-IsRecord m k.request_text k.response_text text k.writable k.named k.request_marshals
            k.response_marshals e,
      )

  write_text :
      (m : Message) (text written : Bytes)
      → marshal m ≡ some text
      → write codec_simple written m ≡ some (written ++ (text ++ (b'\n' ∷ b'\n' ∷ [])))
  unfolding write codec_simple marshal
  write_text m text written e = ground (arith, e)

  pub write_messages_step :
      (m : Message) (ms : List Message) (text rest written : Bytes)
      → marshal m ≡ some text
      → ((w : Bytes) → write_messages codec_simple w ms ≡ some (w ++ rest))
      → write_messages codec_simple written (m ∷ ms)
        ≡ some (written ++ (text ++ (b'\n' ∷ b'\n' ∷ rest)))
  unfolding write_messages
  write_messages_step m ms text rest written e k =
      let now = written ++ (text ++ (b'\n' ∷ b'\n' ∷ [])) in
      let first : write_messages codec_simple written (m ∷ ms)
          ≡ write_messages codec_simple now ms =
        ground (arith, write_text m text written e) in
      first
      ∙ k now
      ∙ ap some (
          append_assoc written (text ++ (b'\n' ∷ b'\n' ∷ [])) rest
          ∙ ap (◌++◌ written) (append_assoc text (b'\n' ∷ b'\n' ∷ []) rest))

  module _ ⦃d : Disk⦄ where
    pub read_times_step :
        (paths : List Bytes) (index fuel n : ℕ) (m' : Message) (ms' : List Message)
        (text rest : Bytes)
        → IsRecord text
        → length text + 1 < fuel
        → unmarshal text ≡ ok m'
        → read_times n fuel codec_simple (reader_at paths index rest)
          ≡ some (reader_at paths index [], ms')
        → read_times
            (suc n)
            fuel
            codec_simple
            (reader_at paths index (text ++ (b'\n' ∷ b'\n' ∷ rest)))
          ≡ some (reader_at paths index [], m' ∷ ms')
    unfolding read_times
    read_times_step paths index fuel n m' ms' text rest k enough q more =
        let by_codec : codec_simple.unmarshal text ≡ ok m' = unfold codec_simple in q in
        let here : read_message fuel codec_simple
              (reader_at paths index (text ++ (b'\n' ∷ b'\n' ∷ rest)))
            ≡ some (reader_at paths index rest, ok m') =
          read_message_record paths index fuel codec_simple text rest k enough
          ∙ ap (λ a. some (reader_at paths index rest, answer a)) by_codec in
        ground (arith, here, more)

    pub replay :
        (ms : List Message)
        → All IsReplayable ms
        → (content : Bytes) × (ms' : List Message) × ((w : Bytes)
            → write_messages codec_simple w ms ≡ some (w ++ content))
          × ((paths : List Bytes) (index fuel : ℕ)
              → length content + 1 < fuel
              → read_times (length ms) fuel codec_simple (reader_at paths index content)
                ≡ some (reader_at paths index [], ms'))
          × SameMessages ms ms'
          × ((paths : List Bytes) (index fuel : ℕ)
              → ms ≢ []
              → length content + 1 < fuel
              → read_message fuel codec_simple (reader_at paths index content)
                ≡ read_message (suc fuel) codec_simple (reader_at paths index content))
    unfolding write_messages read_times
    replay [] h = (
      [],
      [],
      λ w. ap some (sym (append-nil w)),
      λ paths index fuel k. refl,
      tt,
      λ paths index fuel ne enough. absurd (ne refl),
    )
    replay (m ∷ ms) (k, h) =
        let (text, m', e, q, s, rec) = one m k in
        let (rest, ms', w, r, same, _) = replay ms h in
        (
          text ++ (b'\n' ∷ b'\n' ∷ rest),
          m' ∷ ms',
          λ written. write_messages_step m ms text rest written e w,
          λ paths index fuel enough.
              read_times_step paths index fuel (length ms) m' ms' text rest rec
                (omega (arith, enough, length-append text (b'\n' ∷ b'\n' ∷ rest))) q
                (r paths index fuel
                  (omega (arith, enough, length-append text (b'\n' ∷ b'\n' ∷ rest)))),
          (s, same),
          λ paths index fuel ne enough.
              let size : length text + 1 < fuel =
                omega (arith, enough, length-append text (b'\n' ∷ b'\n' ∷ rest)) in
              read_message_record paths index fuel codec_simple text rest rec size
              ∙ sym (
                  read_message_record paths index (suc fuel) codec_simple text rest rec
                    (omega (arith, size))),
        )
