-- ===== src/Handlers/Kept.antt =====
-- What a handler may leave changed, and what the writes of the handlers keep.
use grpcreplay.Base.{ℕ, ◌≡◌, refl, sym, subst, ◌∙◌, Bool, true, false, ◌==◌, List, if◌then◌else◌}
use grpcreplay.Packages.{SkipList, Hpack, Codecs}
use grpcreplay.Stream.{Stream}
use grpcreplay.Protocol.{Message}
use grpcreplay.Conn.{
  MessageParser, Http2Conn, Outcome, running, waits, blocked, crashed, set_stream,
}
use grpcreplay.Handlers.{parser_of, set_parser, set_decoder}

module _ ⦃s : SkipList⦄ ⦃h : Hpack⦄ ⦃c : Codecs⦄ where
  -- The parser of the other direction is the same.
  abbrev pub Other : Bool → Http2Conn → Http2Conn → Type 0
  Other true a b = b.output ≡ a.output
  Other false a b = b.input ≡ a.input

  -- `b` is the connection `a` but for the stream in `slot`, the decoder of the direction `side`, the
  -- messages sent and the connection's place in the repository.
  pub record Kept (slot : ℕ) (side : Bool) (a b : Http2Conn) : Type 0 where
    pub streams : (j : ℕ) → (j == slot) ≡ false → b.streams j ≡ a.streams j
    pub other : Other side a b
    pub input_buffer : b.input.tcp_buffer ≡ a.input.tcp_buffer
    pub output_buffer : b.output.tcp_buffer ≡ a.output.tcp_buffer
    pub same_conn : b.direct_conn ≡ a.direct_conn
    pub same_mode : b.record_response ≡ a.record_response

  abbrev pub Ends : ℕ → Bool → Http2Conn → Outcome → Type 0
  Ends slot side a (running b) = Kept slot side a b
  Ends slot side a (waits b n) = Kept slot side a b × (n ≡ slot)
  Ends slot side a blocked = Unit
  Ends slot side a crashed = Unit

  pub Other-refl : (side : Bool) (a : Http2Conn) → Other side a a
  Other-refl true a = refl
  Other-refl false a = refl

  pub Other-next :
      (side : Bool) (a b b' : Http2Conn)
      → b'.input ≡ b.input
      → b'.output ≡ b.output
      → Other side a b
      → Other side a b'
  Other-next true a b b' i o k = o ∙ k
  Other-next false a b b' i o k = i ∙ k

  module _ (slot : ℕ) where
    pub Kept-refl : (side : Bool) (a : Http2Conn) → Kept slot side a a
    Kept-refl side a = record {
      streams = λ j e. refl;
      other = Other-refl side a;
      input_buffer = refl;
      output_buffer = refl;
      same_conn = refl;
      same_mode = refl;
    }

    pub Kept-set_stream :
        (side : Bool) (a b : Http2Conn) (stream : Stream)
        → Kept slot side a b
        → Kept slot side a (set_stream b slot stream)
    unfolding set_stream
    Kept-set_stream side a b stream k = record {
      streams = λ j e. rw e (k.streams j e);
      other = Other-next side a b (set_stream b slot stream) refl refl k.other;
      input_buffer = k.input_buffer;
      output_buffer = k.output_buffer;
      same_conn = k.same_conn;
      same_mode = k.same_mode;
    }

    pub Kept-set_parser :
        (side : Bool) (a b : Http2Conn) (parser : MessageParser)
        → parser.tcp_buffer ≡ (parser_of side b).tcp_buffer
        → Kept slot side a b
        → Kept slot side a (set_parser side b parser)
    unfolding set_parser parser_of
    Kept-set_parser true a b parser e k = record {
      streams = k.streams;
      other = k.other;
      input_buffer = e ∙ k.input_buffer;
      output_buffer = k.output_buffer;
      same_conn = k.same_conn;
      same_mode = k.same_mode;
    }
    Kept-set_parser false a b parser e k = record {
      streams = k.streams;
      other = k.other;
      input_buffer = k.input_buffer;
      output_buffer = e ∙ k.output_buffer;
      same_conn = k.same_conn;
      same_mode = k.same_mode;
    }

    pub Kept-set_decoder :
        (side : Bool) (a b : Http2Conn) (decoder : h.Decoder)
        → Kept slot side a b
        → Kept slot side a (set_decoder side b decoder)
    unfolding set_decoder
    Kept-set_decoder side a b decoder k = Kept-set_parser side a b _ refl k

    -- A message more in the outbox.
    pub Kept-sent :
        (side : Bool) (a b : Http2Conn) (outbox : List Message)
        → Kept slot side a b
        → Kept slot side a (record b { outbox = outbox })
    Kept-sent side a b outbox k = record {
      streams = k.streams;
      other = Other-next side a b (record b { outbox = outbox }) refl refl k.other;
      input_buffer = k.input_buffer;
      output_buffer = k.output_buffer;
      same_conn = k.same_conn;
      same_mode = k.same_mode;
    }

    -- A step that may be the end of a handler.
    abbrev pub Keeps : Bool → (Http2Conn → Outcome) → Type 0
    Keeps side rest = (a b : Http2Conn) → Kept slot side a b → Ends slot side a (rest b)

    pub along :
        (side : Bool) (a : Http2Conn) (x y : Outcome)
        → y ≡ x
        → Ends slot side a x
        → Ends slot side a y
    along side a x y e k = subst (λ o. Ends slot side a o) (sym e) k

    -- A handler that goes one of two ways.
    pub either :
        (side : Bool) (a : Http2Conn) (t : Bool) (x y : Outcome)
        → Ends slot side a x
        → Ends slot side a y
        → Ends slot side a (if t then x else y)
    either side a true x y p q = p
    either side a false x y p q = q
