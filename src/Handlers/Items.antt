-- ===== src/Handlers/Items.antt =====
-- The work on a request or a response and the end of its stream touch no other stream.
use grpcreplay.Base.{
  ℕ, ◌≡◌, refl, Bool, true, false, not, ◌&&◌, Option, none, some, [], ◌∷◌, ◌++◌, arith,
  if◌then◌else◌, inl, inr,
}
use grpcreplay.Base.Outcomes.{Result-cases}
use grpcreplay.Packages.{SkipList, Hpack, Codecs}
use grpcreplay.Stream.{HttpItem, Finder, Stamp, reset, to_msg}
use grpcreplay.Conn.{
  Http2Conn, Outcome, running, waits, blocked, crashed, ItemResult, item_done, item_error,
  item_panic, set_stream,
}
use grpcreplay.Handlers.{
  set_decoder, finish_stream, wait_timeout, response_ended, finish_ended, signal_done, on_request,
  on_response, on_response_item,
}
use grpcreplay.Handlers.Kept.{
  Kept, Ends, Keeps, Kept-set_stream, Kept-set_decoder, Kept-sent, along, either,
}

module _ ⦃s : SkipList⦄ ⦃h : Hpack⦄ ⦃c : Codecs⦄ where
  module _ (slot : ℕ) where
    finish_stream-Keeps :
        (finder : Finder) (stamp : Stamp) (side : Bool)
        → Keeps slot side (finish_stream finder stamp slot)
    unfolding finish_stream
    finish_stream-Keeps finder stamp side a b k =
        let fresh = reset (b.streams slot) in
        elim (Result-cases (to_msg finder stamp (b.streams slot))) [
          | inl (msg, e) ↦
              let sent = record b { outbox = b.outbox ++ msg ∷ [] } in
              along slot side a (running (set_stream sent slot fresh)) _ (ground (arith, e)) (
                Kept-set_stream slot side a sent fresh
                  (Kept-sent slot side a b (b.outbox ++ msg ∷ []) k))
          | inr (inl (x, e)) ↦
              along slot side a (running (set_stream b slot fresh)) _ (ground (arith, e))
                (Kept-set_stream slot side a b fresh k)
          | inr (inr e) ↦ along slot side a crashed _ (ground (arith, e)) tt
        ]

    wait_timeout-Keeps :
        (finder : Finder) (stamp : Stamp) (side : Bool)
        → Keeps slot side (wait_timeout finder stamp slot)
    unfolding wait_timeout
    wait_timeout-Keeps finder stamp side a b k =
        either slot side a (b.streams slot).done (finish_stream finder stamp slot b) (waits b slot)
          (finish_stream-Keeps finder stamp side a b k) (k, refl)

    pub finish_ended-Keeps :
        (finder : Finder) (stamp : Stamp) (side : Bool)
        → Keeps slot side (finish_ended finder stamp slot)
    unfolding finish_ended
    finish_ended-Keeps finder stamp side a b k =
        let stream = b.streams slot in
        let ended = b.record_response && response_ended stream.response in
        let wait = wait_timeout finder stamp slot b in
        either slot side a (not b.record_response && stream.request.end_stream)
          (finish_stream finder stamp slot b) (if ended then wait else running b)
          (finish_stream-Keeps finder stamp side a b k)
          (either slot side a ended wait (running b) (wait_timeout-Keeps finder stamp side a b k) k)

    pub signal_done-Keeps :
        (side : Bool) (rest : Http2Conn → Outcome)
        → Keeps slot side rest
        → Keeps slot side (signal_done rest slot)
    unfolding signal_done
    signal_done-Keeps side rest keeps a b k =
        let stream = b.streams slot in
        let sent = set_stream b slot (record stream { done = true }) in
        either slot side a stream.request.end_stream (if stream.done then blocked else rest sent)
          (rest b)
          (either slot side a stream.done blocked (rest sent) tt
            (keeps a sent (Kept-set_stream slot side a b (record stream { done = true }) k)))
          (keeps a b k)

    abbrev after_request : (Http2Conn → Outcome) → Http2Conn → ItemResult → Outcome
    after_request rest b item_panic = crashed
    after_request rest b (item_error decoder) = rest (set_decoder true b decoder)
    after_request rest b (item_done decoder item) =
        rest (
          set_stream (set_decoder true b decoder) slot (record (b.streams slot) { request = item }))

    after_request-Keeps :
        (rest : Http2Conn → Outcome) (a b : Http2Conn) (r : ItemResult)
        → Keeps slot true rest
        → Kept slot true a b
        → Ends slot true a (after_request rest b r)
    after_request-Keeps rest a b item_panic keeps k = tt
    after_request-Keeps rest a b (item_error decoder) keeps k =
        keeps a _ (Kept-set_decoder slot true a b decoder k)
    after_request-Keeps rest a b (item_done decoder item) keeps k =
        keeps a _ (Kept-set_stream slot true a _ _ (Kept-set_decoder slot true a b decoder k))

    on_request_lem :
        (work : h.Decoder → HttpItem → ItemResult) (rest : Http2Conn → Outcome) (b : Http2Conn)
        (r : ItemResult)
        → work b.input.header_decoder (b.streams slot).request ≡ r
        → on_request work rest slot b ≡ after_request rest b r
    unfolding on_request
    on_request_lem work rest b item_panic e = ground (arith, e)
    on_request_lem work rest b (item_error decoder) e = ground (arith, e)
    on_request_lem work rest b (item_done decoder item) e = ground (arith, e)

    pub on_request-Keeps :
        (work : h.Decoder → HttpItem → ItemResult) (rest : Http2Conn → Outcome)
        → Keeps slot true rest
        → Keeps slot true (on_request work rest slot)
    on_request-Keeps work rest keeps a b k =
        along slot true a _ _ (on_request_lem work rest b _ refl) (
          after_request-Keeps rest a b (work b.input.header_decoder (b.streams slot).request) keeps
            k)

    abbrev after_response : (Http2Conn → Outcome) → Http2Conn → ItemResult → Outcome
    after_response rest b item_panic = crashed
    after_response rest b (item_error decoder) = rest (set_decoder false b decoder)
    after_response rest b (item_done decoder item) = rest (
        set_stream (set_decoder false b decoder) slot
          (record (b.streams slot) { response = some item }))

    after_response-Keeps :
        (rest : Http2Conn → Outcome) (a b : Http2Conn) (r : ItemResult)
        → Keeps slot false rest
        → Kept slot false a b
        → Ends slot false a (after_response rest b r)
    after_response-Keeps rest a b item_panic keeps k = tt
    after_response-Keeps rest a b (item_error decoder) keeps k =
        keeps a _ (Kept-set_decoder slot false a b decoder k)
    after_response-Keeps rest a b (item_done decoder item) keeps k =
        keeps a _ (Kept-set_stream slot false a _ _ (Kept-set_decoder slot false a b decoder k))

    some_response_lem :
        (work : h.Decoder → HttpItem → ItemResult) (rest : Http2Conn → Outcome) (b : Http2Conn)
        (response : HttpItem) (r : ItemResult)
        → work b.output.header_decoder response ≡ r
        → on_response_item work rest slot b (some response) ≡ after_response rest b r
    unfolding on_response_item
    some_response_lem work rest b response item_panic e = ground (arith, e)
    some_response_lem work rest b response (item_error decoder) e = ground (arith, e)
    some_response_lem work rest b response (item_done decoder item) e = ground (arith, e)

    abbrev unparsed : (Http2Conn → Outcome) → Http2Conn → ItemResult → Outcome
    unparsed rest b (item_error decoder) = rest (set_decoder false b decoder)
    unparsed rest b _ = crashed

    unparsed-Keeps :
        (rest : Http2Conn → Outcome) (a b : Http2Conn) (r : ItemResult)
        → Keeps slot false rest
        → Kept slot false a b
        → Ends slot false a (unparsed rest b r)
    unparsed-Keeps rest a b item_panic keeps k = tt
    unparsed-Keeps rest a b (item_error decoder) keeps k =
        keeps a _ (Kept-set_decoder slot false a b decoder k)
    unparsed-Keeps rest a b (item_done decoder item) keeps k = tt

    no_response_lem :
        (work : h.Decoder → HttpItem → ItemResult) (rest : Http2Conn → Outcome) (b : Http2Conn)
        (r : ItemResult)
        → work b.output.header_decoder
            (record { end_header = false; end_stream = false; headers = []; data_buf = [] })
          ≡ r
        → on_response_item work rest slot b none ≡ unparsed rest b r
    unfolding on_response_item
    no_response_lem work rest b item_panic e = ground (arith, e)
    no_response_lem work rest b (item_error decoder) e = ground (arith, e)
    no_response_lem work rest b (item_done decoder item) e = ground (arith, e)

    on_response_item-Keeps :
        (work : h.Decoder → HttpItem → ItemResult) (rest : Http2Conn → Outcome)
        (response : Option HttpItem)
        → Keeps slot false rest
        → (a b : Http2Conn) → Kept slot false a b
        → Ends slot false a (on_response_item work rest slot b response)
    on_response_item-Keeps work rest none keeps a b k =
        along slot false a _ _ (no_response_lem work rest b _ refl)
          (unparsed-Keeps rest a b _ keeps k)
    on_response_item-Keeps work rest (some response) keeps a b k =
        along slot false a _ _ (some_response_lem work rest b response _ refl)
          (after_response-Keeps rest a b _ keeps k)

    pub on_response-Keeps :
        (work : h.Decoder → HttpItem → ItemResult) (rest : Http2Conn → Outcome)
        → Keeps slot false rest
        → Keeps slot false (on_response work rest slot)
    unfolding on_response
    on_response-Keeps work rest keeps a b k =
        on_response_item-Keeps work rest (b.streams slot).response keeps a b k
