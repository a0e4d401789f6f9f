-- ===== src/TcpBuffer.antt =====
-- http2/tcp_buffer.go: the packets of one direction of a connection are put in order and handed to
-- a reader as a stream of bytes. `Read` may block; a call that blocks is a result of its own, and
-- the goroutine that made it tries again when the state has changed. `AddTCP` may block as well: the
-- channel holds 100 chunks, and a call that finds it full stands at its send until the reader has
-- made room, which may be never. Where it stands is a result of its own, from which `resume` goes on.
pub mod Window
pub mod Segments
pub mod Deliver
pub mod Reassembly
pub mod Reading
pub mod Running
pub mod Counters
pub mod Stalls
use grpcreplay.Base.{
  ℕ, zero, suc, ◌%◌, Bool, true, false, ◌&&◌, ◌||◌, Option, none, some, List, [], ◌∷◌, ◌++◌, Bytes,
  ◌==◌, leb, ltb, if◌then◌else◌, length, take, drop, concat, add_u32, add_i64, sub_i64, max_uint32,
}
use grpcreplay.Packages.{Tcp, SkipList}

abbrev pub max_window_size : ℕ
max_window_size = 65536

abbrev pub channel_size : ℕ
channel_size = 100

pub record TcpBuffer ⦃s : SkipList⦄ : Type 0 where
  pub size : ℕ
  pub actual_can_read_size : ℕ
  pub cache : s.Cache
  pub expected_seq : ℕ
  pub data_channel : List Bytes
  pub closed : Bool
  pub buffer : Bytes

-- `validPackage`: the sum is taken in uint32.
unfoldable pub valid_package : ℕ → ℕ → ℕ → Bool
valid_package expected_seq window pkg_seq =
    let right_border = add_u32 expected_seq window % max_uint32 in
    if ltb right_border expected_seq
    then leb pkg_seq right_border || leb expected_seq pkg_seq
    else leb expected_seq pkg_seq && leb pkg_seq right_border

-- The sequence number that follows a packet: (Seq + payloadSize) % math.MaxUint32.
abbrev pub next_seq : Tcp → ℕ
next_seq p = add_u32 p.seq (length p.payload) % max_uint32

pub data ReadResult : Type 0 where
  got : Bytes → ReadResult
  eof : ReadResult
  err_closed : ReadResult
  blocked : ReadResult

-- Where a call of `AddTCP` has got to: it has returned, or it stands at the send of this packet's
-- payload, with the keys of `needRemoveList`.
pub data Call ⦃s : SkipList⦄ : Type 0 where
  returned : TcpBuffer → Call
  waits : TcpBuffer → Tcp → List ℕ → Call

module _ ⦃s : SkipList⦄ where
  unfoldable pub new_tcp_buffer : TcpBuffer
  new_tcp_buffer = record {
    size = 0;
    actual_can_read_size = 0;
    cache = s.new;
    expected_seq = 0;
    data_channel = [];
    closed = false;
    buffer = [];
  }

  unfoldable pub set_expected_seq : TcpBuffer → ℕ → TcpBuffer
  set_expected_seq b seq = record b { expected_seq = seq }

  -- `close` of a closed channel panics.
  unfoldable pub close : TcpBuffer → Option TcpBuffer
  close b = if b.closed then none else some (record b { closed = true })

  unfoldable pub update_counters : TcpBuffer → ℕ → TcpBuffer
  update_counters b n = record b {
    size = sub_i64 b.size n;
    actual_can_read_size = sub_i64 b.actual_can_read_size n;
  }

  -- `sb.buffer.Read(p)` and the counters: bytes.Buffer answers io.EOF if it is empty and p is not.
  unfoldable pub read_buffer : TcpBuffer → ℕ → TcpBuffer × ReadResult
  unfolding update_counters
  read_buffer b n = elim b.buffer [
    | [] ↦ (update_counters b 0, if n == 0 then got [] else eof)
    | x ∷ xs ↦
        let read_bytes = take n (x ∷ xs) in
        (
          update_counters (record b { buffer = drop n (x ∷ xs) }) (length read_bytes),
          got read_bytes,
        )
  ]

  -- The `select`: where both channels are ready, `pick_close` is the scheduler's choice.
  unfoldable pub receive : Bool → List Bytes → Bool → TcpBuffer → ℕ → TcpBuffer × ReadResult
  unfolding read_buffer
  receive true [] pick_close b n = (b, err_closed)
  receive false [] pick_close b n = (b, blocked)
  receive is_closed (chunk ∷ rest) pick_close b n =
      if is_closed && pick_close
      then (b, err_closed)
      else read_buffer (record b { data_channel = rest; buffer = b.buffer ++ chunk }) n

  -- `Read(p)` with len(p) = n.
  unfoldable pub read : Bool → ℕ → TcpBuffer → TcpBuffer × ReadResult
  unfolding read_buffer receive
  read pick_close n b = elim b.buffer [
    | [] ↦ receive b.closed b.data_channel pick_close b n
    | x ∷ xs ↦ read_buffer b n
  ]

  unfoldable pub remove_all : s.Cache → List ℕ → s.Cache
  remove_all c [] = c
  remove_all c (k ∷ ks) = remove_all (s.remove c k) ks

  -- The loop is over: what it delivered is removed from the list.
  abbrev pub without : TcpBuffer → List ℕ → TcpBuffer
  without b removed = record b { cache = remove_all b.cache removed }

  -- A round of the loop up to its send.
  abbrev pub announce : TcpBuffer → Tcp → TcpBuffer
  announce b pkg = record b {
    actual_can_read_size = add_i64 b.actual_can_read_size (length pkg.payload);
    expected_seq = next_seq pkg;
  }

  -- The payload is in the channel.
  abbrev pub sent : TcpBuffer → Tcp → TcpBuffer
  sent b pkg = record b { data_channel = b.data_channel ++ pkg.payload ∷ [] }

  -- The send and what follows it in the round: the send of a full channel blocks.
  unfoldable pub send :
      (TcpBuffer → Tcp → List ℕ → Option Call) → TcpBuffer → Tcp → List ℕ → Option Call
  send round b pkg removed =
      let removed' = removed ++ pkg.seq ∷ [] in
      if ltb (length b.data_channel) channel_size
      then elim (s.get b.cache b.expected_seq) [
        | none ↦ some (returned (without (sent b pkg) removed'))
        | some next ↦ round (sent b pkg) next removed'
      ]
      else some (waits b pkg removed)

  -- The loop of `AddTCP` and the removal behind it. `none`: still running when the fuel ends.
  unfoldable pub deliver : ℕ → TcpBuffer → Tcp → List ℕ → Option Call
  deliver zero b pkg removed = none
  deliver (suc fuel) b pkg removed =
      let again =
        send (λ b' next removed'. deliver fuel b' next removed') (announce b pkg) pkg removed in
      if b.expected_seq == pkg.seq then again else some (returned (without b removed))

  unfoldable pub add_tcp : ℕ → TcpBuffer → Tcp → Option Call
  unfolding deliver
  add_tcp fuel b pkg =
      if valid_package b.expected_seq max_window_size pkg.seq
      then elim (s.get b.cache pkg.seq) [
        | some old ↦ some (returned b)
        | none ↦
            deliver fuel
              (record b {
                cache = s.set b.cache pkg.seq pkg;
                size = add_i64 b.size (length pkg.payload);
              })
              pkg []
      ]
      else some (returned b)

  -- A call that stands at its send tries again.
  unfoldable pub resume : ℕ → Call → Option Call
  unfolding send
  resume fuel (returned b) = some (returned b)
  resume fuel (waits b pkg removed) =
      send (λ b' next removed'. deliver fuel b' next removed') b pkg removed

  -- What has been delivered and not yet read.
  abbrev pub pending : TcpBuffer → Bytes
  pending b = b.buffer ++ concat b.data_channel
