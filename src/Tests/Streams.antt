-- ===== src/Tests/Streams.antt =====
-- A stream of five bytes in two packets that arrive in the wrong order.
use grpcreplay.Base.{
  ℕ, zero, suc, ◌≡◌, refl, true, false, Option, none, some, List, [], ◌∷◌, ◌++◌, Bytes, arith,
}
use grpcreplay.Packages.{Tcp}
use grpcreplay.TcpBuffer.{
  TcpBuffer, Call, returned, waits, add_tcp, read, pending, new_tcp_buffer, set_expected_seq,
}
use grpcreplay.TcpBuffer.Segments.{IsSegment}
use grpcreplay.TcpBuffer.Deliver.{Inv, offered}
use grpcreplay.TcpBuffer.Reassembly.{Added, add_tcp-Added}
use grpcreplay.TcpBuffer.Reading.{Moved, read-Moved}
use grpcreplay.TcpBuffer.Running.{
  Event, arrive, read_some, wake, run, run_delivers_prefix, start-Inv,
}
use grpcreplay.TcpBuffer.Counters.{IsCounted, IsExact, read-IsCounted, run-IsExact}
use grpcreplay.TcpBuffer.Stalls.{add_tcp_wrap_stall}
use grpcreplay.Tests.Instances.{skip_list}

abbrev pub packet : ℕ → Bytes → Tcp
packet seq payload = record {
  src_port = 4000;
  dst_port = 35001;
  seq = seq;
  ack = 7;
  fin_flag = false;
  syn_flag = false;
  rst_flag = false;
  psh_flag = true;
  ack_flag = true;
  urg_flag = false;
  window = 1000;
  payload = payload;
}

abbrev stream : Bytes
stream = 1 ∷ 2 ∷ 3 ∷ 4 ∷ 5 ∷ []

abbrev first : Tcp
first = packet 100 (1 ∷ 2 ∷ [])

abbrev second : Tcp
second = packet 102 (3 ∷ 4 ∷ 5 ∷ [])

first-IsSegment : IsSegment 100 stream first
first-IsSegment = record {
  pos = 0;
  seq_eq = refl;
  payload_eq = refl;
  not_empty = omega arith;
  inside = omega arith;
  end_ok = omega arith;
}

second-IsSegment : IsSegment 100 stream second
second-IsSegment = record {
  pos = 2;
  seq_eq = refl;
  payload_eq = refl;
  not_empty = omega arith;
  inside = omega arith;
  end_ok = omega arith;
}

abbrev start : TcpBuffer
start = set_expected_seq new_tcp_buffer 100

abbrev history : List Event
history =
    arrive second
    ∷ read_some false 10
    ∷ arrive first
    ∷ read_some false 1
    ∷ wake
    ∷ arrive second
    ∷ []

abbrev shown : Option (Bytes × Call) → Option (Bytes × Bytes)
shown none = none
shown (some (c, call)) = some (c, offered call)

history-run : shown (run 6 [] (returned start) history) ≡ some (1 ∷ [], 2 ∷ 3 ∷ 4 ∷ 5 ∷ [])
unfolding run add_tcp read set_expected_seq new_tcp_buffer grpcreplay.TcpBuffer.valid_package
    grpcreplay.GoMap.get grpcreplay.TcpBuffer.remove_all grpcreplay.GoMap.put
    grpcreplay.GoMap.delete grpcreplay.TcpBuffer.resume
history-run = refl

-- A channel of 99 empty chunks and one more has room for one of the two packets that could go.
abbrev chunks : ℕ → List Bytes
chunks zero = []
chunks (suc n) = [] ∷ chunks n

abbrev crowded : TcpBuffer
crowded = record start { data_channel = chunks 99 }

abbrev stands : Option (Bytes × Call) → Option Bytes
stands none = none
stands (some (c, returned b)) = none
stands (some (c, waits b p removed)) = some p.payload

crowded-run :
    stands (run 6 [] (returned crowded) (arrive second ∷ arrive first ∷ [])) ≡ some second.payload
unfolding run add_tcp read set_expected_seq new_tcp_buffer grpcreplay.TcpBuffer.valid_package
    grpcreplay.GoMap.get grpcreplay.TcpBuffer.remove_all grpcreplay.GoMap.put
    grpcreplay.GoMap.delete grpcreplay.TcpBuffer.resume
crowded-run = refl

woken-run :
    stands
      (run 6 [] (returned crowded) (arrive second ∷ arrive first ∷ read_some false 1 ∷ wake ∷ []))
    ≡ none
unfolding run add_tcp read set_expected_seq new_tcp_buffer grpcreplay.TcpBuffer.valid_package
    grpcreplay.GoMap.get grpcreplay.TcpBuffer.remove_all grpcreplay.GoMap.put
    grpcreplay.GoMap.delete grpcreplay.TcpBuffer.resume
woken-run = refl

run_delivers_prefix_example :
    (c : Bytes) × (call : Call) × (rest : Bytes) × (run 6 [] (returned start) history
      ≡ some (c, call))
    × (c ++ offered call ++ rest ≡ stream)
run_delivers_prefix_example =
    run_delivers_prefix 100 stream 6 history (omega arith) (omega arith) (omega arith)
      (second-IsSegment, (first-IsSegment, (second-IsSegment, tt)))

start_holds : Inv 100 stream [] start
start_holds = start-Inv 100 stream (omega arith)

add_tcp-Added_example :
    (call : Call) × (add_tcp 6 start first ≡ some call) × Added 100 stream [] start first call
add_tcp-Added_example =
    add_tcp-Added 100 stream 6 [] start first (omega arith) (omega arith) first-IsSegment
      start_holds

abbrev buffered : TcpBuffer
buffered = record start {
  buffer = 9 ∷ 8 ∷ [];
  data_channel = (7 ∷ []) ∷ [];
  actual_can_read_size = 3;
}

read-Moved_example : Moved buffered (read false 1 buffered)
read-Moved_example = read-Moved false 1 buffered

read-IsCounted_example : IsCounted (read false 1 buffered).0
read-IsCounted_example = read-IsCounted false 1 buffered refl

start-IsCounted : IsCounted start
unfolding set_expected_seq new_tcp_buffer
start-IsCounted = refl

run-IsExact_example :
    (c : Bytes) × (call : Call) × (run 6 [] (returned start) history ≡ some (c, call))
    × IsExact call
run-IsExact_example =
    run-IsExact 100 stream 6 [] start history (omega arith) (omega arith)
      (second-IsSegment, (first-IsSegment, (second-IsSegment, tt))) start_holds start-IsCounted

-- The five bytes end just before 2^32 - 1.
abbrev late : Tcp
late = packet 4294967290 stream

abbrev late_start : TcpBuffer
late_start = record buffered { expected_seq = 4294967290 }

nothing_late : (k : ℕ) → skip_list.get late_start.cache k ≡ none
unfolding set_expected_seq new_tcp_buffer
nothing_late k = skip_list.get-new k

add_tcp_wrap_stall_example :
    (b' : TcpBuffer) × (add_tcp 1 late_start late ≡ some (returned b'))
    × (pending b' ≡ pending late_start ++ late.payload)
    × (b'.expected_seq ≡ 0)
    × (add_tcp 1 b' (packet 4294967295 (6 ∷ [])) ≡ some (returned b'))
add_tcp_wrap_stall_example =
    add_tcp_wrap_stall 0 1 late_start late (packet 4294967295 (6 ∷ [])) refl (omega arith) refl
      (nothing_late 4294967290) (nothing_late 0) (omega arith) refl (omega arith)
