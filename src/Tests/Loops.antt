-- ===== src/Tests/Loops.antt =====
-- The loop of a direction on a frame in three pieces.
use grpcreplay.Base.{◌≡◌, refl, true, false, [], ◌∷◌, Bytes}
use grpcreplay.TcpBuffer.{TcpBuffer}
use grpcreplay.Handlers.{parser_of, set_parser}
use grpcreplay.Conn.{Http2Conn}
use grpcreplay.Deal.Gather.{buffer_of, with_buffer}
use grpcreplay.Tests.Instances.{skip_list, hpack, codecs}
use grpcreplay.Tests.Handling.{any_method, stamp, connection}

abbrev header : Bytes
header = 0 ∷ 0 ∷ 7 ∷ 0 ∷ 1 ∷ 0 ∷ 0 ∷ 39 ∷ 19 ∷ []

abbrev payload : Bytes
payload = 0 ∷ 0 ∷ 0 ∷ 0 ∷ 2 ∷ 8 ∷ 1 ∷ []

-- The header is cut in the midst, and the last piece begins the next frame.
abbrev pieces : TcpBuffer
pieces = record {
  size = 18;
  actual_can_read_size = 18;
  cache = [];
  expected_seq = 19;
  data_channel =
      (0 ∷ 0 ∷ 7 ∷ 0 ∷ [])
      ∷ (1 ∷ 0 ∷ 0 ∷ 39 ∷ 19 ∷ 0 ∷ 0 ∷ [])
      ∷ (0 ∷ 0 ∷ 2 ∷ 8 ∷ 1 ∷ 0 ∷ 0 ∷ [])
      ∷ [];
  closed = false;
  buffer = [];
}

abbrev fed : Http2Conn
fed = with_buffer true any_method stamp connection pieces

fed_buffer : buffer_of true any_method stamp fed ≡ pieces
unfolding parser_of set_parser
fed_buffer = refl
