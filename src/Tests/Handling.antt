-- ===== src/Tests/Handling.antt =====
-- A DATA frame with a whole call on a fresh connection.
use grpcreplay.Base.{true, false, some, [], ◌∷◌, codes}
use grpcreplay.Frame.{FrameBase}
use grpcreplay.NetPkg.{DirectConn}
use grpcreplay.Stream.{Finder, Stamp}
use grpcreplay.Conn.{Http2Conn, new_http2_conn, slot_of}
use grpcreplay.Handlers.{process_frame}
use grpcreplay.Handlers.Kept.{Ends}
use grpcreplay.Handlers.Isolation.{process_frame-Ends}
use grpcreplay.Tests.Instances.{skip_list, hpack, codecs}

abbrev pub call_frame : FrameBase
call_frame = record {
  input_flag = true;
  stream_id = 10003;
  type = 0;
  flags = 1;
  len = 7;
  payload = 0 ∷ 0 ∷ 0 ∷ 0 ∷ 2 ∷ 8 ∷ 1 ∷ [];
}

abbrev pub any_method : Finder
any_method method = some (tt, tt)

abbrev pub stamp : Stamp
stamp = record { uuid = codes "u"; now = 5 }

abbrev pub client : DirectConn
client = record {
  src_addr = record { ip = codes "10.0.0.1"; port = 4000 };
  dst_addr = record { ip = codes "10.0.0.2"; port = 35001 };
}

abbrev pub connection : Http2Conn
connection = new_http2_conn client 4096 false

process_frame-Ends_example :
    Ends (slot_of call_frame) true connection (process_frame any_method stamp call_frame connection)
process_frame-Ends_example = process_frame-Ends any_method stamp call_frame connection
