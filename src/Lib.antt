-- ===== src/Lib.antt =====
-- grpcreplay captures the gRPC traffic of a server from the network and replays it. These files
-- model the path of a captured packet: the processor (http2/processor.go) follows the state of
-- each TCP connection (http2/state_machine.go) and puts the payloads of an established one in
-- order (http2/tcp_buffer.go); the loop of each direction of the connection cuts the stream of
-- bytes into HTTP/2 frames and hands them to the handler of their type, which fills the streams
-- and sends finished calls on as messages (http2/http2.go); the emitter copies each message
-- that the filters let pass to the outputs (biz/emitter.go, filter). Around it stand the raw
-- input, which decides which packets come to the processor (plugin/input_raw.go), the search
-- for the message types of a method (http2/pb_finder.go), the codec and the files in which
-- messages are kept and from which they are replayed (protocol/codec_simple.go,
-- plugin/input_file_dir.go), the calls that replay them (plugin/output_grpc.go), and the
-- construction of all these from the settings (biz/plugins.go).
--
-- Files, in the order in which they build on one another:
--
-- - Base, GoMap: shared helpers; Go's maps as association lists, with `get`, `put` and `delete`
--   for m[k], m[k] = v and delete(m, k).
-- - Packages: third-party packages as records of operations, with their documented behaviour:
--   gopacket's TCP layer, the skip list of huandu/skiplist, hpack, gzip and protobuf, regexp,
--   encoding/json, the files of the disk. Those that one module alone uses stand with it:
--   Descriptors in MethodFinder, Grpcurl in GrpcOutput, System in Plugins.
-- - TcpBuffer: http2/tcp_buffer.go. `add_tcp`, `read`, `valid_package`, `close` are AddTCP,
--   Read, validPackage, Close; `deliver` is the loop of AddTCP, on fuel, and `send` its send,
--   which finds the channel of 100 chunks full or not; a call that stands there goes on by
--   `resume`. More rounds than the stream has bytes are enough, since each round passes a byte
--   at least.
-- - Frame: the parsers of http2/http2.go, ParseFrameBase to ParseGRPCMessage; Frame.Header and
--   Frame.Settings hold an independent encoder for each.
-- - NetPkg, ConnSet, StringSet, Protocol: http2/net_pkg.go, http2/conn_set.go,
--   util/string_set.go, protocol/protocol.go.
-- - Stream, Conn, Handlers: Stream, Http2Conn and ProcessFrame with its handlers. A handler is
--   a step from a connection to an outcome: it goes on, waits for the request (WaitTimeout),
--   blocks on a full channel, or panics.
-- - Deal: DealInput and DealOutput, one call of Read a step; a frame takes as many steps as it
--   has bytes at most.
-- - TcpState, Processor: the state machine's table, with gofsm as the parameter GoFsm, and
--   ProcessTCPPkg with what it calls.
-- - Filter, Emitter, Capture, Registry: filter, biz/filter.go, CopyMulty of biz/emitter.go,
--   getFilesAndDirs of plugin/input_file_dir.go, protocol/encoding.go.
-- - CodecSimple: protocol/codec_simple.go. `marshal` and `unmarshal` are Marshal and Unmarshal;
--   the JSON of an item is the parameter Json, and Base.Decimal has `%d` and Atoi.
-- - Replay: ReinforcedReader of plugin/input_file_dir.go, with the Write of
--   plugin/output_file_dir.go. `read_loop` is the loop of ReadMessage, on fuel. Each round
--   reads a line, goes to the next file, or is the last, so that the bytes and the number of
--   the files bound it.
-- - FileInput: FileDirInput of plugin/input_file_dir.go. `fire` is the function of a task, for
--   any task on the timer; it does nothing yet if the channel's 100 places are taken. `read` is
--   Read.
-- - TcpKill, RawInput: plugin/tcp_kill.go and plugin/input_raw.go. `listen_packet` is a round
--   of the loop in listen; a round of Listen is two events, since the listeners run between
--   them.
-- - MethodFinder: http2/pb_finder.go. `get_method` is Get; MethodFinder.Cache adds the first
--   callers, who write into the messages they share with the cache. The imports of a file are a
--   tree.
-- - Settings, Plugins: config/settings.go, parseSettings of main.go, util/util.go, and
--   biz/plugins.go with util/net.go. `new_plugins` is NewPlugins, as stages of a construction
--   that may end the program.
-- - Queue, Buffers: plugin/output_rocketmq.go, plugin/input_rocketmq.go and
--   protocol/codec_json.go; util/goroutine_safe_buffer.go and buffpool/buffpool.go.
-- - GrpcOutput: plugin/output_grpc.go. `list_services`, `find_symbol` and
--   `all_extensions_for_type` are the methods of DescSrcWrapper, `call` and `execute` those of
--   a worker.
-- - Tests: the theorems on concrete inputs.
--
-- A connection is a value, so that what one step writes the next one reads; goroutines
-- interleave step by step. Log lines are left out. Not modelled are capturing and sending
-- packets, the operating system's files, the message queue, the gRPC and reflection clients,
-- the moments at which replayed messages are due, and the parsing of flags: they are calls of
-- libraries, or are left for later.
pub mod Base
pub mod GoMap
pub mod Packages
pub mod TcpBuffer
pub mod Frame
pub mod Protocol
pub mod StringSet
pub mod NetPkg
pub mod ConnSet
pub mod Stream
pub mod Conn
pub mod Handlers
pub mod TcpState
pub mod Processor
pub mod Deal
pub mod Capture
pub mod Replay
pub mod FileInput
pub mod RawInput
pub mod TcpKill
pub mod Buffers
pub mod Queue
pub mod Settings
pub mod Plugins
pub mod GrpcOutput
pub mod MethodFinder
pub mod Registry
pub mod CodecSimple
pub mod Filter
pub mod Emitter
pub mod Tests
