-- ===== src/Processor.antt =====
-- http2/processor.go, with `OnEnter` of http2/state_machine.go: each captured packet moves the state
-- of its connection, and its payload goes to the buffer of its direction. `ts` is a pointer into
-- `ConnStates`, so what is written to it is written to the map; after the entry is deleted the
-- caller still holds it. A GOAWAY frame deletes the connection from `ConnRepository` (`go_away`), in
-- the goroutine that reads its frames: that is `in_repository` of the connection's own model.
pub mod Invariant
pub mod Reachable
pub mod Handshake
pub mod Directions
use grpcreplay.Base.{
  ℕ, ◌+◌, ◌%◌, Bool, true, false, ◌&&◌, ◌||◌, Option, none, some, List, [], ◌∷◌, ◌++◌, Bytes, codes,
  bytes_eq, ◌==◌, ltb, leb, if◌then◌else◌, length, take, add_u32, max_uint32,
}
use grpcreplay.GoMap.{GoMap, get, put, delete}
use grpcreplay.NetPkg.{
  DirectConn, direct_conn_key, NetPkg, Dir, dir_incoming, dir_outcoming, dir_unknown, direct_conn,
  reverse,
}
use grpcreplay.Packages.{SkipList, Hpack, Codecs}
use grpcreplay.TcpBuffer.{TcpBuffer, Call, returned, waits, set_expected_seq, add_tcp, next_seq}
use grpcreplay.TcpState.{
  State, established, closed, Event, receive_syn, receive_ack, send_syn_ack, receive_fin, send_ack,
  send_fin, receive_rst, transitions, state_number, GoFsm, TcpConnectionState, new_tcp_connection,
}
use grpcreplay.Conn.{Http2Conn, MessageParser, new_http2_conn, http2_initial_header_table_size}

abbrev pub connection_preface_size : ℕ
connection_preface_size = 24

abbrev pub preface_early : Bytes
preface_early = codes "FOO * HTTP/2.0\r\n\r\nBA\r\n\r\n"

abbrev pub preface_std : Bytes
preface_std = codes "PRI * HTTP/2.0\r\n\r\nSM\r\n\r\n"

unfoldable pub is_conn_preface : Bytes → Bool
is_conn_preface payload =
    leb connection_preface_size (length payload)
    && (bytes_eq (take connection_preface_size payload) preface_early
        || bytes_eq (take connection_preface_size payload) preface_std)

abbrev pub is_incoming : Dir → Bool
is_incoming dir_incoming = true
is_incoming _ = false

abbrev pub is_outcoming : Dir → Bool
is_outcoming dir_outcoming = true
is_outcoming _ = false

abbrev pub is_established : State → Bool
is_established established = true
is_established _ = false

-- The connection of a packet as its client sees it.
unfoldable pub client_conn : NetPkg → DirectConn
client_conn pkg = if is_outcoming pkg.direction then reverse (direct_conn pkg) else direct_conn pkg

-- The event of a packet: the ladder of `handleConnectionState`.
unfoldable pub event_of : NetPkg → Option Event
event_of pkg =
    let incoming = is_incoming pkg.direction in
    let outcoming = is_outcoming pkg.direction in
    let tcp = pkg.tcp in
    if ltb 0 (length tcp.payload)
    then none
    else if incoming && tcp.syn_flag
    then some receive_syn
    else if outcoming && (tcp.syn_flag && tcp.ack_flag)
    then some send_syn_ack
    else if incoming && tcp.fin_flag
    then some receive_fin
    else if outcoming && tcp.fin_flag
    then some send_fin
    else if incoming && tcp.rst_flag
    then some receive_rst
    else if outcoming && tcp.ack_flag
    then some send_ack
    else if incoming && tcp.ack_flag
    then some receive_ack
    else none

module _ ⦃s : SkipList⦄ ⦃h : Hpack⦄ ⦃c : Codecs⦄ where
  pub record Processor : Type 0 where
    pub conn_states : GoMap DirectConn TcpConnectionState
    pub conn_repository : GoMap DirectConn Http2Conn
    pub record_response : Bool

  unfoldable pub new_processor : Bool → Processor
  new_processor record_response = record {
    conn_states = [];
    conn_repository = [];
    record_response = record_response;
  }

  with_input_seq : ℕ → MessageParser → MessageParser
  with_input_seq seq parser = record parser { tcp_buffer = set_expected_seq parser.tcp_buffer seq }

  -- The connection that is made when the handshake ends with `pkg`.
  unfoldable pub established_conn : DirectConn → NetPkg → Bool → Http2Conn
  unfolding with_input_seq
  established_conn dc pkg record_response =
      let hc = new_http2_conn dc http2_initial_header_table_size record_response in
      record hc {
        input = with_input_seq (add_u32 pkg.tcp.seq 1) hc.input;
        output = with_input_seq pkg.tcp.ack hc.output;
      }

  entered : State → NetPkg → Processor → TcpConnectionState → Processor
  entered established pkg p ts = record p {
    conn_states = put p.conn_states ts.dc ts;
    conn_repository = put p.conn_repository ts.dc (established_conn ts.dc pkg p.record_response);
  }
  entered closed pkg p ts = record p {
    conn_states = delete p.conn_states ts.dc;
    conn_repository = delete p.conn_repository ts.dc;
  }
  entered _ pkg p ts = record p { conn_states = put p.conn_states ts.dc ts }

  -- `OnEnter` on the processor and the connection's state.
  unfoldable pub on_enter :
      NetPkg → State → Processor × TcpConnectionState → Processor × TcpConnectionState
  unfolding entered
  on_enter pkg to_state (p, ts) =
      let ts' = record ts { state = to_state; states = ts.states ++ to_state ∷ [] } in
      (entered to_state pkg p ts', ts')

  module _ ⦃g : GoFsm⦄ where
    trigger_event :
        NetPkg → Option Event → Processor × TcpConnectionState → Processor × TcpConnectionState
    trigger_event pkg none x = x
    trigger_event pkg (some event) x =
        (g.trigger (Processor × TcpConnectionState) transitions (on_enter pkg) x.1.state event x).0

    -- The error of a `Trigger` with no row is logged only.
    unfoldable pub handle_connection_state :
        NetPkg → Processor × TcpConnectionState → Processor × TcpConnectionState
    unfolding trigger_event
    handle_connection_state pkg x = trigger_event pkg (event_of pkg) x

  -- What `processFrameGoAway` does to the processor's map; the connection's state stays as it is.
  unfoldable pub go_away : Processor → DirectConn → Processor
  go_away p dc = record p { conn_repository = delete p.conn_repository dc }

  -- `none`: `AddTCP` has not returned. Its loop is still running, or it stands at a full channel,
  -- and then the processor stands with it.
  after_add : Option Call → (TcpBuffer → Processor) → Option Processor
  after_add none use_buffer = none
  after_add (some (returned buffer)) use_buffer = some (use_buffer buffer)
  after_add (some (waits buffer pkg removed)) use_buffer = none

  add_input : ℕ → NetPkg → Processor → Option Http2Conn → Option Processor
  unfolding with_input_seq after_add
  add_input fuel pkg p none = some p
  add_input fuel pkg p (some hc) =
      if is_conn_preface pkg.tcp.payload
      then some (record p {
        conn_repository =
            put p.conn_repository (direct_conn pkg)
              (record hc { input = with_input_seq (next_seq pkg.tcp) hc.input });
      })
      else after_add (add_tcp fuel hc.input.tcp_buffer pkg.tcp) (λ buffer. record p {
        conn_repository =
            put p.conn_repository (direct_conn pkg)
              (record hc { input = record (hc.input) { tcp_buffer = buffer } });
      })

  unfoldable pub process_incoming_tcp_pkg : ℕ → Processor → NetPkg → Option Processor
  unfolding add_input
  process_incoming_tcp_pkg fuel p pkg =
      add_input fuel pkg p (get p.conn_repository (direct_conn pkg))

  add_output : ℕ → NetPkg → Processor → Option Http2Conn → Option Processor
  unfolding after_add
  add_output fuel pkg p none = some p
  add_output fuel pkg p (some hc) = after_add (add_tcp fuel hc.output.tcp_buffer pkg.tcp) (λ buffer.
      record p {
        conn_repository =
            put p.conn_repository (reverse (direct_conn pkg))
              (record hc { output = record (hc.output) { tcp_buffer = buffer } });
      })

  unfoldable pub process_outcoming_tcp_pkg : ℕ → Processor → NetPkg → Option Processor
  unfolding add_output
  process_outcoming_tcp_pkg fuel p pkg =
      add_output fuel pkg p (get p.conn_repository (reverse (direct_conn pkg)))

  -- `p.ConnStates[dc]`, made if it is not there.
  pub lookup_state :
      Processor → DirectConn → Option TcpConnectionState → Processor × TcpConnectionState
  lookup_state p dc none =
      let ts = new_tcp_connection dc in (record p { conn_states = put p.conn_states dc ts }, ts)
  lookup_state p dc (some ts) = (p, ts)

  -- The payload, once the connection's state is known.
  unfoldable pub deliver_payload : ℕ → NetPkg → Processor × TcpConnectionState → Option Processor
  deliver_payload fuel pkg (p, ts) =
      if is_established ts.state && ltb 0 (length pkg.tcp.payload)
      then if is_incoming pkg.direction
        then process_incoming_tcp_pkg fuel p pkg
        else if p.record_response && is_outcoming pkg.direction
        then process_outcoming_tcp_pkg fuel p pkg
        else some p
      else some p

  module _ ⦃g : GoFsm⦄ where
    -- One round of `ProcessTCPPkg`.
    unfoldable pub process_tcp_pkg : ℕ → Processor → NetPkg → Option Processor
    unfolding lookup_state
    process_tcp_pkg fuel p pkg =
        let dc = client_conn pkg in
        let found = lookup_state p dc (get p.conn_states dc) in
        deliver_payload fuel pkg (handle_connection_state pkg found)

    -- The loop over `InputChan`.
    unfoldable pub process_tcp_pkgs : ℕ → Processor → List NetPkg → Option Processor
    process_tcp_pkgs fuel p [] = some p
    process_tcp_pkgs fuel p (pkg ∷ pkgs) = elim (process_tcp_pkg fuel p pkg) [
      | none ↦ none
      | some p' ↦ process_tcp_pkgs fuel p' pkgs
    ]
