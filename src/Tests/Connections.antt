-- ===== src/Tests/Connections.antt =====
-- A client opens a connection.
use grpcreplay.Base.{ℕ, ◌≡◌, refl, Bool, true, false, none, some, List, [], ◌∷◌, Bytes, codes}
use grpcreplay.Packages.{Tcp}
use grpcreplay.GoMap.{get}
use grpcreplay.NetPkg.{NetPkg, dir_incoming, dir_outcoming, DirectConn, direct_conn, reverse}
use grpcreplay.Processor.{Processor, new_processor, process_tcp_pkg, process_tcp_pkgs, client_conn}
use grpcreplay.Processor.Invariant.{Inv, new_processor-Inv}
use grpcreplay.Processor.Reachable.{process_tcp_pkg_control}
use grpcreplay.Processor.Handshake.{IsSyn, IsSynAck, IsAck, at_state, handshake_establishes}
use grpcreplay.TcpState.{listen, syn_received1, syn_received2, established}
use grpcreplay.Conn.{Http2Conn}
use grpcreplay.NetPkg.{direct_conn_key}
use grpcreplay.NetPkg.{IpLayer}
use grpcreplay.StringSet as StringSet
use grpcreplay.Tests.Instances.{skip_list, hpack, codecs, fsm}

abbrev client : Bytes
client = codes "10.0.0.1"

abbrev server : Bytes
server = codes "10.0.0.2"

abbrev tcp : ℕ → ℕ → ℕ → ℕ → Bool → Bool → Tcp
tcp from to seq acknowledged syn_flag ack_flag = record {
  src_port = from;
  dst_port = to;
  seq = seq;
  ack = acknowledged;
  fin_flag = false;
  syn_flag = syn_flag;
  rst_flag = false;
  psh_flag = false;
  ack_flag = ack_flag;
  urg_flag = false;
  window = 1000;
  payload = [];
}

abbrev from_client : Tcp → NetPkg
from_client t = record {
  src_ip = client;
  dst_ip = server;
  ipv4 = none;
  ipv6 = none;
  tcp = t;
  direction = dir_incoming;
}

abbrev from_server : Tcp → NetPkg
from_server t = record {
  src_ip = server;
  dst_ip = client;
  ipv4 = none;
  ipv6 = none;
  tcp = t;
  direction = dir_outcoming;
}

abbrev syn_pkg : NetPkg
syn_pkg = from_client (tcp 4000 35001 100 0 true false)

abbrev syn_ack_pkg : NetPkg
syn_ack_pkg = from_server (tcp 35001 4000 500 101 true true)

abbrev ack_pkg : NetPkg
ack_pkg = from_client (tcp 4000 35001 101 501 false true)

abbrev nothing_yet : Processor
nothing_yet = new_processor true

process_tcp_pkg_control_example :
    (p' : Processor) × (process_tcp_pkg 0 nothing_yet syn_pkg ≡ some p') × Inv p'
process_tcp_pkg_control_example =
    process_tcp_pkg_control 0 nothing_yet syn_pkg refl (new_processor-Inv true)

abbrev handshake : List NetPkg
handshake = syn_pkg ∷ syn_ack_pkg ∷ ack_pkg ∷ []

abbrev conn : DirectConn
conn = record {
  src_addr = record { ip = client; port = 4000 };
  dst_addr = record { ip = server; port = 35001 };
}

syn_pkg-IsSyn : IsSyn conn syn_pkg
unfolding client_conn direct_conn reverse
syn_pkg-IsSyn = record { empty = refl; own = refl; incoming = refl; syn_flag = refl }

syn_ack_pkg-IsSynAck : IsSynAck conn syn_ack_pkg
unfolding client_conn direct_conn reverse
syn_ack_pkg-IsSynAck = record {
  empty = refl;
  own = refl;
  outcoming = refl;
  syn_flag = refl;
  ack_flag = refl;
}

ack_pkg-IsAck : IsAck conn ack_pkg
unfolding client_conn direct_conn reverse
ack_pkg-IsAck = record {
  empty = refl;
  own = refl;
  incoming = refl;
  syn_flag = refl;
  fin_flag = refl;
  rst_flag = refl;
  ack_flag = refl;
}

conn_unknown : get nothing_yet.conn_states conn ≡ none
unfolding new_processor get
conn_unknown = refl

handshake_establishes_example :
    (p' : Processor) × (process_tcp_pkgs 0 nothing_yet handshake ≡ some p')
    × (get p'.conn_states conn
        ≡ some
            (at_state conn established (listen ∷ syn_received1 ∷ syn_received2 ∷ established ∷ [])))
    × (hc : Http2Conn) × (get p'.conn_repository conn ≡ some hc)
    × (hc.direct_conn ≡ conn)
    × (hc.input.tcp_buffer.expected_seq ≡ 102)
    × (hc.output.tcp_buffer.expected_seq ≡ 501)
handshake_establishes_example =
    handshake_establishes 0 nothing_yet conn syn_pkg syn_ack_pkg ack_pkg syn_pkg-IsSyn
      syn_ack_pkg-IsSynAck ack_pkg-IsAck conn_unknown

abbrev own_addresses : StringSet.StringSet
own_addresses = StringSet.add StringSet.new_string_set server

abbrev wire : IpLayer
wire = record { src_ip = client; dst_ip = server }
