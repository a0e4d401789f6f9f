-- ===== src/Tests/Listening.antt =====
-- The raw input on concrete interfaces, sockets and packets.
use grpcreplay.Base.{
  ℕ, ◌≡◌, refl, Bool, true, false, none, some, List, [], ◌∷◌, ◌++◌, arith, map, Bytes, codes, ok,
  bytes_key,
}
use grpcreplay.Base.Int.{pos}
use grpcreplay.Base.Decimal.{atoi}
use grpcreplay.Base.Text.{trim_space, trim_left, trim_right, is_empty}
use grpcreplay.GoMap.{get, put, delete}
use grpcreplay.GoMap.Keys.{in_list, mem, put_all}
use grpcreplay.Packages.{Tcp}
use grpcreplay.NetPkg.{
  Addr, DirectConn, direct_conn_key, dir_incoming, IpLayer, Packet, NetPkg, process_packet,
  direct_conn, direction_of, direct_conn_eq, addr_eq,
}
use grpcreplay.ConnSet as ConnSet
use grpcreplay.StringSet as StringSet
use grpcreplay.RawInput.{
  RawInput, Socket, list_all_conns, process_at, is_acked_ipv4, listen_start, Listening, packet_seen,
  intersected, assigned, listen_step, listen_run, new_raw_input, any_host, port_u32,
}
use grpcreplay.RawInput.History.{reopens}
use grpcreplay.RawInput.Passing.{
  started, firm, reset, listen_run_passes_new, listen_run_holds_history,
}
use grpcreplay.RawInput.Rounds.{listen_run_drops_gone, listen_run_loses_reopening, seen}
use grpcreplay.RawInput.Setup.{Nic, interface_of, ips, names, new_raw_input_any}

abbrev server : Addr
server = record { ip = codes "10.0.0.1"; port = 80 }

abbrev client : ℕ → Addr
client port = record { ip = codes "10.0.0.9"; port = port }

abbrev fresh : RawInput
fresh = record {
  conn_set = ConnSet.new_conn_set;
  ip_set = StringSet.add StringSet.new_string_set (codes "10.0.0.1");
  port = pos 80;
  output_chan = [];
  listener_list = codes "eth0" ∷ [];
  record_response = false;
}

-- The client's port 4000 is connected when the program starts.
abbrev sockets : List Socket
sockets = record { laddr = server; raddr = client 4000; status = codes "ESTABLISHED" } ∷ []

abbrev tcp_from : ℕ → Bool → Bool → Tcp
tcp_from port syn ack = record {
  src_port = port;
  dst_port = 80;
  seq = 1;
  ack = 7;
  fin_flag = false;
  syn_flag = syn;
  rst_flag = false;
  psh_flag = false;
  ack_flag = ack;
  urg_flag = false;
  window = 100;
  payload = [];
}

abbrev ip_layer : IpLayer
ip_layer = record { src_ip = codes "10.0.0.9"; dst_ip = codes "10.0.0.1" }

abbrev packet_from : ℕ → Bool → Bool → Packet
packet_from port syn ack = record {
  ethernet = true;
  ipv4 = some ip_layer;
  ipv6 = none;
  tcp = some (tcp_from port syn ack);
}

abbrev pkg_from : ℕ → Bool → Bool → NetPkg
pkg_from port syn ack = record {
  src_ip = codes "10.0.0.9";
  dst_ip = codes "10.0.0.1";
  ipv4 = some ip_layer;
  ipv6 = none;
  tcp = tcp_from port syn ack;
  direction = dir_incoming;
}

abbrev old_conn : DirectConn
old_conn = record { src_addr = client 4000; dst_addr = server }

understood :
    (port : ℕ) (syn ack : Bool)
    → process_at fresh.port (packet_from port syn ack) fresh.ip_set ≡ ok (pkg_from port syn ack)
unfolding process_at process_packet direction_of StringSet.has StringSet.add
    StringSet.new_string_set mem get put delete
understood port syn ack = refl

not_before :
    (port : ℕ) → ConnSet.has fresh.conn_set (direct_conn (pkg_from port true false)) ≡ false
unfolding ConnSet.has ConnSet.new_conn_set mem get
not_before port = refl

new_conn :
    in_list (list_all_conns fresh.port sockets) (direct_conn (pkg_from 4001 true false)) ≡ false
unfolding in_list list_all_conns direct_conn port_u32 direct_conn_eq addr_eq
new_conn = refl

-- A SYN of another connection, behind an acknowledgement of the old one.
listen_run_passes_new_example :
    (listen_step
      (listen_run (started fresh sockets) (packet_seen (packet_from 4000 false true) ∷ []))
      (packet_seen (packet_from 4001 true false))).input.output_chan
    ≡ (listen_run
        (started fresh sockets)
        (packet_seen (packet_from 4000 false true) ∷ [])).input.output_chan
      ++ pkg_from 4001 true false ∷ []
listen_run_passes_new_example =
    listen_run_passes_new fresh sockets (packet_seen (packet_from 4000 false true) ∷ [])
      (packet_from 4001 true false) (pkg_from 4001 true false) (understood 4001 true false)
      (λ e. cc) (not_before 4001) new_conn

abbrev begun : Listening
begun = started fresh sockets

begun-firm : firm begun (direct_conn (pkg_from 4000 false true)) ≡ true
unfolding ConnSet.has ConnSet.add_all ConnSet.new_conn_set listen_start mem put_all put delete get
    list_all_conns direct_conn port_u32 direct_conn_eq addr_eq
begun-firm = refl

begun_has : ConnSet.has begun.input.conn_set old_conn ≡ true
unfolding ConnSet.has ConnSet.add_all ConnSet.new_conn_set listen_start mem put_all put delete get
    list_all_conns port_u32 direct_conn_eq addr_eq
begun_has = refl

still_there : in_list (list_all_conns begun.input.port sockets) old_conn ≡ true
unfolding listen_start in_list list_all_conns port_u32 direct_conn_eq addr_eq
still_there = refl

not_reopened :
    reopens old_conn (process_at begun.input.port (packet_from 4000 false true) begun.input.ip_set)
    ≡ false
unfolding listen_start process_at process_packet direction_of StringSet.has StringSet.add
    StringSet.new_string_set mem get put delete is_acked_ipv4 direct_conn direct_conn_eq addr_eq
not_reopened = refl

reopened :
    reopens old_conn (process_at begun.input.port (packet_from 4000 true false) begun.input.ip_set)
    ≡ true
unfolding listen_start process_at process_packet direction_of StringSet.has StringSet.add
    StringSet.new_string_set mem get put delete is_acked_ipv4 direct_conn direct_conn_eq addr_eq
reopened = refl

begun_understood :
    process_at begun.input.port (packet_from 4000 false true) begun.input.ip_set
    ≡ ok (pkg_from 4000 false true)
unfolding listen_start
begun_understood = understood 4000 false true

gone : in_list (list_all_conns begun.input.port []) old_conn ≡ false
unfolding in_list list_all_conns
gone = refl

-- Two acknowledgements of the old connection.
listen_run_holds_history_example :
    ((listen_step
        (listen_run begun (packet_seen (packet_from 4000 false true) ∷ []))
        (packet_seen (packet_from 4000 false true))).input.output_chan
      ≡ (listen_run begun (packet_seen (packet_from 4000 false true) ∷ [])).input.output_chan)
    × ((listen_step
          (listen_run begun (packet_seen (packet_from 4000 false true) ∷ []))
          (packet_seen (packet_from 4000 false true))).sent
        ≡ (listen_run begun (packet_seen (packet_from 4000 false true) ∷ [])).sent
          ++ (reset ip_layer (tcp_from 4000 false true) 7
              ∷ reset ip_layer (tcp_from 4000 false true) 107
              ∷ reset ip_layer (tcp_from 4000 false true) 207
              ∷ []))
unfolding direct_conn
listen_run_holds_history_example =
    listen_run_holds_history begun (packet_seen (packet_from 4000 false true) ∷ [])
      (packet_from 4000 false true) (pkg_from 4000 false true) begun_understood refl begun-firm
      (not_reopened, tt)

listen_run_drops_gone_example :
    ConnSet.has
      (listen_run begun (
        intersected []
        ∷ seen (packet_from 4000 false true ∷ []) (assigned (λ c. 5) ∷ []))).input.conn_set
      old_conn
    ≡ false
listen_run_drops_gone_example =
    listen_run_drops_gone begun [] (packet_from 4000 false true ∷ []) (λ c. 5) [] old_conn refl gone

listen_run_loses_reopening_example :
    (ConnSet.has
        (listen_run begun (
          intersected sockets
          ∷ packet_seen (packet_from 4000 true false)
          ∷ assigned (λ c. 5)
          ∷ [])).input.conn_set
        old_conn
      ≡ true)
    × (ConnSet.has
          (listen_run begun (
            intersected sockets
            ∷ assigned (λ c. 5)
            ∷ packet_seen (packet_from 4000 true false)
            ∷ [])).input.conn_set
          old_conn
        ≡ false)
listen_run_loses_reopening_example =
    listen_run_loses_reopening begun sockets (λ c. 5) (packet_from 4000 true false) old_conn refl
      begun_has still_there reopened

abbrev eth0 : Nic
eth0 = record {
  mtu = pos 1500;
  name = codes "eth0";
  cidrs =
      record {
        ip = codes "10.0.0.1";
        prefix = codes "24";
        one_slash = (omega arith, (omega arith, tt));
      }
      ∷ [];
}

wildcard : any_host (trim_space (codes "0.0.0.0")) ≡ true
unfolding trim_space trim_left trim_right is_empty
wildcard = refl

port_80 : atoi (codes "80") ≡ some (pos 80)
unfolding atoi
port_80 = refl

new_raw_input_any_example :
    (i : RawInput) × (new_raw_input
        (λ address. some (codes "0.0.0.0", codes "80"))
        (some (map interface_of (eth0 ∷ [])))
        (codes "0.0.0.0:80")
        true
      ≡ ok i)
    × ((ip : Bytes) → StringSet.has i.ip_set ip ≡ in_list (ips (eth0 ∷ [])) ip)
    × (i.listener_list ≡ names (eth0 ∷ []))
    × (i.port ≡ pos 80)
    × (i.conn_set ≡ ConnSet.new_conn_set)
new_raw_input_any_example =
    new_raw_input_any (λ address. some (codes "0.0.0.0", codes "80")) (codes "0.0.0.0:80")
      (codes "0.0.0.0") (codes "80") (pos 80) true (eth0 ∷ []) refl port_80 wildcard
