-- ===== src/RawInput.antt =====
-- plugin/input_raw.go: the packets of the local network devices. Connections that were there before the
-- program are its history: their packets are not passed on, and they are reset or waited for.
pub mod Setup
pub mod History
pub mod Rounds
pub mod Passing
use grpcreplay.Base.{
  ℕ, zero, suc, ◌+◌, ◌-◌, ◌*◌, ◌%◌, Bool, true, false, ◌&&◌, ◌||◌, Option, none, some, List, [],
  ◌∷◌, ◌++◌, map, Bytes, codes, bytes_eq, ltb, ◌==◌, if◌then◌else◌, length, take, Result, ok, err,
  panic, u32_mod, add_u32,
}
use grpcreplay.Base.Int.{ℤ, pos, negsuc}
use grpcreplay.Base.Decimal.{atoi}
use grpcreplay.Base.Split.{last_index}
use grpcreplay.Base.Text.{has_prefix, is_empty, trim_space}
use grpcreplay.Packages.{Tcp}
use grpcreplay.NetPkg.{
  Addr, DirectConn, Dir, dir_unknown, dir_incoming, dir_outcoming, IpLayer, Packet, NetPkg,
  PacketError, process_packet, direct_conn,
}
use grpcreplay.ConnSet as ConnSet
use grpcreplay.StringSet as StringSet
use grpcreplay.TcpKill.{Segment, send_syn, send_rst}

-- gopsutil's `InterfaceStat`: the addresses are an IP and a prefix length behind a slash.
pub record Interface : Type 0 where
  pub mtu : ℤ
  pub name : Bytes
  pub addrs : List Bytes

-- gopsutil's `ConnectionStat`
pub record Socket : Type 0 where
  pub laddr : Addr
  pub raddr : Addr
  pub status : Bytes

-- The port of the address is a number, which no packet has if it is negative.
pub record RawInput : Type 0 where
  pub conn_set : ConnSet.ConnSet
  pub ip_set : StringSet.StringSet
  pub port : ℤ
  pub output_chan : List NetPkg
  pub listener_list : List Bytes
  pub record_response : Bool

-- How `NewRAWInput` fails; `panic` stands for the end of the program.
pub data InputError : Type 0 where
  invalid_address no_interfaces : InputError

-- `addr.Addr[0:idx]` for the last slash; `none`: there is no slash, and the index is out of range.
unfoldable pub ip_part : Bytes → Option Bytes
ip_part addr = elim (last_index addr b'/') [ none ↦ none | some idx ↦ some (take idx addr) ]

unfoldable pub has_mtu : Interface → Bool
has_mtu itf = elim itf.mtu [ pos n ↦ ltb 0 n | negsuc n ↦ false ]

unfoldable pub add_addrs : StringSet.StringSet → List Bytes → Option StringSet.StringSet
add_addrs set [] = some set
add_addrs set (addr ∷ addrs) = elim (ip_part addr) [
  | none ↦ none
  | some ip ↦ add_addrs (StringSet.add set ip) addrs
]

-- The addresses of the interfaces with an MTU above 0; whether an interface is up is not asked.
unfoldable pub local_ips : StringSet.StringSet → List Interface → Option StringSet.StringSet
local_ips set [] = some set
local_ips set (itf ∷ itfs) = elim (add_addrs set (if has_mtu itf then itf.addrs else [])) [
  | none ↦ none
  | some set' ↦ local_ips set' itfs
]

-- `name` for each address that begins with the host.
unfoldable pub listed : Bytes → Bytes → List Bytes → List Bytes
listed host name [] = []
listed host name (addr ∷ addrs) =
    let rest = listed host name addrs in if has_prefix addr host then name ∷ rest else rest

abbrev pub any_host : Bytes → Bool
any_host host = is_empty host || bytes_eq host (codes "0.0.0.0")

unfoldable pub device_list : Bytes → List Interface → List Bytes
device_list host [] = []
device_list host (itf ∷ itfs) =
    (if has_mtu itf
      then (if any_host host then itf.name ∷ [] else listed host itf.name itf.addrs)
      else [])
    ++ device_list host itfs

module _ (split_host_port : Bytes → Option (Bytes × Bytes))
    (interfaces : Option (List Interface)) where
  with_ips :
      Bytes → ℤ → Bool → List Interface → Option StringSet.StringSet → Result InputError RawInput
  with_ips host port record_response itfs none = panic
  with_ips host port record_response itfs (some ip_set) = ok (record {
    conn_set = ConnSet.new_conn_set;
    ip_set = ip_set;
    port = port;
    output_chan = [];
    listener_list = device_list (trim_space host) itfs;
    record_response = record_response;
  })

  with_interfaces : Bytes → ℤ → Bool → Option (List Interface) → Result InputError RawInput
  unfolding with_ips
  with_interfaces host port record_response none = err no_interfaces
  with_interfaces host port record_response (some itfs) =
      with_ips host port record_response itfs (local_ips StringSet.new_string_set itfs)

  with_port : Bytes → Bool → Option ℤ → Result InputError RawInput
  unfolding with_interfaces
  with_port host record_response none = panic
  with_port host record_response (some port) = with_interfaces host port record_response interfaces

  -- `NewRAWInput`, up to the start of its goroutines.
  unfoldable pub new_raw_input : Bytes → Bool → Result InputError RawInput
  unfolding with_port
  new_raw_input address record_response = elim (split_host_port address) [
    | none ↦ err invalid_address
    | some (host, port) ↦ with_port host record_response (atoi port)
  ]

-- `uint32(port)`
unfoldable pub port_u32 : ℤ → ℕ
port_u32 (pos n) = n % u32_mod
port_u32 (negsuc n) = u32_mod - 1 - n % u32_mod

unfoldable pub list_all_conns : ℤ → List Socket → List DirectConn
list_all_conns port [] = []
list_all_conns port (item ∷ items) =
    let rest = list_all_conns port items in
    if (item.laddr.port == port_u32 port) && bytes_eq item.status (codes "ESTABLISHED")
    then record { src_addr = item.raddr; dst_addr = item.laddr } ∷ rest
    else rest

-- The direction of a packet is never known if the port is negative.
unfoldable pub process_at : ℤ → Packet → StringSet.StringSet → Result PacketError NetPkg
process_at (pos port) packet ip_set = process_packet packet ip_set port
process_at (negsuc n) packet ip_set = process_packet packet StringSet.new_string_set 0

abbrev pub rst_num : ℕ
rst_num = 3

-- The segments for i, i + 1, ..., `count` of them.
unfoldable pub rsts : NetPkg → IpLayer → ℕ → ℕ → List Segment
rsts p ip i zero = []
rsts p ip i (suc count) =
    send_rst ip.dst_ip ip.src_ip p.tcp.dst_port p.tcp.src_port
      (add_u32 p.tcp.ack (p.tcp.window * i % u32_mod))
    ∷ rsts p ip (suc i) count

unfoldable pub is_acked_ipv4 : NetPkg → Bool
is_acked_ipv4 p = p.tcp.ack_flag && elim p.ipv4 [ none ↦ false | some ip ↦ true ]

abbrev pub rsts_of : NetPkg → Option IpLayer → List Segment
rsts_of p none = []
rsts_of p (some ip) = rsts p ip 0 rst_num

-- The part of the loop in `listen` for a packet on a history connection.
unfoldable pub history_packet : RawInput → NetPkg → RawInput × List Segment
history_packet i p =
    if is_acked_ipv4 p
    then (i, rsts_of p p.ipv4)
    else if p.tcp.syn_flag
    then (record i { conn_set = ConnSet.remove i.conn_set (direct_conn p) }, [])
    else (i, [])

abbrev pub pass_on : RawInput → NetPkg → RawInput
pass_on i p = record i { output_chan = i.output_chan ++ p ∷ [] }

unfoldable pub listen_dir : Dir → RawInput → NetPkg → RawInput × List Segment
unfolding history_packet
listen_dir dir_incoming i p =
    if ConnSet.has i.conn_set (direct_conn p) then history_packet i p else (pass_on i p, [])
listen_dir dir_outcoming i p = (pass_on i p, [])
listen_dir dir_unknown i p = (i, [])

abbrev pub listen_result : RawInput → Result PacketError NetPkg → RawInput × List Segment
listen_result i (ok p) = listen_dir p.direction i p
listen_result i (err e) = (i, [])
listen_result i panic = (i, [])

-- One round of the loop in `listen`: the segments that it sends beside the new state.
unfoldable pub listen_packet : RawInput → Packet → RawInput × List Segment
listen_packet i packet = listen_result i (process_at i.port packet i.ip_set)

-- `Listen` up to the start of the listeners.
unfoldable pub listen_start : RawInput → List Socket → RawInput
listen_start i sockets = record i {
  conn_set = ConnSet.add_all i.conn_set (list_all_conns i.port sockets);
}

-- What a round of `Listen` makes of the set that it reads, and assigns afterwards.
unfoldable pub listen_next : RawInput → List Socket → ConnSet.ConnSet
listen_next i sockets =
    ConnSet.intersection i.conn_set
      (ConnSet.add_all ConnSet.new_conn_set (list_all_conns i.port sockets))

-- The challenges of a round; `seq` is the random number for a connection.
unfoldable pub challenges : (DirectConn → ℕ) → List DirectConn → List Segment
challenges seq [] = []
challenges seq (conn ∷ conns) =
    send_syn conn.dst_addr.ip conn.src_addr.ip conn.dst_addr.port conn.src_addr.port (seq conn)
    ∷ challenges seq conns

-- The listeners run beside `Listen`, so that packets come in between the two halves of its
-- assignment; `next` is the set between them.
pub record Listening : Type 0 where
  pub input : RawInput
  pub next : Option ConnSet.ConnSet
  pub sent : List Segment

pub data ListenEvent : Type 0 where
  packet_seen : Packet → ListenEvent
  intersected : List Socket → ListenEvent
  assigned : (DirectConn → ℕ) → ListenEvent

-- The loop of `Listen` runs while the set has members; an event that it is not ready for changes
-- nothing.
abbrev pub intersect_round : Option ConnSet.ConnSet → Listening → List Socket → Listening
intersect_round none l sockets =
    if ltb 0 (ConnSet.size l.input.conn_set)
    then record l { next = some (listen_next l.input sockets) }
    else l
intersect_round (some next) l sockets = l

abbrev pub assign_round : Option ConnSet.ConnSet → Listening → (DirectConn → ℕ) → Listening
assign_round none l seq = l
assign_round (some next) l seq = record {
  input = record l.input { conn_set = next };
  next = none;
  sent = l.sent ++ challenges seq (ConnSet.to_array next);
}

unfoldable pub listen_step : Listening → ListenEvent → Listening
listen_step l (packet_seen packet) =
    let r = listen_packet l.input packet in record l { input = r.0; sent = l.sent ++ r.1 }
listen_step l (intersected sockets) = intersect_round l.next l sockets
listen_step l (assigned seq) = assign_round l.next l seq

unfoldable pub listen_run : Listening → List ListenEvent → Listening
listen_run l [] = l
listen_run l (e ∷ es) = listen_run (listen_step l e) es
