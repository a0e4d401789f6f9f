-- ===== src/NetPkg.antt =====
-- http2/net_pkg.go: the two ends of a connection, and the packets of one port with the direction
-- in which they go.
use grpcreplay.Base.{
  ℕ, ◌≡◌, ◌↔◌, Bool, true, ◌&&◌, Option, none, some, List, [], ◌∷◌, ◌++◌, Bytes, codes, bytes_eq,
  bytes_eq_iff, ◌==◌, Eq, if◌then◌else◌, Result, ok, err, arith,
}
use grpcreplay.Packages.{Tcp}
use grpcreplay.StringSet.{StringSet, has}

-- gopsutil's `net.Addr`.
pub record Addr : Type 0 where
  pub ip : Bytes
  pub port : ℕ

pub record DirectConn : Type 0 where
  pub src_addr : Addr
  pub dst_addr : Addr

unfoldable pub addr_eq : Addr → Addr → Bool
addr_eq a b = bytes_eq a.ip b.ip && (a.port == b.port)

unfoldable pub direct_conn_eq : DirectConn → DirectConn → Bool
direct_conn_eq c d = addr_eq c.src_addr d.src_addr && addr_eq c.dst_addr d.dst_addr

pub direct_conn_eq_iff : (c d : DirectConn) → (direct_conn_eq c d ≡ true) ↔ (c ≡ d)
unfolding direct_conn_eq addr_eq
direct_conn_eq_iff c d =
    ground
      (arith, bytes_eq_iff c.src_addr.ip d.src_addr.ip, bytes_eq_iff c.dst_addr.ip d.dst_addr.ip)

instance abbrev pub direct_conn_key : Eq DirectConn
direct_conn_key = record { beq = direct_conn_eq; beq_iff = direct_conn_eq_iff }

unfoldable pub reverse : DirectConn → DirectConn
reverse d = record { src_addr = d.dst_addr; dst_addr = d.src_addr }

pub data Dir : Type 0 where
  dir_unknown dir_incoming dir_outcoming : Dir

-- `GetDirection`
unfoldable pub get_direction : Dir → Bytes
get_direction dir_unknown = codes "DirUnknown"
get_direction dir_incoming = codes "DirIncoming"
get_direction dir_outcoming = codes "DirOutcoming"

-- The layers of gopacket's `Packet` that are asked for: the IP layers by their two addresses.
pub record IpLayer : Type 0 where
  pub src_ip : Bytes
  pub dst_ip : Bytes

pub record Packet : Type 0 where
  pub ethernet : Bool
  pub ipv4 : Option IpLayer
  pub ipv6 : Option IpLayer
  pub tcp : Option Tcp

pub record NetPkg : Type 0 where
  pub src_ip : Bytes
  pub dst_ip : Bytes
  pub ipv4 : Option IpLayer
  pub ipv6 : Option IpLayer
  pub tcp : Tcp
  pub direction : Dir

-- Both layers present: the addresses of the second one written stay.
ip_of : Option IpLayer → Option IpLayer → Option IpLayer
ip_of none none = none
ip_of (some v4) none = some v4
ip_of ipv4 (some v6) = some v6

unfoldable pub direction_of : StringSet → ℕ → IpLayer → Tcp → Dir
direction_of ip_set port ip tcp =
    if has ip_set ip.src_ip && (tcp.src_port == port)
    then dir_outcoming
    else if has ip_set ip.dst_ip && (tcp.dst_port == port)
    then dir_incoming
    else dir_unknown

pub data PacketError : Type 0 where
  invalid_ip_package invalid_tcp_package : PacketError

with_tcp : StringSet → ℕ → Packet → IpLayer → Option Tcp → Result PacketError NetPkg
with_tcp ip_set port packet ip none = err invalid_tcp_package
with_tcp ip_set port packet ip (some tcp) = ok (record {
  src_ip = ip.src_ip;
  dst_ip = ip.dst_ip;
  ipv4 = packet.ipv4;
  ipv6 = packet.ipv6;
  tcp = tcp;
  direction = direction_of ip_set port ip tcp;
})

with_ip : StringSet → ℕ → Packet → Option IpLayer → Result PacketError NetPkg
unfolding with_tcp
with_ip ip_set port packet none = err invalid_ip_package
with_ip ip_set port packet (some ip) = with_tcp ip_set port packet ip packet.tcp

unfoldable pub process_packet : Packet → StringSet → ℕ → Result PacketError NetPkg
unfolding with_ip ip_of
process_packet packet ip_set port =
    if packet.ethernet
    then with_ip ip_set port packet (ip_of packet.ipv4 packet.ipv6)
    else err invalid_ip_package

unfoldable pub tcp_flags : NetPkg → List Bytes
tcp_flags p =
    (if p.tcp.fin_flag then codes "FIN" ∷ [] else [])
    ++ (if p.tcp.syn_flag then codes "SYN" ∷ [] else [])
    ++ (if p.tcp.rst_flag then codes "RST" ∷ [] else [])
    ++ (if p.tcp.psh_flag then codes "PSH" ∷ [] else [])
    ++ (if p.tcp.ack_flag then codes "ACK" ∷ [] else [])
    ++ (if p.tcp.urg_flag then codes "URG" ∷ [] else [])

unfoldable pub direct_conn : NetPkg → DirectConn
direct_conn p = record {
  src_addr = record { ip = p.src_ip; port = p.tcp.src_port };
  dst_addr = record { ip = p.dst_ip; port = p.tcp.dst_port };
}
