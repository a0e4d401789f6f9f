-- ===== src/Processor/Directions.antt =====
-- A client's packet and the server's answer belong to one connection.
use grpcreplay.Base.{ℕ, ◌≡◌, ap, true, none, some, ok}
use grpcreplay.NetPkg.{DirectConn, Dir, IpLayer, Packet, NetPkg, direction_of, process_packet}
use grpcreplay.Packages.{Tcp}
use grpcreplay.StringSet.{StringSet}

-- A frame on the wire with these layers.
abbrev pub ipv4_packet : IpLayer → Tcp → Packet
ipv4_packet ip tcp = record { ethernet = true; ipv4 = some ip; ipv6 = none; tcp = some tcp }

abbrev pub read_as : IpLayer → Tcp → Dir → NetPkg
read_as ip tcp direction = record {
  src_ip = ip.src_ip;
  dst_ip = ip.dst_ip;
  ipv4 = some ip;
  ipv6 = none;
  tcp = tcp;
  direction = direction;
}

read :
    (ip_set : StringSet) (port : ℕ) (ip : IpLayer) (tcp : Tcp) (d : Dir)
    → direction_of ip_set port ip tcp ≡ d
    → process_packet (ipv4_packet ip tcp) ip_set port ≡ ok (read_as ip tcp d)
unfolding process_packet
read ip_set port ip tcp d e = ap (λ x. ok (read_as ip tcp x)) e

abbrev pub crossed : IpLayer → IpLayer
crossed ip = record { src_ip = ip.dst_ip; dst_ip = ip.src_ip }

-- The connection of a packet with its ends exchanged.
abbrev turned : IpLayer → ℕ → ℕ → DirectConn
turned ip source destination = record {
  src_addr = record { ip = ip.dst_ip; port = destination };
  dst_addr = record { ip = ip.src_ip; port = source };
}
