-- ===== src/TcpKill.antt =====
-- plugin/tcp_kill.go: the segments that are forged to end a connection. The checksums and the bytes
-- are gopacket's. The hardware addresses of the frame are not modelled.
use grpcreplay.Base.{ℕ, Bool, true, false, Bytes}

pub record Segment : Type 0 where
  pub src_ip : Bytes
  pub dst_ip : Bytes
  pub version : ℕ
  pub ttl : ℕ
  pub protocol : ℕ
  pub src_port : ℕ
  pub dst_port : ℕ
  pub seq : ℕ
  pub syn : Bool
  pub rst : Bool

abbrev pub ip_protocol_tcp : ℕ
ip_protocol_tcp = 6

-- The layers that `SendSYN` serializes.
unfoldable pub send_syn : Bytes → Bytes → ℕ → ℕ → ℕ → Segment
send_syn src_ip dst_ip src_port dst_port seq = record {
  src_ip = src_ip;
  dst_ip = dst_ip;
  version = 4;
  ttl = 64;
  protocol = ip_protocol_tcp;
  src_port = src_port;
  dst_port = dst_port;
  seq = seq;
  syn = true;
  rst = false;
}

-- The layers that `SendRST` serializes.
unfoldable pub send_rst : Bytes → Bytes → ℕ → ℕ → ℕ → Segment
send_rst src_ip dst_ip src_port dst_port seq = record {
  src_ip = src_ip;
  dst_ip = dst_ip;
  version = 4;
  ttl = 64;
  protocol = ip_protocol_tcp;
  src_port = src_port;
  dst_port = dst_port;
  seq = seq;
  syn = false;
  rst = true;
}
