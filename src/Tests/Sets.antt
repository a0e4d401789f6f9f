-- ===== src/Tests/Sets.antt =====
-- The set of connections on concrete members.
use grpcreplay.Base.{◌≡◌, not, ◌&&◌, ◌||◌, [], ◌∷◌, bytes_key, codes}
use grpcreplay.GoMap.Keys.{in_list}
use grpcreplay.NetPkg.{DirectConn, direct_conn_eq, direct_conn_key}
use grpcreplay.ConnSet as ConnSet
use grpcreplay.ConnSet.Laws.{conn_set_membership}

abbrev conn : DirectConn
conn = record {
  src_addr = record { ip = codes "10.0.0.1"; port = 4000 };
  dst_addr = record { ip = codes "10.0.0.2"; port = 35001 };
}

abbrev conns : ConnSet.ConnSet
conns = ConnSet.add ConnSet.new_conn_set conn

conn_set_membership_example :
    (ConnSet.has (ConnSet.add conns conn) conn
      ≡ (direct_conn_eq conn conn || ConnSet.has conns conn))
    × (ConnSet.has (ConnSet.remove conns conn) conn
        ≡ (not (direct_conn_eq conn conn) && ConnSet.has conns conn))
    × (ConnSet.has (ConnSet.add_all conns (conn ∷ [])) conn
        ≡ (in_list (conn ∷ []) conn || ConnSet.has conns conn))
    × (ConnSet.has (ConnSet.remove_all conns conns) conn
        ≡ (not (ConnSet.has conns conn) && ConnSet.has conns conn))
    × (ConnSet.has (ConnSet.intersection conns conns) conn
        ≡ (ConnSet.has conns conn && ConnSet.has conns conn))
    × (ConnSet.has (ConnSet.clone conns) conn ≡ ConnSet.has conns conn)
conn_set_membership_example = conn_set_membership conns conns conn conn (conn ∷ [])
