-- ===== src/ConnSet/Laws.antt =====
-- Membership after each operation of http2/conn_set.go.
use grpcreplay.Base.{◌≡◌, not, ◌&&◌, ◌||◌, List, [], arith}
use grpcreplay.NetPkg.{DirectConn, direct_conn_eq, direct_conn_key}
use grpcreplay.GoMap.{keys}
use grpcreplay.GoMap.Keys.{
  in_list, mem-put, mem-delete, mem-put_all, mem-delete_all, in_list-keys, mem-collect, mem-nil,
}
use grpcreplay.ConnSet.{ConnSet, add, add_all, has, remove, remove_all, intersection, clone}

-- The larger and the smaller set change places in the loop, and the members are the same.
has-intersection :
    (a b : ConnSet) (c : DirectConn) → has (intersection a b) c ≡ (has a c && has b c)
unfolding has intersection
has-intersection a b c = ground (
  arith,
  mem-collect (keys b.internal) a.internal [] c,
  mem-collect (keys a.internal) b.internal [] c,
  in_list-keys a.internal c,
  in_list-keys b.internal c,
  mem-nil c,
)

-- After each operation the set has exactly the members that its name promises: the added, all but
-- the removed, those of both sets for `Intersection`, and the same ones for `Clone`.
pub conn_set_membership :
    (a b : ConnSet) (c d : DirectConn) (items : List DirectConn)
    → (has (add a c) d ≡ (direct_conn_eq c d || has a d))
      × (has (remove a c) d ≡ (not (direct_conn_eq c d) && has a d))
      × (has (add_all a items) d ≡ (in_list items d || has a d))
      × (has (remove_all a b) d ≡ (not (has b d) && has a d))
      × (has (intersection a b) d ≡ (has a d && has b d))
      × (has (clone a) d ≡ has a d)
unfolding has add remove add_all remove_all clone
conn_set_membership a b c d items = (
  mem-put a.internal c d,
  mem-delete a.internal c d,
  mem-put_all a.internal items d,
  ground (arith, mem-delete_all a.internal (keys b.internal) d, in_list-keys b.internal d),
  has-intersection a b d,
  ground (arith, mem-put_all [] (keys a.internal) d, in_list-keys a.internal d, mem-nil d),
)
