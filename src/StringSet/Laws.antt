-- ===== src/StringSet/Laws.antt =====
-- Membership after each operation of util/string_set.go.
use grpcreplay.Base.{◌≡◌, not, ◌&&◌, ◌||◌, List, [], arith, Bytes, bytes_eq, bytes_key}
use grpcreplay.GoMap.{keys}
use grpcreplay.GoMap.Keys.{
  in_list, mem-put, mem-delete, mem-put_all, mem-delete_all, in_list-keys, mem-collect, mem-nil,
}
use grpcreplay.StringSet.{StringSet, add, add_all, has, remove, remove_all, intersection, clone}

-- The larger and the smaller set change places in the loop, and the members are the same.
has-intersection : (a b : StringSet) (c : Bytes) → has (intersection a b) c ≡ (has a c && has b c)
unfolding has intersection
has-intersection a b c = ground (
  arith,
  mem-collect (keys b.internal) a.internal [] c,
  mem-collect (keys a.internal) b.internal [] c,
  in_list-keys a.internal c,
  in_list-keys b.internal c,
  mem-nil c,
)

-- After each operation the set has exactly the members that its name promises: the added, all but
-- the removed, those of both sets for `Intersection`, and the same ones for `Clone`.
pub string_set_membership :
    (a b : StringSet) (c d : Bytes) (items : List Bytes)
    → (has (add a c) d ≡ (bytes_eq c d || has a d))
      × (has (remove a c) d ≡ (not (bytes_eq c d) && has a d))
      × (has (add_all a items) d ≡ (in_list items d || has a d))
      × (has (remove_all a b) d ≡ (not (has b d) && has a d))
      × (has (intersection a b) d ≡ (has a d && has b d))
      × (has (clone a) d ≡ has a d)
unfolding has add remove add_all remove_all clone
string_set_membership a b c d items = (
  mem-put a.internal c d,
  mem-delete a.internal c d,
  mem-put_all a.internal items d,
  ground (arith, mem-delete_all a.internal (keys b.internal) d, in_list-keys b.internal d),
  has-intersection a b d,
  ground (arith, mem-put_all [] (keys a.internal) d, in_list-keys a.internal d, mem-nil d),
)
