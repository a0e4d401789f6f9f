-- ===== src/ConnSet.antt =====
-- http2/conn_set.go: a set of connections as the keys of a map. A set is a value here: the locks, and
-- whether two sets are the same object, are not modelled. So each method is a function of the members
-- that it reads, and says nothing of a concurrent change: `Intersection` holds its own set's lock but
-- reads the other set without that set's, and `RemoveAll` of a set with itself, which asks for the
-- lock that it holds, does not return.
pub mod Laws
use grpcreplay.Base.{ℕ, Bool, List, [], ltb, if◌then◌else◌, length}
use grpcreplay.NetPkg.{DirectConn, direct_conn_key}
use grpcreplay.GoMap.{put, delete, keys}
use grpcreplay.GoMap.Keys.{Keys, mem, put_all, delete_all, collect}

pub record ConnSet : Type 0 where
  pub internal : Keys DirectConn

unfoldable pub new_conn_set : ConnSet
new_conn_set = record { internal = [] }

unfoldable pub add : ConnSet → DirectConn → ConnSet
add set conn = record { internal = put set.internal conn tt }

unfoldable pub add_all : ConnSet → List DirectConn → ConnSet
add_all set items = record { internal = put_all set.internal items }

unfoldable pub has : ConnSet → DirectConn → Bool
has set conn = mem set.internal conn

unfoldable pub remove : ConnSet → DirectConn → ConnSet
remove set conn = record { internal = delete set.internal conn }

unfoldable pub to_array : ConnSet → List DirectConn
to_array set = keys set.internal

unfoldable pub remove_all : ConnSet → ConnSet → ConnSet
unfolding to_array
remove_all set other = record { internal = delete_all set.internal (to_array other) }

unfoldable pub size : ConnSet → ℕ
size set = length set.internal

-- The loop runs over the smaller set.
unfoldable pub intersection : ConnSet → ConnSet → ConnSet
unfolding size
intersection set set2 =
    if ltb (size set2) (size set)
    then record { internal = collect (keys set2.internal) set.internal [] }
    else record { internal = collect (keys set.internal) set2.internal [] }

unfoldable pub clone : ConnSet → ConnSet
unfolding add_all to_array new_conn_set
clone set = add_all new_conn_set (to_array set)
