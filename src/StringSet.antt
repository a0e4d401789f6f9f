-- ===== src/StringSet.antt =====
-- util/string_set.go: a set of strings as the keys of a map. The order of `ToArray` is the map's
-- and is relied on nowhere.
pub mod Laws
use grpcreplay.Base.{ℕ, Bool, List, [], ltb, if◌then◌else◌, length, Bytes, bytes_key}
use grpcreplay.GoMap.{put, delete, keys}
use grpcreplay.GoMap.Keys.{Keys, mem, put_all, delete_all, collect}

pub record StringSet : Type 0 where
  pub internal : Keys Bytes

unfoldable pub new_string_set : StringSet
new_string_set = record { internal = [] }

unfoldable pub add : StringSet → Bytes → StringSet
add set str = record { internal = put set.internal str tt }

unfoldable pub add_all : StringSet → List Bytes → StringSet
add_all set items = record { internal = put_all set.internal items }

unfoldable pub has : StringSet → Bytes → Bool
has set str = mem set.internal str

unfoldable pub remove : StringSet → Bytes → StringSet
remove set str = record { internal = delete set.internal str }

unfoldable pub to_array : StringSet → List Bytes
to_array set = keys set.internal

unfoldable pub remove_all : StringSet → StringSet → StringSet
unfolding to_array
remove_all set other = record { internal = delete_all set.internal (to_array other) }

unfoldable pub size : StringSet → ℕ
size set = length set.internal

-- The loop runs over the smaller set.
unfoldable pub intersection : StringSet → StringSet → StringSet
unfolding size
intersection set set2 =
    if ltb (size set2) (size set)
    then record { internal = collect (keys set2.internal) set.internal [] }
    else record { internal = collect (keys set.internal) set2.internal [] }

unfoldable pub clone : StringSet → StringSet
unfolding add_all to_array new_string_set
clone set = add_all new_string_set (to_array set)
