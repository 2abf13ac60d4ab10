-- ===== src/Tests/Store.antt =====
-- DataStore, at concrete keys.
use minimum_redis.Base.{equal, some, codes, ◌≡◌, refl, arith}
use minimum_redis.Base.Int.{pos}
use minimum_redis.Dict.{find, put}
use minimum_redis.Value.{RedisType, new_value}
use minimum_redis.DataStore.{KeyValuePair, DataStore, new_store, write, set, get_mod_count}
use minimum_redis.DataStore.Versions.{
  Runs, here, followed, sets, IsVersioned, new_store-IsVersioned, Runs-IsVersioned,
  get_mod_count-same,
}

abbrev one_entry : DataStore
one_entry = set (codes "k") (new_value RedisType.string) new_store

abbrev entry : KeyValuePair
entry = record { value = new_value RedisType.string; mod_count = 1; expiry_time = pos 0 }

-- Another key is set.
abbrev two_entries : DataStore
two_entries = set (codes "l") (new_value RedisType.list) one_entry

one_entry-Runs : Runs new_store one_entry
one_entry-Runs =
    followed here (unfold new_store in omega arith) (sets (codes "k") (new_value RedisType.string))

two_entries-Runs : Runs one_entry two_entries
two_entries-Runs =
    followed here (unfold set write new_store in omega arith)
      (sets (codes "l") (new_value RedisType.list))

entry-there : find (codes "k") one_entry.entries ≡ some entry
unfolding find set write put new_store equal
entry-there = refl

entry-counted : get_mod_count (codes "k") two_entries ≡ 1
unfolding get_mod_count find set write put new_store equal
entry-counted = refl

get_mod_count-same_example :
    IsVersioned two_entries × (find (codes "k") two_entries.entries ≡ some entry)
get_mod_count-same_example =
    get_mod_count-same one_entry two_entries (codes "k") entry
      (Runs-IsVersioned new_store one_entry one_entry-Runs new_store-IsVersioned) two_entries-Runs
      entry-there entry-counted
