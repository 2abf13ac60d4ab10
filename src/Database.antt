-- ===== src/Database.antt =====
-- db.cpp, class Database: the map from keys to values, with the string, generic, expiration and
-- WATCH operations. The operations on the other types are in the modules below. An operation that
-- changes the map returns the new map before its result; `now` is the clock's reading.
pub mod TextFile
pub mod Lists
pub mod Sets
pub mod Hashes
pub mod SortedSets
pub mod Strings
pub mod Lifetime
pub mod Step
pub mod Change
pub mod WellFormed
use minimum_redis.Base.{
  ℕ, ◌+◌, ◌%◌, ◌^◌, Bool, true, false, Option, none, some, List, [], Bytes, if◌then◌else◌,
}
use minimum_redis.Base.Int.{ℤ, negsuc}
use minimum_redis.Dict.{Dict, find, put, erase, has, keys_of}
use minimum_redis.Value.{
  RedisType, RedisValue, new_value, same_type, is_expired, set_expiry_seconds,
  set_expiry_milliseconds, ttl_seconds, ttl_milliseconds,
}
use minimum_redis.Value

-- The field `data`.
abbrev pub Keyspace : Type 0
Keyspace = Dict RedisValue

-- `data[key]`: a missing key is there with a default value.
abbrev pub or_new : Option RedisValue → RedisValue
or_new none = new_value RedisType.string
or_new (some v) = v

unfoldable pub at_key : Bytes → Keyspace → RedisValue
unfolding find
at_key key d = or_new (find key d)

unfoldable pub set : Bytes → Bytes → Keyspace → Keyspace × Bool
unfolding at_key put
set key value d =
    (put key (record (at_key key d) { type = RedisType.string; str_val = value }) d, true)

-- What an operation does with the value that it found.
abbrev pub get_found : ℤ → Bytes → Keyspace → Option RedisValue → Keyspace × Bytes
get_found now key d none = (d, [])
get_found now key d (some v) =
    if same_type v.type RedisType.string
    then if is_expired now v then (erase key d, []) else (d, v.str_val)
    else (d, [])

unfoldable pub get : ℤ → Bytes → Keyspace → Keyspace × Bytes
unfolding find erase
get now key d = get_found now key d (find key d)

unfoldable pub del : Bytes → Keyspace → Keyspace × Bool
unfolding erase has
del key d = (erase key d, has key d)

abbrev pub exists_found : ℤ → Bytes → Keyspace → Option RedisValue → Keyspace × Bool
exists_found now key d none = (d, false)
exists_found now key d (some v) = if is_expired now v then (erase key d, false) else (d, true)

unfoldable pub exists : ℤ → Bytes → Keyspace → Keyspace × Bool
unfolding find erase
exists now key d = exists_found now key d (find key d)

abbrev pub type_found : ℤ → Bytes → Keyspace → Option RedisValue → Keyspace × RedisType
type_found now key d none = (d, RedisType.string)
type_found now key d (some v) =
    if is_expired now v then (erase key d, RedisType.string) else (d, v.type)

unfoldable pub type : ℤ → Bytes → Keyspace → Keyspace × RedisType
unfolding find erase
type now key d = type_found now key d (find key d)

unfoldable pub keys : Keyspace → List Bytes
keys d = keys_of d

-- The common shape of `expire`, `pexpire` and `persist`: an expired key is dropped, and a live one
-- gets the new value.
abbrev pub change_found :
    ℤ → Bytes → (RedisValue → RedisValue) → Keyspace → Option RedisValue → Keyspace × Bool
change_found now key f d none = (d, false)
change_found now key f d (some v) =
    if is_expired now v then (erase key d, false) else (put key (f v) d, true)

-- `now` is read for the test, `later` for the new expiry.
unfoldable pub expire : ℤ → ℤ → Bytes → ℤ → Keyspace → Keyspace × Bool
unfolding find erase put
expire now later key seconds d =
    change_found now key (set_expiry_seconds later seconds) d (find key d)

unfoldable pub pexpire : ℤ → ℤ → Bytes → ℤ → Keyspace → Keyspace × Bool
unfolding find erase put
pexpire now later key milliseconds d =
    change_found now key (set_expiry_milliseconds later milliseconds) d (find key d)

unfoldable pub persist : ℤ → Bytes → Keyspace → Keyspace × Bool
unfolding find erase put
persist now key d = change_found now key Value.persist d (find key d)

abbrev pub ttl_found : ℤ → Bytes → (RedisValue → ℤ) → Keyspace → Option RedisValue → Keyspace × ℤ
ttl_found now key f d none = (d, negsuc 1)
ttl_found now key f d (some v) = if is_expired now v then (erase key d, negsuc 1) else (d, f v)

-- `now` is read by `is_expired`, `later` by `ttl_seconds`.
unfoldable pub ttl : ℤ → ℤ → Bytes → Keyspace → Keyspace × ℤ
unfolding find erase
ttl now later key d = ttl_found now key (ttl_seconds later) d (find key d)

unfoldable pub pttl : ℤ → ℤ → Bytes → Keyspace → Keyspace × ℤ
unfolding find erase
pttl now later key d = ttl_found now key (ttl_milliseconds later) d (find key d)

abbrev pub mod_count_of : Option RedisValue → ℕ
mod_count_of none = 0
mod_count_of (some v) = v.mod_count

unfoldable pub get_mod_count : Bytes → Keyspace → ℕ
unfolding find
get_mod_count key d = mod_count_of (find key d)

-- A missing key is made, as a string. The counter is a `uint64_t`.
abbrev pub incremented : Option RedisValue → RedisValue
incremented none = record (new_value RedisType.string) { mod_count = 1 }
incremented (some v) = record v { mod_count = (v.mod_count + 1) % 2 ^ 64 }

unfoldable pub increment_mod_count : Bytes → Keyspace → Keyspace
unfolding find put
increment_mod_count key d = put key (incremented (find key d)) d
