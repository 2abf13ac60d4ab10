-- ===== src/Database/Hashes.antt =====
-- db.cpp, class Database: the hash operations.
use minimum_redis.Base.{
  ℕ, Bool, true, false, Option, none, some, List, [], ◌∷◌, Bytes, length, ltb, if◌then◌else◌,
}
use minimum_redis.Dict.{Dict, find, put, erase, keys_of, values_of}
use minimum_redis.Value.{RedisType, RedisValue, same_type}
use minimum_redis.Database.{Keyspace, at_key}

unfoldable pub hset : Bytes → Bytes → Bytes → Keyspace → Keyspace × Bool
unfolding at_key put
hset key field value d =
    let v = at_key key d in
    (put key (record v { type = RedisType.hash; hash_val = put field value v.hash_val }) d, true)

-- The hash of a key of type hash.
abbrev pub hash_of : Option RedisValue → Option (Dict Bytes)
hash_of none = none
hash_of (some v) = if same_type v.type RedisType.hash then some v.hash_val else none

unfoldable pub hash_at : Bytes → Keyspace → Option (Dict Bytes)
unfolding find
hash_at key d = hash_of (find key d)

abbrev pub or_nothing : Option Bytes → Bytes
or_nothing none = []
or_nothing (some value) = value

abbrev pub hget_found : Bytes → Option (Dict Bytes) → Bytes
hget_found field none = []
hget_found field (some h) = or_nothing (find field h)

unfoldable pub hget : Bytes → Bytes → Keyspace → Bytes
unfolding hash_at find
hget key field d = hget_found field (hash_at key d)

unfoldable pub erase_all : List Bytes → Dict Bytes → Dict Bytes
unfolding erase
erase_all [] h = h
erase_all (f ∷ fs) h = erase_all fs (erase f h)

abbrev pub hdel_found : Bytes → List Bytes → Keyspace → Option (Dict Bytes) → Keyspace × Bool
hdel_found key fields d none = (d, false)
hdel_found key fields d (some h) =
    let after = erase_all fields h in
    (put key (record (at_key key d) { hash_val = after }) d, ltb (length after) (length h))

unfoldable pub hdel : Bytes → List Bytes → Keyspace → Keyspace × Bool
unfolding hash_at put at_key erase_all
hdel key fields d = hdel_found key fields d (hash_at key d)

abbrev pub or_empty : Option (Dict Bytes) → Dict Bytes
or_empty none = []
or_empty (some h) = h

unfoldable pub hgetall : Bytes → Keyspace → Dict Bytes
unfolding hash_at
hgetall key d = or_empty (hash_at key d)

unfoldable pub hlen : Bytes → Keyspace → ℕ
unfolding hash_at
hlen key d = length (or_empty (hash_at key d))

unfoldable pub hkeys : Bytes → Keyspace → List Bytes
unfolding hash_at
hkeys key d = keys_of (or_empty (hash_at key d))

unfoldable pub hvals : Bytes → Keyspace → List Bytes
unfolding hash_at
hvals key d = values_of (or_empty (hash_at key d))
