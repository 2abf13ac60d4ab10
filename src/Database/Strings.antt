-- ===== src/Database/Strings.antt =====
-- db.cpp and redis_value.h: SET and GET, and how long a key lives.
use minimum_redis.Base.{[], Bytes, if◌then◌else◌, ◌≡◌, refl, arith}
use minimum_redis.Base.Int.{ℤ}
use minimum_redis.Dict.Laws.{find-put_self}
use minimum_redis.Value.{RedisType, RedisValue, is_expired}
use minimum_redis.Database.{Keyspace, at_key, set, get}

is_expired-set :
    (now : ℤ) (v : RedisValue) (value : Bytes)
    → is_expired now (record v { type = RedisType.string; str_val = value }) ≡ is_expired now v
unfolding is_expired
is_expired-set now v value = refl

-- GET after SET, at any time: the value that was set, unless the key had an expiry before the SET
-- which has passed by the time of the GET; SET keeps the old expiry, so then GET finds nothing.
pub get-set :
    (now : ℤ) (key value : Bytes) (d : Keyspace)
    → (get now key (set key value d).0).1 ≡ (if is_expired now (at_key key d) then [] else value)
unfolding get set
get-set now key value d =
    rw find-put_self (rw (is_expired-set now (at_key key d) value) (ground arith))
