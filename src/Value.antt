-- ===== src/Value.antt =====
-- redis_value.h: a value with its type, its expiry and one container for each type. A change of
-- type leaves the other containers as they are, as in the source. The clock is an argument: the
-- milliseconds since the epoch.
pub mod Expiry
use minimum_redis.Base.{
  length, ℕ, ◌+◌, ◌/◌, ◌%◌, ◌^◌, Bool, true, false, List, [], ◌∷◌, Bytes, length, if◌then◌else◌,
}
use minimum_redis.Base.Int.{
  ℤ, pos, negsuc, pos_part, neg_part, ◌+ℤ◌, ◌-ℤ◌, leb_ℤ, eq_ℤ, wrap_64, scale,
}
use minimum_redis.Dict.{Dict}
use minimum_redis.Double.{Double}

pub data RedisType : Type 0 where
  string list set hash zset : RedisType

-- `==` on the enum
abbrev pub same_type : RedisType → RedisType → Bool
same_type RedisType.string RedisType.string = true
same_type RedisType.list RedisType.list = true
same_type RedisType.set RedisType.set = true
same_type RedisType.hash RedisType.hash = true
same_type RedisType.zset RedisType.zset = true
same_type _ _ = false

pub record RedisValue : Type 0 where
  pub type : RedisType
  pub expiry_time : ℤ
  pub mod_count : ℕ
  pub str_val : Bytes
  pub list_val : List Bytes
  pub set_val : List Bytes
  pub hash_val : Dict Bytes
  pub zset_score_to_member : List (Double × Bytes)
  pub zset_member_to_score : Dict Double

-- `RedisValue(t)`
abbrev pub new_value : RedisType → RedisValue
new_value t = record {
  type = t;
  expiry_time = pos 0;
  mod_count = 0;
  str_val = [];
  list_val = [];
  set_val = [];
  hash_val = [];
  zset_score_to_member = [];
  zset_member_to_score = [];
}

unfoldable pub is_expired : ℤ → RedisValue → Bool
is_expired now v = if eq_ℤ v.expiry_time (pos 0) then false else leb_ℤ v.expiry_time now

unfoldable pub set_expiry_seconds : ℤ → ℤ → RedisValue → RedisValue
set_expiry_seconds now seconds v = record v {
  expiry_time = wrap_64 (now +ℤ wrap_64 (scale 1000 seconds));
}

unfoldable pub set_expiry_milliseconds : ℤ → ℤ → RedisValue → RedisValue
set_expiry_milliseconds now milliseconds v = record v {
  expiry_time = wrap_64 (now +ℤ milliseconds);
}

-- `/ 1000`, which rounds towards zero.
abbrev pub thousandth : ℤ → ℤ
thousandth (pos n) = pos (n / 1000)
thousandth (negsuc n) = pos 0 -ℤ pos ((n + 1) / 1000)

unfoldable pub ttl_seconds : ℤ → RedisValue → ℤ
ttl_seconds now v =
    if eq_ℤ v.expiry_time (pos 0)
    then negsuc 0
    else if leb_ℤ v.expiry_time now
    then negsuc 1
    else thousandth (wrap_64 (v.expiry_time -ℤ now))

unfoldable pub ttl_milliseconds : ℤ → RedisValue → ℤ
ttl_milliseconds now v =
    if eq_ℤ v.expiry_time (pos 0)
    then negsuc 0
    else if leb_ℤ v.expiry_time now
    then negsuc 1
    else wrap_64 (v.expiry_time -ℤ now)

unfoldable pub persist : RedisValue → RedisValue
persist v = record v { expiry_time = pos 0 }

unfoldable pub set_expiry : ℤ → RedisValue → RedisValue
set_expiry timestamp_ms v = record v { expiry_time = timestamp_ms }

unfoldable pub clear : RedisValue → RedisValue
clear v = record v {
  str_val = [];
  list_val = [];
  set_val = [];
  hash_val = [];
  zset_score_to_member = [];
  zset_member_to_score = [];
}

unfoldable pub size : RedisValue → ℕ
size v = elim v.type [
  | RedisType.string ↦ length v.str_val
  | RedisType.list ↦ length v.list_val
  | RedisType.set ↦ length v.set_val
  | RedisType.hash ↦ length v.hash_val
  | RedisType.zset ↦ length v.zset_member_to_score
]
