-- ===== src/Tests/Containers.antt =====
-- The list and set operations of db.cpp, at concrete maps.
use minimum_redis.Base.{
  ◌+◌, none, [], ◌∷◌, Bytes, codes, equal, length, get_elem?, if◌then◌else◌, ◌≡◌, refl, arith,
}
use minimum_redis.Base.Int.{pos, negsuc, leb_ℤ}
use minimum_redis.Dict.{find, contains}
use minimum_redis.Value.{RedisType, new_value}
use minimum_redis.Database.{Keyspace}
use minimum_redis.Database.Lists.{lrange}
use minimum_redis.Database.Lists.Range.{position, first_of, items, lrange-position}
use minimum_redis.Database.Sets.{sinter}
use minimum_redis.Database.Sets.Algebra.{contains-sinter, in_all}

abbrev a : Bytes
a = codes "a"

abbrev b : Bytes
b = codes "b"

abbrev c : Bytes
c = codes "c"

-- A list and two sets.
abbrev three_keys : Keyspace
three_keys =
    (a, record (new_value RedisType.list) { list_val = a ∷ b ∷ c ∷ [] })
    ∷ (b, record (new_value RedisType.set) { set_val = a ∷ b ∷ [] })
    ∷ (c, record (new_value RedisType.set) { set_val = b ∷ c ∷ [] })
    ∷ []

short : length (items a three_keys) ≡ 3
unfolding find equal
short = refl

lrange-position_example : get_elem? (lrange a (negsuc 1) (pos 9) three_keys) 1 ≡ (
    if leb_ℤ
      (pos (first_of (length (items a three_keys)) (negsuc 1) + 1))
      (position (length (items a three_keys)) (pos 9))
    then get_elem? (items a three_keys) (first_of (length (items a three_keys)) (negsuc 1) + 1)
    else none)
lrange-position_example =
    lrange-position a (negsuc 1) (pos 9) three_keys 1 (omega (arith, short))
      (omega arith, omega arith) (omega arith, omega arith)

contains-sinter_example :
    contains b (sinter (b ∷ c ∷ []) three_keys) ≡ in_all b three_keys (b ∷ c ∷ [])
contains-sinter_example = contains-sinter b b (c ∷ []) three_keys
