-- ===== src/Database/Sets.antt =====
-- db.cpp, class Database: the set operations.
pub mod Algebra
use minimum_redis.Base.{
  ℕ, ◌-◌, Bool, true, false, Option, none, some, List, [], ◌∷◌, Bytes, length, if◌then◌else◌,
}
use minimum_redis.Dict.{find, put, contains, insert, remove, insert_all, remove_all}
use minimum_redis.Value.{RedisType, RedisValue, same_type}
use minimum_redis.Database.{Keyspace, at_key}

unfoldable pub sadd : Bytes → List Bytes → Keyspace → Keyspace × ℕ
unfolding at_key put insert_all
sadd key members d =
    let v = at_key key d in
    let after = insert_all members v.set_val in
    (
      put key (record v { type = RedisType.set; set_val = after }) d,
      length after - length v.set_val,
    )

-- The set of a key of type set.
abbrev pub set_of : Option RedisValue → Option (List Bytes)
set_of none = none
set_of (some v) = if same_type v.type RedisType.set then some v.set_val else none

unfoldable pub set_at : Bytes → Keyspace → Option (List Bytes)
unfolding find
set_at key d = set_of (find key d)

abbrev pub srem_found : Bytes → List Bytes → Keyspace → Option (List Bytes) → Keyspace × ℕ
srem_found key members d none = (d, 0)
srem_found key members d (some s) =
    let after = remove_all members s in
    (put key (record (at_key key d) { set_val = after }) d, length s - length after)

unfoldable pub srem : Bytes → List Bytes → Keyspace → Keyspace × ℕ
unfolding set_at put at_key remove_all
srem key members d = srem_found key members d (set_at key d)

abbrev pub member_of : Bytes → Option (List Bytes) → Bool
member_of member none = false
member_of member (some s) = contains member s

unfoldable pub sismember : Bytes → Bytes → Keyspace → Bool
unfolding set_at contains
sismember key member d = member_of member (set_at key d)

abbrev pub or_empty : Option (List Bytes) → List Bytes
or_empty none = []
or_empty (some s) = s

unfoldable pub scard : Bytes → Keyspace → ℕ
unfolding set_at
scard key d = length (or_empty (set_at key d))

unfoldable pub smembers : Bytes → Keyspace → List Bytes
unfolding set_at
smembers key d = or_empty (set_at key d)

-- The elements of `result` that are in the other set, in their order.
unfoldable pub intersection : List Bytes → List Bytes → List Bytes
unfolding contains
intersection [] set2 = []
intersection (e ∷ result) set2 =
    if contains e set2 then e ∷ intersection result set2 else intersection result set2

-- The loop over the remaining keys; a key that holds no set ends it with nothing.
abbrev pub intersect_found :
    (List Bytes → List Bytes) → List Bytes → Option (List Bytes) → List Bytes
intersect_found go result none = []
intersect_found go result (some s) = go (intersection result s)

unfoldable pub sinter_rest : List Bytes → Keyspace → List Bytes → List Bytes
unfolding set_at intersection
sinter_rest [] d result = result
sinter_rest (k ∷ ks) d result = intersect_found (λ r. sinter_rest ks d r) result (set_at k d)

abbrev pub sinter_found : List Bytes → Keyspace → Option (List Bytes) → List Bytes
sinter_found ks d none = []
sinter_found ks d (some s) = sinter_rest ks d s

unfoldable pub sinter : List Bytes → Keyspace → List Bytes
unfolding set_at sinter_rest
sinter [] d = []
sinter (k ∷ ks) d = sinter_found ks d (set_at k d)

unfoldable pub sunion_from : List Bytes → Keyspace → List Bytes → List Bytes
unfolding set_at insert_all
sunion_from [] d union_set = union_set
sunion_from (k ∷ ks) d union_set = sunion_from ks d (insert_all (or_empty (set_at k d)) union_set)

unfoldable pub sunion : List Bytes → Keyspace → List Bytes
unfolding sunion_from
sunion keys d = sunion_from keys d []

unfoldable pub sdiff_rest : List Bytes → Keyspace → List Bytes → List Bytes
unfolding set_at remove_all
sdiff_rest [] d diff_set = diff_set
sdiff_rest (k ∷ ks) d diff_set = sdiff_rest ks d (remove_all (or_empty (set_at k d)) diff_set)

abbrev pub sdiff_found : List Bytes → Keyspace → Option (List Bytes) → List Bytes
sdiff_found ks d none = []
sdiff_found ks d (some s) = sdiff_rest ks d s

unfoldable pub sdiff : List Bytes → Keyspace → List Bytes
unfolding set_at sdiff_rest
sdiff [] d = []
sdiff (k ∷ ks) d = sdiff_found ks d (set_at k d)
