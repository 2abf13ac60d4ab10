-- ===== src/Tests/Keys.antt =====
-- The operations of db.cpp on keys and their expiry, at concrete maps.
use minimum_redis.Base.{ℕ, List, [], ◌∷◌, Bytes, codes, equal, if◌then◌else◌, ◌≡◌, refl, arith}
use minimum_redis.Base.Int.{◌+ℤ◌, ◌-ℤ◌, scale, pos}
use minimum_redis.Dict.{find}
use minimum_redis.Double.{one, is_nan}
use minimum_redis.Value.{RedisType, RedisValue, new_value, is_expired}
use minimum_redis.Database
use minimum_redis.Database.{Keyspace, at_key}
use minimum_redis.Database.Step.{Step, here, next}
use minimum_redis.Database.Lists
use minimum_redis.Database.SortedSets
use minimum_redis.Database.WellFormed.{
  IsWellFormed, Reach-IsWellFormed, Step-frame, empty-IsWellFormed,
}
use minimum_redis.Database.Strings.{get-set}
use minimum_redis.Database.Lifetime.{IsLive, Lives, expire-Lives}

abbrev k : Bytes
k = codes "k"

abbrev j : Bytes
j = codes "j"

-- A string that expires at 5000.
abbrev dying : RedisValue
dying = record (new_value RedisType.string) { expiry_time = pos 5000; str_val = codes "v" }

abbrev two_keys : Keyspace
two_keys = (j, new_value RedisType.list) ∷ (k, dying) ∷ []

abbrev scores : List (ℕ × Bytes)
scores = (one, codes "a") ∷ (0, codes "b") ∷ (0, codes "a") ∷ []

Reach-IsWellFormed_example :
    IsWellFormed (SortedSets.zrem k (codes "b" ∷ []) (SortedSets.zadd k scores []).0).0
Reach-IsWellFormed_example =
    Reach-IsWellFormed
      (next k (next k here (Step.zadd scores (unfold is_nan in (refl, (refl, (refl, tt))))))
        (Step.zrem (codes "b" ∷ [])))
      empty-IsWellFormed

Step-frame_example : find k (Lists.lpush j (codes "x" ∷ []) two_keys).0 ≡ find k two_keys
Step-frame_example =
    Step-frame j k two_keys (Lists.lpush j (codes "x" ∷ []) two_keys).0
      (Step.lpush (codes "x" ∷ [])) (unfold equal in refl)

get-set_example :
    (Database.get (pos 6000) k (Database.set k (codes "w") two_keys).0).1
    ≡ (if is_expired (pos 6000) (at_key k two_keys) then [] else codes "w")
get-set_example = get-set (pos 6000) k (codes "w") two_keys

k-IsLive : IsLive (pos 4000) k two_keys
k-IsLive = record {
  value = dying;
  found = unfold find equal in refl;
  live = unfold is_expired in refl;
}

expire-Lives_example :
    Lives
      (pos 5000 +ℤ scale 1000 (pos 3))
      k
      (Database.expire (pos 4000) (pos 5000) k (pos 3) two_keys).0
      (pos 6500)
      (pos 6800)
expire-Lives_example =
    expire-Lives (pos 4000) (pos 5000) (pos 3) (pos 6500) (pos 6800) k two_keys k-IsLive
      (unfold scale in (omega arith, omega arith)) (unfold scale ◌+ℤ◌ in (omega arith, omega arith))
      (unfold scale ◌+ℤ◌ in refl) (unfold scale ◌+ℤ◌ ◌-ℤ◌ in (omega arith, omega arith))
