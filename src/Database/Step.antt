-- ===== src/Database/Step.antt =====
-- The operations of db.cpp that change the map, as one step relation: any sequence of them, with
-- any clock readings, is a path of steps.
use minimum_redis.Base.{List, Bytes}
use minimum_redis.Base.Int.{ℤ}
use minimum_redis.Double.{Double}
use minimum_redis.Database
use minimum_redis.Database.{Keyspace}
use minimum_redis.Database.Lists
use minimum_redis.Database.Sets
use minimum_redis.Database.Hashes
use minimum_redis.Database.SortedSets
use minimum_redis.Database.SortedSets.Consistent.{AllScores}

-- `Step key d e`: one operation on `key` takes the map `d` to `e`. No score is a NaN.
pub data Step (key : Bytes) (d : Keyspace) : Keyspace → Type 0 where
  set : (value : Bytes) → Step key d (Database.set key value d).0
  get : (now : ℤ) → Step key d (Database.get now key d).0
  del : Step key d (Database.del key d).0
  exists : (now : ℤ) → Step key d (Database.exists now key d).0
  type : (now : ℤ) → Step key d (Database.type now key d).0
  expire : (now later seconds : ℤ) → Step key d (Database.expire now later key seconds d).0
  pexpire :
      (now later milliseconds : ℤ) → Step key d (Database.pexpire now later key milliseconds d).0
  persist : (now : ℤ) → Step key d (Database.persist now key d).0
  ttl : (now later : ℤ) → Step key d (Database.ttl now later key d).0
  pttl : (now later : ℤ) → Step key d (Database.pttl now later key d).0
  increment_mod_count : Step key d (Database.increment_mod_count key d)
  lpush : (values : List Bytes) → Step key d (Lists.lpush key values d).0
  rpush : (values : List Bytes) → Step key d (Lists.rpush key values d).0
  lpop : Step key d (Lists.lpop key d).0
  rpop : Step key d (Lists.rpop key d).0
  llen : (now : ℤ) → Step key d (Lists.llen now key d).0
  sadd : (members : List Bytes) → Step key d (Sets.sadd key members d).0
  srem : (members : List Bytes) → Step key d (Sets.srem key members d).0
  hset : (field value : Bytes) → Step key d (Hashes.hset key field value d).0
  hdel : (fields : List Bytes) → Step key d (Hashes.hdel key fields d).0
  zadd :
      (members : List (Double × Bytes))
      → AllScores members
      → Step key d (SortedSets.zadd key members d).0
  zrem : (members : List Bytes) → Step key d (SortedSets.zrem key members d).0

pub data Reach (d : Keyspace) : Keyspace → Type 0 where
  here : Reach d d
  next : {e f : Keyspace} (key : Bytes) → Reach d e → Step key e f → Reach d f

pub Reach-trans : {d e f : Keyspace} → Reach d e → Reach e f → Reach d f
Reach-trans r here = r
Reach-trans r (next key s step) = next key (Reach-trans r s) step
