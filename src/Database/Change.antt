-- ===== src/Database/Change.antt =====
-- db.cpp: each operation drops its key, or writes a value to it, or changes nothing.
use minimum_redis.Base.{
  ℕ, Bool, true, false, Option, none, some, List, [], ◌∷◌, Bytes, if◌then◌else◌, ◌≡◌, refl, arith,
}
use minimum_redis.Base.Int.{ℤ}
use minimum_redis.Dict.{Dict, find, put, erase, Unique, Distinct}
use minimum_redis.Dict.Laws.{erase-Unique}
use minimum_redis.Dict.Members.{insert_all-Distinct, remove_all-Distinct}
use minimum_redis.Value.{
  RedisType, RedisValue, new_value, same_type, is_expired, set_expiry_seconds,
  set_expiry_milliseconds,
}
use minimum_redis.Value
use minimum_redis.Dict.Laws.{put-Unique}
use minimum_redis.Database.{
  Keyspace, at_key, or_new, get_found, exists_found, type_found, change_found, ttl_found,
  incremented,
}
use minimum_redis.Database
use minimum_redis.Database.Lists
use minimum_redis.Database.Lists.{list_of, lpop_found, rpop_found, llen_found}
use minimum_redis.Database.Sets
use minimum_redis.Database.Hashes
use minimum_redis.Database.SortedSets
use minimum_redis.Database.Hashes.{erase_all, hash_of, hdel_found}
use minimum_redis.Database.Sets.{set_of, srem_found}
use minimum_redis.Database.SortedSets.{Zset, zset_in, zset_of, zadd_all, zrem_all, zrem_in}
use minimum_redis.Database.SortedSets.Consistent.{
  IsConsistent, zadd_all-IsConsistent, zrem_all-IsConsistent,
}
use minimum_redis.Database.Step.{Step}

-- The containers of a value: no member and no field stands twice, and the two maps of the sorted
-- set agree.
pub record IsSound (v : RedisValue) : Type 0 where
  pub members_once : Distinct v.set_val
  pub fields_once : Unique v.hash_val
  pub zset_agrees : IsConsistent (zset_in v)

-- What an operation on `key` may do to the map; a value that it writes is sound if the old one is.
pub data Change (key : Bytes) (d : Keyspace) : Keyspace → Type 0 where
  same : Change key d d
  dropped : Change key d (erase key d)
  written :
      (v : RedisValue) → (IsSound (or_new (find key d)) → IsSound v) → Change key d (put key v d)

module _ {ℓ} {A : Type ℓ} (key : Bytes) (d : Keyspace) where
  Change-if :
      (b : Bool) (x y : Keyspace × A)
      → Change key d x.0
      → Change key d y.0
      → Change key d (if b then x else y).0
  Change-if true x y h k = h
  Change-if false x y h k = k

module _ (key : Bytes) (d : Keyspace) where
  -- The operations that test for expiry.
  change_found-Change :
      (now : ℤ) (f : RedisValue → RedisValue) (o : Option RedisValue)
      → find key d ≡ o
      → ((v : RedisValue) → IsSound v → IsSound (f v))
      → Change key d (change_found now key f d o).0
  change_found-Change now f none e keeps = same
  change_found-Change now f (some v) e keeps =
      Change-if key d (is_expired now v) (erase key d, false) (put key (f v) d, true) dropped
        (written (f v) (λ s. keeps v (rw e at s)))

  exists_found-Change :
      (now : ℤ) (o : Option RedisValue) → Change key d (exists_found now key d o).0
  exists_found-Change now none = same
  exists_found-Change now (some v) =
      Change-if key d (is_expired now v) (erase key d, false) (d, true) dropped same

  type_found-Change : (now : ℤ) (o : Option RedisValue) → Change key d (type_found now key d o).0
  type_found-Change now none = same
  type_found-Change now (some v) =
      Change-if key d (is_expired now v) (erase key d, RedisType.string) (d, v.type) dropped same

  get_found-Change : (now : ℤ) (o : Option RedisValue) → Change key d (get_found now key d o).0
  get_found-Change now none = same
  get_found-Change now (some v) =
      Change-if key d (same_type v.type RedisType.string) _ (d, [])
        (Change-if key d (is_expired now v) (erase key d, []) (d, v.str_val) dropped same) same

  ttl_found-Change :
      (now : ℤ) (f : RedisValue → ℤ) (o : Option RedisValue)
      → Change key d (ttl_found now key f d o).0
  ttl_found-Change now f none = same
  ttl_found-Change now f (some v) =
      Change-if key d (is_expired now v) (erase key d, _) (d, f v) dropped same

  llen_found-Change : (now : ℤ) (o : Option RedisValue) → Change key d (llen_found now key d o).0
  llen_found-Change now none = same
  llen_found-Change now (some v) =
      Change-if key d (same_type v.type RedisType.list) _ (d, 0)
        (Change-if key d (is_expired now v) (erase key d, 0) (d, _) dropped same) same

-- A value with the same set, hash and sorted set is as sound.
module _ {v : RedisValue} (s : IsSound v) where
  with_string : (t : RedisType) (x : Bytes) → IsSound (record v { type = t; str_val = x })
  with_string t x = record {
    members_once = s.members_once;
    fields_once = s.fields_once;
    zset_agrees = s.zset_agrees;
  }

  with_list : (t : RedisType) (xs : List Bytes) → IsSound (record v { type = t; list_val = xs })
  with_list t xs = record {
    members_once = s.members_once;
    fields_once = s.fields_once;
    zset_agrees = s.zset_agrees;
  }

  with_set :
      (t : RedisType) (xs : List Bytes)
      → Distinct xs
      → IsSound (record v { type = t; set_val = xs })
  with_set t xs h = record {
    members_once = h;
    fields_once = s.fields_once;
    zset_agrees = s.zset_agrees;
  }

  with_hash :
      (t : RedisType) (h : Dict Bytes) → Unique h → IsSound (record v { type = t; hash_val = h })
  with_hash t h u = record {
    members_once = s.members_once;
    fields_once = u;
    zset_agrees = s.zset_agrees;
  }

  with_sorted :
      (t : RedisType) (z : Zset)
      → IsConsistent z
      → IsSound (SortedSets.with_zset z (record v { type = t }))
  with_sorted t z c = record {
    members_once = s.members_once;
    fields_once = s.fields_once;
    zset_agrees = record { agree = c.agree; sorted = c.sorted; numbers = c.numbers };
  }

  with_expiry : (t : ℤ) → IsSound (record v { expiry_time = t })
  with_expiry t = record {
    members_once = s.members_once;
    fields_once = s.fields_once;
    zset_agrees = s.zset_agrees;
  }

  with_count : (n : ℕ) → IsSound (record v { mod_count = n })
  with_count n = record {
    members_once = s.members_once;
    fields_once = s.fields_once;
    zset_agrees = s.zset_agrees;
  }

incremented-IsSound : (o : Option RedisValue) → IsSound (or_new o) → IsSound (incremented o)
incremented-IsSound none s = with_count s 1
incremented-IsSound (some v) s = with_count s _

set_of-Distinct :
    (o : Option RedisValue) {xs : List Bytes}
    → set_of o ≡ some xs
    → IsSound (or_new o)
    → Distinct xs
set_of-Distinct none e s = cc
set_of-Distinct (some v) {xs} e s =
    let same_set : v.set_val ≡ xs = ground arith in rw (← same_set) s.members_once

hash_of-Unique :
    (o : Option RedisValue) {h : Dict Bytes} → hash_of o ≡ some h → IsSound (or_new o) → Unique h
hash_of-Unique none e s = cc
hash_of-Unique (some v) {h} e s =
    let same_hash : v.hash_val ≡ h = ground arith in rw (← same_hash) s.fields_once

zset_of-IsConsistent :
    (o : Option RedisValue) {z : Zset} → zset_of o ≡ some z → IsSound (or_new o) → IsConsistent z
zset_of-IsConsistent none e s = cc
zset_of-IsConsistent (some v) {z} e s =
    let same_zset : zset_in v ≡ z = ground arith in rw (← same_zset) s.zset_agrees

pub erase_all-Unique :
    (fields : List Bytes) (h : Dict Bytes) → Unique h → Unique (erase_all fields h)
unfolding erase_all
erase_all-Unique [] h u = u
erase_all-Unique (f ∷ fs) h u = erase_all-Unique fs (erase f h) (erase-Unique f h u)

module _ (key : Bytes) (d : Keyspace) where
  lpop_found-Change : (o : Option (List Bytes)) → Change key d (lpop_found key d o).0
  lpop_found-Change none = same
  lpop_found-Change (some []) = same
  lpop_found-Change (some (x ∷ xs)) = unfold at_key in written _ (λ s. with_list s _ xs)

  rpop_found-Change : (o : Option (List Bytes)) → Change key d (rpop_found key d o).0
  rpop_found-Change none = same
  rpop_found-Change (some []) = same
  rpop_found-Change (some (x ∷ xs)) = unfold at_key in written _ (λ s. with_list s _ _)

  srem_found-Change :
      (members : List Bytes) (o : Option (List Bytes))
      → set_of (find key d) ≡ o
      → Change key d (srem_found key members d o).0
  srem_found-Change members none e = same
  srem_found-Change members (some xs) e =
      unfold at_key in
      written _ (λ s. with_set s _ _ (remove_all-Distinct members xs (set_of-Distinct _ e s)))

  hdel_found-Change :
      (fields : List Bytes) (o : Option (Dict Bytes))
      → hash_of (find key d) ≡ o
      → Change key d (hdel_found key fields d o).0
  hdel_found-Change fields none e = same
  hdel_found-Change fields (some h) e =
      unfold at_key in
      written _ (λ s. with_hash s _ _ (erase_all-Unique fields h (hash_of-Unique _ e s)))

  zrem_in-Change :
      (members : List Bytes) (o : Option Zset)
      → zset_of (find key d) ≡ o
      → Change key d (zrem_in key members d o).0
  zrem_in-Change members none e = same
  zrem_in-Change members (some z) e =
      unfold at_key in
      written _ (λ s.
        with_sorted s _ _ (zrem_all-IsConsistent members z false (zset_of-IsConsistent _ e s)))

pub Step-Change : (key : Bytes) (d : Keyspace) {e : Keyspace} → Step key d e → Change key d e
Step-Change key d (Step.set value) =
    unfold Database.set at_key in written _ (λ s. with_string s _ value)
Step-Change key d (Step.get now) = unfold Database.get in get_found-Change key d now (find key d)
Step-Change key d Step.del = unfold Database.del in dropped
Step-Change key d (Step.exists now) =
    unfold Database.exists in exists_found-Change key d now (find key d)
Step-Change key d (Step.type now) = unfold Database.type in type_found-Change key d now (find key d)
Step-Change key d (Step.expire now later seconds) =
    unfold Database.expire set_expiry_seconds in
    change_found-Change key d now _ (find key d) refl (λ v s. with_expiry s _)
Step-Change key d (Step.pexpire now later milliseconds) =
    unfold Database.pexpire set_expiry_milliseconds in
    change_found-Change key d now _ (find key d) refl (λ v s. with_expiry s _)
Step-Change key d (Step.persist now) =
    unfold Database.persist Value.persist in
    change_found-Change key d now _ (find key d) refl (λ v s. with_expiry s _)
Step-Change key d (Step.ttl now later) =
    unfold Database.ttl in ttl_found-Change key d now _ (find key d)
Step-Change key d (Step.pttl now later) =
    unfold Database.pttl in ttl_found-Change key d now _ (find key d)
Step-Change key d Step.increment_mod_count =
    unfold Database.increment_mod_count in written _ (incremented-IsSound (find key d))
Step-Change key d (Step.lpush values) =
    unfold Lists.lpush at_key in written _ (λ s. with_list s _ _)
Step-Change key d (Step.rpush values) =
    unfold Lists.rpush at_key in written _ (λ s. with_list s _ _)
Step-Change key d Step.lpop = unfold Lists.lpop in lpop_found-Change key d (list_of (find key d))
Step-Change key d Step.rpop = unfold Lists.rpop in rpop_found-Change key d (list_of (find key d))
Step-Change key d (Step.llen now) = unfold Lists.llen in llen_found-Change key d now (find key d)
Step-Change key d (Step.sadd members) =
    unfold Sets.sadd at_key in
    written _ (λ s. with_set s _ _ (insert_all-Distinct members _ s.members_once))
Step-Change key d (Step.srem members) =
    unfold Sets.srem in srem_found-Change key d members (set_of (find key d)) refl
Step-Change key d (Step.hset field value) =
    unfold Hashes.hset at_key in
    written _ (λ s. with_hash s _ _ (put-Unique field value _ s.fields_once))
Step-Change key d (Step.hdel fields) =
    unfold Hashes.hdel in hdel_found-Change key d fields (hash_of (find key d)) refl
Step-Change key d (Step.zadd members numbers) =
    unfold SortedSets.zadd at_key in
    written _ (λ s. with_sorted s _ _ (zadd_all-IsConsistent members _ numbers s.zset_agrees))
Step-Change key d (Step.zrem members) =
    unfold SortedSets.zrem in zrem_in-Change key d members (zset_of (find key d)) refl
