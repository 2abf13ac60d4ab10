-- ===== src/Database/SortedSets.antt =====
-- db.cpp, class Database: the sorted sets, a map from members to scores beside a multimap from
-- scores to members.
pub mod Consistent
use minimum_redis.Base.{
  ℕ, ◌+◌, Bool, true, false, not, ◌&&◌, Option, none, some, List, [], ◌∷◌, map, reverse, Bytes,
  equal, length, ltb, if◌then◌else◌,
}
use minimum_redis.Base.Int.{ℤ, pos, negsuc}
use minimum_redis.Dict.{Dict, find, put, erase}
use minimum_redis.Double.{Double, lt, eq}
use minimum_redis.Value.{RedisType, RedisValue, same_type}
use minimum_redis.Database.{Keyspace, at_key}
use minimum_redis.Database.Lists.{clamp_range, slice}

abbrev pub ScoreMap : Type 0
ScoreMap = List (Double × Bytes)

-- `insert({score, member})`, behind the entries whose score is not greater
unfoldable pub insert_entry : Double → Bytes → ScoreMap → ScoreMap
insert_entry score member [] = (score, member) ∷ []
insert_entry score member ((s, m) ∷ r) =
    if lt score s then (score, member) ∷ (s, m) ∷ r else (s, m) ∷ insert_entry score member r

-- The loop over `equal_range(score)`, which erases the first entry that holds the member.
unfoldable pub erase_entry : Double → Bytes → ScoreMap → ScoreMap
erase_entry score member [] = []
erase_entry score member ((s, m) ∷ r) =
    if not (lt s score) && (not (lt score s) && equal m member)
    then r
    else (s, m) ∷ erase_entry score member r

-- A byte string before another: `operator<` of `std::string`.
unfoldable pub before : Bytes → Bytes → Bool
before [] [] = false
before [] (y ∷ ys) = true
before (x ∷ xs) [] = false
before (x ∷ xs) (y ∷ ys) = if ltb x y then true else if ltb y x then false else before xs ys

pub record Zset : Type 0 where
  pub score_to_member : ScoreMap
  pub member_to_score : Dict Double

abbrev pub erase_old : Option Double → Bytes → ScoreMap → ScoreMap
erase_old none member entries = entries
erase_old (some old) member entries = erase_entry old member entries

-- One round of the loop of `zadd`.
unfoldable pub zadd_one : Double → Bytes → Zset → Zset
unfolding find put insert_entry erase_entry
zadd_one score member z = record {
  score_to_member =
      insert_entry score member
        (erase_old (find member z.member_to_score) member z.score_to_member);
  member_to_score = put member score z.member_to_score;
}

unfoldable pub zadd_all : List (Double × Bytes) → Zset → Zset
unfolding zadd_one
zadd_all [] z = z
zadd_all ((score, member) ∷ r) z = zadd_all r (zadd_one score member z)

abbrev pub zset_in : RedisValue → Zset
zset_in v = record {
  score_to_member = v.zset_score_to_member;
  member_to_score = v.zset_member_to_score;
}

abbrev pub with_zset : Zset → RedisValue → RedisValue
with_zset z v = record v {
  zset_score_to_member = z.score_to_member;
  zset_member_to_score = z.member_to_score;
}

-- `added`: whether the loop ran at all
abbrev pub is_cons {ℓ} : {A : Type ℓ} → List A → Bool
is_cons [] = false
is_cons (x ∷ xs) = true

unfoldable pub zadd : Bytes → List (Double × Bytes) → Keyspace → Keyspace × Bool
unfolding at_key put zadd_all
zadd key members d =
    let v = record (at_key key d) { type = RedisType.zset } in
    (put key (with_zset (zadd_all members (zset_in v)) v) d, is_cons members)

-- One round of the loop of `zrem`, with the flag `removed`.
abbrev pub zrem_found : Bytes → Zset → Bool → Option Double → Zset × Bool
zrem_found member z removed none = (z, removed)
zrem_found member z removed (some score) = (
  record {
    score_to_member = erase_entry score member z.score_to_member;
    member_to_score = erase member z.member_to_score;
  },
  true,
)

unfoldable pub zrem_all : List Bytes → Zset → Bool → Zset × Bool
unfolding find erase erase_entry
zrem_all [] z removed = (z, removed)
zrem_all (m ∷ ms) z removed =
    let (z', removed') = zrem_found m z removed (find m z.member_to_score) in
    zrem_all ms z' removed'

-- The sorted set of a key of type zset.
abbrev pub zset_of : Option RedisValue → Option Zset
zset_of none = none
zset_of (some v) = if same_type v.type RedisType.zset then some (zset_in v) else none

unfoldable pub zset_at : Bytes → Keyspace → Option Zset
unfolding find
zset_at key d = zset_of (find key d)

abbrev pub zrem_in : Bytes → List Bytes → Keyspace → Option Zset → Keyspace × Bool
zrem_in key members d none = (d, false)
zrem_in key members d (some z) =
    let (z', removed) = zrem_all members z false in
    (put key (with_zset z' (at_key key d)) d, removed)

unfoldable pub zrem : Bytes → List Bytes → Keyspace → Keyspace × Bool
unfolding zset_at put at_key zrem_all
zrem key members d = zrem_in key members d (zset_at key d)

abbrev pub or_empty : Option Zset → Zset
or_empty none = record { score_to_member = []; member_to_score = [] }
or_empty (some z) = z

unfoldable pub zcard : Bytes → Keyspace → ℕ
unfolding zset_at
zcard key d = length (or_empty (zset_at key d)).member_to_score

abbrev pub members_of : ScoreMap → List Bytes
members_of [] = []
members_of ((s, m) ∷ r) = m ∷ members_of r

unfoldable pub zrange : Bytes → ℤ → ℤ → Keyspace → List Bytes
unfolding zset_at clamp_range
zrange key start end d =
    let entries = (or_empty (zset_at key d)).score_to_member in
    members_of (slice entries (clamp_range (length entries) start end))

unfoldable pub zrevrange : Bytes → ℤ → ℤ → Keyspace → List Bytes
unfolding zset_at clamp_range
zrevrange key start end d =
    let entries = reverse (or_empty (zset_at key d)).score_to_member in
    members_of (slice entries (clamp_range (length entries) start end))

abbrev pub or_zero : Option Double → Double
or_zero none = 0
or_zero (some s) = s

unfoldable pub zscore : Bytes → Bytes → Keyspace → Double
unfolding zset_at find
zscore key member d = or_zero (find member (or_empty (zset_at key d)).member_to_score)

-- The loop of `zrank`: the entries that count before the member's own.
unfoldable pub rank_in : Double → Bytes → ScoreMap → ℕ
unfolding before
rank_in score member [] = 0
rank_in score member ((s, m) ∷ r) =
    let rest = rank_in score member r in
    if lt s score
    then rest + 1
    else if eq s score && before m member
    then rest + 1
    else if eq s score && equal m member
    then 0
    else rest

abbrev pub zrank_found : Bytes → ScoreMap → Option Double → ℤ
zrank_found member entries none = negsuc 0
zrank_found member entries (some score) = pos (rank_in score member entries)

unfoldable pub zrank : Bytes → Bytes → Keyspace → ℤ
unfolding zset_at find rank_in
zrank key member d =
    let z = or_empty (zset_at key d) in
    zrank_found member z.score_to_member (find member z.member_to_score)
