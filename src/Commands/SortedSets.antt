-- ===== src/Commands/SortedSets.antt =====
-- commands.cpp: the handlers of sorted sets. `stod` is `std::stod`, with `none` for its exceptions,
-- and `show_double` is `std::to_string` of a double; both are the C++ library's.
use minimum_redis.Base.{
  ℕ, ◌==◌, not, ◌&&◌, ◌||◌, Option, none, some, List, [], ◌∷◌, Bytes, text, if◌then◌else◌,
}
use minimum_redis.Base.Int.{ℤ, pos, negsuc}
use minimum_redis.Base.Number.{stoi}
use minimum_redis.Double.{Double, eq}
use minimum_redis.Resp.Value.{RespValue, str_val}
use minimum_redis.Database
use minimum_redis.Database.{Keyspace}
use minimum_redis.Database.SortedSets.{zadd, zrem, zcard, zrange, zrevrange, zscore, zrank}
use minimum_redis.Commands.Reply.{
  Clock, Handler, is_bulk, bulk_reply, number_reply, null_reply, with_key, with_two, with_values,
}
use minimum_redis.Commands.Lists.{between}
use minimum_redis.Commands.Sets.{changed}
use minimum_redis.Commands.Hashes.{even, as_number}

-- The pairs of scores and members that are read, or the reply to the first bad one.
pub data Pairs : Type 0 where
  pairs : List (Double × Bytes) → Pairs
  refused : Bytes → Pairs

abbrev pub one_more : Option Double → Bytes → Pairs → Pairs
one_more none member rest = Pairs.refused (text "-ERR ZADD score must be a valid number\r\n")
one_more (some score) member (Pairs.refused message) = Pairs.refused message
one_more (some score) member (Pairs.pairs ps) = Pairs.pairs ((score, member) ∷ ps)

unfoldable pub read_pairs : (Bytes → Option Double) → List RespValue → Pairs
read_pairs stod (s ∷ m ∷ rest) =
    let later = one_more (stod (str_val s)) (str_val m) (read_pairs stod rest) in
    if is_bulk s && is_bulk m
    then later
    else Pairs.refused (text "-ERR ZADD score and member must be bulk strings\r\n")
read_pairs stod _ = Pairs.pairs []

abbrev pub add_pairs : Bytes → Keyspace → Pairs → Keyspace × Bytes
add_pairs key d (Pairs.refused message) = (d, message)
add_pairs key d (Pairs.pairs members) = changed key (as_number (zadd key members d))

unfoldable pub handle_zadd : (Bytes → Option Double) → Handler
unfolding read_pairs
handle_zadd stod now (c ∷ k ∷ s ∷ m ∷ rest) d =
    if even rest
    then if is_bulk k
      then add_pairs (str_val k) d (read_pairs stod (s ∷ m ∷ rest))
      else (d, text "-ERR ZADD key must be a bulk string\r\n")
    else (
      d,
      text "-ERR ZADD requires an even number of arguments (at least key, score, member)\r\n",
    )
handle_zadd stod now _ d =
    (d, text "-ERR ZADD requires an even number of arguments (at least key, score, member)\r\n")

unfoldable pub handle_zrem : Handler
handle_zrem now =
    with_values (text "-ERR ZREM requires at least 2 arguments\r\n")
      (text "-ERR ZREM key must be a bulk string\r\n")
      (text "-ERR ZREM members must be bulk strings\r\n")
      (λ key members d. changed key (as_number (zrem key members d)))

unfoldable pub handle_zcard : Handler
handle_zcard now =
    with_key (text "-ERR ZCARD requires exactly 1 argument\r\n")
      (text "-ERR ZCARD key must be a bulk string\r\n") (λ key d. (d, number_reply (zcard key d)))

-- The body that `handle_zrange` and `handle_zrevrange` share; arguments behind the fourth are
-- ignored.
abbrev zrange_with :
    Bytes
    → Bytes
    → Bytes
    → (Bytes → ℤ → ℤ → Keyspace → List Bytes)
    → List RespValue
    → Keyspace
    → Keyspace × Bytes
zrange_with arity kind integers range (c ∷ k ∷ s ∷ e ∷ more) d = (
  d,
  if is_bulk k
      then between integers (λ start end. range (str_val k) start end d) (stoi (str_val s))
          (stoi (str_val e))
      else kind,
)
zrange_with arity kind integers range _ d = (d, arity)

unfoldable pub handle_zrange : Handler
handle_zrange now =
    zrange_with (text "-ERR ZRANGE requires at least 3 arguments\r\n")
      (text "-ERR ZRANGE key must be a bulk string\r\n")
      (text "-ERR ZRANGE start and end must be integers\r\n") zrange

unfoldable pub handle_zrevrange : Handler
handle_zrevrange now =
    zrange_with (text "-ERR ZREVRANGE requires at least 3 arguments\r\n")
      (text "-ERR ZREVRANGE key must be a bulk string\r\n")
      (text "-ERR ZREVRANGE start and end must be integers\r\n") zrevrange

-- The text up to its last byte that is not '0'.
unfoldable pub without_zeros : Bytes → Bytes
without_zeros [] = []
without_zeros (c ∷ s) = kept c (without_zeros s)
  where
    kept : ℕ → Bytes → Bytes
    kept c [] = if c == b'0' then [] else c ∷ []
    kept c (e ∷ t) = c ∷ e ∷ t

-- The text behind the dot without its last zeros, and without the dot if nothing is left.
abbrev dot_and : Bytes → Bytes
dot_and [] = []
dot_and (c ∷ s) = b'.' ∷ c ∷ s

unfoldable pub trim_score : Bytes → Bytes
unfolding without_zeros
trim_score [] = []
trim_score (c ∷ s) =
    let later = trim_score s in if c == b'.' then dot_and (without_zeros s) else c ∷ later

-- `score == 0.0 && (!db.exists(key) || db.zcard(key) == 0)`; the test for the key may drop it.
abbrev pub score_reply : (Double → Bytes) → Clock → Bytes → Double → Keyspace → Keyspace × Bytes
score_reply show_double now key score d =
    let found = bulk_reply (trim_score (show_double score)) in
    let (d1, there) = Database.exists (now 0) key d in
    if eq score 0
    then (d1, if not there || zcard key d1 == 0 then null_reply else found)
    else (d, found)

unfoldable pub handle_zscore : (Double → Bytes) → Handler
handle_zscore show_double now =
    with_two (text "-ERR ZSCORE requires exactly 2 arguments\r\n")
      (text "-ERR ZSCORE key and member must be bulk strings\r\n")
      (λ key member d. score_reply show_double now key (zscore key member d) d)

abbrev rank_reply : ℤ → Bytes
rank_reply (negsuc n) = null_reply
rank_reply (pos n) = number_reply n

unfoldable pub handle_zrank : Handler
handle_zrank now =
    with_two (text "-ERR ZRANK requires exactly 2 arguments\r\n")
      (text "-ERR ZRANK key and member must be bulk strings\r\n")
      (λ key member d. (d, rank_reply (zrank key member d)))
