-- ===== src/Commands/Steps/SortedSets.antt =====
-- commands.cpp: the handlers of sorted sets change the map by operations alone, ZADD where no
-- argument reads as a NaN.
use minimum_redis.Base.{
  ◌&&◌, false, true, Bool, Option, none, some, List, [], ◌∷◌, Bytes, if◌then◌else◌, ◌≡◌,
}
use minimum_redis.Double.{Double, is_nan, eq}
use minimum_redis.Resp.Value.{RespValue, str_val}
use minimum_redis.Database.{Keyspace}
use minimum_redis.Database.SortedSets.{zscore}
use minimum_redis.Database.SortedSets.Consistent.{AllScores}
use minimum_redis.Database.Step.{Step, Reach, here, next}
use minimum_redis.Commands.Reply.{Clock, is_bulk}
use minimum_redis.Commands.Hashes.{even}
use minimum_redis.Commands.SortedSets.{
  Pairs, one_more, read_pairs, add_pairs, handle_zadd, handle_zrem, handle_zcard, handle_zrange,
  handle_zrevrange, handle_zscore, handle_zrank,
}
use minimum_redis.Commands.Steps.{
  Keeps, if-Reach, with_key-Reach, with_two-Reach, with_values-Reach, changed-Reach,
}

-- What is read, if anything is, is a number.
abbrev pub IsNumber : Option Double → Type 0
IsNumber none = Unit
IsNumber (some x) = is_nan x ≡ false

-- No argument reads as a NaN.
abbrev pub NoNan : (Bytes → Option Double) → List RespValue → Type 0
NoNan stod [] = Unit
NoNan stod (v ∷ vs) = IsNumber (stod (str_val v)) × NoNan stod vs

abbrev PairsNumbers : Pairs → Type 0
PairsNumbers (Pairs.pairs ps) = AllScores ps
PairsNumbers (Pairs.refused message) = Unit

one_more-PairsNumbers :
    (score : Option Double) (member : Bytes) (rest : Pairs)
    → IsNumber score
    → PairsNumbers rest
    → PairsNumbers (one_more score member rest)
one_more-PairsNumbers none member rest h k = tt
one_more-PairsNumbers (some score) member (Pairs.refused message) h k = tt
one_more-PairsNumbers (some score) member (Pairs.pairs ps) h k = (h, k)

if-PairsNumbers :
    (b : Bool) (x : Pairs) (message : Bytes)
    → PairsNumbers x
    → PairsNumbers (if b then x else Pairs.refused message)
if-PairsNumbers true x message h = h
if-PairsNumbers false x message h = tt

read_pairs-PairsNumbers :
    (stod : Bytes → Option Double) (args : List RespValue)
    → NoNan stod args
    → PairsNumbers (read_pairs stod args)
unfolding read_pairs
read_pairs-PairsNumbers stod [] h = tt
read_pairs-PairsNumbers stod (s ∷ []) h = tt
read_pairs-PairsNumbers stod (s ∷ m ∷ rest) (number, (other, numbers)) =
    if-PairsNumbers (is_bulk s && is_bulk m)
      (one_more (stod (str_val s)) (str_val m) (read_pairs stod rest)) _
      (one_more-PairsNumbers (stod (str_val s)) (str_val m) (read_pairs stod rest) number
        (read_pairs-PairsNumbers stod rest numbers))

add_pairs-Reach :
    (key : Bytes) (d : Keyspace) (ps : Pairs) → PairsNumbers ps → Reach d (add_pairs key d ps).0
add_pairs-Reach key d (Pairs.refused message) h = here
add_pairs-Reach key d (Pairs.pairs members) h =
    changed-Reach key _ (next key here (Step.zadd members h))

pub handle_zadd-Reach :
    (stod : Bytes → Option Double) (now : Clock) (args : List RespValue) (d : Keyspace)
    → NoNan stod args
    → Reach d (handle_zadd stod now args d).0
unfolding handle_zadd
handle_zadd-Reach stod now [] d h = here
handle_zadd-Reach stod now (c ∷ []) d h = here
handle_zadd-Reach stod now (c ∷ k ∷ []) d h = here
handle_zadd-Reach stod now (c ∷ k ∷ s ∷ []) d h = here
handle_zadd-Reach stod now (c ∷ k ∷ s ∷ m ∷ rest) d (name, (key, numbers)) =
    if-Reach (even rest) _ (d, _)
      (if-Reach (is_bulk k) (add_pairs (str_val k) d (read_pairs stod (s ∷ m ∷ rest))) (d, _)
        (add_pairs-Reach (str_val k) d (read_pairs stod (s ∷ m ∷ rest))
          (read_pairs-PairsNumbers stod (s ∷ m ∷ rest) numbers))
        here)
      here

pub handle_zrem-Keeps : Keeps handle_zrem
unfolding handle_zrem
handle_zrem-Keeps now args d =
    with_values-Reach _ _ _ _ args d
      (λ key members. changed-Reach key _ (next key here (Step.zrem members)))

pub handle_zscore-Keeps : (show_double : Double → Bytes) → Keeps (handle_zscore show_double)
unfolding handle_zscore
handle_zscore-Keeps show_double now args d = with_two-Reach _ _ _ args d (λ key member.
    if-Reach (eq (zscore key member d) 0) _ _ (next key here (Step.exists (now 0))) here)

-- The handlers that only look.
pub handle_zcard-Keeps : Keeps handle_zcard
unfolding handle_zcard
handle_zcard-Keeps now args d = with_key-Reach _ _ _ args d (λ key. here)

pub handle_zrange-Keeps : Keeps handle_zrange
unfolding handle_zrange
handle_zrange-Keeps now [] d = here
handle_zrange-Keeps now (c ∷ []) d = here
handle_zrange-Keeps now (c ∷ k ∷ []) d = here
handle_zrange-Keeps now (c ∷ k ∷ s ∷ []) d = here
handle_zrange-Keeps now (c ∷ k ∷ s ∷ e ∷ more) d = here

pub handle_zrevrange-Keeps : Keeps handle_zrevrange
unfolding handle_zrevrange
handle_zrevrange-Keeps now [] d = here
handle_zrevrange-Keeps now (c ∷ []) d = here
handle_zrevrange-Keeps now (c ∷ k ∷ []) d = here
handle_zrevrange-Keeps now (c ∷ k ∷ s ∷ []) d = here
handle_zrevrange-Keeps now (c ∷ k ∷ s ∷ e ∷ more) d = here

pub handle_zrank-Keeps : Keeps handle_zrank
unfolding handle_zrank
handle_zrank-Keeps now args d = with_two-Reach _ _ _ args d (λ key member. here)
