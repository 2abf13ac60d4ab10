-- ===== src/Database/Lists.antt =====
-- db.cpp, class Database: the list operations.
pub mod Range
pub mod Pops
use minimum_redis.Base.{
  ℕ, suc, ◌+◌, ◌-◌, Bool, true, false, Option, none, some, List, [], ◌∷◌, ◌++◌, reverse, Bytes,
  length, get_elem?, take, drop, ltb, if◌then◌else◌, ◌&&◌, not,
}
use minimum_redis.Base.Int.{ℤ, pos, negsuc, pos_part, ◌+ℤ◌, ◌-ℤ◌, ltb_ℤ, leb_ℤ, wrap_32}
use minimum_redis.Dict.{find, put, erase}
use minimum_redis.Value.{RedisType, RedisValue, same_type, is_expired}
use minimum_redis.Database.{Keyspace, at_key}

unfoldable pub lpush : Bytes → List Bytes → Keyspace → Keyspace × ℕ
unfolding at_key put
lpush key values d =
    let v = at_key key d in
    let items = reverse values ++ v.list_val in
    (put key (record v { type = RedisType.list; list_val = items }) d, length items)

unfoldable pub rpush : Bytes → List Bytes → Keyspace → Keyspace × ℕ
unfolding at_key put
rpush key values d =
    let v = at_key key d in
    let items = v.list_val ++ values in
    (put key (record v { type = RedisType.list; list_val = items }) d, length items)

-- The list of a key of type list.
abbrev pub list_of : Option RedisValue → Option (List Bytes)
list_of none = none
list_of (some v) = if same_type v.type RedisType.list then some v.list_val else none

abbrev pub lpop_found : Bytes → Keyspace → Option (List Bytes) → Keyspace × Bytes
lpop_found key d none = (d, [])
lpop_found key d (some []) = (d, [])
lpop_found key d (some (x ∷ xs)) = (put key (record (at_key key d) { list_val = xs }) d, x)

unfoldable pub lpop : Bytes → Keyspace → Keyspace × Bytes
unfolding find put at_key
lpop key d = lpop_found key d (list_of (find key d))

-- `back()` and the list after `pop_back()`
abbrev pub back : Bytes → List Bytes → Bytes
back x [] = x
back x (y ∷ ys) = back y ys

abbrev pub pop_back : Bytes → List Bytes → List Bytes
pop_back x [] = []
pop_back x (y ∷ ys) = x ∷ pop_back y ys

abbrev pub rpop_found : Bytes → Keyspace → Option (List Bytes) → Keyspace × Bytes
rpop_found key d none = (d, [])
rpop_found key d (some []) = (d, [])
rpop_found key d (some (x ∷ xs)) =
    (put key (record (at_key key d) { list_val = pop_back x xs }) d, back x xs)

unfoldable pub rpop : Bytes → Keyspace → Keyspace × Bytes
unfolding find put at_key
rpop key d = rpop_found key d (list_of (find key d))

abbrev pub llen_found : ℤ → Bytes → Keyspace → Option RedisValue → Keyspace × ℕ
llen_found now key d none = (d, 0)
llen_found now key d (some v) =
    if same_type v.type RedisType.list
    then if is_expired now v then (erase key d, 0) else (d, length v.list_val)
    else (d, 0)

unfoldable pub llen : ℤ → Bytes → Keyspace → Keyspace × ℕ
unfolding find erase
llen now key d = llen_found now key d (find key d)

-- An index from the end becomes one from the front, in the arithmetic of `size_t` and `int`.
unfoldable pub from_front : ℕ → ℤ → ℤ
from_front size i = if ltb_ℤ i (pos 0) then wrap_32 (pos size +ℤ i) else i

abbrev pub max_zero : ℤ → ℤ
max_zero i = if ltb_ℤ i (pos 0) then pos 0 else i

abbrev pub min_ℤ : ℤ → ℤ → ℤ
min_ℤ a b = if ltb_ℤ b a then b else a

-- The first position and the number of elements that a range selects; `none` if it is empty.
unfoldable pub clamp_range : ℕ → ℤ → ℤ → Option (ℕ × ℕ)
unfolding from_front
clamp_range size start end =
    let first = max_zero (from_front size start) in
    let last = min_ℤ (wrap_32 (pos size) -ℤ pos 1) (from_front size end) in
    if leb_ℤ first last then some (pos_part first, pos_part (last -ℤ first) + 1) else none

abbrev pub slice {ℓ} : {A : Type ℓ} → List A → Option (ℕ × ℕ) → List A
slice xs none = []
slice xs (some (first, count)) = take count (drop first xs)

abbrev pub lrange_found : ℤ → ℤ → Option (List Bytes) → List Bytes
lrange_found start end none = []
lrange_found start end (some xs) = slice xs (clamp_range (length xs) start end)

unfoldable pub lrange : Bytes → ℤ → ℤ → Keyspace → List Bytes
unfolding find
lrange key start end d = lrange_found start end (list_of (find key d))

-- `list[index]`, which the guard keeps in range
abbrev pub at_index : List Bytes → ℕ → Bytes
at_index [] i = []
at_index (x ∷ xs) ℕ.zero = x
at_index (x ∷ xs) (suc i) = at_index xs i

abbrev pub lindex_found : ℤ → Option (List Bytes) → Bytes
lindex_found index none = []
lindex_found index (some xs) =
    let i = from_front (length xs) index in
    if leb_ℤ (pos 0) i && ltb (pos_part i) (length xs) then at_index xs (pos_part i) else []

unfoldable pub lindex : Bytes → ℤ → Keyspace → Bytes
unfolding find
lindex key index d = lindex_found index (list_of (find key d))
