-- ===== src/Database/Lists/Pops.antt =====
-- db.cpp: a list is a deque: pops undo pushes at the same end.
use minimum_redis.Base.{List, [], ◌∷◌, ◌++◌, reverse, Bytes, ◌≡◌, refl, sym, append_assoc}
use mathlib.Core.List.{reverse-append}
use minimum_redis.Dict.{put}
use minimum_redis.Dict.Laws.{find-put_self, put-put}
use minimum_redis.Value.{RedisType, RedisValue}
use minimum_redis.Database.{Keyspace, at_key}
use minimum_redis.Database.Lists.{lpush, rpush, lpop, rpop, back, pop_back}

at_key-put : (key : Bytes) (v : RedisValue) (d : Keyspace) → at_key key (put key v d) ≡ v
at_key-put key v d = unfold at_key in rw find-put_self

back-append : (x : Bytes) (xs : List Bytes) (v : Bytes) → back x (xs ++ v ∷ []) ≡ v
back-append x [] v = refl
back-append x (y ∷ ys) v = back-append y ys v

pop_back-append : (x : Bytes) (xs : List Bytes) (v : Bytes) → pop_back x (xs ++ v ∷ []) ≡ x ∷ xs
pop_back-append x [] v = refl
pop_back-append x (y ∷ ys) v = rw (pop_back-append y ys v)

abbrev with_items : List Bytes → RedisValue → RedisValue
with_items xs v = record v { type = RedisType.list; list_val = xs }

rpop-put :
    (key : Bytes) (d : Keyspace) (w : RedisValue) (xs : List Bytes) (v : Bytes)
    → rpop key (put key (with_items (xs ++ v ∷ []) w) d) ≡ (put key (with_items xs w) d, v)
rpop-put key d w [] v =
    unfold rpop in
    rw find-put_self (rw (at_key-put key (with_items (v ∷ []) w) d) (rw put-put refl))
rpop-put key d w (x ∷ xs) v =
    unfold rpop in
    rw find-put_self (
      rw (at_key-put key (with_items (x ∷ xs ++ v ∷ []) w) d)
        (rw put-put (rw (back-append x xs v) (rw (pop_back-append x xs v) refl))))

-- RPOP after RPUSH returns the last value pushed, and leaves the keyspace that pushing only the
-- values before it would have left.
pub rpop-rpush :
    (key : Bytes) (vs : List Bytes) (v : Bytes) (d : Keyspace)
    → rpop key (rpush key (vs ++ v ∷ []) d).0 ≡ ((rpush key vs d).0, v)
rpop-rpush key vs v d =
    unfold rpush in
    rw (sym (append_assoc (at_key key d).list_val vs (v ∷ [])))
      (rpop-put key d (at_key key d) ((at_key key d).list_val ++ vs) v)

lpop-put :
    (key : Bytes) (d : Keyspace) (w : RedisValue) (xs : List Bytes) (v : Bytes)
    → lpop key (put key (with_items (v ∷ xs) w) d) ≡ (put key (with_items xs w) d, v)
lpop-put key d w xs v =
    unfold lpop in
    rw find-put_self (rw (at_key-put key (with_items (v ∷ xs) w) d) (rw put-put refl))

-- LPOP after LPUSH returns the last value pushed, and leaves the keyspace that pushing only the
-- values before it would have left.
pub lpop-lpush :
    (key : Bytes) (vs : List Bytes) (v : Bytes) (d : Keyspace)
    → lpop key (lpush key (vs ++ v ∷ []) d).0 ≡ ((lpush key vs d).0, v)
lpop-lpush key vs v d =
    unfold lpush in
    rw (reverse-append vs (v ∷ []))
      (lpop-put key d (at_key key d) (reverse vs ++ (at_key key d).list_val) v)
