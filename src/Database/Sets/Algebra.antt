-- ===== src/Database/Sets/Algebra.antt =====
-- db.cpp: the set operations, seen through membership.
use minimum_redis.Base.{
  Bool, true, false, not, ◌&&◌, ◌||◌, Option, none, some, List, [], ◌∷◌, Bytes, equal_iff, ◌≡◌,
  refl, arith, Option-cases, inl, inr,
}
use minimum_redis.Dict.{find, contains, insert_all, remove_all}
use minimum_redis.Dict.Laws.{find-put_self}
use minimum_redis.Dict.Members.{contains-insert_all, contains-remove_all}
use minimum_redis.Value.{RedisType, same_type}
use minimum_redis.Database.{Keyspace, at_key}
use minimum_redis.Database.Sets.{
  sadd, srem, sismember, set_at, or_empty, member_of, intersection, sinter, sinter_rest, sunion,
  sunion_from, sdiff, sdiff_rest, srem_found,
}

-- SISMEMBER after SADD: the members that were added, and those of the container before.
pub sismember-sadd :
    (key member : Bytes) (members : List Bytes) (d : Keyspace)
    → sismember key member (sadd key members d).0
      ≡ (contains member members || contains member (at_key key d).set_val)
sismember-sadd key member members d =
    unfold sismember sadd set_at in
    rw find-put_self (contains-insert_all members member (at_key key d).set_val)

-- The value found under a key is the one `data[key]` names.
found-at_key :
    (key : Bytes) (d : Keyspace) (s : List Bytes)
    → set_at key d ≡ some s
    → same_type (at_key key d).type RedisType.set ≡ true
unfolding set_at at_key
found-at_key key d s h = elim (Option-cases (find key d)) [
  | inl e ↦ ground arith
  | inr (v, e) ↦ ground arith
]

srem-member :
    (key member : Bytes) (members : List Bytes) (d : Keyspace) (o : Option (List Bytes))
    → set_at key d ≡ o
    → sismember key member (srem_found key members d o).0
      ≡ (not (contains member members) && member_of member o)
srem-member key member members d none h = unfold sismember in rw h (ground arith)
srem-member key member members d (some s) h =
    unfold sismember set_at in
    rw find-put_self (rw (found-at_key key d s h) (contains-remove_all members member s))

-- SISMEMBER after SREM: what was a member before, except for the members that were removed.
pub sismember-srem :
    (key member : Bytes) (members : List Bytes) (d : Keyspace)
    → sismember key member (srem key members d).0
      ≡ (not (contains member members) && sismember key member d)
sismember-srem key member members d =
    let e : sismember key member d ≡ member_of member (set_at key d) = unfold sismember in refl in
    rw e (unfold srem in srem-member key member members d (set_at key d) refl)

-- Whether the element is in the sets of all the keys, and of any of them.
unfoldable pub in_all : Bytes → Keyspace → List Bytes → Bool
in_all e d [] = true
in_all e d (k ∷ ks) = sismember k e d && in_all e d ks

unfoldable pub in_any : Bytes → Keyspace → List Bytes → Bool
in_any e d [] = false
in_any e d (k ∷ ks) = sismember k e d || in_any e d ks

contains-intersection :
    (e : Bytes) (s t : List Bytes) → contains e (intersection s t) ≡ (contains e s && contains e t)
unfolding contains intersection
contains-intersection e [] t = refl
contains-intersection e (x ∷ s) t = ground (arith, contains-intersection e s t, equal_iff x e)

contains-nil : (e : Bytes) → contains e [] ≡ false
unfolding contains
contains-nil e = refl

sinter_rest-member :
    (e : Bytes) (ks : List Bytes) (d : Keyspace) (s : List Bytes)
    → contains e (sinter_rest ks d s) ≡ (contains e s && in_all e d ks)
unfolding sinter_rest in_all sismember
sinter_rest-member e [] d s = ground arith
sinter_rest-member e (k ∷ ks) d s = elim (Option-cases (set_at k d)) [
  | inl h ↦ rw h (rw contains-nil (ground arith))
  | inr (t, h) ↦ rw h (
      rw (sinter_rest-member e ks d (intersection s t))
        (rw (contains-intersection e s t) (ground arith)))
]

-- SINTER of at least one key holds exactly the elements that are in the sets of all the keys.
pub contains-sinter :
    (e k : Bytes) (ks : List Bytes) (d : Keyspace)
    → contains e (sinter (k ∷ ks) d) ≡ in_all e d (k ∷ ks)
unfolding sinter in_all
contains-sinter e k ks d = elim (Option-cases (set_at k d)) [
  | inl h ↦ unfold sismember contains in rw h refl
  | inr (t, h) ↦ unfold sismember in rw h (sinter_rest-member e ks d t)
]

contains-or_empty :
    (e k : Bytes) (d : Keyspace) → contains e (or_empty (set_at k d)) ≡ sismember k e d
contains-or_empty e k d = elim (Option-cases (set_at k d)) [
  | inl h ↦ unfold sismember contains in rw h refl
  | inr (t, h) ↦ unfold sismember in rw h refl
]

sunion_from-member :
    (e : Bytes) (ks : List Bytes) (d : Keyspace) (s : List Bytes)
    → contains e (sunion_from ks d s) ≡ (contains e s || in_any e d ks)
unfolding sunion_from in_any
sunion_from-member e [] d s = ground arith
sunion_from-member e (k ∷ ks) d s =
    rw (sunion_from-member e ks d (insert_all (or_empty (set_at k d)) s)) (
      rw (contains-insert_all (or_empty (set_at k d)) e s)
        (rw (contains-or_empty e k d) (ground arith)))

-- SUNION holds exactly the elements that are in the set of some key.
pub contains-sunion :
    (e : Bytes) (ks : List Bytes) (d : Keyspace) → contains e (sunion ks d) ≡ in_any e d ks
contains-sunion e ks d = unfold sunion contains in rw (sunion_from-member e ks d []) refl

sdiff_rest-member :
    (e : Bytes) (ks : List Bytes) (d : Keyspace) (s : List Bytes)
    → contains e (sdiff_rest ks d s) ≡ (contains e s && not (in_any e d ks))
unfolding sdiff_rest in_any
sdiff_rest-member e [] d s = ground arith
sdiff_rest-member e (k ∷ ks) d s =
    rw (sdiff_rest-member e ks d (remove_all (or_empty (set_at k d)) s)) (
      rw (contains-remove_all (or_empty (set_at k d)) e s)
        (rw (contains-or_empty e k d) (ground arith)))

-- SDIFF of at least one key holds exactly the elements of the first key's set that are in the set
-- of no other key.
pub contains-sdiff :
    (e k : Bytes) (ks : List Bytes) (d : Keyspace)
    → contains e (sdiff (k ∷ ks) d) ≡ (sismember k e d && not (in_any e d ks))
contains-sdiff e k ks d = elim (Option-cases (set_at k d)) [
  | inl h ↦ unfold sdiff sismember contains in rw h refl
  | inr (t, h) ↦ unfold sdiff sismember in rw h (sdiff_rest-member e ks d t)
]
