-- ===== src/Dict/Members.antt =====
-- Laws of the sets, in terms of what `contains` sees.
use minimum_redis.Base.{
  ℕ, ◌+◌, true, false, not, ◌&&◌, ◌||◌, List, [], ◌∷◌, Bytes, equal, equal_iff, if◌then◌else◌, ◌≡◌,
  refl, arith, length,
}
use minimum_redis.Dict.{contains, insert, remove, insert_all, remove_all, Distinct}

pub contains-insert :
    (k j : Bytes) (s : List Bytes)
    → contains j (insert k s) ≡ (if equal k j then true else contains j s)
unfolding contains insert
contains-insert k j [] = refl
contains-insert k j (i ∷ s) =
    ground (arith, equal_iff k j, equal_iff i k, equal_iff i j, contains-insert k j s)

pub contains-remove :
    (k j : Bytes) (s : List Bytes)
    → contains j (remove k s) ≡ (if equal k j then false else contains j s)
unfolding contains remove
contains-remove k j [] = ground arith
contains-remove k j (i ∷ s) =
    ground (arith, equal_iff k j, equal_iff i k, equal_iff i j, contains-remove k j s)

pub insert-Distinct : (k : Bytes) (s : List Bytes) → Distinct s → Distinct (insert k s)
unfolding insert
insert-Distinct k [] u = (unfold contains in refl, tt)
insert-Distinct k (i ∷ s) u =
    ground (arith, insert-Distinct k s u.1, contains-insert k i s, equal_iff i k, equal_iff k i)

pub remove-Distinct : (k : Bytes) (s : List Bytes) → Distinct s → Distinct (remove k s)
unfolding remove
remove-Distinct k [] u = tt
remove-Distinct k (i ∷ s) u =
    ground (arith, remove-Distinct k s u.1, contains-remove k i s, equal_iff i k, equal_iff k i)

pub length-insert :
    (k : Bytes) (s : List Bytes)
    → length (insert k s) ≡ (if contains k s then length s else length s + 1)
unfolding insert contains
length-insert k [] = refl
length-insert k (i ∷ s) = ground (arith, length-insert k s)

pub length-remove :
    (k : Bytes) (s : List Bytes)
    → Distinct s
    → length (remove k s) + (if contains k s then 1 else 0) ≡ length s
unfolding remove contains
length-remove k [] u = refl
length-remove k (i ∷ s) u = ground (arith, length-remove k s u.1, equal_iff i k)

pub contains-insert_all :
    (ks : List Bytes) (j : Bytes) (s : List Bytes)
    → contains j (insert_all ks s) ≡ (contains j ks || contains j s)
unfolding insert_all contains
contains-insert_all [] j s = refl
contains-insert_all (k ∷ ks) j s =
    ground (arith, contains-insert_all ks j (insert k s), contains-insert k j s)

pub contains-remove_all :
    (ks : List Bytes) (j : Bytes) (s : List Bytes)
    → contains j (remove_all ks s) ≡ (not (contains j ks) && contains j s)
unfolding remove_all contains
contains-remove_all [] j s = refl
contains-remove_all (k ∷ ks) j s =
    ground (arith, contains-remove_all ks j (remove k s), contains-remove k j s)

pub insert_all-Distinct : (ks s : List Bytes) → Distinct s → Distinct (insert_all ks s)
unfolding insert_all
insert_all-Distinct [] s u = u
insert_all-Distinct (k ∷ ks) s u = insert_all-Distinct ks (insert k s) (insert-Distinct k s u)

pub remove_all-Distinct : (ks s : List Bytes) → Distinct s → Distinct (remove_all ks s)
unfolding remove_all
remove_all-Distinct [] s u = u
remove_all-Distinct (k ∷ ks) s u = remove_all-Distinct ks (remove k s) (remove-Distinct k s u)

pub length-insert_all : (ks s : List Bytes) → (d : ℕ) × (length (insert_all ks s) ≡ length s + d)
unfolding insert_all
length-insert_all [] s = (0, omega arith)
length-insert_all (k ∷ ks) s =
    let (d, e) = length-insert_all ks (insert k s) in
    ((if contains k s then 0 else 1) + d, ground (arith, length-insert k s))
