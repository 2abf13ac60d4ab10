-- ===== src/Database/Lists/Range.antt =====
-- db.cpp: which elements LRANGE and LINDEX select, negative indices included.
use minimum_redis.Base.{
  ℕ, zero, suc, ◌+◌, ◌-◌, ◌^◌, ◌≤◌, ◌<◌, min, true, ◌&&◌, Option, none, some, List, [], ◌∷◌, Bytes,
  length, get_elem?, take, drop, leb, ltb, if◌then◌else◌, ◌≡◌, refl, arith, ◌∙◌, Bool-cases, inl,
  inr, get_elem?-drop, get_elem?-take, get_elem?-past, get_elem?-take_past, ltb→lt,
}
use minimum_redis.Base.Int.{
  ℤ, pos, negsuc, pos_part, ◌+ℤ◌, ◌-ℤ◌, ltb_ℤ, leb_ℤ, wrap_32, wrap_32-id, IsInt32,
}
use minimum_redis.Dict.{find}
use minimum_redis.Database.{Keyspace}
use minimum_redis.Database.Lists.{
  list_of, from_front, max_zero, min_ℤ, clamp_range, slice, lrange, lrange_found, lindex,
  lindex_found, at_index,
}

-- The position that an index means in a list of the given size: a negative one counts from the end.
abbrev pub position : ℕ → ℤ → ℤ
position size (pos n) = pos n
position size (negsuc n) = if ltb n size then pos (size - (n + 1)) else negsuc (n - size)

from_front-position :
    (size : ℕ) (i : ℤ) → size < 2 ^ 31 → IsInt32 i → from_front size i ≡ position size i
unfolding from_front
from_front-position size (pos n) h k = ground arith
from_front-position size (negsuc n) h k =
    let sum : pos size +ℤ negsuc n ≡ position size (negsuc n) = unfold ◌+ℤ◌ in ground arith in
    let negative : ltb_ℤ (negsuc n) (pos 0) ≡ true = ground arith in
    rw (negative, sum) (wrap_32-id (position size (negsuc n)) (ground arith))

-- The first position that a range selects.
abbrev pub first_of : ℕ → ℤ → ℕ
first_of size start = pos_part (position size start)

-- The first position and the count of a range from `f` to `last` in a list of size `n`.
abbrev bounded : ℕ → ℕ → ℤ → Option (ℕ × ℕ)
bounded n f (pos m) = if leb f m && ltb f n then some (f, min m (n - 1) - f + 1) else none
bounded n f (negsuc m) = none

clamped : ℕ → ℤ → ℤ → Option (ℕ × ℕ)
clamped n a b =
    let first = max_zero a in
    let last = min_ℤ (pos n -ℤ pos 1) b in
    if leb_ℤ first last then some (pos_part first, pos_part (last -ℤ first) + 1) else none

clamped-bounded : (n : ℕ) (a b : ℤ) → clamped n a b ≡ bounded n (pos_part a) b
unfolding clamped ◌-ℤ◌
clamped-bounded n (pos a) (pos b) = ground arith
clamped-bounded n (pos a) (negsuc b) = ground arith
clamped-bounded n (negsuc a) (pos b) = ground arith
clamped-bounded n (negsuc a) (negsuc b) = ground arith

clamp_range-bounded :
    (n : ℕ) (start end : ℤ)
    → n < 2 ^ 31
    → IsInt32 start
    → IsInt32 end
    → clamp_range n start end ≡ bounded n (first_of n start) (position n end)
clamp_range-bounded n start end h s e =
    let whole : wrap_32 (pos n) ≡ pos n = wrap_32-id (pos n) (omega arith, omega arith) in
    unfold clamp_range in
    rw (from_front-position n start h s, from_front-position n end h e, whole)
      (unfold clamped in clamped-bounded n (position n start) (position n end))

module _ {A : Type 0} where
  window :
      (c f i : ℕ) (xs : List A)
      → get_elem? (take c (drop f xs)) i ≡ (if ltb i c then get_elem? xs (f + i) else none)
  window c f i xs = elim (Bool-cases (ltb i c)) [
    | inl inside ↦
        rw inside (get_elem?-take c i (drop f xs) (ltb→lt i c inside) ∙ get_elem?-drop f i xs)
    | inr outside ↦ rw outside (get_elem?-take_past c i (drop f xs) (ground arith))
  ]

  slice-bounded :
      (xs : List A) (f : ℕ) (b : ℤ) (i : ℕ)
      → get_elem? (slice xs (bounded (length xs) f b)) i
        ≡ (if leb_ℤ (pos (f + i)) b then get_elem? xs (f + i) else none)
  slice-bounded xs f (pos m) i =
      ground (arith, window (min m (length xs - 1) - f + 1) f i xs, get_elem?-past xs (f + i))
  slice-bounded xs f (negsuc m) i = ground arith

abbrev pub or_empty : Option (List Bytes) → List Bytes
or_empty none = []
or_empty (some xs) = xs

-- The elements of a key of type list, and none of another key.
abbrev pub items : Bytes → Keyspace → List Bytes
items key d = or_empty (list_of (find key d))

lrange_found-position :
    (start end : ℤ) (i : ℕ) (o : Option (List Bytes))
    → length (or_empty o) < 2 ^ 31
    → IsInt32 start
    → IsInt32 end
    → get_elem? (lrange_found start end o) i ≡ (
        if leb_ℤ
          (pos (first_of (length (or_empty o)) start + i))
          (position (length (or_empty o)) end)
        then get_elem? (or_empty o) (first_of (length (or_empty o)) start + i)
        else none)
lrange_found-position start end i none h s t = ground arith
lrange_found-position start end i (some xs) h s t =
    rw (clamp_range-bounded (length xs) start end h s t)
      (slice-bounded xs (first_of (length xs) start) (position (length xs) end) i)

-- LRANGE of a list of fewer than 2 ^ 31 elements, with any two `int` arguments: the element at `i`
-- of the reply is the element of the list `i` places behind the first position, as long as that
-- place is not behind the position that the end means, and there is none beyond. A negative index
-- counts from the end of the list, and the first position is at least 0. A key that is missing or of
-- another type counts as an empty list.
pub lrange-position :
    (key : Bytes) (start end : ℤ) (d : Keyspace) (i : ℕ)
    → length (items key d) < 2 ^ 31
    → IsInt32 start
    → IsInt32 end
    → get_elem? (lrange key start end d) i ≡ (
        if leb_ℤ
          (pos (first_of (length (items key d)) start + i))
          (position (length (items key d)) end)
        then get_elem? (items key d) (first_of (length (items key d)) start + i)
        else none)
lrange-position key start end d i h s t =
    unfold lrange in lrange_found-position start end i (list_of (find key d)) h s t

at_index-past : (xs : List Bytes) (i : ℕ) → length xs ≤ i → at_index xs i ≡ []
at_index-past [] i h = refl
at_index-past (x ∷ xs) zero h = absurd (omega arith)
at_index-past (x ∷ xs) (suc i) h = at_index-past xs i (omega arith)

lindex_found-position :
    (index : ℤ) (o : Option (List Bytes))
    → length (or_empty o) < 2 ^ 31
    → IsInt32 index
    → lindex_found index o ≡ (
        if leb_ℤ (pos 0) (position (length (or_empty o)) index)
        then at_index (or_empty o) (pos_part (position (length (or_empty o)) index))
        else [])
lindex_found-position index none h s = ground arith
lindex_found-position index (some xs) h s =
    rw (from_front-position (length xs) index h s)
      (ground (arith, at_index-past xs (pos_part (position (length xs) index))))

-- LINDEX of a list of fewer than 2 ^ 31 elements, with any `int` argument: the element at the
-- position that the index means, where a negative index counts from the end, and the empty string if
-- no element is there. A key that is missing or of another type counts as an empty list.
pub lindex-position :
    (key : Bytes) (index : ℤ) (d : Keyspace)
    → length (items key d) < 2 ^ 31
    → IsInt32 index
    → lindex key index d ≡ (
        if leb_ℤ (pos 0) (position (length (items key d)) index)
        then at_index (items key d) (pos_part (position (length (items key d)) index))
        else [])
lindex-position key index d h s =
    unfold lindex in lindex_found-position index (list_of (find key d)) h s
