-- ===== src/DataStore/Versions.antt =====
-- data_store.cpp: an entry that has its old modification count has not been written.
use minimum_redis.Base.{
  ℕ, ◌+◌, ◌%◌, ◌^◌, ◌≤◌, ◌<◌, Bool, true, false, Option, none, some, Bytes, equal, if◌then◌else◌,
  ◌⊎◌, inl, inr, ◌≡◌, refl, sym, ap, ◌∙◌, subst, arith,
}
use minimum_redis.Base.Int.{ℤ}
use minimum_redis.Dict.{find, Unique}
use minimum_redis.Dict.Laws.{find-put, find-erase, put-Unique, erase-Unique}
use minimum_redis.Value.{RedisValue}
use minimum_redis.DataStore.{
  KeyValuePair, DataStore, new_store, live, write, entry_or_new, set, is_some, erased, del, keys,
  with_expiry, expire, pexpire, persist, count_of, get_mod_count, counted, increment_mod_count,
}
use minimum_redis.DataStore.Cleanup.{cleanup-Unique, find-cleanup}

-- The operations that change the store.
pub data Step (s : DataStore) : DataStore → Type 0 where
  sets : (key : Bytes) (value : RedisValue) → Step s (set key value s)
  deletes : (now : ℤ) (key : Bytes) → Step s (del now key s).0
  lists : (clock : ℕ → ℤ) (pattern : Bytes) → Step s (keys clock pattern s).0
  expires : (now later : ℤ) (key : Bytes) (seconds : ℤ) → Step s (expire now later key seconds s).0
  pexpires :
      (now later : ℤ) (key : Bytes) (milliseconds : ℤ)
      → Step s (pexpire now later key milliseconds s).0
  persists : (now : ℤ) (key : Bytes) → Step s (persist now key s).0
  increments : (key : Bytes) → Step s (increment_mod_count key s)

-- Some operations one after the other, while the counter does not come back to 0.
pub data Runs (s : DataStore) : DataStore → Type 0 where
  here : Runs s s
  followed : {t u : DataStore} → Runs s t → t.counter + 1 < 2 ^ 64 → Step t u → Runs s u

-- An entry is as it was, or gone, or counted anew.
abbrev Kept : ℕ → Option KeyValuePair → Option KeyValuePair → Type 0
Kept n a b = (b ≡ a) ⊎ ((b ≡ none) ⊎ ((kvp : KeyValuePair) × (b ≡ some kvp) × (n ≤ kvp.mod_count)))

record Later (s t : DataStore) : Type 0 where
  counted_on : s.counter ≤ t.counter
  kept : (key : Bytes) → Kept s.counter (find key s.entries) (find key t.entries)

-- No key stands twice, and the counts are below the counter.
abbrev CountIn : ℕ → Option KeyValuePair → Type 0
CountIn n none = Unit
CountIn n (some kvp) = (1 ≤ kvp.mod_count) × (kvp.mod_count < n)

pub record IsVersioned (s : DataStore) : Type 0 where
  pub starts : 1 ≤ s.counter
  pub once : Unique s.entries
  pub below : (key : Bytes) → CountIn s.counter (find key s.entries)

CountIn-if :
    (n : ℕ) (b : Bool) (x y : Option KeyValuePair)
    → CountIn n x
    → CountIn n y
    → CountIn n (if b then x else y)
CountIn-if n true x y h k = h
CountIn-if n false x y h k = k

CountIn-weaken : {n m : ℕ} (o : Option KeyValuePair) → n ≤ m → CountIn n o → CountIn m o
CountIn-weaken none le h = tt
CountIn-weaken (some kvp) le h = (h.0, omega (arith, h.1))

Kept-if :
    (n : ℕ) (b : Bool) (a x y : Option KeyValuePair)
    → Kept n a x
    → Kept n a y
    → Kept n a (if b then x else y)
Kept-if n true a x y h k = h
Kept-if n false a x y h k = k

Later-refl : (s : DataStore) → Later s s
Later-refl s = record { counted_on = omega arith; kept = λ key. inl refl }

-- A store and its invariant, changed in one of the three ways.
abbrev Good : DataStore → DataStore → Type 0
Good s t = IsVersioned s → Later s t × IsVersioned t

stays : (s : DataStore) → Good s s
stays s v = (Later-refl s, v)

write-Good :
    (key : Bytes) (kvp : KeyValuePair) (s : DataStore)
    → s.counter + 1 < 2 ^ 64
    → Good s (write key kvp s)
unfolding write
write-Good key kvp s h v =
    let new = record kvp { mod_count = s.counter } in
    let more : (s.counter + 1) % 2 ^ 64 ≡ s.counter + 1 = omega arith in
    (
      record {
        counted_on = omega (arith, more);
        kept = λ j. subst (Kept s.counter (find j s.entries)) (sym (find-put key j new s.entries)) (
            Kept-if s.counter (equal key j) (find j s.entries) (some new) (find j s.entries)
              (inr (inr (new, refl, omega arith))) (inl refl));
      },
      record {
        starts = omega (arith, more);
        once = put-Unique key new s.entries v.once;
        below = λ j.
            subst (CountIn ((s.counter + 1) % 2 ^ 64)) (sym (find-put key j new s.entries)) (
              CountIn-if ((s.counter + 1) % 2 ^ 64) (equal key j) (some new) (find j s.entries)
                (v.starts, omega (arith, more))
                (CountIn-weaken (find j s.entries) (omega (arith, more)) (v.below j)));
      },
    )

erased-Good : (key : Bytes) (s : DataStore) → s.counter + 1 < 2 ^ 64 → Good s (erased key s).0
erased-Good key s h v =
    let more : (s.counter + 1) % 2 ^ 64 ≡ s.counter + 1 = omega arith in
    (
      record {
        counted_on = omega (arith, more);
        kept = λ j. subst (Kept s.counter (find j s.entries)) (sym (find-erase key j s.entries)) (
            Kept-if s.counter (equal key j) (find j s.entries) none (find j s.entries)
              (inr (inl refl)) (inl refl));
      },
      record {
        starts = omega (arith, more);
        once = erase-Unique key s.entries v.once;
        below = λ j. subst (CountIn ((s.counter + 1) % 2 ^ 64)) (sym (find-erase key j s.entries)) (
            CountIn-if ((s.counter + 1) % 2 ^ 64) (equal key j) none (find j s.entries) tt
              (CountIn-weaken (find j s.entries) (omega (arith, more)) (v.below j)));
      },
    )

keys-Good : (clock : ℕ → ℤ) (pattern : Bytes) (s : DataStore) → Good s (keys clock pattern s).0
unfolding keys
keys-Good clock pattern s v = (
  record {
    counted_on = omega arith;
    kept =
        λ j. elim (find-cleanup clock j s.entries v.once) [ inl e ↦ inl e | inr e ↦ inr (inl e) ];
  },
  record {
    starts = v.starts;
    once = cleanup-Unique clock s.entries v.once;
    below = λ j. elim (find-cleanup clock j s.entries v.once) [
      | inl e ↦ subst (CountIn s.counter) (sym e) (v.below j)
      | inr e ↦ subst (CountIn s.counter) (sym e) tt
    ];
  },
)

if-Good :
    (s : DataStore) (b : Bool) (x y : DataStore × Bool)
    → Good s x.0
    → Good s y.0
    → Good s (if b then x else y).0
if-Good s true x y h k = h
if-Good s false x y h k = k

with_expiry-Good :
    (key : Bytes) (time : ℤ) (s : DataStore) (o : Option KeyValuePair)
    → s.counter + 1 < 2 ^ 64
    → Good s (with_expiry key time s o).0
with_expiry-Good key time s none h = stays s
with_expiry-Good key time s (some kvp) h = write-Good key (record kvp { expiry_time = time }) s h

counted-Good :
    (key : Bytes) (s : DataStore) (o : Option KeyValuePair)
    → s.counter + 1 < 2 ^ 64
    → Good s (counted key s o)
counted-Good key s none h = stays s
counted-Good key s (some kvp) h = write-Good key kvp s h

Step-Good : (s t : DataStore) → s.counter + 1 < 2 ^ 64 → Step s t → Good s t
Step-Good s t h (sets key value) =
    unfold set in write-Good key (entry_or_new value (find key s.entries)) s h
Step-Good s t h (deletes now key) =
    unfold del in
    if-Good s (is_some (live now key s)) (erased key s) (s, false) (erased-Good key s h) (stays s)
Step-Good s t h (lists clock pattern) = keys-Good clock pattern s
Step-Good s t h (expires now later key seconds) =
    unfold expire in with_expiry-Good key _ s (live now key s) h
Step-Good s t h (pexpires now later key milliseconds) =
    unfold pexpire in with_expiry-Good key _ s (live now key s) h
Step-Good s t h (persists now key) = unfold persist in with_expiry-Good key _ s (live now key s) h
Step-Good s t h (increments key) =
    unfold increment_mod_count in counted-Good key s (find key s.entries) h

Kept-trans : (n m : ℕ) (a b c : Option KeyValuePair) → n ≤ m → Kept n a b → Kept m b c → Kept n a c
Kept-trans n m a b c le h (inl e) = subst (Kept n a) (sym e) h
Kept-trans n m a b c le h (inr (inl e)) = inr (inl e)
Kept-trans n m a b c le h (inr (inr (kvp, e, newer))) = inr (inr (kvp, e, omega arith))

Later-trans : (s t u : DataStore) → Later s t → Later t u → Later s u
Later-trans s t u h k = record {
  counted_on = omega (arith, h.counted_on, k.counted_on);
  kept = λ key.
      Kept-trans s.counter t.counter (find key s.entries) (find key t.entries) (find key u.entries)
        h.counted_on (h.kept key) (k.kept key);
}

Runs-Good : (s t : DataStore) → Runs s t → Good s t
Runs-Good s t here v = (Later-refl s, v)
Runs-Good s t (followed {t = u} before room step) v =
    let (later, good) = Runs-Good s u before v in
    let (last, end) = Step-Good u t room step good in (Later-trans s u t later last, end)

pub new_store-IsVersioned : IsVersioned new_store
unfolding new_store
new_store-IsVersioned = record { starts = omega arith; once = tt; below = λ key. unfold find in tt }

pub Runs-IsVersioned : (s t : DataStore) → Runs s t → IsVersioned s → IsVersioned t
Runs-IsVersioned s t runs v = (Runs-Good s t runs v).1

same_count :
    (n : ℕ) (a b : Option KeyValuePair) (kvp : KeyValuePair)
    → a ≡ some kvp
    → CountIn n a
    → Kept n a b
    → count_of b ≡ kvp.mod_count
    → b ≡ a
same_count n a b kvp e h (inl same) count = same
same_count n a b kvp e h (inr (inl gone)) count =
    let low = subst (CountIn n) e h in
    let zero_count = ap count_of (sym gone) ∙ count in absurd (omega (arith, low, zero_count))
same_count n a b kvp e h (inr (inr (other, new, newer))) count =
    let low = subst (CountIn n) e h in
    let same_number = ap count_of (sym new) ∙ count in
    absurd (omega (arith, low, newer, same_number))

-- Whatever operations take one store to another, while the counter does not come back to 0: where no
-- key stands twice and the counts are below the counter, both hold of the later store too; and a key
-- whose modification count is that of its entry in the earlier store has this entry still, with its
-- value and its expiry.
pub get_mod_count-same :
    (s t : DataStore) (key : Bytes) (kvp : KeyValuePair)
    → IsVersioned s
    → Runs s t
    → find key s.entries ≡ some kvp
    → get_mod_count key t ≡ kvp.mod_count
    → IsVersioned t × (find key t.entries ≡ some kvp)
unfolding get_mod_count
get_mod_count-same s t key kvp v runs there count =
    let (later, good) = Runs-Good s t runs v in
    (
      good,
      same_count s.counter (find key s.entries) (find key t.entries) kvp there (v.below key)
            (later.kept key) count
          ∙ there,
    )
