-- ===== src/DataStore.antt =====
-- data_store.cpp: class DataStore, the store behind the handlers' interfaces, which the build does
-- not use yet. A time is a number of nanoseconds of the steady clock; the zero time means that there
-- is no expiry. The mutex and the memory pool are left out.
pub mod Cleanup
pub mod Versions
use minimum_redis.Base.{
  ℕ, suc, ◌+◌, ◌*◌, ◌/◌, ◌%◌, ◌^◌, ◌&&◌, ◌||◌, not, Bool, true, false, Option, none, some, List, [],
  ◌∷◌, ◌++◌, Bytes, text, equal, if◌then◌else◌,
}
use minimum_redis.Base.Int.{
  ℤ, pos, negsuc, ◌+ℤ◌, ◌-ℤ◌, eq_ℤ, ltb_ℤ, leb_ℤ, pos_part, scale, wrap_64,
}
use minimum_redis.Dict.{Dict, find, put, erase}
use minimum_redis.Value.{RedisType, RedisValue}

pub record KeyValuePair : Type 0 where
  pub value : RedisValue
  pub mod_count : ℕ
  pub expiry_time : ℤ

-- The map, and the counter of `generate_mod_count`, a word of 64 bits.
pub record DataStore : Type 0 where
  pub entries : Dict KeyValuePair
  pub counter : ℕ

unfoldable pub new_store : DataStore
new_store = record { entries = []; counter = 1 }

-- `now` is what the clock gives.
unfoldable pub is_expired : ℤ → KeyValuePair → Bool
is_expired now kvp = not (eq_ℤ kvp.expiry_time (pos 0)) && ltb_ℤ kvp.expiry_time now

-- The entry of a key, if it is there and has not expired.
abbrev pub unexpired : ℤ → Option KeyValuePair → Option KeyValuePair
unexpired now none = none
unexpired now (some kvp) = if is_expired now kvp then none else some kvp

unfoldable pub live : ℤ → Bytes → DataStore → Option KeyValuePair
unfolding find is_expired
live now key s = unexpired now (find key s.entries)

-- `generate_mod_count()` for the entry that is written.
unfoldable pub write : Bytes → KeyValuePair → DataStore → DataStore
unfolding put
write key kvp s = record {
  entries = put key (record kvp { mod_count = s.counter }) s.entries;
  counter = (s.counter + 1) % 2 ^ 64;
}

abbrev pub entry_or_new : RedisValue → Option KeyValuePair → KeyValuePair
entry_or_new value none = record { value = value; mod_count = 0; expiry_time = pos 0 }
entry_or_new value (some kvp) = record kvp { value = value }

-- The expiry of the entry stays.
unfoldable pub set : Bytes → RedisValue → DataStore → DataStore
unfolding find write
set key value s = write key (entry_or_new value (find key s.entries)) s

abbrev pub value_of : Option KeyValuePair → Option RedisValue
value_of none = none
value_of (some kvp) = some kvp.value

unfoldable pub get : ℤ → Bytes → DataStore → Option RedisValue
unfolding live
get now key s = value_of (live now key s)

abbrev pub is_some {ℓ} : {A : Type ℓ} → Option A → Bool
is_some none = false
is_some (some a) = true

-- The count is written to the entry that is erased, so only the counter tells.
abbrev pub erased : Bytes → DataStore → DataStore × Bool
erased key s = (record { entries = erase key s.entries; counter = (s.counter + 1) % 2 ^ 64 }, true)

unfoldable pub del : ℤ → Bytes → DataStore → DataStore × Bool
unfolding live erase
del now key s = if is_some (live now key s) then erased key s else (s, false)

unfoldable pub exists : ℤ → Bytes → DataStore → Bool
unfolding live
exists now key s = is_some (live now key s)

-- The clock is read for each entry.
unfoldable pub cleanup : (ℕ → ℤ) → Dict KeyValuePair → Dict KeyValuePair
unfolding is_expired
cleanup clock [] = []
cleanup clock ((key, kvp) ∷ m) =
    let rest = cleanup (λ i. clock (suc i)) m in
    if is_expired (clock 0) kvp then rest else (key, kvp) ∷ rest

-- `key.find(pattern) != npos`
abbrev pub starts_with : Bytes → Bytes → Bool
starts_with [] s = true
starts_with (c ∷ p) [] = false
starts_with (c ∷ p) (d ∷ s) = equal (c ∷ []) (d ∷ []) && starts_with p s

unfoldable pub has_part : Bytes → Bytes → Bool
has_part pattern [] = starts_with pattern []
has_part pattern (c ∷ s) = starts_with pattern (c ∷ s) || has_part pattern s

unfoldable pub matching : Bytes → Dict KeyValuePair → List Bytes
unfolding has_part equal text
matching pattern [] = []
matching pattern ((key, kvp) ∷ m) =
    let rest = matching pattern m in
    if equal pattern (text "*") || has_part pattern key then key ∷ rest else rest

unfoldable pub keys : (ℕ → ℤ) → Bytes → DataStore → DataStore × List Bytes
unfolding cleanup matching
keys clock pattern s =
    let kept = cleanup clock s.entries in (record s { entries = kept }, matching pattern kept)

unfoldable pub dbsize : (ℕ → ℤ) → Dict KeyValuePair → ℕ
unfolding is_expired
dbsize clock [] = 0
dbsize clock ((key, kvp) ∷ m) =
    let rest = dbsize (λ i. clock (suc i)) m in if is_expired (clock 0) kvp then rest else suc rest

-- An entry that is there gets another time.
abbrev pub with_expiry : Bytes → ℤ → DataStore → Option KeyValuePair → DataStore × Bool
with_expiry key time s none = (s, false)
with_expiry key time s (some kvp) = (write key (record kvp { expiry_time = time }) s, true)

-- `later` is the second reading of the clock.
unfoldable pub expire : ℤ → ℤ → Bytes → ℤ → DataStore → DataStore × Bool
unfolding live write wrap_64 scale ◌+ℤ◌
expire now later key seconds s =
    with_expiry key (wrap_64 (later +ℤ scale (10 ^ 9) seconds)) s (live now key s)

unfoldable pub pexpire : ℤ → ℤ → Bytes → ℤ → DataStore → DataStore × Bool
unfolding live write wrap_64 scale ◌+ℤ◌
pexpire now later key milliseconds s =
    with_expiry key (wrap_64 (later +ℤ scale (10 ^ 6) milliseconds)) s (live now key s)

unfoldable pub persist : ℤ → Bytes → DataStore → DataStore × Bool
unfolding live write
persist now key s = with_expiry key (pos 0) s (live now key s)

-- What is left in units of some nanoseconds; an entry without an expiry counts as past.
abbrev pub left_in : ℕ → ℤ → Option KeyValuePair → ℤ
left_in unit later none = negsuc 1
left_in unit later (some kvp) =
    if leb_ℤ kvp.expiry_time later
    then negsuc 1
    else pos (pos_part (wrap_64 (kvp.expiry_time -ℤ later)) / unit)

unfoldable pub ttl : ℤ → ℤ → Bytes → DataStore → ℤ
unfolding live wrap_64 ◌-ℤ◌
ttl now later key s = left_in (10 ^ 9) later (live now key s)

unfoldable pub pttl : ℤ → ℤ → Bytes → DataStore → ℤ
unfolding live wrap_64 ◌-ℤ◌
pttl now later key s = left_in (10 ^ 6) later (live now key s)

abbrev pub count_of : Option KeyValuePair → ℕ
count_of none = 0
count_of (some kvp) = kvp.mod_count

unfoldable pub get_mod_count : Bytes → DataStore → ℕ
unfolding find
get_mod_count key s = count_of (find key s.entries)

abbrev pub counted : Bytes → DataStore → Option KeyValuePair → DataStore
counted key s none = s
counted key s (some kvp) = write key kvp s

unfoldable pub increment_mod_count : Bytes → DataStore → DataStore
unfolding find write
increment_mod_count key s = counted key s (find key s.entries)

abbrev pub type_of : Option KeyValuePair → RedisType
type_of none = RedisType.string
type_of (some kvp) = kvp.value.type

unfoldable pub type : ℤ → Bytes → DataStore → RedisType
unfolding live
type now key s = type_of (live now key s)
