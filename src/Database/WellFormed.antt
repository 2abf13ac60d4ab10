-- ===== src/Database/WellFormed.antt =====
-- db.cpp: what every operation keeps, and what every operation leaves alone.
use minimum_redis.Base.{
  Bool, true, false, Option, none, some, [], Bytes, equal, if◌then◌else◌, ◌≡◌, refl, ◌∙◌,
}
use minimum_redis.Dict.{find, Unique}
use minimum_redis.Dict.Laws.{find-put, find-erase, put-Unique, erase-Unique}
use minimum_redis.Value.{RedisType, RedisValue, new_value}
use minimum_redis.Database.{Keyspace, or_new}
use minimum_redis.Database.SortedSets.Consistent.{scores_of}
use minimum_redis.Database.Step.{Step, Reach, here, next}
use minimum_redis.Database.Change.{Change, same, dropped, written, IsSound, Step-Change}

abbrev pub SoundAt : Option RedisValue → Type 0
SoundAt none = Unit
SoundAt (some v) = IsSound v

-- No key stands twice, and every value's containers are sound, whatever the value's type.
pub record IsWellFormed (d : Keyspace) : Type 0 where
  pub keys_once : Unique d
  pub sound : (key : Bytes) → SoundAt (find key d)

new-IsSound : (t : RedisType) → IsSound (new_value t)
new-IsSound t = record {
  members_once = tt;
  fields_once = tt;
  zset_agrees = record { agree = λ m. unfold scores_of find in refl; sorted = tt; numbers = tt };
}

or_new-IsSound : (o : Option RedisValue) → SoundAt o → IsSound (or_new o)
or_new-IsSound none s = new-IsSound RedisType.string
or_new-IsSound (some v) s = s

SoundAt-if :
    (b : Bool) (x y : Option RedisValue) → SoundAt x → SoundAt y → SoundAt (if b then x else y)
SoundAt-if true x y h k = h
SoundAt-if false x y h k = k

Change-IsWellFormed :
    {key : Bytes} {d e : Keyspace} → Change key d e → IsWellFormed d → IsWellFormed e
Change-IsWellFormed same w = w
Change-IsWellFormed {key} {d} dropped w = record {
  keys_once = erase-Unique key d w.keys_once;
  sound = λ k. rw find-erase (SoundAt-if (equal key k) none (find k d) tt (w.sound k));
}
Change-IsWellFormed {key} {d} (written v h) w = record {
  keys_once = put-Unique key v d w.keys_once;
  sound = λ k. rw find-put (
      SoundAt-if (equal key k) (some v) (find k d) (h (or_new-IsSound (find key d) (w.sound key)))
        (w.sound k));
}

Change-frame :
    {key : Bytes} {d e : Keyspace}
    → Change key d e
    → (k : Bytes) → equal key k ≡ false
    → find k e ≡ find k d
Change-frame same k ne = refl
Change-frame {key} {d} dropped k ne = find-erase key k d ∙ rw ne
Change-frame {key} {d} (written v h) k ne = find-put key k v d ∙ rw ne

-- Whatever sequence of operations takes one map to another, from a well-formed map it leads to a
-- well-formed one: no key, no member of a set and no field of a hash stands twice, and in each
-- sorted set the two maps agree and the entries are in the order of their scores. Each operation
-- may read any clock; ZADD is given no NaN.
pub Reach-IsWellFormed : {d e : Keyspace} → Reach d e → IsWellFormed d → IsWellFormed e
Reach-IsWellFormed here w = w
Reach-IsWellFormed (next {e} key r s) w =
    Change-IsWellFormed (Step-Change key e s) (Reach-IsWellFormed r w)

-- An operation on one key leaves the value of every other key as it is, expired or not.
pub Step-frame :
    (key k : Bytes) (d e : Keyspace) → Step key d e → equal key k ≡ false → find k e ≡ find k d
Step-frame key k d e s ne = Change-frame (Step-Change key d s) k ne

pub empty-IsWellFormed : IsWellFormed []
empty-IsWellFormed = record { keys_once = tt; sound = λ key. unfold find in tt }
