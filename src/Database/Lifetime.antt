-- ===== src/Database/Lifetime.antt =====
-- db.cpp: how long a key lives after EXPIRE and PEXPIRE, and what TTL and PTTL tell.
use minimum_redis.Base.{
  ◌/◌, ◌&&◌, true, false, not, some, Bytes, if◌then◌else◌, ◌≡◌, refl, ap, ◌∙◌, Bool-cases, inl, inr,
}
use minimum_redis.Base.Int.{ℤ, pos, negsuc, pos_part, ◌+ℤ◌, ◌-ℤ◌, ltb_ℤ, eq_ℤ, IsInt64, scale}
use minimum_redis.Dict.{find}
use minimum_redis.Dict.Laws.{find-put_self}
use minimum_redis.Value.{
  RedisValue, is_expired, set_expiry_seconds, set_expiry_milliseconds, ttl_seconds,
  ttl_milliseconds,
}
use minimum_redis.Value
use minimum_redis.Value.Expiry.{
  EndsAt, is_expired-EndsAt, ttl_milliseconds-EndsAt, ttl_seconds-EndsAt,
  set_expiry_milliseconds-EndsAt, set_expiry_seconds-EndsAt,
}
use minimum_redis.Database.{Keyspace, exists, expire, pexpire, persist, ttl, pttl, change_found}

-- What a client sees at the time `t` of a key that ends at `deadline`: it is there exactly before
-- that time. TTL and PTTL read the clock again, at `later`, and tell what is then left of it.
pub record Lives (deadline : ℤ) (key : Bytes) (d : Keyspace) (t later : ℤ) : Type 0 where
  pub there : (exists t key d).1 ≡ ltb_ℤ t deadline
  pub millis :
      (pttl t later key d).1
      ≡ (if ltb_ℤ t deadline && ltb_ℤ later deadline then deadline -ℤ later else negsuc 1)
  pub seconds : (ttl t later key d).1 ≡ (
      if ltb_ℤ t deadline && ltb_ℤ later deadline
      then pos (pos_part (deadline -ℤ later) / 1000)
      else negsuc 1)

EndsAt-Lives :
    (deadline t later : ℤ) (key : Bytes) (d : Keyspace) (v : RedisValue)
    → find key d ≡ some v
    → EndsAt deadline v
    → IsInt64 (deadline -ℤ later)
    → Lives deadline key d t later
EndsAt-Lives deadline t later key d v found e range =
    let expired = is_expired-EndsAt deadline t v e in
    let millis = ttl_milliseconds-EndsAt deadline later v e range in
    let seconds = ttl_seconds-EndsAt deadline later v e range in
    elim (Bool-cases (ltb_ℤ t deadline)) [
      | inl early ↦
          let live : is_expired t v ≡ false = expired ∙ ap not early in
          record {
            there = unfold exists in rw (found, live, early) refl;
            millis = unfold pttl in rw (found, live, early) millis;
            seconds = unfold ttl in rw (found, live, early) seconds;
          }
      | inr late ↦
          let dead : is_expired t v ≡ true = expired ∙ ap not late in
          record {
            there = unfold exists in rw (found, dead, late) refl;
            millis = unfold pttl in rw (found, dead, late) refl;
            seconds = unfold ttl in rw (found, dead, late) refl;
          }
    ]

-- A live key: it has a value, and no deadline that has passed.
pub record IsLive (now : ℤ) (key : Bytes) (d : Keyspace) : Type 0 where
  pub value : RedisValue
  pub found : find key d ≡ some value
  pub live : is_expired now value ≡ false

find-change_found :
    (now : ℤ) (key : Bytes) (f : RedisValue → RedisValue) (d : Keyspace) (k : IsLive now key d)
    → find key (change_found now key f d (find key d)).0 ≡ some (f k.value)
find-change_found now key f d k = rw (k.found, k.live) (find-put_self key (f k.value) d)

-- The clock is read at `later` for the deadline of PEXPIRE, and at `t` and `t'` behind it.
pub pexpire-Lives :
    (now later ms t t' : ℤ) (key : Bytes) (d : Keyspace)
    → IsLive now key d
    → IsInt64 (later +ℤ ms)
    → eq_ℤ (later +ℤ ms) (pos 0) ≡ false
    → IsInt64 (later +ℤ ms -ℤ t')
    → Lives (later +ℤ ms) key (pexpire now later key ms d).0 t t'
pexpire-Lives now later ms t t' key d k bounded nonzero range =
    EndsAt-Lives (later +ℤ ms) t t' key _ (set_expiry_milliseconds later ms k.value)
      (unfold pexpire in find-change_found now key _ d k)
      (set_expiry_milliseconds-EndsAt later ms k.value bounded nonzero) range

-- After EXPIRE of a live key by `s` seconds, which may be negative, at the clock reading `later`,
-- where the deadline `later` + 1000 `s` is not the epoch, and neither it nor 1000 `s` leaves the
-- range of `int64_t`: EXISTS at a time `t` finds the key exactly if `t` is before the deadline. PTTL
-- and TTL, which read the clock at `t` and then at `t'`, from which the deadline is at a distance in
-- that range, tell the time left at `t'` in milliseconds and in whole seconds if both are before the
-- deadline, and otherwise -2.
pub expire-Lives :
    (now later s t t' : ℤ) (key : Bytes) (d : Keyspace)
    → IsLive now key d
    → IsInt64 (scale 1000 s)
    → IsInt64 (later +ℤ scale 1000 s)
    → eq_ℤ (later +ℤ scale 1000 s) (pos 0) ≡ false
    → IsInt64 (later +ℤ scale 1000 s -ℤ t')
    → Lives (later +ℤ scale 1000 s) key (expire now later key s d).0 t t'
expire-Lives now later s t t' key d k small bounded nonzero range =
    EndsAt-Lives (later +ℤ scale 1000 s) t t' key _ (set_expiry_seconds later s k.value)
      (unfold expire in find-change_found now key _ d k)
      (set_expiry_seconds-EndsAt later s k.value small bounded nonzero) range

-- After PERSIST of a live key, EXISTS finds it at every time, and TTL and PTTL tell -1.
pub persist-forever :
    (now t : ℤ) (key : Bytes) (d : Keyspace)
    → IsLive now key d
    → ((exists t key (persist now key d).0).1 ≡ true)
      × ((ttl t t key (persist now key d).0).1 ≡ negsuc 0)
      × ((pttl t t key (persist now key d).0).1 ≡ negsuc 0)
persist-forever now t key d k =
    let found : find key (persist now key d).0 ≡ some (Value.persist k.value) =
      unfold persist in find-change_found now key Value.persist d k in
    let live : is_expired t (Value.persist k.value) ≡ false =
      unfold is_expired Value.persist in refl in
    (
      unfold exists in rw (found, live),
      unfold ttl in rw (found, live) (unfold ttl_seconds Value.persist in refl),
      unfold pttl in rw (found, live) (unfold ttl_milliseconds Value.persist in refl),
    )
