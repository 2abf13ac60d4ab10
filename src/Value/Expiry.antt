-- ===== src/Value/Expiry.antt =====
-- redis_value.h: the deadline of a value, where no sum leaves the range of `int64_t`.
use minimum_redis.Base.{
  ◌/◌, true, false, not, Bool-cases, inl, inr, if◌then◌else◌, ◌≡◌, refl, ap, ◌∙◌, arith,
}
use minimum_redis.Base.Int.{
  ℤ, pos, negsuc, pos_part, ◌+ℤ◌, ◌-ℤ◌, ltb_ℤ, leb_ℤ, eq_ℤ, IsInt64, wrap_64, wrap_64-id, scale,
}
use minimum_redis.Value.{
  RedisValue, is_expired, set_expiry_seconds, set_expiry_milliseconds, thousandth, ttl_seconds,
  ttl_milliseconds,
}

-- The value ends at a time other than the epoch.
pub record EndsAt (deadline : ℤ) (v : RedisValue) : Type 0 where
  pub ends : v.expiry_time ≡ deadline
  pub nonzero : eq_ℤ deadline (pos 0) ≡ false

leb_flip : (a b : ℤ) → leb_ℤ a b ≡ not (ltb_ℤ b a)
leb_flip a b = ground arith

-- A positive difference.
sub-pos : (a b : ℤ) → ltb_ℤ b a ≡ true → a -ℤ b ≡ pos (pos_part (a -ℤ b))
unfolding ◌-ℤ◌
sub-pos a b h = ground arith

thousandth-sub : (a b : ℤ) → ltb_ℤ b a ≡ true → thousandth (a -ℤ b) ≡ pos (pos_part (a -ℤ b) / 1000)
thousandth-sub a b h = ap thousandth (sub-pos a b h)

module _ (deadline t : ℤ) (v : RedisValue) (e : EndsAt deadline v) where
  pub is_expired-EndsAt : is_expired t v ≡ not (ltb_ℤ t deadline)
  unfolding is_expired
  is_expired-EndsAt = rw (e.ends, e.nonzero) (leb_flip deadline t)

  pub ttl_milliseconds-EndsAt :
      IsInt64 (deadline -ℤ t)
      → ttl_milliseconds t v ≡ (if ltb_ℤ t deadline then deadline -ℤ t else negsuc 1)
  unfolding ttl_milliseconds
  ttl_milliseconds-EndsAt h =
      rw (e.ends, e.nonzero, wrap_64-id (deadline -ℤ t) h, leb_flip deadline t)
        (elim (Bool-cases (ltb_ℤ t deadline)) [ inl s ↦ rw s refl | inr s ↦ rw s refl ])

  pub ttl_seconds-EndsAt :
      IsInt64 (deadline -ℤ t)
      → ttl_seconds t v
        ≡ (if ltb_ℤ t deadline then pos (pos_part (deadline -ℤ t) / 1000) else negsuc 1)
  unfolding ttl_seconds
  ttl_seconds-EndsAt h =
      rw (e.ends, e.nonzero, wrap_64-id (deadline -ℤ t) h, leb_flip deadline t)
        (elim (Bool-cases (ltb_ℤ t deadline)) [
          | inl s ↦ rw s (thousandth-sub deadline t s)
          | inr s ↦ rw s refl
        ])

pub set_expiry_milliseconds-EndsAt :
    (now ms : ℤ) (v : RedisValue)
    → IsInt64 (now +ℤ ms)
    → eq_ℤ (now +ℤ ms) (pos 0) ≡ false
    → EndsAt (now +ℤ ms) (set_expiry_milliseconds now ms v)
unfolding set_expiry_milliseconds
set_expiry_milliseconds-EndsAt now ms v bounded nonzero = record {
  ends = wrap_64-id (now +ℤ ms) bounded;
  nonzero = nonzero;
}

pub set_expiry_seconds-EndsAt :
    (now s : ℤ) (v : RedisValue)
    → IsInt64 (scale 1000 s)
    → IsInt64 (now +ℤ scale 1000 s)
    → eq_ℤ (now +ℤ scale 1000 s) (pos 0) ≡ false
    → EndsAt (now +ℤ scale 1000 s) (set_expiry_seconds now s v)
unfolding set_expiry_seconds
set_expiry_seconds-EndsAt now s v small bounded nonzero = record {
  ends =
      ap (λ ms. wrap_64 (now +ℤ ms)) (wrap_64-id (scale 1000 s) small)
      ∙ wrap_64-id (now +ℤ scale 1000 s) bounded;
  nonzero = nonzero;
}
