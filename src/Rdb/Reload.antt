-- ===== src/Rdb/Reload.antt =====
-- db.cpp: what `load_rdb` makes of the files of `save_rdb`.
use minimum_redis.Base.{ℕ, Bool, false, not, ◌&&◌, [], ◌∷◌, Bytes, ◌==◌, ◌≡◌}
use minimum_redis.Base.Int.{pos, ltb_ℤ}
use minimum_redis.Value.{RedisType, same_type}
use minimum_redis.Database.{Keyspace}

-- The file starts with a string that does not expire.
abbrev pub plain_first : Keyspace → Bool
plain_first [] = false
plain_first ((key, v) ∷ d) = same_type v.type RedisType.string && not (ltb_ℤ (pos 0) v.expiry_time)

-- The byte behind the database's number.
abbrev pub Leads : Bytes → Type 0
Leads s = (b : ℕ) × (rest : Bytes) × (s ≡ b ∷ rest) × ((b == 0) ≡ false)
