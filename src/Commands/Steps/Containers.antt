-- ===== src/Commands/Steps/Containers.antt =====
-- commands.cpp: the handlers of lists and sets change the map by operations alone.
use minimum_redis.Base.{Option, none, some, [], ◌∷◌, Bytes}
use minimum_redis.Base.Int.{ℤ}
use minimum_redis.Base.Number.{stoi}
use minimum_redis.Resp.Value.{str_val}
use minimum_redis.Database.{Keyspace}
use minimum_redis.Database.Lists.{lpop, rpop, lindex}
use minimum_redis.Database.Step.{Step, Reach, here, next}
use minimum_redis.Commands.Reply.{Clock, is_bulk}
use minimum_redis.Commands.Lists.{
  popped, indexed, index_at, handle_lpush, handle_rpush, handle_lpop, handle_rpop, handle_llen,
  handle_lrange, handle_lindex,
}
use minimum_redis.Commands.Sets.{
  handle_sadd, handle_srem, handle_sismember, handle_scard, handle_smembers, handle_sinter,
  handle_sunion, handle_sdiff,
}
use minimum_redis.Commands.Steps.{
  Keeps, if-Reach, with_key-Reach, with_two-Reach, with_values-Reach, with_keys-Reach,
  changed-Reach,
}

pub handle_lpush-Keeps : Keeps handle_lpush
unfolding handle_lpush
handle_lpush-Keeps now args d =
    with_values-Reach _ _ _ _ args d
      (λ key values. next key (next key here (Step.lpush values)) Step.increment_mod_count)

pub handle_rpush-Keeps : Keeps handle_rpush
unfolding handle_rpush
handle_rpush-Keeps now args d =
    with_values-Reach _ _ _ _ args d
      (λ key values. next key (next key here (Step.rpush values)) Step.increment_mod_count)

popped-Reach :
    {d : Keyspace} (now : Clock) (key : Bytes) (r : Keyspace × Bytes)
    → Reach d r.0
    → Reach d (popped now key r).0
popped-Reach now key (e, []) h =
    let there = next key h (Step.exists (now 0)) in
    if-Reach _ _ _ there (next key there Step.increment_mod_count)
popped-Reach now key (e, c ∷ s) h = next key h Step.increment_mod_count

pub handle_lpop-Keeps : Keeps handle_lpop
unfolding handle_lpop
handle_lpop-Keeps now args d =
    with_key-Reach _ _ _ args d (λ key. popped-Reach now key (lpop key d) (next key here Step.lpop))

pub handle_rpop-Keeps : Keeps handle_rpop
unfolding handle_rpop
handle_rpop-Keeps now args d =
    with_key-Reach _ _ _ args d (λ key. popped-Reach now key (rpop key d) (next key here Step.rpop))

pub handle_llen-Keeps : Keeps handle_llen
unfolding handle_llen
handle_llen-Keeps now args d =
    with_key-Reach _ _ _ args d (λ key. next key here (Step.llen (now 0)))

pub handle_lrange-Keeps : Keeps handle_lrange
unfolding handle_lrange
handle_lrange-Keeps now [] d = here
handle_lrange-Keeps now (c ∷ []) d = here
handle_lrange-Keeps now (c ∷ k ∷ []) d = here
handle_lrange-Keeps now (c ∷ k ∷ s ∷ []) d = here
handle_lrange-Keeps now (c ∷ k ∷ s ∷ e ∷ []) d = here
handle_lrange-Keeps now (c ∷ k ∷ s ∷ e ∷ f ∷ more) d = here

indexed-Reach :
    (now : Clock) (key : Bytes) (d : Keyspace) (v : Bytes) → Reach d (indexed now key d v).0
indexed-Reach now key d [] = next key here (Step.exists (now 0))
indexed-Reach now key d (c ∷ s) = here

index_at-Reach :
    (now : Clock) (key : Bytes) (d : Keyspace) (index : Option ℤ)
    → Reach d (index_at now key d index).0
index_at-Reach now key d none = here
index_at-Reach now key d (some i) = indexed-Reach now key d (lindex key i d)

pub handle_lindex-Keeps : Keeps handle_lindex
unfolding handle_lindex
handle_lindex-Keeps now [] d = here
handle_lindex-Keeps now (c ∷ []) d = here
handle_lindex-Keeps now (c ∷ k ∷ []) d = here
handle_lindex-Keeps now (c ∷ k ∷ i ∷ []) d =
    if-Reach (is_bulk k) (index_at now (str_val k) d (stoi (str_val i))) (d, _)
      (index_at-Reach now (str_val k) d (stoi (str_val i))) here
handle_lindex-Keeps now (c ∷ k ∷ i ∷ j ∷ more) d = here

pub handle_sadd-Keeps : Keeps handle_sadd
unfolding handle_sadd
handle_sadd-Keeps now args d =
    with_values-Reach _ _ _ _ args d
      (λ key members. changed-Reach key _ (next key here (Step.sadd members)))

pub handle_srem-Keeps : Keeps handle_srem
unfolding handle_srem
handle_srem-Keeps now args d =
    with_values-Reach _ _ _ _ args d
      (λ key members. changed-Reach key _ (next key here (Step.srem members)))

-- The handlers that only look.
pub handle_sismember-Keeps : Keeps handle_sismember
unfolding handle_sismember
handle_sismember-Keeps now args d = with_two-Reach _ _ _ args d (λ key member. here)

pub handle_scard-Keeps : Keeps handle_scard
unfolding handle_scard
handle_scard-Keeps now args d = with_key-Reach _ _ _ args d (λ key. here)

pub handle_smembers-Keeps : Keeps handle_smembers
unfolding handle_smembers
handle_smembers-Keeps now args d = with_key-Reach _ _ _ args d (λ key. here)

pub handle_sinter-Keeps : Keeps handle_sinter
unfolding handle_sinter
handle_sinter-Keeps now args d = with_keys-Reach _ _ _ args d (λ keys. here)

pub handle_sunion-Keeps : Keeps handle_sunion
unfolding handle_sunion
handle_sunion-Keeps now args d = with_keys-Reach _ _ _ args d (λ keys. here)

pub handle_sdiff-Keeps : Keeps handle_sdiff
unfolding handle_sdiff
handle_sdiff-Keeps now args d = with_keys-Reach _ _ _ args d (λ keys. here)
