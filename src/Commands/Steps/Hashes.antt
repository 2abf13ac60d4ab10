-- ===== src/Commands/Steps/Hashes.antt =====
-- commands.cpp: the handlers of hashes change the map by operations alone.
use minimum_redis.Base.{ℕ, ◌+◌, ◌&&◌, List, [], ◌∷◌, Bytes}
use minimum_redis.Resp.Value.{RespValue, str_val}
use minimum_redis.Database.{Keyspace}
use minimum_redis.Database.Hashes.{hset, hget}
use minimum_redis.Database.Step.{Step, Reach, here, next, Reach-trans}
use minimum_redis.Commands.Reply.{Clock, is_bulk, bit}
use minimum_redis.Commands.Hashes.{
  even, set_fields, hget_reply, handle_hset, handle_hget, handle_hdel, handle_hlen, handle_hkeys,
  handle_hvals, handle_hgetall,
}
use minimum_redis.Commands.Steps.{
  Keeps, if-Reach, if_map-Reach, with_key-Reach, with_two-Reach, with_values-Reach, changed-Reach,
}

set_fields-Reach :
    (key : Bytes) (fields : List RespValue) (n : ℕ) (d : Keyspace)
    → Reach d (set_fields key fields n d).0
unfolding set_fields
set_fields-Reach key [] n d = changed-Reach key (d, n) here
set_fields-Reach key (f ∷ []) n d = changed-Reach key (d, n) here
set_fields-Reach key (f ∷ v ∷ rest) n d =
    let (d1, field_set) = hset key (str_val f) (str_val v) d in
    if-Reach (is_bulk f && is_bulk v) (set_fields key rest (n + bit field_set) d1) (d, _)
      (Reach-trans (next key here (Step.hset (str_val f) (str_val v)))
        (set_fields-Reach key rest (n + bit field_set) d1))
      here

pub handle_hset-Keeps : Keeps handle_hset
unfolding handle_hset
handle_hset-Keeps now [] d = here
handle_hset-Keeps now (c ∷ []) d = here
handle_hset-Keeps now (c ∷ k ∷ []) d = here
handle_hset-Keeps now (c ∷ k ∷ f ∷ []) d = here
handle_hset-Keeps now (c ∷ k ∷ f ∷ v ∷ rest) d =
    if-Reach (even rest) _ (d, _)
      (if-Reach (is_bulk k) (set_fields (str_val k) (f ∷ v ∷ rest) 0 d) (d, _)
        (set_fields-Reach (str_val k) (f ∷ v ∷ rest) 0 d) here)
      here

hget_reply-Reach :
    (now : Clock) (key : Bytes) (d : Keyspace) (v : Bytes) → Reach d (hget_reply now key d v).0
hget_reply-Reach now key d [] =
    let there = next key here (Step.exists (now 0)) in
    if_map-Reach _ _ _ (next key there (Step.type (now 1))) there
hget_reply-Reach now key d (c ∷ s) = here

pub handle_hget-Keeps : Keeps handle_hget
unfolding handle_hget
handle_hget-Keeps now args d =
    with_two-Reach _ _ _ args d (λ key field. hget_reply-Reach now key d (hget key field d))

pub handle_hdel-Keeps : Keeps handle_hdel
unfolding handle_hdel
handle_hdel-Keeps now args d =
    with_values-Reach _ _ _ _ args d
      (λ key fields. changed-Reach key _ (next key here (Step.hdel fields)))

-- The handlers that only look.
pub handle_hlen-Keeps : Keeps handle_hlen
unfolding handle_hlen
handle_hlen-Keeps now args d = with_key-Reach _ _ _ args d (λ key. here)

pub handle_hkeys-Keeps : Keeps handle_hkeys
unfolding handle_hkeys
handle_hkeys-Keeps now args d = with_key-Reach _ _ _ args d (λ key. here)

pub handle_hvals-Keeps : Keeps handle_hvals
unfolding handle_hvals
handle_hvals-Keeps now args d = with_key-Reach _ _ _ args d (λ key. here)

pub handle_hgetall-Keeps : Keeps handle_hgetall
unfolding handle_hgetall
handle_hgetall-Keeps now args d = with_key-Reach _ _ _ args d (λ key. here)
