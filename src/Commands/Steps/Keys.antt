-- ===== src/Commands/Steps/Keys.antt =====
-- commands.cpp: the handlers of keys, strings and expiry change the map by operations alone.
use minimum_redis.Base.{Bool, Option, none, some, [], ◌∷◌, Bytes}
use minimum_redis.Base.Int.{ℤ}
use minimum_redis.Base.Number.{stoll}
use minimum_redis.Database.{Keyspace, increment_mod_count}
use minimum_redis.Database
use minimum_redis.Database.Step.{Step, Reach, here, next}
use minimum_redis.Commands.Keys.{
  expire_by, handle_set, handle_get, handle_del, handle_exists, handle_keys, handle_type,
  handle_expire, handle_pexpire, handle_ttl, handle_pttl, handle_persist,
}
use minimum_redis.Commands.Steps.{
  Keeps, if-Reach, if_map-Reach, with_key-Reach, with_two-Reach, counted-Reach,
}

pub handle_set-Keeps : Keeps handle_set
unfolding handle_set
handle_set-Keeps now args d =
    with_two-Reach _ _ _ args d
      (λ key value. next key (next key here (Step.set value)) Step.increment_mod_count)

pub handle_get-Keeps : Keeps handle_get
unfolding handle_get
handle_get-Keeps now args d = with_key-Reach _ _ _ args d (λ key.
    let one : Reach d (Database.exists (now 0) key d).0 = next key here (Step.exists (now 0)) in
    let two = next key one (Step.type (now 1)) in
    if-Reach _ _ _ one (if-Reach _ _ _ two (next key two (Step.get (now 2)))))

pub handle_del-Keeps : Keeps handle_del
unfolding handle_del
handle_del-Keeps now args d = with_key-Reach _ _ _ args d (λ key.
    let one : Reach d (Database.exists (now 0) key d).0 = next key here (Step.exists (now 0)) in
    next key (if_map-Reach _ _ _ (next key one Step.increment_mod_count) one) Step.del)

pub handle_exists-Keeps : Keeps handle_exists
unfolding handle_exists
handle_exists-Keeps now args d =
    with_key-Reach _ _ _ args d (λ key. next key here (Step.exists (now 0)))

pub handle_keys-Keeps : Keeps handle_keys
unfolding handle_keys
handle_keys-Keeps now [] d = here
handle_keys-Keeps now (c ∷ []) d = here
handle_keys-Keeps now (c ∷ k ∷ ks) d = here

pub handle_type-Keeps : Keeps handle_type
unfolding handle_type
handle_type-Keeps now args d = with_key-Reach _ _ _ args d (λ key.
    let one : Reach d (Database.exists (now 0) key d).0 = next key here (Step.exists (now 0)) in
    if-Reach _ _ _ one (next key one (Step.type (now 1))))

expire_by-Reach :
    (message : Bytes) (op : Bytes → ℤ → Keyspace → Keyspace × Bool) (amount : Option ℤ)
    (key : Bytes) (d : Keyspace)
    → ((n : ℤ) → Reach d (op key n d).0)
    → Reach d (expire_by message op amount key d).0
unfolding expire_by
expire_by-Reach message op none key d h = here
expire_by-Reach message op (some n) key d h = counted-Reach key (op key n d) (h n)

pub handle_expire-Keeps : Keeps handle_expire
unfolding handle_expire
handle_expire-Keeps now args d = with_two-Reach _ _ _ args d (λ key n.
    expire_by-Reach _ _ (stoll n) key d
      (λ amount. next key here (Step.expire (now 0) (now 1) amount)))

pub handle_pexpire-Keeps : Keeps handle_pexpire
unfolding handle_pexpire
handle_pexpire-Keeps now args d = with_two-Reach _ _ _ args d (λ key n.
    expire_by-Reach _ _ (stoll n) key d
      (λ amount. next key here (Step.pexpire (now 0) (now 1) amount)))

pub handle_ttl-Keeps : Keeps handle_ttl
unfolding handle_ttl
handle_ttl-Keeps now args d =
    with_key-Reach _ _ _ args d (λ key. next key here (Step.ttl (now 0) (now 1)))

pub handle_pttl-Keeps : Keeps handle_pttl
unfolding handle_pttl
handle_pttl-Keeps now args d =
    with_key-Reach _ _ _ args d (λ key. next key here (Step.pttl (now 0) (now 1)))

pub handle_persist-Keeps : Keeps handle_persist
unfolding handle_persist
handle_persist-Keeps now args d =
    with_key-Reach _ _ _ args d (λ key. counted-Reach key _ (next key here (Step.persist (now 0))))
