-- ===== src/Commands/Steps.antt =====
-- commands.cpp: a handler changes the map by operations of the database alone. Here: the checks that
-- the handlers share.
pub mod Keys
pub mod Containers
pub mod Hashes
pub mod SortedSets
pub mod Table
pub mod Stays
pub mod Clients
pub mod Processor
use minimum_redis.Base.{ℕ, zero, suc, ◌&&◌, Bool, true, false, List, [], ◌∷◌, Bytes, if◌then◌else◌}
use minimum_redis.Resp.Value.{RespValue, str_val}
use minimum_redis.Database.{Keyspace, increment_mod_count}
use minimum_redis.Database.Step
use minimum_redis.Database.Step.{Step, Reach, here, next}
use minimum_redis.Commands.Reply.{
  Clock, Handler, is_bulk, all_bulk, texts, with_key, with_two, with_values, with_keys,
}
use minimum_redis.Commands.Keys.{counted}
use minimum_redis.Commands.Sets.{changed}

-- Whatever the arguments and the times, there are operations that make of a map what the handler
-- makes of it.
abbrev pub Keeps : Handler → Type 0
Keeps h = (now : Clock) (args : List RespValue) (d : Keyspace) → Reach d (h now args d).0

pub if-Reach :
    {d : Keyspace} (b : Bool) (x y : Keyspace × Bytes)
    → Reach d x.0
    → Reach d y.0
    → Reach d (if b then x else y).0
if-Reach true x y h k = h
if-Reach false x y h k = k

pub if_map-Reach :
    {d : Keyspace} (b : Bool) (x y : Keyspace)
    → Reach d x
    → Reach d y
    → Reach d (if b then x else y)
if_map-Reach true x y h k = h
if_map-Reach false x y h k = k

pub with_key-Reach :
    (arity kind : Bytes) (body : Bytes → Keyspace → Keyspace × Bytes) (args : List RespValue)
    (d : Keyspace)
    → ((key : Bytes) → Reach d (body key d).0)
    → Reach d (with_key arity kind body args d).0
unfolding with_key
with_key-Reach arity kind body [] d h = here
with_key-Reach arity kind body (c ∷ []) d h = here
with_key-Reach arity kind body (c ∷ k ∷ []) d h =
    if-Reach (is_bulk k) (body (str_val k) d) (d, kind) (h (str_val k)) here
with_key-Reach arity kind body (c ∷ k ∷ v ∷ vs) d h = here

pub with_two-Reach :
    (arity kind : Bytes) (body : Bytes → Bytes → Keyspace → Keyspace × Bytes)
    (args : List RespValue) (d : Keyspace)
    → ((key value : Bytes) → Reach d (body key value d).0)
    → Reach d (with_two arity kind body args d).0
unfolding with_two
with_two-Reach arity kind body [] d h = here
with_two-Reach arity kind body (c ∷ []) d h = here
with_two-Reach arity kind body (c ∷ k ∷ []) d h = here
with_two-Reach arity kind body (c ∷ k ∷ v ∷ []) d h =
    if-Reach (is_bulk k && is_bulk v) (body (str_val k) (str_val v) d) (d, kind)
      (h (str_val k) (str_val v)) here
with_two-Reach arity kind body (c ∷ k ∷ v ∷ w ∷ vs) d h = here

pub with_values-Reach :
    (arity kind values : Bytes) (body : Bytes → List Bytes → Keyspace → Keyspace × Bytes)
    (args : List RespValue) (d : Keyspace)
    → ((key : Bytes) (values : List Bytes) → Reach d (body key values d).0)
    → Reach d (with_values arity kind values body args d).0
unfolding with_values
with_values-Reach arity kind values body [] d h = here
with_values-Reach arity kind values body (c ∷ []) d h = here
with_values-Reach arity kind values body (c ∷ k ∷ []) d h = here
with_values-Reach arity kind values body (c ∷ k ∷ v ∷ vs) d h =
    if-Reach (is_bulk k)
      (if all_bulk (v ∷ vs) then body (str_val k) (texts (v ∷ vs)) d else (d, values)) (d, kind)
      (if-Reach (all_bulk (v ∷ vs)) (body (str_val k) (texts (v ∷ vs)) d) (d, values)
        (h (str_val k) (texts (v ∷ vs))) here)
      here

pub with_keys-Reach :
    (arity kind : Bytes) (body : List Bytes → Keyspace → Keyspace × Bytes) (args : List RespValue)
    (d : Keyspace)
    → ((keys : List Bytes) → Reach d (body keys d).0)
    → Reach d (with_keys arity kind body args d).0
unfolding with_keys
with_keys-Reach arity kind body [] d h = here
with_keys-Reach arity kind body (c ∷ []) d h = here
with_keys-Reach arity kind body (c ∷ k ∷ ks) d h =
    if-Reach (all_bulk (k ∷ ks)) (body (texts (k ∷ ks)) d) (d, kind) (h (texts (k ∷ ks))) here

-- The modification count may go up behind an operation.
pub changed-Reach :
    {d : Keyspace} (key : Bytes) (r : Keyspace × ℕ) → Reach d r.0 → Reach d (changed key r).0
unfolding changed
changed-Reach key (e, zero) h = h
changed-Reach key (e, suc n) h = next key h Step.increment_mod_count

pub counted-Reach :
    {d : Keyspace} (key : Bytes) (r : Keyspace × Bool) → Reach d r.0 → Reach d (counted key r).0
unfolding counted
counted-Reach key (e, true) h = next key h Step.increment_mod_count
counted-Reach key (e, false) h = h
