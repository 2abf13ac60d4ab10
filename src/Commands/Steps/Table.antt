-- ===== src/Commands/Steps/Table.antt =====
-- commands.cpp: whatever command on data runs, at once or from the queue, the map stays well-formed.
use minimum_redis.Base.{
  ◌++◌, Bool, true, false, Option, none, some, List, [], ◌∷◌, Bytes, equal, if◌then◌else◌,
}
use minimum_redis.Double.{Double}
use minimum_redis.Dict.{Dict, find}
use minimum_redis.Resp.Value.{RespValue}
use minimum_redis.Database.{Keyspace}
use minimum_redis.Database.Step.{Reach, here, Reach-trans}
use minimum_redis.Commands.Reply.{Clock, Handler}
use minimum_redis.Commands.State.{TransactionCommand, Outside}
use minimum_redis.Commands.Table.{
  handle_save, queued_commands, expiry_commands, or_unknown, execute_func,
}
use minimum_redis.Commands.Keys.{
  handle_del, handle_exists, handle_expire, handle_get, handle_keys, handle_persist, handle_pexpire,
  handle_pttl, handle_set, handle_ttl, handle_type,
}
use minimum_redis.Commands.Lists.{
  handle_lindex, handle_llen, handle_lpop, handle_lpush, handle_lrange, handle_rpop, handle_rpush,
}
use minimum_redis.Commands.Sets.{
  handle_sadd, handle_scard, handle_sdiff, handle_sinter, handle_sismember, handle_smembers,
  handle_srem, handle_sunion,
}
use minimum_redis.Commands.Hashes.{
  handle_hdel, handle_hget, handle_hgetall, handle_hkeys, handle_hlen, handle_hset, handle_hvals,
}
use minimum_redis.Commands.SortedSets.{
  handle_zcard, handle_zrange, handle_zrank, handle_zrem, handle_zrevrange, handle_zscore,
}
use minimum_redis.Commands.Queue.{after, run_queue}
use minimum_redis.Commands.Steps.{Keeps}
use minimum_redis.Commands.Steps.Keys.{
  handle_set-Keeps, handle_get-Keeps, handle_del-Keeps, handle_exists-Keeps, handle_keys-Keeps,
  handle_type-Keeps, handle_expire-Keeps, handle_pexpire-Keeps, handle_ttl-Keeps, handle_pttl-Keeps,
  handle_persist-Keeps,
}
use minimum_redis.Commands.Steps.Containers.{
  handle_lpush-Keeps, handle_rpush-Keeps, handle_lpop-Keeps, handle_rpop-Keeps, handle_llen-Keeps,
  handle_lrange-Keeps, handle_lindex-Keeps, handle_sadd-Keeps, handle_srem-Keeps,
  handle_sismember-Keeps, handle_scard-Keeps, handle_smembers-Keeps, handle_sinter-Keeps,
  handle_sunion-Keeps, handle_sdiff-Keeps,
}
use minimum_redis.Commands.Steps.Hashes.{
  handle_hset-Keeps, handle_hget-Keeps, handle_hdel-Keeps, handle_hlen-Keeps, handle_hkeys-Keeps,
  handle_hvals-Keeps, handle_hgetall-Keeps,
}
use minimum_redis.Commands.Steps.SortedSets.{
  NoNan, handle_zadd-Reach, handle_zrem-Keeps, handle_zcard-Keeps, handle_zrange-Keeps,
  handle_zrevrange-Keeps, handle_zscore-Keeps, handle_zrank-Keeps,
}

infixr 30 ◌&◌
abbrev ◌&◌ {ℓ} : {A B : Type ℓ} → A → B → A × B
a & b = (a, b)

-- A handler that keeps to operations where no argument reads as a NaN.
abbrev pub KeepsNumbers : (Bytes → Option Double) → Handler → Type 0
KeepsNumbers stod h =
    (now : Clock) (args : List RespValue) (d : Keyspace)
    → NoNan stod args
    → Reach d (h now args d).0

abbrev AllKeep : (Bytes → Option Double) → Dict Handler → Type 0
AllKeep stod [] = Unit
AllKeep stod ((name, h) ∷ r) = KeepsNumbers stod h × AllKeep stod r

abbrev pub FoundKeeps : (Bytes → Option Double) → Option Handler → Type 0
FoundKeeps stod none = Unit
FoundKeeps stod (some h) = KeepsNumbers stod h

if-FoundKeeps :
    (stod : Bytes → Option Double) (b : Bool) (x y : Option Handler)
    → FoundKeeps stod x
    → FoundKeeps stod y
    → FoundKeeps stod (if b then x else y)
if-FoundKeeps stod true x y h k = h
if-FoundKeeps stod false x y h k = k

find-FoundKeeps :
    (stod : Bytes → Option Double) (n : Bytes) (table : Dict Handler)
    → AllKeep stod table
    → FoundKeeps stod (find n table)
unfolding find
find-FoundKeeps stod n [] a = tt
find-FoundKeeps stod n ((m, g) ∷ r) (k, a) =
    if-FoundKeeps stod (equal m n) (some g) (find n r) k (find-FoundKeeps stod n r a)

handle_save-Keeps : (can_open : Bool) → Keeps (handle_save can_open)
unfolding handle_save
handle_save-Keeps can_open now [] d = here
handle_save-Keeps can_open now (c ∷ []) d = here
handle_save-Keeps can_open now (c ∷ k ∷ ks) d = here

anyway : (stod : Bytes → Option Double) (h : Handler) → Keeps h → KeepsNumbers stod h
anyway stod h k now args d numbers = k now args d

queued_commands-AllKeep : (o : Outside) → AllKeep o.stod (queued_commands o)
unfolding queued_commands
queued_commands-AllKeep o =
    anyway o.stod handle_set handle_set-Keeps
    & anyway o.stod handle_get handle_get-Keeps
    & anyway o.stod handle_del handle_del-Keeps
    & anyway o.stod handle_exists handle_exists-Keeps
    & anyway o.stod handle_keys handle_keys-Keeps
    & anyway o.stod (handle_save o.can_open) (handle_save-Keeps o.can_open)
    & anyway o.stod handle_type handle_type-Keeps
    & anyway o.stod handle_lpush handle_lpush-Keeps
    & anyway o.stod handle_rpush handle_rpush-Keeps
    & anyway o.stod handle_lpop handle_lpop-Keeps
    & anyway o.stod handle_rpop handle_rpop-Keeps
    & anyway o.stod handle_llen handle_llen-Keeps
    & anyway o.stod handle_lrange handle_lrange-Keeps
    & anyway o.stod handle_lindex handle_lindex-Keeps
    & anyway o.stod handle_sadd handle_sadd-Keeps
    & anyway o.stod handle_srem handle_srem-Keeps
    & anyway o.stod handle_sismember handle_sismember-Keeps
    & anyway o.stod handle_scard handle_scard-Keeps
    & anyway o.stod handle_smembers handle_smembers-Keeps
    & anyway o.stod handle_sinter handle_sinter-Keeps
    & anyway o.stod handle_sunion handle_sunion-Keeps
    & anyway o.stod handle_sdiff handle_sdiff-Keeps
    & anyway o.stod handle_hset handle_hset-Keeps
    & anyway o.stod handle_hget handle_hget-Keeps
    & anyway o.stod handle_hdel handle_hdel-Keeps
    & anyway o.stod handle_hlen handle_hlen-Keeps
    & anyway o.stod handle_hkeys handle_hkeys-Keeps
    & anyway o.stod handle_hvals handle_hvals-Keeps
    & anyway o.stod handle_hgetall handle_hgetall-Keeps
    & handle_zadd-Reach o.stod
    & anyway o.stod handle_zrem handle_zrem-Keeps
    & anyway o.stod handle_zcard handle_zcard-Keeps
    & anyway o.stod handle_zrange handle_zrange-Keeps
    & anyway o.stod handle_zrevrange handle_zrevrange-Keeps
    & anyway o.stod (handle_zscore o.show_double) (handle_zscore-Keeps o.show_double)
    & anyway o.stod handle_zrank handle_zrank-Keeps
    & tt

expiry_commands-AllKeep : (stod : Bytes → Option Double) → AllKeep stod expiry_commands
unfolding expiry_commands
expiry_commands-AllKeep stod =
    anyway stod handle_expire handle_expire-Keeps
    & anyway stod handle_pexpire handle_pexpire-Keeps
    & anyway stod handle_ttl handle_ttl-Keeps
    & anyway stod handle_pttl handle_pttl-Keeps
    & anyway stod handle_persist handle_persist-Keeps
    & tt

append-AllKeep :
    (stod : Bytes → Option Double) (a b : Dict Handler)
    → AllKeep stod a
    → AllKeep stod b
    → AllKeep stod (a ++ b)
append-AllKeep stod [] b h k = k
append-AllKeep stod ((n, g) ∷ a) b (h, hs) k = (h, append-AllKeep stod a b hs k)

pub find-commands :
    (o : Outside) (n : Bytes) → FoundKeeps o.stod (find n (queued_commands o ++ expiry_commands))
find-commands o n = find-FoundKeeps o.stod n (queued_commands o ++ expiry_commands) (
    append-AllKeep o.stod (queued_commands o) expiry_commands (queued_commands-AllKeep o)
      (expiry_commands-AllKeep o.stod))

or_unknown-Reach :
    (stod : Bytes → Option Double) (h : Option Handler) (now : Clock) (args : List RespValue)
    (d : Keyspace)
    → FoundKeeps stod h
    → NoNan stod args
    → Reach d (or_unknown h now args d).0
or_unknown-Reach stod none now args d k numbers = here
or_unknown-Reach stod (some h) now args d k numbers = k now args d numbers

execute_func-Reach :
    (o : Outside) (c : TransactionCommand) (now : Clock) (d : Keyspace)
    → NoNan o.stod c.args
    → Reach d (execute_func o c now d).0
unfolding execute_func
execute_func-Reach o c now d numbers =
    or_unknown-Reach o.stod (find c.command_name (queued_commands o)) now c.args d
      (find-FoundKeeps o.stod c.command_name (queued_commands o) (queued_commands-AllKeep o))
      numbers

abbrev pub QueueNoNan : (Bytes → Option Double) → List TransactionCommand → Type 0
QueueNoNan stod [] = Unit
QueueNoNan stod (c ∷ cs) = NoNan stod c.args × QueueNoNan stod cs

pub run_queue-Reach :
    (o : Outside) (queue : List TransactionCommand) (now : Clock) (d : Keyspace)
    → QueueNoNan o.stod queue
    → Reach d (run_queue o queue now d).keyspace
unfolding run_queue
run_queue-Reach o [] now d numbers = here
run_queue-Reach o (c ∷ queue) now d (first, later) =
    Reach-trans (execute_func-Reach o c now d first)
      (run_queue-Reach o queue (after 3 now) (execute_func o c now d).0 later)
