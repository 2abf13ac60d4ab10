-- ===== src/Commands/Table.antt =====
-- commands.cpp, process_command: the commands on data by their names.
use minimum_redis.Base.{Bool, Option, none, some, [], ◌∷◌, Bytes, text, if◌then◌else◌}
use minimum_redis.Dict.{Dict, find}
use minimum_redis.Database.{Keyspace}
use minimum_redis.Commands.Reply.{Clock, Handler, ok_reply}
use minimum_redis.Commands.Keys.{
  handle_set, handle_get, handle_del, handle_exists, handle_keys, handle_type, handle_expire,
  handle_pexpire, handle_ttl, handle_pttl, handle_persist,
}
use minimum_redis.Commands.Lists.{
  handle_lpush, handle_rpush, handle_lpop, handle_rpop, handle_llen, handle_lrange, handle_lindex,
}
use minimum_redis.Commands.Sets.{
  handle_sadd, handle_srem, handle_sismember, handle_scard, handle_smembers, handle_sinter,
  handle_sunion, handle_sdiff,
}
use minimum_redis.Commands.Hashes.{
  handle_hset, handle_hget, handle_hdel, handle_hlen, handle_hkeys, handle_hvals, handle_hgetall,
}
use minimum_redis.Commands.SortedSets.{
  handle_zadd, handle_zrem, handle_zcard, handle_zrange, handle_zrevrange, handle_zscore,
  handle_zrank,
}
use minimum_redis.Commands.State.{TransactionCommand, Outside}

-- The result of `db.save_rdb`, which is false only where the file cannot be opened.
unfoldable pub handle_save : Bool → Handler
handle_save can_open now (c ∷ []) d =
    (d, if can_open then ok_reply else text "-ERR Failed to save database\r\n")
handle_save can_open now _ d = (d, text "-ERR SAVE requires no arguments\r\n")

-- The commands that can be queued, and what `execute_func` runs for each: the first chain of tests
-- on `upper_cmd`.
unfoldable pub queued_commands : Outside → Dict Handler
queued_commands o =
    (text "SET", handle_set)
    ∷ (text "GET", handle_get)
    ∷ (text "DEL", handle_del)
    ∷ (text "EXISTS", handle_exists)
    ∷ (text "KEYS", handle_keys)
    ∷ (text "SAVE", handle_save o.can_open)
    ∷ (text "TYPE", handle_type)
    ∷ (text "LPUSH", handle_lpush)
    ∷ (text "RPUSH", handle_rpush)
    ∷ (text "LPOP", handle_lpop)
    ∷ (text "RPOP", handle_rpop)
    ∷ (text "LLEN", handle_llen)
    ∷ (text "LRANGE", handle_lrange)
    ∷ (text "LINDEX", handle_lindex)
    ∷ (text "SADD", handle_sadd)
    ∷ (text "SREM", handle_srem)
    ∷ (text "SISMEMBER", handle_sismember)
    ∷ (text "SCARD", handle_scard)
    ∷ (text "SMEMBERS", handle_smembers)
    ∷ (text "SINTER", handle_sinter)
    ∷ (text "SUNION", handle_sunion)
    ∷ (text "SDIFF", handle_sdiff)
    ∷ (text "HSET", handle_hset)
    ∷ (text "HGET", handle_hget)
    ∷ (text "HDEL", handle_hdel)
    ∷ (text "HLEN", handle_hlen)
    ∷ (text "HKEYS", handle_hkeys)
    ∷ (text "HVALS", handle_hvals)
    ∷ (text "HGETALL", handle_hgetall)
    ∷ (text "ZADD", handle_zadd o.stod)
    ∷ (text "ZREM", handle_zrem)
    ∷ (text "ZCARD", handle_zcard)
    ∷ (text "ZRANGE", handle_zrange)
    ∷ (text "ZREVRANGE", handle_zrevrange)
    ∷ (text "ZSCORE", handle_zscore o.show_double)
    ∷ (text "ZRANK", handle_zrank)
    ∷ []

-- The commands that only the second chain of tests has, among those on data.
unfoldable pub expiry_commands : Dict Handler
expiry_commands =
    (text "EXPIRE", handle_expire)
    ∷ (text "PEXPIRE", handle_pexpire)
    ∷ (text "TTL", handle_ttl)
    ∷ (text "PTTL", handle_pttl)
    ∷ (text "PERSIST", handle_persist)
    ∷ []

unfoldable pub unknown_reply : Bytes
unknown_reply = text "-ERR Unknown command\r\n"

abbrev pub or_unknown : Option Handler → Handler
or_unknown none now args d = (d, unknown_reply)
or_unknown (some handler) now args d = handler now args d

unfoldable pub execute_func : Outside → TransactionCommand → Clock → Keyspace → Keyspace × Bytes
unfolding find
execute_func o cmd now d = or_unknown (find cmd.command_name (queued_commands o)) now cmd.args d
