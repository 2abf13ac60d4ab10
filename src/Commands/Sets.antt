-- ===== src/Commands/Sets.antt =====
-- commands.cpp: the handlers of sets.
use minimum_redis.Base.{ℕ, zero, suc, Bytes, text}
use minimum_redis.Database.{Keyspace, increment_mod_count}
use minimum_redis.Database.Sets.{sadd, srem, sismember, scard, smembers, sinter, sunion, sdiff}
use minimum_redis.Commands.Reply.{
  Handler, number_reply, list_reply, bit, with_key, with_two, with_values, with_keys,
}

-- `if (count > 0) db.increment_mod_count(key);`
unfoldable pub changed : Bytes → Keyspace × ℕ → Keyspace × Bytes
changed key (d, zero) = (d, number_reply 0)
changed key (d, suc n) = (increment_mod_count key d, number_reply (suc n))

unfoldable pub handle_sadd : Handler
handle_sadd now =
    with_values (text "-ERR SADD requires at least 2 arguments\r\n")
      (text "-ERR SADD key must be a bulk string\r\n")
      (text "-ERR SADD members must be bulk strings\r\n")
      (λ key members d. changed key (sadd key members d))

unfoldable pub handle_srem : Handler
handle_srem now =
    with_values (text "-ERR SREM requires at least 2 arguments\r\n")
      (text "-ERR SREM key must be a bulk string\r\n")
      (text "-ERR SREM members must be bulk strings\r\n")
      (λ key members d. changed key (srem key members d))

unfoldable pub handle_sismember : Handler
handle_sismember now =
    with_two (text "-ERR SISMEMBER requires exactly 2 arguments\r\n")
      (text "-ERR SISMEMBER arguments must be bulk strings\r\n")
      (λ key member d. (d, number_reply (bit (sismember key member d))))

unfoldable pub handle_scard : Handler
handle_scard now =
    with_key (text "-ERR SCARD requires exactly 1 argument\r\n")
      (text "-ERR SCARD key must be a bulk string\r\n") (λ key d. (d, number_reply (scard key d)))

unfoldable pub handle_smembers : Handler
handle_smembers now =
    with_key (text "-ERR SMEMBERS requires exactly 1 argument\r\n")
      (text "-ERR SMEMBERS key must be a bulk string\r\n")
      (λ key d. (d, list_reply (smembers key d)))

unfoldable pub handle_sinter : Handler
handle_sinter now =
    with_keys (text "-ERR SINTER requires at least 1 argument\r\n")
      (text "-ERR SINTER keys must be bulk strings\r\n") (λ keys d. (d, list_reply (sinter keys d)))

unfoldable pub handle_sunion : Handler
handle_sunion now =
    with_keys (text "-ERR SUNION requires at least 1 argument\r\n")
      (text "-ERR SUNION keys must be bulk strings\r\n") (λ keys d. (d, list_reply (sunion keys d)))

unfoldable pub handle_sdiff : Handler
handle_sdiff now =
    with_keys (text "-ERR SDIFF requires at least 1 argument\r\n")
      (text "-ERR SDIFF keys must be bulk strings\r\n") (λ keys d. (d, list_reply (sdiff keys d)))
