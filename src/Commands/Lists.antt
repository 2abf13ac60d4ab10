-- ===== src/Commands/Lists.antt =====
-- commands.cpp: the handlers of lists.
use minimum_redis.Base.{ℕ, not, Option, none, some, List, [], ◌∷◌, Bytes, text, if◌then◌else◌}
use minimum_redis.Base.Int.{ℤ}
use minimum_redis.Base.Number.{stoi}
use minimum_redis.Resp.Value.{str_val}
use minimum_redis.Database
use minimum_redis.Database.{Keyspace, increment_mod_count}
use minimum_redis.Database.Lists.{lpush, rpush, lpop, rpop, llen, lrange, lindex}
use minimum_redis.Commands.Reply.{
  Clock, Handler, is_bulk, bulk_reply, number_reply, list_reply, null_reply, with_key, with_values,
}

abbrev pushed : Bytes → Keyspace × ℕ → Keyspace × Bytes
pushed key (d, new_length) = (increment_mod_count key d, number_reply new_length)

unfoldable pub handle_lpush : Handler
handle_lpush now =
    with_values (text "-ERR LPUSH requires at least 2 arguments\r\n")
      (text "-ERR LPUSH key must be a bulk string\r\n")
      (text "-ERR LPUSH values must be bulk strings\r\n")
      (λ key values d. pushed key (lpush key values d))

unfoldable pub handle_rpush : Handler
handle_rpush now =
    with_values (text "-ERR RPUSH requires at least 2 arguments\r\n")
      (text "-ERR RPUSH key must be a bulk string\r\n")
      (text "-ERR RPUSH values must be bulk strings\r\n")
      (λ key values d. pushed key (rpush key values d))

-- `if (value.empty() && !db.exists(key))`, where the test for the key may drop it.
abbrev pub popped : Clock → Bytes → Keyspace × Bytes → Keyspace × Bytes
popped now key (d, []) =
    let (d1, there) = Database.exists (now 0) key d in
    if not there then (d1, null_reply) else (increment_mod_count key d1, bulk_reply [])
popped now key (d, c ∷ s) = (increment_mod_count key d, bulk_reply (c ∷ s))

unfoldable pub handle_lpop : Handler
handle_lpop now =
    with_key (text "-ERR LPOP requires exactly 1 argument\r\n")
      (text "-ERR LPOP key must be a bulk string\r\n") (λ key d. popped now key (lpop key d))

unfoldable pub handle_rpop : Handler
handle_rpop now =
    with_key (text "-ERR RPOP requires exactly 1 argument\r\n")
      (text "-ERR RPOP key must be a bulk string\r\n") (λ key d. popped now key (rpop key d))

abbrev length_reply : Keyspace × ℕ → Keyspace × Bytes
length_reply (d, n) = (d, number_reply n)

unfoldable pub handle_llen : Handler
handle_llen now =
    with_key (text "-ERR LLEN requires exactly 1 argument\r\n")
      (text "-ERR LLEN key must be a bulk string\r\n") (λ key d. length_reply (llen (now 0) key d))

-- Both ends are read, or one of them throws.
abbrev pub between : Bytes → (ℤ → ℤ → List Bytes) → Option ℤ → Option ℤ → Bytes
between message range (some start) (some end) = list_reply (range start end)
between message range _ _ = message

unfoldable pub handle_lrange : Handler
unfolding stoi
handle_lrange now (c ∷ k ∷ s ∷ e ∷ []) d = (
  d,
  if is_bulk k
      then between (text "-ERR LRANGE start and end must be integers\r\n")
          (λ start end. lrange (str_val k) start end d) (stoi (str_val s)) (stoi (str_val e))
      else text "-ERR LRANGE key must be a bulk string\r\n",
)
handle_lrange now _ d = (d, text "-ERR LRANGE requires exactly 3 arguments\r\n")

-- An empty value has the null reply, whether `db.exists(key)`, which may drop the key, holds or not.
abbrev pub indexed : Clock → Bytes → Keyspace → Bytes → Keyspace × Bytes
indexed now key d [] = ((Database.exists (now 0) key d).0, null_reply)
indexed now key d (c ∷ s) = (d, bulk_reply (c ∷ s))

abbrev pub index_at : Clock → Bytes → Keyspace → Option ℤ → Keyspace × Bytes
index_at now key d none = (d, text "-ERR LINDEX index must be an integer\r\n")
index_at now key d (some index) = indexed now key d (lindex key index d)

unfoldable pub handle_lindex : Handler
unfolding stoi
handle_lindex now (c ∷ k ∷ i ∷ []) d =
    if is_bulk k
    then index_at now (str_val k) d (stoi (str_val i))
    else (d, text "-ERR LINDEX key must be a bulk string\r\n")
handle_lindex now _ d = (d, text "-ERR LINDEX requires exactly 2 arguments\r\n")
