-- ===== src/Commands/Hashes.antt =====
-- commands.cpp: the handlers of hashes.
use minimum_redis.Base.{
  ℕ, ◌+◌, ◌*◌, Bool, true, false, ◌&&◌, List, [], ◌∷◌, ◌++◌, Bytes, text, length, if◌then◌else◌,
}
use minimum_redis.Dict.{Dict}
use minimum_redis.Resp.Value.{RespValue, str_val}
use minimum_redis.Database
use minimum_redis.Database.{Keyspace, increment_mod_count}
use minimum_redis.Database.Hashes.{hset, hget, hdel, hlen, hkeys, hvals, hgetall}
use minimum_redis.Commands.Reply.{
  Clock, Handler, is_bulk, bulk_reply, number_reply, array_header, list_reply, null_reply, bit,
  with_key, with_two, with_values,
}
use minimum_redis.Commands.Sets.{changed}

-- An even number of arguments is left, and which they are.
abbrev pub even : List RespValue → Bool
even [] = true
even (v ∷ []) = false
even (v ∷ w ∷ vs) = even vs

-- The loop over the fields. One that is no bulk string ends the handler with what is set by then.
unfoldable pub set_fields : Bytes → List RespValue → ℕ → Keyspace → Keyspace × Bytes
unfolding hset
set_fields key (f ∷ v ∷ rest) fields_set d =
    let (d1, field_set) = hset key (str_val f) (str_val v) d in
    let later = set_fields key rest (fields_set + bit field_set) d1 in
    if is_bulk f && is_bulk v
    then later
    else (d, text "-ERR HSET field and value must be bulk strings\r\n")
set_fields key _ fields_set d = changed key (d, fields_set)

unfoldable pub handle_hset : Handler
unfolding set_fields
handle_hset now (c ∷ k ∷ f ∷ v ∷ rest) d =
    if even rest
    then if is_bulk k
      then set_fields (str_val k) (f ∷ v ∷ rest) 0 d
      else (d, text "-ERR HSET key must be a bulk string\r\n")
    else (d, text "-ERR HSET requires an even number of arguments (at least key, field, value)\r\n")
handle_hset now _ d =
    (d, text "-ERR HSET requires an even number of arguments (at least key, field, value)\r\n")

-- An empty value has the null reply, behind `db.exists(key) && db.type(key) == RedisType::Hash`,
-- which may drop the key.
abbrev pub hget_reply : Clock → Bytes → Keyspace → Bytes → Keyspace × Bytes
hget_reply now key d [] =
    let (d1, there) = Database.exists (now 0) key d in
    (if there then (Database.type (now 1) key d1).0 else d1, null_reply)
hget_reply now key d (c ∷ s) = (d, bulk_reply (c ∷ s))

unfoldable pub handle_hget : Handler
handle_hget now =
    with_two (text "-ERR HGET requires exactly 2 arguments\r\n")
      (text "-ERR HGET key and field must be bulk strings\r\n")
      (λ key field d. hget_reply now key d (hget key field d))

-- The Boolean result of `db.hdel` as a number.
abbrev pub as_number : Keyspace × Bool → Keyspace × ℕ
as_number (d, b) = (d, bit b)

unfoldable pub handle_hdel : Handler
handle_hdel now =
    with_values (text "-ERR HDEL requires at least 2 arguments\r\n")
      (text "-ERR HDEL key must be a bulk string\r\n")
      (text "-ERR HDEL fields must be bulk strings\r\n")
      (λ key fields d. changed key (as_number (hdel key fields d)))

unfoldable pub handle_hlen : Handler
handle_hlen now =
    with_key (text "-ERR HLEN requires exactly 1 argument\r\n")
      (text "-ERR HLEN key must be a bulk string\r\n") (λ key d. (d, number_reply (hlen key d)))

unfoldable pub handle_hkeys : Handler
handle_hkeys now =
    with_key (text "-ERR HKEYS requires exactly 1 argument\r\n")
      (text "-ERR HKEYS key must be a bulk string\r\n") (λ key d. (d, list_reply (hkeys key d)))

unfoldable pub handle_hvals : Handler
handle_hvals now =
    with_key (text "-ERR HVALS requires exactly 1 argument\r\n")
      (text "-ERR HVALS key must be a bulk string\r\n") (λ key d. (d, list_reply (hvals key d)))

-- The loop over the pairs, and the header with twice their number.
abbrev pair_replies : Dict Bytes → Bytes
pair_replies [] = []
pair_replies ((f, v) ∷ h) = bulk_reply f ++ bulk_reply v ++ pair_replies h

unfoldable pub handle_hgetall : Handler
handle_hgetall now =
    with_key (text "-ERR HGETALL requires exactly 1 argument\r\n")
      (text "-ERR HGETALL key must be a bulk string\r\n")
      (λ key d. (d, array_header (length (hgetall key d) * 2) ++ pair_replies (hgetall key d)))
