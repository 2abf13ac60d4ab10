-- ===== src/Commands/Keys.antt =====
-- commands.cpp: the handlers of strings, keys and expiry.
pub mod RoundTrip
use minimum_redis.Base.{
  ℕ, Bool, true, false, not, ◌&&◌, Option, none, some, List, [], ◌∷◌, ◌++◌, Bytes, text,
  if◌then◌else◌,
}
use minimum_redis.Base.Int.{ℤ}
use minimum_redis.Base.Number.{to_string_ℤ, stoll}
use minimum_redis.Resp.Value.{RespValue, str_val}
use minimum_redis.Value.{RedisType, same_type}
use minimum_redis.Database
use minimum_redis.Database.{Keyspace, increment_mod_count}
use minimum_redis.Commands.Reply.{
  Clock, Handler, bulk_reply, number_reply, list_reply, null_reply, ok_reply, bit, with_key,
  with_two,
}

abbrev set_key : Bytes → Bytes → Keyspace → Keyspace × Bytes
set_key key value d = (increment_mod_count key (Database.set key value d).0, ok_reply)

unfoldable pub handle_set : Handler
handle_set now =
    with_two (text "-ERR SET requires exactly 2 arguments\r\n")
      (text "-ERR SET arguments must be bulk strings\r\n") set_key

-- `if (!db.exists(key) || db.type(key) != RedisType::String)`, then `db.get(key)`
abbrev get_key : Clock → Bytes → Keyspace → Keyspace × Bytes
get_key now key d =
    let (d1, there) = Database.exists (now 0) key d in
    if not there
    then (d1, null_reply)
    else let (d2, kind) = Database.type (now 1) key d1 in
      if not (same_type kind RedisType.string)
      then (d2, null_reply)
      else let (d3, value) = Database.get (now 2) key d2 in (d3, bulk_reply value)

unfoldable pub handle_get : Handler
handle_get now =
    with_key (text "-ERR GET requires exactly 1 argument\r\n")
      (text "-ERR GET argument must be a bulk string\r\n") (get_key now)

abbrev del_key : Clock → Bytes → Keyspace → Keyspace × Bytes
del_key now key d =
    let (d1, there) = Database.exists (now 0) key d in
    let d2 = if there then increment_mod_count key d1 else d1 in
    let (d3, deleted) = Database.del key d2 in (d3, number_reply (bit deleted))

unfoldable pub handle_del : Handler
handle_del now =
    with_key (text "-ERR DEL requires exactly 1 argument\r\n")
      (text "-ERR DEL argument must be a bulk string\r\n") (del_key now)

abbrev exists_key : Clock → Bytes → Keyspace → Keyspace × Bytes
exists_key now key d =
    let (d1, there) = Database.exists (now 0) key d in (d1, number_reply (bit there))

unfoldable pub handle_exists : Handler
handle_exists now =
    with_key (text "-ERR EXISTS requires exactly 1 argument\r\n")
      (text "-ERR EXISTS argument must be a bulk string\r\n") (exists_key now)

unfoldable pub handle_keys : Handler
handle_keys now (c ∷ []) d = (d, list_reply (Database.keys d))
handle_keys now _ d = (d, text "-ERR KEYS requires no arguments\r\n")

abbrev pub type_name : RedisType → Bytes
type_name RedisType.string = text "string"
type_name RedisType.list = text "list"
type_name RedisType.set = text "set"
type_name RedisType.hash = text "hash"
type_name RedisType.zset = text "zset"

abbrev pub line_reply : Bytes → Bytes
line_reply s = b'+' ∷ (s ++ (b'\r' ∷ b'\n' ∷ []))

abbrev type_key : Clock → Bytes → Keyspace → Keyspace × Bytes
type_key now key d =
    let (d1, there) = Database.exists (now 0) key d in
    if not there
    then (d1, line_reply (text "none"))
    else let (d2, kind) = Database.type (now 1) key d1 in (d2, line_reply (type_name kind))

unfoldable pub handle_type : Handler
handle_type now =
    with_key (text "-ERR TYPE requires exactly 1 argument\r\n")
      (text "-ERR TYPE argument must be a bulk string\r\n") (type_key now)

-- The modification count goes up if the operation had an effect.
unfoldable pub counted : Bytes → Keyspace × Bool → Keyspace × Bytes
counted key (d, result) =
    (if result then increment_mod_count key d else d, number_reply (bit result))

-- `std::stoll`, which may throw, then the operation.
unfoldable pub expire_by :
    Bytes
    → (Bytes → ℤ → Keyspace → Keyspace × Bool)
    → Option ℤ
    → Bytes
    → Keyspace
    → Keyspace × Bytes
expire_by message op none key d = (d, message)
expire_by message op (some n) key d = counted key (op key n d)

unfoldable pub handle_expire : Handler
unfolding stoll
handle_expire now =
    with_two (text "-ERR EXPIRE requires exactly 2 arguments\r\n")
      (text "-ERR EXPIRE arguments must be bulk strings\r\n")
      (λ key n.
        expire_by (text "-ERR EXPIRE seconds must be an integer\r\n")
          (Database.expire (now 0) (now 1)) (stoll n) key)

unfoldable pub handle_pexpire : Handler
unfolding stoll
handle_pexpire now =
    with_two (text "-ERR PEXPIRE requires exactly 2 arguments\r\n")
      (text "-ERR PEXPIRE arguments must be bulk strings\r\n")
      (λ key n.
        expire_by (text "-ERR PEXPIRE milliseconds must be an integer\r\n")
          (Database.pexpire (now 0) (now 1)) (stoll n) key)

abbrev signed_reply : Keyspace × ℤ → Keyspace × Bytes
signed_reply (d, n) = (d, b':' ∷ (to_string_ℤ n ++ (b'\r' ∷ b'\n' ∷ [])))

unfoldable pub handle_ttl : Handler
handle_ttl now =
    with_key (text "-ERR TTL requires exactly 1 argument\r\n")
      (text "-ERR TTL key must be a bulk string\r\n")
      (λ key d. signed_reply (Database.ttl (now 0) (now 1) key d))

unfoldable pub handle_pttl : Handler
handle_pttl now =
    with_key (text "-ERR PTTL requires exactly 1 argument\r\n")
      (text "-ERR PTTL key must be a bulk string\r\n")
      (λ key d. signed_reply (Database.pttl (now 0) (now 1) key d))

unfoldable pub handle_persist : Handler
handle_persist now =
    with_key (text "-ERR PERSIST requires exactly 1 argument\r\n")
      (text "-ERR PERSIST key must be a bulk string\r\n")
      (λ key d. counted key (Database.persist (now 0) key d))
