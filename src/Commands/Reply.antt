-- ===== src/Commands/Reply.antt =====
-- commands.cpp: what the handlers share. A handler takes the clock's readings in their order, the
-- arguments with the command's name first, and the keyspace, and gives the new keyspace and the reply.
use minimum_redis.Base.{
  ℕ, Bool, true, false, ◌&&◌, List, [], ◌∷◌, ◌++◌, Bytes, text, length, if◌then◌else◌,
}
use minimum_redis.Base.Int.{ℤ}
use minimum_redis.Base.Number.{to_string}
use minimum_redis.Resp.Value.{RespValue, simple_string, error, integer, bulk_string, array, str_val}
use minimum_redis.Database.{Keyspace}

abbrev pub Clock : Type 0
Clock = ℕ → ℤ

abbrev pub Handler : Type 0
Handler = Clock → List RespValue → Keyspace → Keyspace × Bytes

-- `->type == RespType::BulkString`
abbrev pub is_bulk : RespValue → Bool
is_bulk (simple_string s) = false
is_bulk (error s) = false
is_bulk (integer n) = false
is_bulk (bulk_string s) = true
is_bulk (array vs) = false

abbrev pub all_bulk : List RespValue → Bool
all_bulk [] = true
all_bulk (v ∷ vs) = is_bulk v && all_bulk vs

abbrev pub texts : List RespValue → List Bytes
texts [] = []
texts (v ∷ vs) = str_val v ∷ texts vs

-- `"$" + std::to_string(s.length()) + "\r\n" + s + "\r\n"`
unfoldable pub bulk_reply : Bytes → Bytes
bulk_reply s = b'$' ∷ (to_string (length s) ++ (b'\r' ∷ b'\n' ∷ (s ++ (b'\r' ∷ b'\n' ∷ []))))

unfoldable pub number_reply : ℕ → Bytes
number_reply n = b':' ∷ (to_string n ++ (b'\r' ∷ b'\n' ∷ []))

unfoldable pub array_header : ℕ → Bytes
array_header n = b'*' ∷ (to_string n ++ (b'\r' ∷ b'\n' ∷ []))

unfoldable pub bulk_replies : List Bytes → Bytes
unfolding bulk_reply
bulk_replies [] = []
bulk_replies (s ∷ ss) = bulk_reply s ++ bulk_replies ss

unfoldable pub list_reply : List Bytes → Bytes
unfolding array_header bulk_replies
list_reply ss = array_header (length ss) ++ bulk_replies ss

abbrev pub bit : Bool → ℕ
bit true = 1
bit false = 0

unfoldable pub null_reply : Bytes
null_reply = text "$-1\r\n"

unfoldable pub ok_reply : Bytes
ok_reply = text "+OK\r\n"

-- `args.size() == 2`, and the argument is a bulk string.
unfoldable pub with_key :
    Bytes
    → Bytes
    → (Bytes → Keyspace → Keyspace × Bytes)
    → List RespValue
    → Keyspace
    → Keyspace × Bytes
with_key arity kind body (c ∷ k ∷ []) d = if is_bulk k then body (str_val k) d else (d, kind)
with_key arity kind body _ d = (d, arity)

-- `args.size() == 3`, and both arguments are bulk strings.
unfoldable pub with_two :
    Bytes
    → Bytes
    → (Bytes → Bytes → Keyspace → Keyspace × Bytes)
    → List RespValue
    → Keyspace
    → Keyspace × Bytes
with_two arity kind body (c ∷ k ∷ v ∷ []) d =
    if is_bulk k && is_bulk v then body (str_val k) (str_val v) d else (d, kind)
with_two arity kind body _ d = (d, arity)

-- `args.size() >= 3`, the key is a bulk string, and then each of the values is.
unfoldable pub with_values :
    Bytes
    → Bytes
    → Bytes
    → (Bytes → List Bytes → Keyspace → Keyspace × Bytes)
    → List RespValue
    → Keyspace
    → Keyspace × Bytes
with_values arity kind values body (c ∷ k ∷ v ∷ vs) d =
    if is_bulk k
    then if all_bulk (v ∷ vs) then body (str_val k) (texts (v ∷ vs)) d else (d, values)
    else (d, kind)
with_values arity kind values body _ d = (d, arity)

-- `args.size() >= 2`, and every argument is a bulk string.
unfoldable pub with_keys :
    Bytes
    → Bytes
    → (List Bytes → Keyspace → Keyspace × Bytes)
    → List RespValue
    → Keyspace
    → Keyspace × Bytes
with_keys arity kind body (c ∷ k ∷ ks) d =
    if all_bulk (k ∷ ks) then body (texts (k ∷ ks)) d else (d, kind)
with_keys arity kind body _ d = (d, arity)
