-- ===== src/RedisClient.antt =====
-- clients/tui/redis_client.h and redis_client.cpp: how the client reads the replies. What it sends is
-- in Resp/Encode. The connection itself is left out: what `select` and `recv` give is an argument.
pub mod Messages
use minimum_redis.Base.{
  ℕ, suc, ◌+◌, ◌==◌, ◌&&◌, Bool, true, false, Option, none, some, List, [], ◌∷◌, ◌++◌, Bytes, text,
  codes, take, drop, length, if◌then◌else◌, ◌≡◌, refl,
}
use minimum_redis.Base.{c_str}
use minimum_redis.Base.Int.{ℤ}

-- The client's `RespParser`, which is another class than the server's.
pub record RespParser : Type 0 where
  pub buffer : Bytes
  pub pos : ℕ

abbrev pub new_parser : RespParser
new_parser = record { buffer = []; pos = 0 }

unfoldable pub append : Bytes → RespParser → RespParser
append input p = record p { buffer = p.buffer ++ input }

unfoldable pub clear : RespParser → RespParser
clear p = record { buffer = []; pos = 0 }

abbrev pub starts_crlf : Bytes → Bool
starts_crlf [] = false
starts_crlf (c ∷ []) = false
starts_crlf (c ∷ d ∷ s) = c == b'\r' && d == b'\n'

-- `find("\r\n")`, as the number of bytes in front of it.
unfoldable pub find_crlf : Bytes → Option ℕ
find_crlf [] = none
find_crlf (c ∷ s) =
    let later = find_crlf s in
    if starts_crlf (c ∷ s) then some 0 else elim later [ none ↦ none | some n ↦ some (suc n) ]

abbrev pub message_at : RespParser → Option ℕ → RespParser × Bytes
message_at p none = (p, [])
message_at p (some n) = (record p { pos = p.pos + n + 2 }, take (n + 2) (drop p.pos p.buffer))

-- The next message is the next line, with its end; the empty text if there is none.
unfoldable pub get_next_message : RespParser → RespParser × Bytes
unfolding find_crlf
get_next_message p = message_at p (find_crlf (drop p.pos p.buffer))

-- What `select` and `recv` give.
pub data Received : Type 0 where
  timeout closed : Received
  bytes : Bytes → Received

pub record RedisClient : Type 0 where
  pub host : Bytes
  pub port : ℤ
  pub connected : Bool
  pub parser : RespParser

abbrev pub new_client : Bytes → ℤ → RedisClient
new_client host port = record { host = host; port = port; connected = false; parser = new_parser }

-- The calls of the system on the socket, over what is at its other end: whether `send` sent all the
-- bytes, what `select` and `recv` give, and whether `connect_to_server` succeeds.
pub record Link (W : Type 0) : Type 0 where
  pub send : Bytes → W → W × Bool
  pub receive : W → W × Received
  pub connect_to_server : W → W × Bool

abbrev pub with_parser : RedisClient → RespParser × Bytes → RedisClient × Bytes
with_parser c (p, message) = (record c { parser = p }, message)

abbrev pub on_received : Received → RedisClient → RedisClient × Bytes
on_received Received.timeout c = (c, [])
on_received Received.closed c = (record c { connected = false }, [])
on_received (Received.bytes input) c =
    with_parser c (get_next_message (append (c_str input) c.parser))

-- `std::string(buffer.data())` ends at the first zero byte.
unfoldable pub get_response : Received → RedisClient → RedisClient × Bytes
unfolding c_str append get_next_message
get_response received c = if c.connected then on_received received c else (c, [])

unfoldable pub stop : RedisClient → RedisClient
stop c = record c { connected = false }
