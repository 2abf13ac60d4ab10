-- ===== src/RedisTui/Info.antt =====
-- clients/tui/redis_tui.cpp: what the client keeps of the server's replies to INFO. Numbers of type
-- `double` are read and printed by the C++ library, which is a parameter.
use minimum_redis.Base.{
  ℕ, ◌==◌, Bool, true, false, Option, none, some, List, [], ◌∷◌, Bytes, text, if◌then◌else◌,
}
use minimum_redis.Base.Int.{ℤ}
use minimum_redis.Base.Number.{stoi}
use minimum_redis.Dict.{Dict, find, put}
use minimum_redis.Double.{Double}
use minimum_redis.RedisClient.{Link}
use minimum_redis.RedisTui.{EnhancedRedisTui, max_history, remember, client_send, client_response}
use minimum_redis.RedisTui.Browser.{lines}

-- What the C++ library and the machine do with numbers of type `double`: `std::stod`, division by
-- 1024.0 twice, `std::fixed` with a precision, and `(a / b) * 30` as an `int`.
pub record Doubles : Type 0 where
  pub stod : Bytes → Option Double
  pub megabytes : Double → Double
  pub fixed : ℕ → Double → Bytes
  pub thirtieths : Double → Double → ℤ

-- `line.find(':')`, as what stands before it and behind it.
abbrev pub before : ℕ → Option (Bytes × Bytes) → Option (Bytes × Bytes)
before c none = none
before c (some (key, value)) = some (c ∷ key, value)

unfoldable pub at_colon : Bytes → Option (Bytes × Bytes)
at_colon [] = none
at_colon (c ∷ s) = let later = at_colon s in if c == b':' then some ([], s) else before c later

-- `line.empty() || line[0] == '#'`
abbrev pub is_comment : Bytes → Bool
is_comment [] = true
is_comment (c ∷ s) = c == b'#'

abbrev pub put_field : Option (Bytes × Bytes) → Dict Bytes → Dict Bytes
put_field none info = info
put_field (some (key, value)) info = put key value info

unfoldable pub info_of : List Bytes → Dict Bytes → Dict Bytes
unfolding at_colon put
info_of [] info = info
info_of (line ∷ later) info =
    info_of later (if is_comment line then info else put_field (at_colon line) info)

module _ {W : Type 0} where
  abbrev pub on_info : EnhancedRedisTui W × Bytes → EnhancedRedisTui W
  on_info (t, response) = record t { server_info = info_of (lines response) t.server_info }

  abbrev pub after_info : Link W → EnhancedRedisTui W × Bool → EnhancedRedisTui W
  after_info link (t, false) = t
  after_info link (t, true) = on_info (client_response link t)

  unfoldable pub fetch_server_info : Link W → EnhancedRedisTui W → EnhancedRedisTui W
  unfolding client_send client_response lines info_of
  fetch_server_info link t =
      after_info link (client_send link (text "INFO") (record t { server_info = [] }))

  abbrev pub push_memory : Doubles → Option Double → EnhancedRedisTui W → EnhancedRedisTui W
  push_memory doubles none t = t
  push_memory doubles (some d) t = record t {
    memory_history = remember max_history (doubles.megabytes d) t.memory_history;
  }

  abbrev pub push_connections : Option ℤ → EnhancedRedisTui W → EnhancedRedisTui W
  push_connections none t = t
  push_connections (some n) t = record t {
    connections_history = remember max_history n t.connections_history;
  }

  abbrev pub update_memory : Doubles → Option Bytes → EnhancedRedisTui W → EnhancedRedisTui W
  update_memory doubles none t = t
  update_memory doubles (some s) t = push_memory doubles (doubles.stod s) t

  abbrev pub update_connections : Option Bytes → EnhancedRedisTui W → EnhancedRedisTui W
  update_connections none t = t
  update_connections (some s) t = push_connections (stoi s) t

  unfoldable pub update_monitoring_data : Doubles → EnhancedRedisTui W → EnhancedRedisTui W
  unfolding find remember stoi
  update_monitoring_data doubles t =
      let t = update_memory doubles (find (text "used_memory") t.server_info) t in
      update_connections (find (text "connected_clients") t.server_info) t
