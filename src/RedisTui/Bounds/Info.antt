-- ===== src/RedisTui/Bounds/Info.antt =====
-- clients/tui/redis_tui.cpp: what a reply to INFO changes.
use minimum_redis.Base.{ℕ, Bool, true, false, Option, none, some, [], Bytes, text}
use minimum_redis.Base.Int.{ℤ}
use minimum_redis.Base.Number.{stoi}
use minimum_redis.Dict.{find}
use minimum_redis.Double.{Double}
use minimum_redis.RedisClient.{Link}
use minimum_redis.RedisTui.{EnhancedRedisTui, max_history, client_send}
use minimum_redis.RedisTui.Info.{
  Doubles, after_info, fetch_server_info, push_memory, push_connections, update_memory,
  update_connections, update_monitoring_data,
}
use minimum_redis.RedisTui.Bounds.{
  Bounded, length-remember, client_send-IsBounded, client_response-IsBounded,
}

module _ {W : Type 0} {n : ℕ} where
  after_info-IsBounded :
      (link : Link W) (x : EnhancedRedisTui W × Bool)
      → Bounded n x.0
      → Bounded n (after_info link x)
  after_info-IsBounded link (t, false) h = h
  after_info-IsBounded link (t, true) h = client_response-IsBounded link t h

  pub fetch_server_info-IsBounded :
      (link : Link W) (t : EnhancedRedisTui W) → Bounded n t → Bounded n (fetch_server_info link t)
  unfolding fetch_server_info
  fetch_server_info-IsBounded link t h =
      let cleared = record t { server_info = [] } in
      after_info-IsBounded link (client_send link (text "INFO") cleared)
        (client_send-IsBounded link (text "INFO") cleared h)

  push_memory-IsBounded :
      (doubles : Doubles) (d : Option Double) (t : EnhancedRedisTui W)
      → Bounded n t
      → Bounded n (push_memory doubles d t)
  push_memory-IsBounded doubles none t h = h
  push_memory-IsBounded doubles (some d) t h = (
    h.0,
    length-remember max_history (doubles.megabytes d) t.memory_history h.1,
    h.2,
    h.3,
    h.4,
    h.5,
  )

  push_connections-IsBounded :
      (c : Option ℤ) (t : EnhancedRedisTui W) → Bounded n t → Bounded n (push_connections c t)
  push_connections-IsBounded none t h = h
  push_connections-IsBounded (some c) t h =
      (h.0, h.1, length-remember max_history c t.connections_history h.2, h.3, h.4, h.5)

  update_memory-IsBounded :
      (doubles : Doubles) (s : Option Bytes) (t : EnhancedRedisTui W)
      → Bounded n t
      → Bounded n (update_memory doubles s t)
  update_memory-IsBounded doubles none t h = h
  update_memory-IsBounded doubles (some s) t h = push_memory-IsBounded doubles (doubles.stod s) t h

  update_connections-IsBounded :
      (s : Option Bytes) (t : EnhancedRedisTui W) → Bounded n t → Bounded n (update_connections s t)
  update_connections-IsBounded none t h = h
  update_connections-IsBounded (some s) t h = push_connections-IsBounded (stoi s) t h

  pub update_monitoring_data-IsBounded :
      (doubles : Doubles) (t : EnhancedRedisTui W)
      → Bounded n t
      → Bounded n (update_monitoring_data doubles t)
  unfolding update_monitoring_data
  update_monitoring_data-IsBounded doubles t h =
      let u = update_memory doubles (find (text "used_memory") t.server_info) t in
      update_connections-IsBounded (find (text "connected_clients") u.server_info) u
        (update_memory-IsBounded doubles (find (text "used_memory") t.server_info) t h)
