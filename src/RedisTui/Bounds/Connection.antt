-- ===== src/RedisTui/Bounds/Connection.antt =====
-- clients/tui/redis_tui.cpp: what the views of the connection and of the history keep.
use minimum_redis.Base.{ℕ, suc, Bool, true, false, List, [], ◌∷◌, Bytes, text, equal}
use minimum_redis.RedisClient.{Link, stop}
use minimum_redis.RedisTui.{
  EnhancedRedisTui, print, read_line, display_header, client_connect, with_connected,
}
use minimum_redis.RedisTui.Connection.{
  disconnect_prompt, connect_prompt, connection_header, on_disconnect, show_connected, on_connect,
  offer, handle_connection, show_commands, list_commands, handle_history,
}
use minimum_redis.RedisTui.Bounds.{
  Bounded, read_line-IsBounded, wait_for_enter-IsBounded, if-IsBounded,
}

module _ {W : Type 0} {n : ℕ} where
  on_disconnect-IsBounded :
      (x : EnhancedRedisTui W × Bytes) → Bounded n x.0 → Bounded n (on_disconnect x)
  unfolding print stop
  on_disconnect-IsBounded (t, cmd) h = if-IsBounded (equal cmd (text "disconnect")) _ _ h h

  show_connected-IsBounded :
      (x : EnhancedRedisTui W × Bool) → Bounded n x.0 → Bounded n (show_connected x)
  unfolding print
  show_connected-IsBounded (t, true) h = h
  show_connected-IsBounded (t, false) h = h

  on_connect-IsBounded :
      (link : Link W) (x : EnhancedRedisTui W × Bytes)
      → Bounded n x.0
      → Bounded n (on_connect link x)
  unfolding client_connect
  on_connect-IsBounded link (t, cmd) h =
      if-IsBounded (equal cmd (text "connect")) _ _
        (show_connected-IsBounded (with_connected t (link.connect_to_server t.world)) h) h

  offer-IsBounded :
      (link : Link W) (t : EnhancedRedisTui W) → Bounded n t → Bounded n (offer link t)
  unfolding print
  offer-IsBounded link t h =
      if-IsBounded t.client.connected _ _
        (on_disconnect-IsBounded (read_line (disconnect_prompt t))
          (read_line-IsBounded (disconnect_prompt t) h))
        (on_connect-IsBounded link (read_line (connect_prompt t))
          (read_line-IsBounded (connect_prompt t) h))

  pub handle_connection-IsBounded :
      (link : Link W) (t : EnhancedRedisTui W) → Bounded n t → Bounded n (handle_connection link t)
  unfolding handle_connection print display_header
  handle_connection-IsBounded link t h =
      wait_for_enter-IsBounded (offer link (connection_header t))
        (offer-IsBounded link (connection_header t) h)

  show_commands-IsBounded :
      (i : ℕ) (commands : List Bytes) (t : EnhancedRedisTui W)
      → Bounded n t
      → Bounded n (show_commands i commands t)
  unfolding show_commands print
  show_commands-IsBounded i [] t h = h
  show_commands-IsBounded i (command ∷ commands) t h = show_commands-IsBounded (suc i) commands _ h

  list_commands-IsBounded :
      (commands : List Bytes) (t : EnhancedRedisTui W)
      → Bounded n t
      → Bounded n (list_commands commands t)
  unfolding print
  list_commands-IsBounded [] t h = h
  list_commands-IsBounded (command ∷ commands) t h =
      show_commands-IsBounded 1 (command ∷ commands) t h

  pub handle_history-IsBounded :
      (t : EnhancedRedisTui W) → Bounded n t → Bounded n (handle_history t)
  unfolding handle_history print display_header
  handle_history-IsBounded t h =
      let u = print (text "\n[HISTORY] COMMAND HISTORY\n") (display_header t) in
      wait_for_enter-IsBounded (list_commands u.command_history u)
        (list_commands-IsBounded u.command_history u h)
