-- ===== src/RedisTui/Connection.antt =====
-- clients/tui/redis_tui.cpp: the views of the connection and of the commands given so far.
use minimum_redis.Base.{
  ℕ, suc, Bool, true, false, List, [], ◌∷◌, ◌++◌, Bytes, text, equal, if◌then◌else◌,
}
use minimum_redis.Base.Number.{to_string, to_string_ℤ}
use minimum_redis.RedisClient.{Link, stop}
use minimum_redis.RedisTui.{
  EnhancedRedisTui, replicate, print, read_line, read_byte, pad, display_header, client_connect,
  wait_for_enter,
}

module _ {W : Type 0} where
  -- `client.get_host() << ":" << client.get_port()`
  abbrev address : EnhancedRedisTui W → Bytes
  address t = t.client.host ++ (text ":" ++ to_string_ℤ t.client.port)

  abbrev pub on_disconnect : EnhancedRedisTui W × Bytes → EnhancedRedisTui W
  on_disconnect (t, cmd) =
      if equal cmd (text "disconnect")
      then print (text "[OK] Disconnected successfully\n") (record t { client = stop t.client })
      else t

  abbrev pub show_connected : EnhancedRedisTui W × Bool → EnhancedRedisTui W
  show_connected (t, true) = print (text "[OK] Connected to " ++ (address t ++ text "\n")) t
  show_connected (t, false) = print (text "[ERROR] Failed to connect\n") t

  abbrev pub on_connect : Link W → EnhancedRedisTui W × Bytes → EnhancedRedisTui W
  on_connect link (t, cmd) =
      if equal cmd (text "connect") then show_connected (client_connect link t) else t

  abbrev pub disconnect_prompt : EnhancedRedisTui W → EnhancedRedisTui W
  disconnect_prompt t =
      print
        (text "Currently connected to "
          ++ (address t ++ text "\nType 'disconnect' to disconnect, or 'back' to return: "))
        t

  abbrev pub connect_prompt : EnhancedRedisTui W → EnhancedRedisTui W
  connect_prompt t =
      print (text "Not connected. Type 'connect' to connect to default server, or 'back': ") t

  abbrev pub offer : Link W → EnhancedRedisTui W → EnhancedRedisTui W
  offer link t =
      if t.client.connected
      then on_disconnect (read_line (disconnect_prompt t))
      else on_connect link (read_line (connect_prompt t))

  abbrev pub connection_header : EnhancedRedisTui W → EnhancedRedisTui W
  connection_header t = print (text "\n[CONNECTION] CONNECTION MANAGEMENT\n") (display_header t)

  unfoldable pub handle_connection : Link W → EnhancedRedisTui W → EnhancedRedisTui W
  unfolding print display_header read_line read_byte client_connect stop equal to_string_ℤ
  handle_connection link t = wait_for_enter (offer link (connection_header t))

  -- The loop over the commands; `i` is the number of the first.
  unfoldable pub show_commands : ℕ → List Bytes → EnhancedRedisTui W → EnhancedRedisTui W
  unfolding print to_string replicate
  show_commands i [] t = t
  show_commands i (command ∷ commands) t =
      show_commands (suc i) commands
        (print (pad 3 (to_string i) t ++ (text ". " ++ (command ++ text "\n"))) t)

  abbrev pub list_commands : List Bytes → EnhancedRedisTui W → EnhancedRedisTui W
  list_commands [] t = print (text "No commands in history\n") t
  list_commands (command ∷ commands) t = show_commands 1 (command ∷ commands) t

  unfoldable pub handle_history : EnhancedRedisTui W → EnhancedRedisTui W
  unfolding print display_header read_byte show_commands
  handle_history t =
      let t = print (text "\n[HISTORY] COMMAND HISTORY\n") (display_header t) in
      wait_for_enter (list_commands t.command_history t)
