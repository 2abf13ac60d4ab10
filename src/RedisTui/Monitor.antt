-- ===== src/RedisTui/Monitor.antt =====
-- clients/tui/redis_tui.cpp: the view of the server. An operation that can throw says so in its
-- result.
use minimum_redis.Base.{
  ℕ, zero, suc, ◌+◌, ◌/◌, Option, none, some, List, [], ◌∷◌, ◌++◌, Bytes, text, equal,
  if◌then◌else◌,
}
use minimum_redis.Base.Int.{ℤ, pos, negsuc, ltb_ℤ, scale, wrap_32}
use minimum_redis.Base.Number.{to_string, to_string_ℤ}
use minimum_redis.Dict.{Dict, find, put}
use minimum_redis.Double
use minimum_redis.Double.{Double}
use minimum_redis.RedisClient.{Link}
use minimum_redis.RedisTui.{EnhancedRedisTui, replicate, print, read_line, pad, display_header}
use minimum_redis.RedisTui.Info.{Doubles, fetch_server_info, update_monitoring_data}

-- The exceptions: those of `std::stod`, and that of a string of negative length.
pub data Exception : Type 0 where
  stod_error length_error : Exception

-- An operation returns, throws, or is still running when its fuel is used up.
pub data Ended (W : Type 0) : Type 0 where
  returned : EnhancedRedisTui W → Ended W
  thrown : Exception → EnhancedRedisTui W → Ended W
  unfinished : EnhancedRedisTui W → Ended W

-- `*std::max_element`, from the first on
unfoldable pub max_from : Double → List Double → Double
unfolding Double.lt
max_from m [] = m
max_from m (d ∷ ds) = max_from (if Double.lt m d then d else m) ds

unfoldable pub max_from_int : ℤ → List ℤ → ℤ
max_from_int m [] = m
max_from_int m (n ∷ ns) = max_from_int (if ltb_ℤ m n then n else m) ns

-- `/` of `int`, for a positive divisor.
abbrev quotient : ℤ → ℤ → ℤ
quotient (pos a) (pos b) = pos (a / b)
quotient (negsuc a) (pos b) = elim ((a + 1) / b) [ zero ↦ pos 0 | suc q ↦ negsuc q ]
quotient a (negsuc b) = pos 0

-- `(connections_history[i] * 30) / max_conn`
unfoldable pub connection_bars : ℤ → ℤ → ℤ
unfolding scale wrap_32
connection_bars m n = if ltb_ℤ (pos 0) m then quotient (wrap_32 (scale 30 n)) m else pos 0

unfoldable pub memory_bars : Doubles → Double → Double → ℤ
unfolding Double.lt
memory_bars doubles m d = if Double.lt 0 m then doubles.thirtieths d m else pos 0

-- `std::string(bars, c)`: the conversion to `size_t` makes a negative number too large.
abbrev pub bar : ℕ → ℤ → Option Bytes
bar c (pos n) = some (replicate n c)
bar c (negsuc n) = none

module _ {W : Type 0} where
  abbrev pub and_then : Ended W → (EnhancedRedisTui W → Ended W) → Ended W
  and_then (Ended.returned t) go = go t
  and_then (Ended.thrown e t) go = Ended.thrown e t
  and_then (Ended.unfinished t) go = Ended.unfinished t

  -- `server_info[key]`, which puts an empty text where the key is missing.
  abbrev pub at_field : Bytes → Option Bytes → EnhancedRedisTui W → EnhancedRedisTui W × Bytes
  at_field key (some value) t = (t, value)
  at_field key none t = (record t { server_info = put key [] t.server_info }, [])

  unfoldable pub field : Bytes → EnhancedRedisTui W → EnhancedRedisTui W × Bytes
  unfolding find put
  field key t = at_field key (find key t.server_info) t

  -- A line with the value of a key.
  unfoldable pub show_field : Bytes → Bytes → Bytes → EnhancedRedisTui W → EnhancedRedisTui W
  unfolding print field
  show_field label key end t =
      let (t, value) = field key t in print (label ++ (value ++ (end ++ text "\n"))) t

  abbrev pub show_megabytes : Doubles → Option Double → EnhancedRedisTui W → Ended W
  show_megabytes doubles none t = Ended.thrown stod_error t
  show_megabytes doubles (some d) t =
      let mem_mb = doubles.fixed 2 (doubles.megabytes d) in
      Ended.returned (print (text "  Memory Used: " ++ (mem_mb ++ text " MB\n")) t)

  abbrev pub show_memory : Doubles → EnhancedRedisTui W × Bytes → Ended W
  show_memory doubles (t, []) = Ended.returned t
  show_memory doubles (t, c ∷ s) = show_megabytes doubles (doubles.stod (c ∷ s)) t

  abbrev pub show_status : EnhancedRedisTui W × Bytes → EnhancedRedisTui W
  show_status (t, status) =
      if equal status (text "yes")
      then show_field
          (text "  Status: " ++ ((226 ∷ 156 ∷ 133 ∷ []) ++ text " Active (Auto-saving every "))
          (text "save_daemon_interval") (text "s)") t
      else print (text "  Status: " ++ ((226 ∷ 157 ∷ 140 ∷ []) ++ text " Inactive\n")) t

  abbrev pub show_persistence : EnhancedRedisTui W × Bytes → EnhancedRedisTui W
  show_persistence (t, []) = t
  show_persistence (t, c ∷ s) =
      let t = print (text "\n[SAVE] Persistence Status:\n") t in
      let t = show_field (text "  Daemon Running: ") (text "save_daemon_running") [] t in
      let t =
        show_field (text "  Save Interval: ") (text "save_daemon_interval") (text " seconds") t in
      let t = show_field (text "  Successful Saves: ") (text "save_daemon_successful_saves") [] t in
      let t = show_field (text "  Failed Saves: ") (text "save_daemon_failed_saves") [] t in
      show_status (field (text "save_daemon_running") t)

  -- A row of a trend, if its bar has a length.
  abbrev pub show_bar : ℕ → Option Bytes → Bytes → EnhancedRedisTui W → Ended W
  show_bar i none value t = Ended.thrown length_error (print (pad 2 (to_string i) t ++ text ": ") t)
  show_bar i (some bars) value t = Ended.returned (
      print (pad 2 (to_string i) t ++ (text ": " ++ (bars ++ (text " " ++ (value ++ text "\n")))))
        t)

  -- The loops over the histories; `i` is the place of the first entry.
  unfoldable pub show_memory_rows :
      Doubles → ℕ → Double → List Double → EnhancedRedisTui W → Ended W
  unfolding print to_string replicate memory_bars
  show_memory_rows doubles i m [] t = Ended.returned t
  show_memory_rows doubles i m (d ∷ ds) t =
      let row =
        show_bar i (bar b'#' (memory_bars doubles m d)) (doubles.fixed 1 d ++ text " MB") t in
      and_then row (show_memory_rows doubles (suc i) m ds)

  unfoldable pub show_connection_rows : ℕ → ℤ → List ℤ → EnhancedRedisTui W → Ended W
  unfolding print to_string to_string_ℤ replicate connection_bars
  show_connection_rows i m [] t = Ended.returned t
  show_connection_rows i m (n ∷ ns) t =
      let row = show_bar i (bar b'*' (connection_bars m n)) (to_string_ℤ n ++ text " clients") t in
      and_then row (show_connection_rows (suc i) m ns)

  abbrev pub show_memory_trend : Doubles → List Double → EnhancedRedisTui W → Ended W
  show_memory_trend doubles [] t = Ended.returned t
  show_memory_trend doubles (d ∷ ds) t =
      show_memory_rows doubles 0 (max_from d ds) (d ∷ ds)
        (print (text "\n[DATA] Memory Usage Trend:\n") t)

  abbrev pub show_connection_trend : List ℤ → EnhancedRedisTui W → Ended W
  show_connection_trend [] t = Ended.returned t
  show_connection_trend (n ∷ ns) t =
      show_connection_rows 0 (max_from_int n ns) (n ∷ ns)
        (print (text "\n[CLIENTS] Connection Trend:\n") t)

  abbrev pub show_rest : Doubles → EnhancedRedisTui W → Ended W
  show_rest doubles t =
      let t = show_field (text "  Total Commands: ") (text "total_commands_processed") [] t in
      let t = show_persistence (field (text "save_daemon_running") t) in
      and_then (show_memory_trend doubles t.memory_history t)
        (λ t. show_connection_trend t.connections_history t)

  abbrev pub show_heading : EnhancedRedisTui W → EnhancedRedisTui W
  show_heading t =
      let t = print (text "[INFO] Server Info:\n") t in
      let t = show_field (text "  Redis Version: ") (text "redis_version") [] t in
      let t = show_field (text "  Uptime: ") (text "uptime_in_seconds") (text " seconds") t in
      show_field (text "  Connected Clients: ") (text "connected_clients") [] t

  unfoldable pub show_info : Doubles → EnhancedRedisTui W → Ended W
  unfolding print field show_field equal max_from max_from_int show_memory_rows show_connection_rows
  show_info doubles t =
      let t = show_heading t in
      and_then (show_memory doubles (field (text "used_memory") t)) (show_rest doubles)

  abbrev pub show_server : Doubles → Dict Bytes → EnhancedRedisTui W → Ended W
  show_server doubles [] t = Ended.returned (
      print
        (text "[ERROR] No server information available\n"
          ++ text "Make sure you're connected to a MinimalRedis server\n")
        t)
  show_server doubles (entry ∷ info) t = show_info doubles t

  unfoldable pub display_monitor : Doubles → EnhancedRedisTui W → Ended W
  unfolding print display_header show_info
  display_monitor doubles t =
      let t = print (text "\n[MONITOR] SERVER MONITOR\n") (display_header t) in
      show_server doubles t.server_info t

  -- What `handle_server_monitor` does up to the line that it reads.
  unfoldable pub monitor_round : Link W → Doubles → EnhancedRedisTui W → Ended W
  unfolding fetch_server_info update_monitoring_data display_monitor
  monitor_round link doubles t =
      display_monitor doubles (update_monitoring_data doubles (fetch_server_info link t))

  -- The line is read, and the view goes on unless it is "b".
  abbrev pub on_line : (EnhancedRedisTui W → Ended W) → EnhancedRedisTui W × Bytes → Ended W
  on_line again (t, line) = if equal line (text "b") then Ended.returned t else again t

  abbrev pub ask : (EnhancedRedisTui W → Ended W) → EnhancedRedisTui W → Ended W
  ask again t =
      on_line again (read_line (print (text "\nPress Enter to refresh or 'b' for menu: ") t))

  -- It calls itself; on fuel.
  unfoldable pub handle_server_monitor : ℕ → Link W → Doubles → EnhancedRedisTui W → Ended W
  unfolding monitor_round print read_line equal
  handle_server_monitor zero link doubles t = Ended.unfinished t
  handle_server_monitor (suc f) link doubles t =
      and_then (monitor_round link doubles t) (ask (handle_server_monitor f link doubles))
