-- ===== src/RedisTui/Kept/Display.antt =====
-- clients/tui/redis_tui.cpp: what the view of the server prints, and what it leaves as it is.
use minimum_redis.Base.{
  ℕ, suc, Bool, true, false, Option, none, some, List, [], ◌∷◌, ◌++◌, Bytes, text, equal,
  if◌then◌else◌,
}
use minimum_redis.Base.Int.{ℤ}
use minimum_redis.Base.Number.{to_string_ℤ}
use minimum_redis.Dict.{Dict, find}
use minimum_redis.Double.{Double}
use minimum_redis.RedisTui.{EnhancedRedisTui, print, display_header}
use minimum_redis.RedisTui.Info.{Doubles}
use minimum_redis.RedisTui.Monitor.{
  Ended, and_then, at_field, field, show_field, show_megabytes, show_memory, show_status,
  show_persistence, show_bar, bar, memory_bars, connection_bars, max_from, max_from_int,
  show_memory_rows, show_connection_rows, show_memory_trend, show_connection_trend, show_rest,
  show_heading, show_info, show_server, display_monitor,
}

-- What depends on the data of the views and on the input alone.
module _ {W : Type 0}
    (Q : List Bytes → List Double → List ℤ → List (Bytes × Bytes) → ℕ → Bytes → Type 0) where
  abbrev pub Holds : EnhancedRedisTui W → Type 0
  Holds t =
      Q t.command_history t.memory_history t.connections_history t.key_value_pairs t.current_page
        t.input

  -- It holds in the end, and there is an end.
  abbrev pub EndsHolding : Ended W → Type 0
  EndsHolding (Ended.returned t) = Holds t
  EndsHolding (Ended.thrown e t) = Holds t
  EndsHolding (Ended.unfinished t) = ⊥

  if-Holds : (b : Bool) (t u : EnhancedRedisTui W) → Holds t → Holds u → Holds (if b then t else u)
  if-Holds true t u h i = h
  if-Holds false t u h i = i

  print-Holds : (s : Bytes) (t : EnhancedRedisTui W) → Holds t → Holds (print s t)
  unfolding print
  print-Holds s t h = h

  and_then-EndsHolding :
      (r : Ended W) (go : EnhancedRedisTui W → Ended W)
      → EndsHolding r
      → ((t : EnhancedRedisTui W) → Holds t → EndsHolding (go t))
      → EndsHolding (and_then r go)
  and_then-EndsHolding (Ended.returned t) go h k = k t h
  and_then-EndsHolding (Ended.thrown e t) go h k = h
  and_then-EndsHolding (Ended.unfinished t) go h k = absurd h

  at_field-Holds :
      (key : Bytes) (value : Option Bytes) (t : EnhancedRedisTui W)
      → Holds t
      → Holds (at_field key value t).0
  at_field-Holds key (some value) t h = h
  at_field-Holds key none t h = h

  field-Holds : (key : Bytes) (t : EnhancedRedisTui W) → Holds t → Holds (field key t).0
  unfolding field
  field-Holds key t h = at_field-Holds key (find key t.server_info) t h

  show_field-Holds :
      (label key end : Bytes) (t : EnhancedRedisTui W)
      → Holds t
      → Holds (show_field label key end t)
  unfolding show_field print
  show_field-Holds label key end t h = field-Holds key t h

  show_megabytes-EndsHolding :
      (doubles : Doubles) (d : Option Double) (t : EnhancedRedisTui W)
      → Holds t
      → EndsHolding (show_megabytes doubles d t)
  unfolding print
  show_megabytes-EndsHolding doubles none t h = h
  show_megabytes-EndsHolding doubles (some d) t h = h

  show_memory-EndsHolding :
      (doubles : Doubles) (x : EnhancedRedisTui W × Bytes)
      → Holds x.0
      → EndsHolding (show_memory doubles x)
  show_memory-EndsHolding doubles (t, []) h = h
  show_memory-EndsHolding doubles (t, c ∷ s) h =
      show_megabytes-EndsHolding doubles (doubles.stod (c ∷ s)) t h

  show_bar-EndsHolding :
      (i : ℕ) (bars : Option Bytes) (value : Bytes) (t : EnhancedRedisTui W)
      → Holds t
      → EndsHolding (show_bar i bars value t)
  unfolding print
  show_bar-EndsHolding i none value t h = h
  show_bar-EndsHolding i (some bars) value t h = h

  show_memory_rows-EndsHolding :
      (doubles : Doubles) (i : ℕ) (m : Double) (ds : List Double) (t : EnhancedRedisTui W)
      → Holds t
      → EndsHolding (show_memory_rows doubles i m ds t)
  unfolding show_memory_rows
  show_memory_rows-EndsHolding doubles i m [] t h = h
  show_memory_rows-EndsHolding doubles i m (d ∷ ds) t h =
      and_then-EndsHolding
        (show_bar i (bar b'#' (memory_bars doubles m d)) (doubles.fixed 1 d ++ text " MB") t)
        (show_memory_rows doubles (suc i) m ds)
        (show_bar-EndsHolding i (bar b'#' (memory_bars doubles m d))
          (doubles.fixed 1 d ++ text " MB") t h)
        (show_memory_rows-EndsHolding doubles (suc i) m ds)

  show_memory_trend-EndsHolding :
      (doubles : Doubles) (ds : List Double) (t : EnhancedRedisTui W)
      → Holds t
      → EndsHolding (show_memory_trend doubles ds t)
  unfolding print
  show_memory_trend-EndsHolding doubles [] t h = h
  show_memory_trend-EndsHolding doubles (d ∷ ds) t h =
      show_memory_rows-EndsHolding doubles 0 (max_from d ds) (d ∷ ds)
        (print (text "\n[DATA] Memory Usage Trend:\n") t) h

  show_connection_rows-EndsHolding :
      (i : ℕ) (m : ℤ) (ns : List ℤ) (t : EnhancedRedisTui W)
      → Holds t
      → EndsHolding (show_connection_rows i m ns t)
  unfolding show_connection_rows
  show_connection_rows-EndsHolding i m [] t h = h
  show_connection_rows-EndsHolding i m (n ∷ ns) t h =
      let bars = bar b'*' (connection_bars m n) in
      let value = to_string_ℤ n ++ text " clients" in
      and_then-EndsHolding (show_bar i bars value t) (show_connection_rows (suc i) m ns)
        (show_bar-EndsHolding i bars value t h) (show_connection_rows-EndsHolding (suc i) m ns)

  show_connection_trend-EndsHolding :
      (ns : List ℤ) (t : EnhancedRedisTui W) → Holds t → EndsHolding (show_connection_trend ns t)
  unfolding print
  show_connection_trend-EndsHolding [] t h = h
  show_connection_trend-EndsHolding (n ∷ ns) t h =
      show_connection_rows-EndsHolding 0 (max_from_int n ns) (n ∷ ns)
        (print (text "\n[CLIENTS] Connection Trend:\n") t) h

  show_status-Holds : (x : EnhancedRedisTui W × Bytes) → Holds x.0 → Holds (show_status x)
  unfolding print
  show_status-Holds (t, status) h =
      if-Holds (equal status (text "yes")) _ _ (show_field-Holds _ _ _ t h) h

  show_persistence-Holds : (x : EnhancedRedisTui W × Bytes) → Holds x.0 → Holds (show_persistence x)
  show_persistence-Holds (t, []) h = h
  show_persistence-Holds (t, c ∷ s) h =
      let a = print (text "\n[SAVE] Persistence Status:\n") t in
      let b = show_field (text "  Daemon Running: ") (text "save_daemon_running") [] a in
      let c =
        show_field (text "  Save Interval: ") (text "save_daemon_interval") (text " seconds") b in
      let d = show_field (text "  Successful Saves: ") (text "save_daemon_successful_saves") [] c in
      let e = show_field (text "  Failed Saves: ") (text "save_daemon_failed_saves") [] d in
      let kept : Holds e = show_field-Holds _ _ _ d (
        show_field-Holds _ _ _ c (
          show_field-Holds _ _ _ b (
            show_field-Holds _ _ _ a (print-Holds (text "\n[SAVE] Persistence Status:\n") t h)))) in
      show_status-Holds (field (text "save_daemon_running") e)
        (field-Holds (text "save_daemon_running") e kept)

  show_rest-EndsHolding :
      (doubles : Doubles) (t : EnhancedRedisTui W) → Holds t → EndsHolding (show_rest doubles t)
  show_rest-EndsHolding doubles t h =
      let a = show_field (text "  Total Commands: ") (text "total_commands_processed") [] t in
      let b = field (text "save_daemon_running") a in
      let kept =
        show_persistence-Holds b
          (field-Holds (text "save_daemon_running") a (show_field-Holds _ _ _ t h)) in
      let c = show_persistence b in
      and_then-EndsHolding (show_memory_trend doubles c.memory_history c)
        (λ u. show_connection_trend u.connections_history u)
        (show_memory_trend-EndsHolding doubles c.memory_history c kept)
        (λ u. show_connection_trend-EndsHolding u.connections_history u)

  show_heading-Holds : (t : EnhancedRedisTui W) → Holds t → Holds (show_heading t)
  show_heading-Holds t h =
      let a = print (text "[INFO] Server Info:\n") t in
      let b = show_field (text "  Redis Version: ") (text "redis_version") [] a in
      let c = show_field (text "  Uptime: ") (text "uptime_in_seconds") (text " seconds") b in
      show_field-Holds _ _ _ c (
        show_field-Holds _ _ _ b
          (show_field-Holds _ _ _ a (print-Holds (text "[INFO] Server Info:\n") t h)))

  show_info-EndsHolding :
      (doubles : Doubles) (t : EnhancedRedisTui W) → Holds t → EndsHolding (show_info doubles t)
  unfolding show_info
  show_info-EndsHolding doubles t h =
      let d = show_heading t in
      and_then-EndsHolding (show_memory doubles (field (text "used_memory") d)) (show_rest doubles)
        (show_memory-EndsHolding doubles (field (text "used_memory") d)
          (field-Holds (text "used_memory") d (show_heading-Holds t h)))
        (show_rest-EndsHolding doubles)

  show_server-EndsHolding :
      (doubles : Doubles) (info : Dict Bytes) (t : EnhancedRedisTui W)
      → Holds t
      → EndsHolding (show_server doubles info t)
  show_server-EndsHolding doubles [] t h = print-Holds _ t h
  show_server-EndsHolding doubles (entry ∷ info) t h = show_info-EndsHolding doubles t h

  pub display_monitor-EndsHolding :
      (doubles : Doubles) (t : EnhancedRedisTui W)
      → Holds t
      → EndsHolding (display_monitor doubles t)
  unfolding display_monitor display_header print
  display_monitor-EndsHolding doubles t h = show_server-EndsHolding doubles t.server_info _ h
