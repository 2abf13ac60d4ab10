-- ===== src/RedisTui/Bounds/Monitor.antt =====
-- clients/tui/redis_tui.cpp: what the view of the server keeps.
use minimum_redis.Base.{
  ℕ, zero, suc, ◌-◌, ◌≤◌, Bool, true, false, List, Bytes, text, equal, length, if◌then◌else◌, arith,
}
use minimum_redis.Base.Int.{ℤ}
use minimum_redis.Double.{Double}
use minimum_redis.RedisClient.{Link}
use minimum_redis.RedisTui.{EnhancedRedisTui, max_history, max_history_cmds, print, read_line}
use minimum_redis.RedisTui.Info.{Doubles, fetch_server_info, update_monitoring_data}
use minimum_redis.RedisTui.Monitor.{
  Ended, and_then, display_monitor, monitor_round, on_line, ask, handle_server_monitor,
}
use minimum_redis.RedisTui.Bounds.{Bounded, Bounded-weaken, read_line-shorter}
use minimum_redis.RedisTui.Bounds.Info.{
  fetch_server_info-IsBounded, update_monitoring_data-IsBounded,
}
use minimum_redis.RedisTui.Kept.Display.{EndsHolding, display_monitor-EndsHolding}

abbrev Within : ℕ → List Bytes → List Double → List ℤ → List (Bytes × Bytes) → ℕ → Bytes → Type 0
Within n commands memory connections pairs page input =
    (length commands ≤ max_history_cmds)
    × (length memory ≤ max_history)
    × (length connections ≤ max_history)
    × (length pairs ≤ 50)
    × (page ≤ 2)
    × (length input ≤ n)

module _ {W : Type 0} where
  -- However it ends, and also if it is still running. Then at most `k` bytes are still to be read.
  abbrev pub EndsBounded : ℕ → ℕ → Ended W → Type 0
  EndsBounded n k (Ended.returned t) = Bounded n t
  EndsBounded n k (Ended.thrown e t) = Bounded n t
  EndsBounded n k (Ended.unfinished t) = Bounded k t

  pub and_then-EndsBounded :
      (n m k : ℕ) (r : Ended W) (go : EnhancedRedisTui W → Ended W)
      → m ≤ n
      → EndsBounded m k r
      → ((t : EnhancedRedisTui W) → Bounded m t → EndsBounded n k (go t))
      → EndsBounded n k (and_then r go)
  and_then-EndsBounded n m k (Ended.returned t) go le h next = next t h
  and_then-EndsBounded n m k (Ended.thrown e t) go le h next = Bounded-weaken le t h
  and_then-EndsBounded n m k (Ended.unfinished t) go le h next = h

  pub if-EndsBounded :
      (n k : ℕ) (b : Bool) (r s : Ended W)
      → EndsBounded n k r
      → EndsBounded n k s
      → EndsBounded n k (if b then r else s)
  if-EndsBounded n k true r s h i = h
  if-EndsBounded n k false r s h i = i

  pub EndsBounded-weaken :
      (n k m j : ℕ) (r : Ended W) → n ≤ m → k ≤ j → EndsBounded n k r → EndsBounded m j r
  EndsBounded-weaken n k m j (Ended.returned t) le le' h = Bounded-weaken le t h
  EndsBounded-weaken n k m j (Ended.thrown e t) le le' h = Bounded-weaken le t h
  EndsBounded-weaken n k m j (Ended.unfinished t) le le' h = Bounded-weaken le' t h

  ended : (n k : ℕ) (r : Ended W) → EndsHolding (Within n) r → EndsBounded n k r
  ended n k (Ended.returned t) h = h
  ended n k (Ended.thrown e t) h = h
  ended n k (Ended.unfinished t) h = absurd h

  monitor_round-EndsBounded :
      (n k : ℕ) (link : Link W) (doubles : Doubles) (t : EnhancedRedisTui W)
      → Bounded n t
      → EndsBounded n k (monitor_round link doubles t)
  unfolding monitor_round
  monitor_round-EndsBounded n k link doubles t h =
      let u = update_monitoring_data doubles (fetch_server_info link t) in
      ended n k (display_monitor doubles u) (
        display_monitor-EndsHolding (Within n) doubles u (
          update_monitoring_data-IsBounded doubles (fetch_server_info link t)
            (fetch_server_info-IsBounded link t h)))

  on_line-EndsBounded :
      (n k : ℕ) (again : EnhancedRedisTui W → Ended W) (x : EnhancedRedisTui W × Bytes)
      → Bounded (n - 1) x.0
      → EndsBounded n k (again x.0)
      → EndsBounded n k (on_line again x)
  on_line-EndsBounded n k again (t, line) h kept =
      if-EndsBounded n k (equal line (text "b")) (Ended.returned t) (again t)
        (Bounded-weaken (omega arith) t h) kept

  ask-EndsBounded :
      (n k : ℕ) (again : EnhancedRedisTui W → Ended W)
      → ((t : EnhancedRedisTui W) → Bounded (n - 1) t → EndsBounded n k (again t))
      → (t : EnhancedRedisTui W) → Bounded n t
      → EndsBounded n k (ask again t)
  unfolding print
  ask-EndsBounded n k again kept t h =
      let u = print (text "\nPress Enter to refresh or 'b' for menu: ") t in
      let h = read_line-shorter u h in
      on_line-EndsBounded n k again (read_line u) h (kept (read_line u).0 h)

  -- Each round takes a byte of the input, if there is any left.
  pub handle_server_monitor-EndsBounded :
      (n f : ℕ) (link : Link W) (doubles : Doubles) (t : EnhancedRedisTui W)
      → Bounded n t
      → EndsBounded n (n - f) (handle_server_monitor f link doubles t)
  unfolding handle_server_monitor
  handle_server_monitor-EndsBounded n zero link doubles t h = Bounded-weaken (omega arith) t h
  handle_server_monitor-EndsBounded n (suc f) link doubles t h =
      let again = handle_server_monitor f link doubles in
      let k = n - suc f in
      and_then-EndsBounded n n k (monitor_round link doubles t) (ask again) (omega arith)
        (monitor_round-EndsBounded n k link doubles t h)
        (ask-EndsBounded n k again (λ u less.
          EndsBounded-weaken (n - 1) (n - 1 - f) n k (again u) (omega arith) (omega arith)
            (handle_server_monitor-EndsBounded (n - 1) f link doubles u less)))
