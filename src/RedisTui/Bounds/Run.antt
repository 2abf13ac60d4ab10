-- ===== src/RedisTui/Bounds/Run.antt =====
-- clients/tui/redis_tui.cpp: what the main menu keeps.
use minimum_redis.Base.{
  ℕ, zero, suc, ◌+◌, ◌-◌, ◌==◌, ◌≤◌, [], ◌∷◌, Bytes, length, ◌≡◌, refl, subst, arith,
}
use minimum_redis.Base.Int.{ℤ}
use minimum_redis.RedisTui.{EnhancedRedisTui, print, read_line, display_header, display_menu}
use minimum_redis.RedisTui.Monitor.{Ended, and_then, handle_server_monitor}
use minimum_redis.RedisTui.Menu.{
  Platform, choose, on_choice, menu_round, menu_loop, say_goodbye, welcome, welcome_message,
  invalid_message, run, new_tui,
}
use minimum_redis.RedisTui.Bounds.{
  Bounded, Bounded-weaken, read_line-shorter, read_byte-IsBounded,
  handle_command_interface-IsBounded,
}
use minimum_redis.RedisTui.Bounds.Connection.{handle_connection-IsBounded, handle_history-IsBounded}
use minimum_redis.RedisTui.Bounds.Browser.{handle_data_browser-IsBounded}
use minimum_redis.RedisTui.Bounds.Monitor.{
  EndsBounded, EndsBounded-weaken, and_then-EndsBounded, if-EndsBounded,
  handle_server_monitor-EndsBounded,
}

empty_of : (s : Bytes) → length s ≤ 0 → s ≡ []
empty_of [] h = refl
empty_of (c ∷ s) h = absurd (omega arith)

module _ {W : Type 0} where
  choose-EndsBounded :
      (n : ℕ) (p : Platform W) (c : ℕ) (t : EnhancedRedisTui W)
      → Bounded n t
      → EndsBounded n 0 (choose p c t)
  unfolding choose print
  choose-EndsBounded n p c t h =
      let size = length t.input in
      let exact : Bounded size t = (h.0, h.1, h.2, h.3, h.4, omega arith) in
      let monitor = handle_server_monitor (size + 1) p.link p.doubles t in
      if-EndsBounded n 0 (c == b'1') _ _ (handle_command_interface-IsBounded p.link t h) (
        if-EndsBounded n 0 (c == b'2') _ _ (handle_data_browser-IsBounded p.link p.unset t h) (
          if-EndsBounded n 0 (c == b'3') _ _
            (EndsBounded-weaken size (size - (size + 1)) n 0 monitor h.5 (omega arith)
              (handle_server_monitor-EndsBounded size (size + 1) p.link p.doubles t exact))
            (if-EndsBounded n 0 (c == b'4') _ _ (handle_connection-IsBounded p.link t h) (
              if-EndsBounded n 0 (c == b'5') _ _ (handle_history-IsBounded t h) (
                if-EndsBounded n 0 (c == b'0') _ _ h
                  (read_byte-IsBounded (invalid_message t) h))))))

  on_choice-EndsBounded :
      (n : ℕ) (p : Platform W) (x : EnhancedRedisTui W × Bytes)
      → Bounded n x.0
      → EndsBounded n 0 (on_choice p x)
  on_choice-EndsBounded n p (t, []) h = h
  on_choice-EndsBounded n p (t, c ∷ s) h = choose-EndsBounded n p c t h

  -- Each round takes a byte of the input, if there is any left.
  menu_round-EndsBounded :
      (n : ℕ) (p : Platform W) (t : EnhancedRedisTui W)
      → Bounded n t
      → EndsBounded (n - 1) 0 (menu_round p t)
  unfolding menu_round display_menu display_header print
  menu_round-EndsBounded n p t h =
      on_choice-EndsBounded (n - 1) p (read_line (display_menu t))
        (read_line-shorter (display_menu t) h)

  menu_loop-EndsBounded :
      (n f : ℕ) (p : Platform W) (t : EnhancedRedisTui W)
      → Bounded n t
      → EndsBounded n (n - f) (menu_loop f p t)
  unfolding menu_loop
  menu_loop-EndsBounded n zero p t h = Bounded-weaken (omega arith) t h
  menu_loop-EndsBounded n (suc f) p t h =
      let k = n - suc f in
      let go = menu_loop f p in
      let rounds : EndsBounded n k (and_then (menu_round p t) go) =
        and_then-EndsBounded n (n - 1) k (menu_round p t) go (omega arith)
          (EndsBounded-weaken (n - 1) 0 (n - 1) k (menu_round p t) (omega arith) (omega arith)
            (menu_round-EndsBounded n p t h))
          (λ u less.
            EndsBounded-weaken (n - 1) (n - 1 - f) n k (go u) (omega arith) (omega arith)
              (menu_loop-EndsBounded (n - 1) f p u less)) in
      if-EndsBounded n k t.running (and_then (menu_round p t) go) (Ended.returned t) rounds h

  say_goodbye-EndsBounded :
      (n : ℕ) (t : EnhancedRedisTui W) → Bounded n t → EndsBounded n 0 (say_goodbye t)
  unfolding print
  say_goodbye-EndsBounded n t h = h

  run-ends :
      (p : Platform W) (host : Bytes) (port : ℤ) (input : Bytes) (world : W)
      → EndsBounded (length input) 0 (run p (new_tui host port input world))
  unfolding run print
  run-ends p host port input world =
      let new = new_tui host port input world in
      let n = length input in
      let start : Bounded n new =
        (omega arith, omega arith, omega arith, omega arith, omega arith, omega arith) in
      let t = welcome new in
      let size = length t.input in
      let h : Bounded n t = read_byte-IsBounded (welcome_message new) start in
      let exact : Bounded size t = (h.0, h.1, h.2, h.3, h.4, omega arith) in
      let loop = menu_loop (size + 1) p t in
      let looped : EndsBounded n 0 loop =
        EndsBounded-weaken size (size - (size + 1)) n 0 loop h.5 (omega arith)
          (menu_loop-EndsBounded size (size + 1) p t exact) in
      and_then-EndsBounded n n 0 loop say_goodbye (omega arith) looped (say_goodbye-EndsBounded n)

  -- The state in the end, or when the fuel is used up.
  abbrev pub state_of : Ended W → EnhancedRedisTui W
  state_of (Ended.returned t) = t
  state_of (Ended.thrown e t) = t
  state_of (Ended.unfinished t) = t

  state_of-Bounded : (n : ℕ) (r : Ended W) → EndsBounded n 0 r → Bounded n (state_of r)
  state_of-Bounded n (Ended.returned t) h = h
  state_of-Bounded n (Ended.thrown e t) h = h
  state_of-Bounded n (Ended.unfinished t) h = Bounded-weaken (omega arith) t h

  -- Whatever is typed and whatever the server sends: when `run` ends, or is left running with all of
  -- the input read, the client keeps at most 100 commands, 20 entries of each history of the server,
  -- and 50 pairs in the data browser, whose page is at most the third.
  pub run-Bounded :
      (p : Platform W) (host : Bytes) (port : ℤ) (input : Bytes) (world : W)
      → Bounded (length input) (state_of (run p (new_tui host port input world)))
  run-Bounded p host port input world =
      state_of-Bounded (length input) (run p (new_tui host port input world))
        (run-ends p host port input world)

  nothing_left :
      (n : ℕ) (r : Ended W) (u : EnhancedRedisTui W)
      → EndsBounded n 0 r
      → r ≡ Ended.unfinished u
      → u.input ≡ []
  nothing_left n r u h e =
      let bounded = subst (λ x. EndsBounded n 0 x) e h in empty_of u.input bounded.5

  -- The menu and the view of the server need no more rounds than there are bytes of input, and one
  -- more: if `run` has not ended when they are made, then nothing of the input is left.
  pub run-unfinished :
      (p : Platform W) (host : Bytes) (port : ℤ) (input : Bytes) (world : W)
      (u : EnhancedRedisTui W)
      → run p (new_tui host port input world) ≡ Ended.unfinished u
      → u.input ≡ []
  run-unfinished p host port input world u =
      nothing_left (length input) (run p (new_tui host port input world)) u
        (run-ends p host port input world)
