-- ===== src/RedisTui/Menu.antt =====
-- clients/tui/redis_tui.cpp: the main menu and `main`.
use minimum_redis.Base.{
  ℕ, zero, suc, ◌+◌, ◌==◌, true, false, Option, none, some, List, [], ◌∷◌, ◌++◌, Bytes, text,
  length, if◌then◌else◌,
}
use minimum_redis.Base.Int.{ℤ, pos}
use minimum_redis.Base.Number.{stoi}
use minimum_redis.RedisClient.{Link, new_client}
use minimum_redis.RedisTui.{
  EnhancedRedisTui, print, read_line, read_byte, display_menu, handle_command_interface,
}
use minimum_redis.RedisTui.Connection.{handle_connection, handle_history}
use minimum_redis.RedisTui.Browser.{handle_data_browser}
use minimum_redis.RedisTui.Info.{Doubles}
use minimum_redis.RedisTui.Monitor.{Ended, and_then, handle_server_monitor}

-- What the program finds around it: the calls on its socket, the arithmetic of `double`, and the
-- value of the variable `cmd` of the data browser where nothing is read into it.
pub record Platform (W : Type 0) : Type 0 where
  pub link : Link W
  pub doubles : Doubles
  pub unset : ℕ

module _ {W : Type 0} where
  abbrev pub invalid_message : EnhancedRedisTui W → EnhancedRedisTui W
  invalid_message t =
      print
        (text "[ERROR] Invalid choice. Please select 0-5.\n" ++ text "Press Enter to continue...") t

  -- The `switch`. Each round of the server's view reads a line, so it needs no more rounds than
  -- there are bytes of input, and one more.
  unfoldable pub choose : Platform W → ℕ → EnhancedRedisTui W → Ended W
  unfolding handle_command_interface handle_data_browser handle_server_monitor handle_connection
      handle_history print read_byte
  choose p c t =
      if c == b'1'
      then Ended.returned (handle_command_interface p.link t)
      else if c == b'2'
      then Ended.returned (handle_data_browser p.link p.unset t)
      else if c == b'3'
      then handle_server_monitor (length t.input + 1) p.link p.doubles t
      else if c == b'4'
      then Ended.returned (handle_connection p.link t)
      else if c == b'5'
      then Ended.returned (handle_history t)
      else if c == b'0'
      then Ended.returned (record t { running = false })
      else Ended.returned (read_byte (invalid_message t))

  abbrev pub on_choice : Platform W → EnhancedRedisTui W × Bytes → Ended W
  on_choice p (t, []) = Ended.returned t
  on_choice p (t, c ∷ s) = choose p c t

  unfoldable pub menu_round : Platform W → EnhancedRedisTui W → Ended W
  unfolding display_menu read_line choose
  menu_round p t = on_choice p (read_line (display_menu t))

  -- `while (running)`, on fuel.
  unfoldable pub menu_loop : ℕ → Platform W → EnhancedRedisTui W → Ended W
  menu_loop zero p t = Ended.unfinished t
  menu_loop (suc f) p t =
      let round = and_then (menu_round p t) (menu_loop f p) in
      if t.running then round else Ended.returned t

  abbrev pub say_goodbye : EnhancedRedisTui W → Ended W
  say_goodbye t = Ended.returned (
      print
        (text "\n[BYE] Thank you for using MinimalRedis Unified TUI Client!\n"
          ++ text "Have a great day! [ROCKET]\n")
        t)

  abbrev pub welcome_message : EnhancedRedisTui W → EnhancedRedisTui W
  welcome_message t =
      print
        (text "[TARGET] Welcome to MinimalRedis Unified TUI Client!\n"
          ++ (text "This client provides a comprehensive interface for Redis operations.\n"
              ++ text "\nPress Enter to start..."))
        t

  abbrev pub welcome : EnhancedRedisTui W → EnhancedRedisTui W
  welcome t = read_byte (welcome_message t)

  -- Each round reads a line.
  unfoldable pub run : Platform W → EnhancedRedisTui W → Ended W
  unfolding print read_byte
  run p t = let t = welcome t in and_then (menu_loop (length t.input + 1) p t) say_goodbye

  abbrev pub new_tui : Bytes → ℤ → Bytes → W → EnhancedRedisTui W
  new_tui host port input world = record {
    client = new_client host port;
    key_value_pairs = [];
    current_page = 0;
    server_info = [];
    memory_history = [];
    connections_history = [];
    command_history = [];
    response_history = [];
    running = true;
    input = input;
    printed = [];
    left = false;
    world = world;
  }

  -- The result of `main` and what was printed; `none` if it does not end.
  abbrev exit_code : Ended W → Option (ℕ × Bytes)
  exit_code (Ended.returned t) = some (0, t.printed)
  exit_code (Ended.thrown e t) = some (1, t.printed)
  exit_code (Ended.unfinished t) = none

  abbrev with_port : Platform W → Bytes → Bytes → W → Option ℤ → Option (ℕ × Bytes)
  with_port p host input world none = some (1, [])
  with_port p host input world (some port) = exit_code (run p (new_tui host port input world))

  -- `argv`, from the name of the program on. The messages on `std::cerr` are left out.
  unfoldable pub main : Platform W → List Bytes → Bytes → W → Option (ℕ × Bytes)
  unfolding run stoi
  main p (name ∷ host ∷ port ∷ more) input world = with_port p host input world (stoi port)
  main p (name ∷ host ∷ []) input world = with_port p host input world (some (pos 6379))
  main p _ input world = with_port p (text "127.0.0.1") input world (some (pos 6379))
