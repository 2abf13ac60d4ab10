-- ===== src/RedisTui.antt =====
-- clients/tui/redis_tui.cpp: class EnhancedRedisTUI, which talks to the server through RedisClient.
-- `std::cin` is the bytes that are still to be read, `std::cout` the bytes that were printed. The
-- views of the data and of the server, and the main menu, are in the child modules.
pub mod Connection
pub mod Browser
pub mod Info
pub mod Monitor
pub mod Menu
pub mod Kept
pub mod Bounds
pub mod Ends
pub mod Histories
pub mod Pages
pub mod Keys
pub mod Served
use minimum_redis.Base.{
  ℕ, zero, suc, ◌-◌, ◌==◌, Bool, true, false, Option, none, some, List, [], ◌∷◌, ◌++◌, Bytes, text,
  equal, length, ltb, if◌then◌else◌,
}
use minimum_redis.Base.Int.{ℤ}
use minimum_redis.Base.Number.{to_string, to_string_ℤ}
use minimum_redis.Dict.{Dict}
use minimum_redis.Double.{Double}
use minimum_redis.Resp.Encode.{send_command}
use minimum_redis.RedisClient.{RedisClient, Link, new_client, get_response, stop}

-- The fields of the class, the console, and what is at the other end of the connection. `left` is
-- the flag `std::left` of `std::cout`, which stays set.
pub record EnhancedRedisTui (W : Type 0) : Type 0 where
  pub client : RedisClient
  pub key_value_pairs : List (Bytes × Bytes)
  pub current_page : ℕ
  pub server_info : Dict Bytes
  pub memory_history : List Double
  pub connections_history : List ℤ
  pub command_history : List Bytes
  pub response_history : List Bytes
  pub running : Bool
  pub input : Bytes
  pub printed : Bytes
  pub left : Bool
  pub world : W

abbrev pub page_size : ℕ
page_size = 20

abbrev pub max_history : ℕ
max_history = 20

abbrev pub max_history_cmds : ℕ
max_history_cmds = 100

-- `std::getline(std::cin, line)`: the line and what is left. At the end of the input the line is
-- empty.
abbrev longer : ℕ → Bytes × Bytes → Bytes × Bytes
longer c (line, rest) = (c ∷ line, rest)

unfoldable pub getline : Bytes → Bytes × Bytes
getline [] = ([], [])
getline (c ∷ s) = let later = getline s in if c == b'\n' then ([], s) else longer c later

-- `std::cin.get()` and `std::cin.ignore()`
abbrev pub skip_byte : Bytes → Bytes
skip_byte [] = []
skip_byte (c ∷ s) = s

-- `push_back`, and `erase` of the first where there are more than `max`.
abbrev pub erase_first {ℓ} : {A : Type ℓ} → List A → List A
erase_first [] = []
erase_first (a ∷ later) = later

unfoldable pub remember {ℓ} : {A : Type ℓ} → ℕ → A → List A → List A
remember max a xs =
    let longer = xs ++ (a ∷ []) in if ltb max (length longer) then erase_first longer else longer

unfoldable pub replicate : ℕ → ℕ → Bytes
replicate zero c = []
replicate (suc n) c = c ∷ replicate n c

abbrev yes_no : Bool → Bytes
yes_no true = text "[YES] "
yes_no false = text "[NO] "

module _ {W : Type 0} where
  unfoldable pub print : Bytes → EnhancedRedisTui W → EnhancedRedisTui W
  print s t = record t { printed = t.printed ++ s }

  unfoldable pub read_line : EnhancedRedisTui W → EnhancedRedisTui W × Bytes
  unfolding getline
  read_line t = let (line, rest) = getline t.input in (record t { input = rest }, line)

  unfoldable pub read_byte : EnhancedRedisTui W → EnhancedRedisTui W
  read_byte t = record t { input = skip_byte t.input }

  -- `std::setw(n)`
  abbrev pub pad : ℕ → Bytes → EnhancedRedisTui W → Bytes
  pad n s t = let space = replicate (n - length s) b' ' in if t.left then s ++ space else space ++ s

  unfoldable pub display_header : EnhancedRedisTui W → EnhancedRedisTui W
  unfolding print replicate to_string_ℤ
  display_header t =
      print
        (text "\n"
          ++ (replicate 70 b'='
              ++ (text "\nMinimalRedis Unified TUI Client v2.0\nConnected: "
                  ++ (yes_no t.client.connected
                      ++ (t.client.host
                          ++ (text ":"
                              ++ (to_string_ℤ t.client.port
                                  ++ (text "\n" ++ (replicate 70 b'=' ++ text "\n")))))))))
        t

  unfoldable pub display_menu : EnhancedRedisTui W → EnhancedRedisTui W
  unfolding print display_header
  display_menu t =
      print
        (text "\nMAIN MENU\n"
          ++ (text "1. Command Interface  - Execute Redis commands\n"
              ++ (text "2. Data Browser       - View and browse keys\n"
                  ++ (text "3. Server Monitor     - Real-time server stats\n"
                      ++ (text "4. Connection         - Connect/Disconnect\n"
                          ++ (text "5. Command History    - View previous commands\n"
                              ++ text "0. Exit\n\nChoose option (0-5): "))))))
        (display_header t)

  -- `client.get_response()`, `client.send_command(command)` and `client.connect()`
  abbrev pub with_response : EnhancedRedisTui W → RedisClient × Bytes → EnhancedRedisTui W × Bytes
  with_response t (client, message) = (record t { client = client }, message)

  abbrev pub with_sent : EnhancedRedisTui W → W × Bool → EnhancedRedisTui W × Bool
  with_sent t (world, sent) = (record t { world = world }, sent)

  abbrev pub with_connected : EnhancedRedisTui W → W × Bool → EnhancedRedisTui W × Bool
  with_connected t (world, connected) =
      (record t { world = world; client = record t.client { connected = connected } }, connected)

  abbrev pub send_bytes : Link W → EnhancedRedisTui W → Option Bytes → EnhancedRedisTui W × Bool
  send_bytes link t none = (t, false)
  send_bytes link t (some bytes) = with_sent t (link.send bytes t.world)

  unfoldable pub client_send : Link W → Bytes → EnhancedRedisTui W → EnhancedRedisTui W × Bool
  unfolding send_command
  client_send link command t =
      if t.client.connected then send_bytes link t (send_command command) else (t, false)

  unfoldable pub client_response : Link W → EnhancedRedisTui W → EnhancedRedisTui W × Bytes
  unfolding get_response
  client_response link t =
      if t.client.connected
      then (let (world, received) = link.receive t.world in
          with_response (record t { world = world }) (get_response received t.client))
      else (t, [])

  unfoldable pub client_connect : Link W → EnhancedRedisTui W → EnhancedRedisTui W × Bool
  client_connect link t = with_connected t (link.connect_to_server t.world)

  -- "Press Enter to continue..."
  abbrev pub wait_for_enter : EnhancedRedisTui W → EnhancedRedisTui W
  wait_for_enter t = read_byte (print (text "\nPress Enter to continue...") t)

  abbrev pub show_response : EnhancedRedisTui W × Bytes → EnhancedRedisTui W
  show_response (t, []) = print (text "[TIMEOUT] Timeout or no response\n") t
  show_response (t, c ∷ s) =
      print (text "[RESPONSE] Response: " ++ (c ∷ s) ++ text "\n")
        (record t { response_history = t.response_history ++ ((c ∷ s) ∷ []) })

  abbrev pub after_send : Link W → EnhancedRedisTui W × Bool → EnhancedRedisTui W
  after_send link (t, false) = print (text "[ERROR] Failed to send command\n") t
  after_send link (t, true) = wait_for_enter (show_response (client_response link t))

  -- The part of `handle_command_interface` behind the test of an empty command.
  unfoldable pub execute : Link W → Bytes → EnhancedRedisTui W → EnhancedRedisTui W
  execute link cmd t =
      let t = record t { command_history = remember max_history_cmds cmd t.command_history } in
      let t = print (text "\n[EXEC]  Executing: " ++ (cmd ++ text "\n")) t in
      after_send link (client_send link cmd t)

  abbrev pub on_command : Link W → EnhancedRedisTui W × Bytes → EnhancedRedisTui W
  on_command link (t, cmd) =
      if equal cmd (text "back")
      then t
      else if equal cmd []
      then print (text "[WARNING]  Empty command\n") t
      else execute link cmd t

  abbrev pub command_prompt : EnhancedRedisTui W → EnhancedRedisTui W
  command_prompt t =
      print
        (text "\nCOMMAND INTERFACE\nAvailable commands: SET, GET, DEL, KEYS, INFO, etc.\n"
          ++ text "Type 'back' to return to menu\n\nEnter command: ")
        (display_header t)

  unfoldable pub handle_command_interface : Link W → EnhancedRedisTui W → EnhancedRedisTui W
  unfolding print display_header read_line execute equal
  handle_command_interface link t = on_command link (read_line (command_prompt t))
