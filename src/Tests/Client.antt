-- ===== src/Tests/Client.antt =====
-- The client of clients/tui at concrete input, with a server that sends what a list says.
use minimum_redis.Base.{
  true, false, none, List, [], ◌∷◌, ◌++◌, Bytes, codes, text, equal, ◌≡◌, refl, arith,
}
use minimum_redis.Base.Int.{pos}
use minimum_redis.Dict.{find}
use minimum_redis.Resp.Encode.{send_command}
use minimum_redis.Commands.State.{new_processor}
use minimum_redis.Server.Clients.{connect, started, find_session, put_session}
use minimum_redis.RedisClient.{Received, Link, get_response, new_client}
use minimum_redis.RedisTui.{
  EnhancedRedisTui, max_history_cmds, getline, print, read_line, read_byte, display_header,
  display_menu, client_send, client_response,
}
use minimum_redis.RedisTui.Browser.{refresh_data}
use minimum_redis.RedisTui.Info.{Doubles, fetch_server_info, update_monitoring_data}
use minimum_redis.RedisTui.Monitor.{Ended, display_monitor, monitor_round, handle_server_monitor}
use minimum_redis.RedisTui.Menu.{Platform, choose, menu_round, menu_loop, run, new_tui}
use minimum_redis.RedisTui.Bounds.{Bounded}
use minimum_redis.RedisTui.Bounds.Run.{state_of, run-Bounded, run-unfinished}
use minimum_redis.RedisTui.Ends.{menu_text, copies, menu_loop-forever}
use minimum_redis.RedisTui.Histories.{last_of, execute_all, execute_all-history}
use minimum_redis.RedisTui.Pages.{pages, pages_complete}
use minimum_redis.RedisTui.Keys.{line_of, inquired, asked, fetch_server_info-line_of}
use minimum_redis.RedisTui.Served.{Wire, server_link}
use minimum_redis.RedisTui.Served.Browse.{refresh_data-served}
use minimum_redis.Tests.Data.{outside, noon, one_key}

abbrev Script : Type 0
Script = List Received

abbrev next : Script → Script × Received
next [] = ([], Received.timeout)
next (r ∷ rs) = (rs, r)

abbrev link : Link Script
link = record {
  send = λ bytes rs. (rs, true);
  receive = next;
  connect_to_server = λ rs. (rs, true);
}

abbrev doubles : Doubles
doubles = record {
  stod = λ s. none;
  megabytes = λ d. d;
  fixed = λ n d. [];
  thirtieths = λ a b. pos 0;
}

abbrev platform : Platform Script
platform = record { link = link; doubles = doubles; unset = 0 }

abbrev local : Bytes
local = codes "127.0.0.1"

run-Bounded_example :
    Bounded 12 (state_of (run platform (new_tui local (pos 6379) (codes "\n1\nGET k\n\n0\n") [])))
run-Bounded_example = run-Bounded platform local (pos 6379) (codes "\n1\nGET k\n\n0\n") []

-- The view of the server is shown twice, and then there is no more input.
abbrev cut_off : Ended Script
cut_off = run platform (new_tui local (pos 6379) (codes "\n3\nx\n") [])

cut_off-unfinished : cut_off ≡ Ended.unfinished (state_of cut_off)
unfolding run menu_loop menu_round choose display_menu display_header print read_line read_byte
    getline handle_server_monitor monitor_round fetch_server_info update_monitoring_data
    display_monitor client_send client_response find equal text
cut_off-unfinished = refl

run-unfinished_example : (state_of cut_off).input ≡ []
run-unfinished_example =
    run-unfinished platform local (pos 6379) (codes "\n3\nx\n") [] (state_of cut_off)
      cut_off-unfinished

abbrev fresh : EnhancedRedisTui Script
fresh = new_tui local (pos 6379) [] []

menu_loop-forever_example :
    menu_loop 7 platform fresh
    ≡ Ended.unfinished (record fresh { printed = [] ++ copies 7 (menu_text fresh.client) })
menu_loop-forever_example = menu_loop-forever 7 platform fresh refl refl

abbrev two_commands : List Bytes
two_commands = codes "SET k v" ∷ codes "GET k" ∷ []

execute_all-history_example :
    (execute_all link two_commands fresh).command_history
    ≡ last_of max_history_cmds ([] ++ two_commands)
execute_all-history_example = execute_all-history link two_commands fresh (omega arith)

abbrev with_pairs : EnhancedRedisTui Script
with_pairs = record fresh { key_value_pairs = (codes "a", codes "1") ∷ (codes "b", codes "2") ∷ [] }

pages_complete_example : pages 1 with_pairs ≡ with_pairs.key_value_pairs
pages_complete_example = pages_complete 1 with_pairs (omega arith) (omega arith)

-- A reply to INFO, of which the client reads the first line.
abbrev asking : EnhancedRedisTui Script
asking = record fresh {
  client = record (new_client local (pos 6379)) { connected = true };
  world = Received.bytes (codes "$9\r\n# Server\r\n\r\n") ∷ [];
}

size_first : (client_response link (inquired link asking)).1 ≡ line_of (codes "$9\r")
unfolding client_response client_send get_response send_command text
size_first = refl

fetch_server_info-line_of_example : (fetch_server_info link asking).server_info ≡ []
fetch_server_info-line_of_example =
    fetch_server_info-line_of link (codes "$9\r") asking refl refl size_first

-- The server has a key, and the client has just come.
abbrev browsing : EnhancedRedisTui Wire
browsing = record {
  client = record (new_client local (pos 6379)) { connected = true };
  key_value_pairs = [];
  current_page = 0;
  server_info = [];
  memory_history = [];
  connections_history = [];
  command_history = [];
  response_history = [];
  running = true;
  input = [];
  printed = [];
  left = false;
  world = record { network = connect 4 (started one_key); waiting = []; reads = 0 };
}

refresh_data-served_example :
    ((client_response
        (server_link outside (λ n i. noon) 4)
        (asked (server_link outside (λ n i. noon) 4) browsing)).1
      ≡ codes "-ERR KEYS requires no arguments\r\n")
    × ((refresh_data (server_link outside (λ n i. noon) 4) browsing).key_value_pairs ≡ [])
refresh_data-served_example =
    refresh_data-served outside (λ n i. noon) 4 (new_processor 4) browsing refl refl refl
      (unfold connect in refl) (unfold connect find_session put_session in refl)
