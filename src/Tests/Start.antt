-- ===== src/Tests/Start.antt =====
-- The start of the server and its connections, at concrete files and descriptors.
use minimum_redis.Base.{
  ℕ, true, Option, none, some, List, [], ◌∷◌, ◌++◌, map, Bytes, codes, ◌≡◌, refl,
}
use minimum_redis.Value.{RedisType, new_value}
use minimum_redis.Database.{Keyspace, set}
use minimum_redis.Dict.{put, find}
use minimum_redis.Rdb.File.{load_rdb}
use minimum_redis.Server.Clients.{
  connect, started, find_session, put_session, connects, Serves, starts, goes_on,
}
use minimum_redis.Server.Start.{
  Process, Calls, Started, prepare, listen_on, accept_all, main, save_now,
}
use minimum_redis.Server.Start.Restart.{Fresh, Leads, file_keys, main-Serves}
use minimum_redis.Server.Clients.Registered.{IsRegistered, Serves-IsRegistered}
use minimum_redis.Tests.Data.{outside, one_key}

abbrev process_of : Started → Process
process_of (Started.serving p) = p
process_of (Started.died message p) = p

abbrev fine : Calls
fine = record { has_socket = true; is_bound = true; is_listening = true }

-- A connection, a failure of `accept`, and another connection.
abbrev two_connections : List (Option ℕ)
two_connections = some 4 ∷ none ∷ some 5 ∷ []

-- A file with a key that has a string.
abbrev file : Option Bytes
file = some (codes "REDIS" ++ 9 ∷ 0 ∷ 1 ∷ b'k' ∷ 1 ∷ b'v' ∷ 255 ∷ [])

abbrev ready : Process
ready = accept_all two_connections (process_of (listen_on fine (prepare file)))

two_connections-Fresh : Fresh two_connections (prepare file).network
unfolding prepare connect find_session put_session
two_connections-Fresh = (refl, (refl, tt))

ready-main : main file fine two_connections ≡ Started.serving ready
unfolding main listen_on
ready-main = refl

main-Serves_example :
    Leads outside (started (file_keys file)) ready.network
    × Serves outside ready.network
    × (ready.network.shared.keyspace ≡ file_keys file)
main-Serves_example =
    main-Serves outside file fine two_connections ready two_connections-Fresh ready-main

-- A server with one key, a list, which the daemon saves.
abbrev with_list : Keyspace
with_list = (codes "k", record (new_value RedisType.list) { list_val = codes "a" ∷ [] }) ∷ []

abbrev holding : Process
holding = record (prepare none) { network = started with_list }

abbrev again : Process
again = process_of (main (save_now true holding).1 fine [])

Serves-IsRegistered_example : IsRegistered (connect 4 (started one_key))
Serves-IsRegistered_example =
    Serves-IsRegistered outside (connect 4 (started one_key)) (λ p s. (refl, refl))
      (goes_on (starts one_key) refl (connects 4 (unfold find_session in refl)))

file-key : map (λ e. e.0) (file_keys file) ≡ codes "k" ∷ []
unfolding load_rdb set put find
file-key = refl
