-- ===== src/Server/Start.antt =====
-- main.cpp, `main`: the server's start, and the loop that takes the connections. The file is what it
-- holds, if it can be opened; the results of the system's calls are arguments.
pub mod Restart
use minimum_redis.Base.{
  ℕ, Bool, true, false, Option, none, some, List, [], ◌∷◌, ◌++◌, Bytes, text, if◌then◌else◌, ◌≡◌,
  refl, ap, ◌∙◌,
}
use minimum_redis.Base.Number.{to_string}
use minimum_redis.Cluster.{ClusterConfig, initialize_cluster_mvc}
use minimum_redis.Database.{Keyspace}
use minimum_redis.Rdb.File.{save_rdb, load_rdb}
use minimum_redis.Rdb.Reload.{plain_first}
use minimum_redis.SaveDaemon.{SaveDaemon, Saved, returned, new_daemon, perform_save}
use minimum_redis.SaveDaemon
use minimum_redis.Commands.State.{Outside}
use minimum_redis.Server.Clients.{
  Network, started, connect, find_session, connects, Serves, starts, goes_on,
}

-- The globals of main.cpp and cluster.cpp, and the standard output.
pub record Process : Type 0 where
  pub config : ClusterConfig
  pub network : Network
  pub save_daemon : SaveDaemon
  pub printed : Bytes

abbrev pub db_file : Bytes
db_file = text "minimalredis.rdb"

-- `db.load_rdb(DB_FILE)` into the empty map.
abbrev pub load_file : Option Bytes → Keyspace × Bool
load_file none = ([], false)
load_file (some file) = load_rdb file []

abbrev pub load_message : Bool → Bytes
load_message true = text "Database loaded from RDB file\n"
load_message false = text "No existing RDB file found, starting fresh\n"

-- The part of `main` in front of `socket`. What was read stays in the map also where `load_rdb`
-- has failed.
unfoldable pub prepare : Option Bytes → Process
unfolding load_rdb SaveDaemon.start to_string initialize_cluster_mvc
prepare file =
    let (keys, loaded) = load_file file in
    let daemon = SaveDaemon.start (new_daemon db_file false) in
    record {
      config = initialize_cluster_mvc;
      network = started keys;
      save_daemon = daemon;
      printed =
          load_message loaded
          ++ (text "Save daemon started (interval: "
              ++ (to_string daemon.save_interval ++ text " seconds)\n"));
    }

-- Whether `socket`, `bind` and `listen` succeed.
pub record Calls : Type 0 where
  pub has_socket : Bool
  pub is_bound : Bool
  pub is_listening : Bool

-- `main` serves, or `die` has aborted it with a message.
pub data Started : Type 0 where
  serving : Process → Started
  died : Bytes → Process → Started

abbrev pub print : Bytes → Process → Process
print s p = record p { printed = p.printed ++ s }

unfoldable pub listen_on : Calls → Process → Started
listen_on c p =
    if c.has_socket
    then (if c.is_bound
        then (if c.is_listening
            then Started.serving (print (text "MinimalRedis server listening on port 6379\n") p)
            else Started.died (text "listen()") p)
        else Started.died (text "bind()") p)
    else Started.died (text "socket()") p

-- A round of the loop: the descriptor that `accept` gives, or none where it fails. The last message
-- is printed when the thread has started, not when it has ended.
unfoldable pub accept_one : Option ℕ → Process → Process
unfolding connect
accept_one none p = p
accept_one (some fd) p =
    print (text "Client connection closed\n")
      (record (print (text "New client connection\n") p) { network = connect fd p.network })

unfoldable pub accept_all : List (Option ℕ) → Process → Process
accept_all [] p = p
accept_all (a ∷ more) p = accept_all more (accept_one a p)

abbrev pub accepting : List (Option ℕ) → Started → Started
accepting accepted (Started.serving p) = Started.serving (accept_all accepted p)
accepting accepted (Started.died message p) = Started.died message p

-- `main`, with the connections that were taken so far.
unfoldable pub main : Option Bytes → Calls → List (Option ℕ) → Started
unfolding prepare listen_on accept_all
main file calls accepted = accepting accepted (listen_on calls (prepare file))

-- A save of the daemon's thread: the function that `main` gave it, the file if it could be opened,
-- and what the daemon counts. It has no publisher.
unfoldable pub save_now : Bool → Process → Process × Option Bytes
unfolding perform_save save_rdb
save_now opens p =
    if opens
    then (
      record p {
        save_daemon = (perform_save Saved.success returned returned p.save_daemon).daemon;
      },
      some (save_rdb p.network.shared.keyspace),
    )
    else (
      record p {
        save_daemon = (perform_save Saved.failure returned returned p.save_daemon).daemon;
      },
      none,
    )
