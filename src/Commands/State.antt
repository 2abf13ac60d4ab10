-- ===== src/Commands/State.antt =====
-- commands.h, class CommandProcessor: what a processor keeps, and what it works on.
use minimum_redis.Base.{ℕ, Bool, false, Option, List, [], Bytes}
use minimum_redis.Base.Int.{ℤ}
use minimum_redis.Dict.{Dict}
use minimum_redis.Double.{Double}
use minimum_redis.Resp.Value.{RespValue}
use minimum_redis.Database.{Keyspace}
use minimum_redis.PubSub.{Subscribers}
use minimum_redis.Cluster.{ClusterConfig}
use minimum_redis.Lua.{LuaScriptingEngine, LuaLibrary}

-- `TransactionCommand`, with the captures of its `execute_func`
pub record TransactionCommand : Type 0 where
  pub command_name : Bytes
  pub args : List RespValue

-- The fields of a processor that only its own client's thread uses.
pub record CommandProcessor : Type 0 where
  pub in_transaction : Bool
  pub transaction_queue : List TransactionCommand
  pub watched_keys : Dict ℕ
  pub client_fd : ℕ
  pub lua_engine : LuaScriptingEngine

-- The state of the Lua machine that `luaL_newstate` and the opened libraries give is 0.
abbrev pub new_processor : ℕ → CommandProcessor
new_processor fd = record {
  in_transaction = false;
  transaction_queue = [];
  watched_keys = [];
  client_fd = fd;
  lua_engine = record { machine = 0; script_cache = [] };
}

-- `client_processors`: for each connected client the queue `pubsub_messages` of its processor.
abbrev pub Inboxes : Type 0
Inboxes = List (ℕ × List Bytes)

-- What all the processors share: the global `db`, with its keys and its `pubsub`, and the global
-- `client_processors`.
pub record Shared : Type 0 where
  pub keyspace : Keyspace
  pub subscribers : Subscribers
  pub inboxes : Inboxes

-- What a command leaves behind, and its reply.
pub record Outcome : Type 0 where
  pub processor : CommandProcessor
  pub shared : Shared
  pub reply : Bytes

-- The state of a save daemon that INFO shows.
pub record DaemonStatus : Type 0 where
  pub is_running : Bool
  pub get_interval : ℕ
  pub get_successful_saves : ℤ
  pub get_failed_saves : ℤ

-- What the processor takes from outside: `std::stod`, with `none` for its exceptions,
-- `std::to_string` of a double, `std::hash` of a string, whether the file of SAVE can be opened, the
-- Lua library, and what is left of a script whose behaviour C++ leaves undefined; and besides the
-- global configuration of the cluster and the save daemon that the processor was made with.
pub record Outside : Type 0 where
  pub stod : Bytes → Option Double
  pub show_double : Double → Bytes
  pub hash : Bytes → ℕ
  pub can_open : Bool
  pub cluster : ClusterConfig
  pub daemon : Option DaemonStatus
  pub lua : LuaLibrary
  pub undefined : CommandProcessor → Shared → Outcome

abbrev pub replies : CommandProcessor → Shared → Bytes → Outcome
replies p s reply = record { processor = p; shared = s; reply = reply }

-- What a handler of a command on data leaves.
abbrev pub outcome : CommandProcessor → Shared → Keyspace × Bytes → Outcome
outcome p s (d, reply) = replies p (record s { keyspace = d }) reply
