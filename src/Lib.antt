-- ===== src/Lib.antt =====
-- minimum-redis: the in-memory server's core, and the theorems about it.
--
-- The program reads requests in the RESP format from its clients, runs them on one map of keys to
-- typed values, and replies. `handle_client` (main.cpp) keeps a buffer for each client and gives it
-- to `RespParser` (resp.cpp) for as long as it holds requests. A request goes to the client's
-- `CommandProcessor` (commands.cpp), which queues it inside a transaction, and otherwise runs its
-- handler; the handlers call operations of `Database` (db.cpp), whose values are `RedisValue`s
-- (redis_value.h). `PubSubManager` (db.cpp) keeps who listens to which channel; a published message
-- waits in the processors of the clients that do. In the cluster that `main` sets up (cluster.cpp) the
-- processor sends some keys' commands to another node. Scripts run in the processor's Lua engine
-- (lua_scripting.cpp), and a thread saves the data from time to time (save_daemon.cpp). A client with
-- a menu (clients/tui) sends commands and shows what it reads of the replies.
--
-- Files:
--   Base, Base/*: booleans, lists, byte strings, signed and machine integers, and the C++
--     library's decimal numbers (std::to_string, stoul, stoll, stoi), written out.
--   Dict, Dict/*: std::unordered_map and std::unordered_set as lists, and their laws.
--   Double: IEEE 754 bit patterns with the comparisons of C++.
--   Resp, Resp/Value: resp.h and resp.cpp. A function for each method of RespParser; an exception
--     is an `err`. Resp/Consume, Resp/Stream, Resp/Crash: what the parser reads and throws.
--     Resp/Encode: the request that clients/tui/redis_client.cpp sends.
--   Value, Value/Expiry: redis_value.h.
--   Database: db.cpp, a function for each method of class Database. An operation that changes the
--     map returns the new map before its result. Database/Lists, Sets, Hashes, SortedSets: the
--     operations of each type. Database/Step: the changing operations as a step relation;
--     Database/Change, Database/WellFormed: what all of them keep. Database/Strings,
--     Database/Lifetime, Database/Lists/Range, Database/Lists/Pops, Database/Sets/Algebra,
--     Database/SortedSets/Consistent: what they do.
--     Database/TextFile, Database/TextFile/Reload: save_to_file and load_from_file.
--   DataStore: class DataStore of data_store.cpp, which is not in the build; DataStore/Cleanup,
--     Versions: what its operations keep.
--   PubSub, PubSub/Channels: class PubSubManager.
--   RedisClient, RedisClient/Messages: how clients/tui/redis_client.cpp reads the replies.
--   RedisTui: class EnhancedRedisTUI of clients/tui/redis_tui.cpp, with its console and the other end
--     of its connection; RedisTui/Connection, Browser, Info, Monitor, Menu: its views, the menu and
--     main. RedisTui/Kept, Bounds, Ends, Histories, Pages, Keys: what holds of them. RedisTui/Served:
--     the client at the server of main.cpp.
--   Commands/Reply, Keys, Lists, Sets, Hashes, SortedSets: the handlers of commands.cpp, from the
--     arguments and the keyspace to the new keyspace and the bytes of the reply;
--     Commands/Keys/RoundTrip: what GET replies behind SET. Commands/State: the fields of
--     CommandProcessor, and what all processors share. Commands/Table: the commands on data by
--     their names. Commands/Queue: MULTI, EXEC, DISCARD, WATCH, UNWATCH. Commands/Channels:
--     SUBSCRIBE, PUBLISH, UNSUBSCRIBE; Commands/Cluster: the redirection and CLUSTER;
--     Commands/Info, Commands/Scripts: INFO; EVAL, EVALSHA and SCRIPT. Commands/Processor:
--     process_command; Commands/Processor/Send, Transactions, Discard, Watches, Routing, and
--     Commands/Channels/Delivery: what they do. Commands/Steps, Commands/Steps/*, Lua/Steps: the
--     operations of the database that each command and each script goes through.
--   Cluster, Cluster/Slots: cluster.h and cluster.cpp.
--   Lua, Lua/Calls, Lua/Digest: lua_scripting.h and lua_scripting.cpp, over the Lua library as a
--     parameter; Lua/Cache: the scripts that it keeps.
--   SaveDaemon: save_daemon.h and save_daemon.cpp; SaveDaemon/Counters, Saves, Rounds: the counters
--     as words, what one save counts and publishes, and what the loop does.
--   Rdb, Rdb/File: the length-encoded strings, save_rdb and load_rdb of db.cpp, on the bytes of the
--     file; Rdb/Strings, Rdb/Reload: what is read back.
--   Server: the loop of handle_client in main.cpp over its buffer; Server/Pipeline, Fuel, Delivery:
--     what it does. Server/Clients: the clients that come, send, hear and go;
--     Server/Clients/Room, Reconnect, Registered: what holds of them. Server/Kept: what the loop
--     leaves as it is. Server/Start, Server/Start/Restart: main, and what a second start finds.
--   Tests: the theorems at concrete inputs.
--
-- Conventions. The clock is an argument, one for each reading. Words wrap as in C++ (size_t modulo
-- 2 ^ 64, int and int64_t as two's complement). A loop is a recursion on its list; the parser's
-- nested arrays, the server's loop, the loop of load_rdb, and the client's menu and view of the
-- server recurse on fuel, the length of the bytes plus one, and each of their rounds takes a byte.
-- The client takes none at the end of its input, and is then left running. The order of iteration
-- of a hash table is that of insertion. A list, set or map is taken to fit in memory; allocation
-- does not fail.
--
-- The threads take turns: a command runs from its first statement to its last with no other command
-- between. The code has no lock on the data, only one on the channels, so this holds of it only
-- while no two clients' threads run at the same time.
--
-- Parameters. std::stod and std::to_string of a double, std::hash, whether the file of SAVE opens,
-- and the Lua library, as the fields of `Outside` (Commands/State). A script whose behaviour C++
-- leaves undefined ends in the field `undefined`. Theorems assume nothing of them, except where a
-- command's arguments are said not to read as a NaN, or a script of undefined behaviour to leave the
-- clients as they are. For the client: its calls on the socket (RedisClient.Link), the arithmetic of
-- double (RedisTui.Info.Doubles), and the value of a variable that nothing was read into; its
-- theorems assume nothing of them, but for what they say of a reply. For `main`: what the file holds
-- and the results of the system's calls.
--
-- Not modelled: the sockets, threads and pipes of main.cpp, and the messages on the standard error;
-- the handlers and managers of data_store.cpp, optimized_store.h and interfaces.h, which are not in
-- the build and do not compile; and main.cpp's code behind its endless loop.
pub mod Base
pub mod Cluster
pub mod Commands
pub mod DataStore
pub mod Database
pub mod Dict
pub mod Double
pub mod Lua
pub mod PubSub
pub mod Rdb
pub mod RedisClient
pub mod RedisTui
pub mod Resp
pub mod SaveDaemon
pub mod Server
mod Tests
pub mod Value
