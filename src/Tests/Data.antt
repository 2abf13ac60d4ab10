-- ===== src/Tests/Data.antt =====
-- The outside of a server, and the states that the tests start from.
use minimum_redis.Base.{◌+◌, true, none, some, [], ◌∷◌, Bytes, codes, length}
use minimum_redis.Base.Int.{pos}
use minimum_redis.Value.{RedisType, new_value}
use minimum_redis.Database.{Keyspace}
use minimum_redis.Lua.{LuaValue, Script}
use minimum_redis.Cluster.{initialize_cluster_mvc}
use minimum_redis.Commands.Reply.{Clock}
use minimum_redis.Commands.State.{Outside, Shared, replies}

-- Conversions that read one number and print one, a file that opens, scripts that all end in nil,
-- and a hash that is the length.
abbrev pub outside : Outside
outside = record {
  stod = λ s. some 0;
  show_double = λ x. codes "0.000000";
  hash = λ s. length s;
  can_open = true;
  cluster = initialize_cluster_mvc;
  daemon = none;
  lua = record {
    load_string = λ script machine. (machine + 1, none);
    pcall = λ keys args machine. Script.returns LuaValue.nil (machine + 1);
  };
  undefined = λ p s. replies p s [];
}

abbrev pub noon : Clock
noon n = pos 1000

abbrev pub k : Bytes
k = codes "k"

abbrev pub one_key : Keyspace
one_key = (k, record (new_value RedisType.string) { mod_count = 4; str_val = codes "v" }) ∷ []

abbrev pub one_shared : Shared
one_shared = record { keyspace = one_key; subscribers = []; inboxes = (4, []) ∷ [] }

abbrev pub no_keys : Shared
no_keys = record { keyspace = []; subscribers = []; inboxes = (4, []) ∷ [] }
