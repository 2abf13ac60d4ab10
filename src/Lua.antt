-- ===== src/Lua.antt =====
-- lua_scripting.h and lua_scripting.cpp: the scripting engine of a processor. The Lua library is a
-- parameter: a state of its machine is a number, whose meaning is the library's, and a run of a
-- script is the tree of its calls to `redis.call` up to its result. A script that does not end has
-- no such tree.
pub mod Calls
pub mod Digest
pub mod Cache
pub mod Steps
use minimum_redis.Base.{
  ℕ, zero, suc, ◌+◌, ◌-◌, ◌*◌, ◌/◌, ◌%◌, ◌^◌, ltb, leb, ◌==◌, Bool, true, false, not, ◌&&◌, ◌||◌,
  Option, none, some, List, [], ◌∷◌, ◌++◌, map, Bytes, text, codes, equal, length, if◌then◌else◌,
  ◌≡◌, refl,
}
use minimum_redis.Base.{c_str}
use minimum_redis.Base.Int.{ℤ}
use minimum_redis.Dict.{Dict, find, put, has}
use minimum_redis.Database
use minimum_redis.Database.{Keyspace}
pub use minimum_redis.Lua.Calls.{
  LuaValue, LuaReply, Script, to_c_string, pushed_value, call_get, call_set, unimplemented,
  call_named, call_with, Ran, later_clock,
}
unfoldable pub use minimum_redis.Lua.Calls.{redis_pcall, run}
unfoldable pub use minimum_redis.Lua.Digest.{validate_script, calculate_sha1}

-- `luaL_loadstring`, with the message of its error, and `lua_pcall` of the loaded chunk with the
-- tables of the keys and the arguments.
pub record LuaLibrary : Type 0 where
  pub load_string : Bytes → ℕ → ℕ × Option Bytes
  pub pcall : List Bytes → List Bytes → ℕ → Script

pub record LuaScriptingEngine : Type 0 where
  pub machine : ℕ
  pub script_cache : Dict Bytes

abbrev pub simple : Bytes → Bytes
simple s = b'+' ∷ (s ++ (b'\r' ∷ b'\n' ∷ []))

abbrev pub error_reply : Bytes → Bytes
error_reply message = text "-ERR " ++ (message ++ (b'\r' ∷ b'\n' ∷ []))

abbrev pub shown : LuaValue → Bytes
shown (LuaValue.string s) = c_str s
shown (LuaValue.boolean b) = if b then text "true" else text "false"
shown LuaValue.nil = text "(nil)"
shown LuaValue.other = text "(unknown type)"

-- What an operation of the engine leaves: the engine, the keyspace and the reply.
abbrev pub Scripted : Type 0
Scripted = LuaScriptingEngine × Keyspace × Bytes

abbrev pub left_with : LuaScriptingEngine → Keyspace → Option Bytes → Option Scripted
left_with e d none = none
left_with e d (some reply) = some (e, d, reply)

-- The message of an error that is no string is a null pointer.
abbrev pub failed_reply : Option Bytes → Option Bytes
failed_reply none = none
failed_reply (some message) = some (error_reply message)

abbrev pub finished : LuaScriptingEngine → Option Ran → Option Scripted
finished e none = none
finished e (some r) =
    left_with (record e { machine = r.machine }) r.keyspace
      (if r.failed then failed_reply (to_c_string r.result) else some (simple (shown r.result)))

abbrev pub loaded :
    LuaLibrary
    → (ℕ → ℤ)
    → List Bytes
    → List Bytes
    → LuaScriptingEngine
    → Keyspace
    → ℕ × Option Bytes
    → Option Scripted
loaded lua now keys args e d (machine, some message) =
    some (record e { machine = machine }, d, error_reply (c_str message))
loaded lua now keys args e d (machine, none) =
    finished e (run (lua.pcall (map c_str keys) (map c_str args) machine) now d)

-- `none` is a run whose behaviour C++ leaves open.
unfoldable pub eval :
    LuaLibrary
    → (ℕ → ℤ)
    → Bytes
    → List Bytes
    → List Bytes
    → LuaScriptingEngine
    → Keyspace
    → Option Scripted
unfolding validate_script run c_str
eval lua now script keys args e d =
    if not (validate_script script)
    then some (e, d, text "-ERR Script contains dangerous functions\r\n")
    else loaded lua now keys args e d (lua.load_string (c_str script) e.machine)

abbrev pub eval_cached :
    LuaLibrary
    → (ℕ → ℤ)
    → Option Bytes
    → List Bytes
    → List Bytes
    → LuaScriptingEngine
    → Keyspace
    → Option Scripted
eval_cached lua now none keys args e d =
    some (e, d, text "-NOSCRIPT No matching script. Please use EVAL.\r\n")
eval_cached lua now (some script) keys args e d = eval lua now script keys args e d

unfoldable pub evalsha :
    LuaLibrary
    → (ℕ → ℤ)
    → Bytes
    → List Bytes
    → List Bytes
    → LuaScriptingEngine
    → Keyspace
    → Option Scripted
unfolding find eval
evalsha lua now sha1 keys args e d = eval_cached lua now (find sha1 e.script_cache) keys args e d

unfoldable pub script_exists : Bytes → LuaScriptingEngine → Bool
unfolding has
script_exists sha1 e = has sha1 e.script_cache

unfoldable pub script_load : Bytes → LuaScriptingEngine → LuaScriptingEngine × Bytes
unfolding validate_script calculate_sha1 put
script_load script e =
    let sha1 = calculate_sha1 script in
    if not (validate_script script)
    then (e, text "-ERR Script contains dangerous functions\r\n")
    else (record e { script_cache = put sha1 script e.script_cache }, simple sha1)

unfoldable pub script_flush : LuaScriptingEngine → LuaScriptingEngine
script_flush e = record e { script_cache = [] }
