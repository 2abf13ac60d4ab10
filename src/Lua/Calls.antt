-- ===== src/Lua/Calls.antt =====
-- lua_scripting.cpp: the calls of a script to `redis.call`, and its run.
use minimum_redis.Base.{
  ℕ, suc, Bool, true, false, Option, none, some, List, [], ◌∷◌, Bytes, text, equal, if◌then◌else◌,
}
use minimum_redis.Base.{c_str}
use minimum_redis.Base.Int.{ℤ}
use minimum_redis.Database
use minimum_redis.Database.{Keyspace}

-- A value as the C++ code looks at it: a string or a number is its text.
pub data LuaValue : Type 0 where
  string : Bytes → LuaValue
  boolean : Bool → LuaValue
  nil other : LuaValue

-- What a call to `redis.call` gives back: a value, or an error that it raises.
pub data LuaReply : Type 0 where
  value : LuaValue → LuaReply
  raised : Bytes → LuaReply

pub data Script : Type 0 where
  returns : LuaValue → ℕ → Script
  fails : LuaValue → ℕ → Script
  calls : List LuaValue → (LuaReply → Script) → Script

-- `lua_tostring`; `none` is the null pointer.
abbrev pub to_c_string : LuaValue → Option Bytes
to_c_string (LuaValue.string s) = some (c_str s)
to_c_string _ = none

-- An empty value becomes nil, also one that the key does hold.
abbrev pub pushed_value : Keyspace × Bytes → Keyspace × LuaReply
pushed_value (d, []) = (d, LuaReply.value LuaValue.nil)
pushed_value (d, c ∷ s) = (d, LuaReply.value (LuaValue.string (c_str (c ∷ s))))

-- Strings that are made of null pointers have no meaning in C++: `none`.
abbrev pub call_get : ℤ → Option Bytes → Keyspace → Option (Keyspace × LuaReply)
call_get now none d = none
call_get now (some key) d = some (pushed_value (Database.get now key d))

abbrev pub call_set : Option Bytes → Option Bytes → Keyspace → Option (Keyspace × LuaReply)
call_set (some key) (some v) d =
    some ((Database.set key v d).0, LuaReply.value (LuaValue.string (text "OK")))
call_set _ _ d = none

abbrev pub unimplemented : Keyspace → Option (Keyspace × LuaReply)
unimplemented d = some (d, LuaReply.raised (text "Command not implemented in Lua scripting"))

-- The command by its name and the arguments behind it.
abbrev pub call_named : ℤ → Bytes → List LuaValue → Keyspace → Option (Keyspace × LuaReply)
call_named now cmd [] d = unimplemented d
call_named now cmd (k ∷ []) d =
    if equal cmd (text "GET") then call_get now (to_c_string k) d else unimplemented d
call_named now cmd (k ∷ v ∷ more) d =
    if equal cmd (text "GET")
    then call_get now (to_c_string k) d
    else if equal cmd (text "SET")
    then call_set (to_c_string k) (to_c_string v) d
    else unimplemented d

abbrev pub call_with : ℤ → Option Bytes → List LuaValue → Keyspace → Option (Keyspace × LuaReply)
call_with now none args d =
    some (d, LuaReply.raised (text "First argument to redis.call must be a string"))
call_with now (some cmd) args d = call_named now cmd args d

unfoldable pub redis_pcall : ℤ → List LuaValue → Keyspace → Option (Keyspace × LuaReply)
unfolding c_str
redis_pcall now [] d = some (d, LuaReply.raised (text "redis.call requires at least 1 argument"))
redis_pcall now (cmd ∷ args) d = call_with now (to_c_string cmd) args d

-- What a run leaves: the keyspace, the machine, and the result or the error.
pub record Ran : Type 0 where
  pub keyspace : Keyspace
  pub machine : ℕ
  pub failed : Bool
  pub result : LuaValue

abbrev pub later_clock : (ℕ → ℤ) → ℕ → ℤ
later_clock now n = now (suc n)

unfoldable pub run : Script → (ℕ → ℤ) → Keyspace → Option Ran
unfolding redis_pcall
run (Script.returns v machine) now d =
    some (record { keyspace = d; machine = machine; failed = false; result = v })
run (Script.fails message machine) now d =
    some (record { keyspace = d; machine = machine; failed = true; result = message })
run (Script.calls args next) now d = elim (redis_pcall (now 0) args d) [
  | none ↦ none
  | some (e, reply) ↦ run (next reply) (later_clock now) e
]
