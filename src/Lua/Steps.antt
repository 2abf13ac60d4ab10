-- ===== src/Lua/Steps.antt =====
-- lua_scripting.cpp: a script changes the map by operations of the database alone.
use minimum_redis.Base.{
  ℕ, Bool, true, false, not, Option, none, some, List, [], ◌∷◌, Bytes, text, equal, map,
  if◌then◌else◌,
}
use minimum_redis.Base.{c_str}
use minimum_redis.Base.Int.{ℤ}
use minimum_redis.Dict.{find}
use minimum_redis.Database
use minimum_redis.Database.{Keyspace}
use minimum_redis.Database.Step.{Step, Reach, here, next, Reach-trans}
use minimum_redis.Lua.{
  LuaValue, LuaReply, Script, LuaLibrary, LuaScriptingEngine, to_c_string, pushed_value, call_get,
  call_set, unimplemented, call_named, call_with, redis_pcall, Ran, run, later_clock,
  validate_script, Scripted, left_with, failed_reply, finished, loaded, simple, shown, eval,
  eval_cached, evalsha,
}

-- What a call leaves, if C++ says what that is, operations could have made.
abbrev CallReach : Keyspace → Option (Keyspace × LuaReply) → Type 0
CallReach d none = Unit
CallReach d (some (e, reply)) = Reach d e

if-CallReach :
    (d : Keyspace) (b : Bool) (x y : Option (Keyspace × LuaReply))
    → CallReach d x
    → CallReach d y
    → CallReach d (if b then x else y)
if-CallReach d true x y h k = h
if-CallReach d false x y h k = k

pushed_value-Reach :
    (d : Keyspace) (r : Keyspace × Bytes) → Reach d r.0 → CallReach d (some (pushed_value r))
pushed_value-Reach d (e, []) h = h
pushed_value-Reach d (e, c ∷ s) h = h

call_get-CallReach :
    (now : ℤ) (key : Option Bytes) (d : Keyspace) → CallReach d (call_get now key d)
call_get-CallReach now none d = tt
call_get-CallReach now (some key) d =
    pushed_value-Reach d (Database.get now key d) (next key here (Step.get now))

call_set-CallReach : (key v : Option Bytes) (d : Keyspace) → CallReach d (call_set key v d)
call_set-CallReach none none d = tt
call_set-CallReach none (some v) d = tt
call_set-CallReach (some key) none d = tt
call_set-CallReach (some key) (some v) d = next key here (Step.set v)

call_named-CallReach :
    (now : ℤ) (cmd : Bytes) (args : List LuaValue) (d : Keyspace)
    → CallReach d (call_named now cmd args d)
call_named-CallReach now cmd [] d = here
call_named-CallReach now cmd (k ∷ []) d =
    if-CallReach d (equal cmd (text "GET")) (call_get now (to_c_string k) d) (unimplemented d)
      (call_get-CallReach now (to_c_string k) d) here
call_named-CallReach now cmd (k ∷ v ∷ more) d =
    if-CallReach d (equal cmd (text "GET")) (call_get now (to_c_string k) d)
      (if equal cmd (text "SET")
        then call_set (to_c_string k) (to_c_string v) d
        else unimplemented d)
      (call_get-CallReach now (to_c_string k) d)
      (if-CallReach d (equal cmd (text "SET")) (call_set (to_c_string k) (to_c_string v) d)
        (unimplemented d) (call_set-CallReach (to_c_string k) (to_c_string v) d) here)

call_with-CallReach :
    (now : ℤ) (cmd : Option Bytes) (args : List LuaValue) (d : Keyspace)
    → CallReach d (call_with now cmd args d)
call_with-CallReach now none args d = here
call_with-CallReach now (some cmd) args d = call_named-CallReach now cmd args d

redis_pcall-CallReach :
    (now : ℤ) (args : List LuaValue) (d : Keyspace) → CallReach d (redis_pcall now args d)
unfolding redis_pcall
redis_pcall-CallReach now [] d = here
redis_pcall-CallReach now (cmd ∷ args) d = call_with-CallReach now (to_c_string cmd) args d

abbrev RanReach : Keyspace → Option Ran → Type 0
RanReach d none = Unit
RanReach d (some r) = Reach d r.keyspace

RanReach-trans : (d e : Keyspace) (r : Option Ran) → Reach d e → RanReach e r → RanReach d r
RanReach-trans d e none h k = tt
RanReach-trans d e (some r) h k = Reach-trans h k

called-RanReach :
    (d : Keyspace) (call : Option (Keyspace × LuaReply)) (go : Keyspace → LuaReply → Option Ran)
    → CallReach d call
    → ((e : Keyspace) (reply : LuaReply) → RanReach e (go e reply))
    → RanReach d (elim call [ none ↦ none | some (e, reply) ↦ go e reply ])
called-RanReach d none go h k = tt
called-RanReach d (some (e, reply)) go h k = RanReach-trans d e (go e reply) h (k e reply)

run-RanReach : (script : Script) (now : ℕ → ℤ) (d : Keyspace) → RanReach d (run script now d)
unfolding run
run-RanReach (Script.returns v machine) now d = here
run-RanReach (Script.fails v machine) now d = here
run-RanReach (Script.calls args after) now d =
    called-RanReach d (redis_pcall (now 0) args d)
      (λ e reply. run (after reply) (later_clock now) e) (redis_pcall-CallReach (now 0) args d)
      (λ e reply. run-RanReach (after reply) (later_clock now) e)

abbrev pub ScriptedReach : Keyspace → Option Scripted → Type 0
ScriptedReach d none = Unit
ScriptedReach d (some (engine, e, reply)) = Reach d e

left_with-ScriptedReach :
    (engine : LuaScriptingEngine) (d e : Keyspace) (reply : Option Bytes)
    → Reach d e
    → ScriptedReach d (left_with engine e reply)
left_with-ScriptedReach engine d e none h = tt
left_with-ScriptedReach engine d e (some reply) h = h

finished-ScriptedReach :
    (engine : LuaScriptingEngine) (d : Keyspace) (r : Option Ran)
    → RanReach d r
    → ScriptedReach d (finished engine r)
finished-ScriptedReach engine d none h = tt
finished-ScriptedReach engine d (some r) h =
    left_with-ScriptedReach (record engine { machine = r.machine }) d r.keyspace
      (if r.failed then failed_reply (to_c_string r.result) else some (simple (shown r.result))) h

loaded-ScriptedReach :
    (lua : LuaLibrary) (now : ℕ → ℤ) (keys args : List Bytes) (engine : LuaScriptingEngine)
    (d : Keyspace) (r : ℕ × Option Bytes)
    → ScriptedReach d (loaded lua now keys args engine d r)
loaded-ScriptedReach lua now keys args engine d (machine, some message) = here
loaded-ScriptedReach lua now keys args engine d (machine, none) =
    finished-ScriptedReach engine d _
      (run-RanReach (lua.pcall (map c_str keys) (map c_str args) machine) now d)

if-ScriptedReach :
    (d : Keyspace) (b : Bool) (x y : Option Scripted)
    → ScriptedReach d x
    → ScriptedReach d y
    → ScriptedReach d (if b then x else y)
if-ScriptedReach d true x y h k = h
if-ScriptedReach d false x y h k = k

pub eval-ScriptedReach :
    (lua : LuaLibrary) (now : ℕ → ℤ) (script : Bytes) (keys args : List Bytes)
    (engine : LuaScriptingEngine) (d : Keyspace)
    → ScriptedReach d (eval lua now script keys args engine d)
unfolding eval
eval-ScriptedReach lua now script keys args engine d =
    if-ScriptedReach d (not (validate_script script)) (some (engine, d, _))
      (loaded lua now keys args engine d (lua.load_string (c_str script) engine.machine)) here
      (loaded-ScriptedReach lua now keys args engine d
        (lua.load_string (c_str script) engine.machine))

eval_cached-ScriptedReach :
    (lua : LuaLibrary) (now : ℕ → ℤ) (script : Option Bytes) (keys args : List Bytes)
    (engine : LuaScriptingEngine) (d : Keyspace)
    → ScriptedReach d (eval_cached lua now script keys args engine d)
eval_cached-ScriptedReach lua now none keys args engine d = here
eval_cached-ScriptedReach lua now (some script) keys args engine d =
    eval-ScriptedReach lua now script keys args engine d

pub evalsha-ScriptedReach :
    (lua : LuaLibrary) (now : ℕ → ℤ) (sha1 : Bytes) (keys args : List Bytes)
    (engine : LuaScriptingEngine) (d : Keyspace)
    → ScriptedReach d (evalsha lua now sha1 keys args engine d)
unfolding evalsha
evalsha-ScriptedReach lua now sha1 keys args engine d =
    eval_cached-ScriptedReach lua now (find sha1 engine.script_cache) keys args engine d
