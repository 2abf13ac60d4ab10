-- ===== src/Lua/Cache.antt =====
-- lua_scripting.cpp: a script that is loaded is found by its digest.
use minimum_redis.Base.{
  ℕ, true, some, List, Bytes, equal, equal_refl, if◌then◌else◌, ◌≡◌, refl, ap, ◌∙◌,
}
use minimum_redis.Base.Int.{ℤ}
use minimum_redis.Dict.{find, put}
use minimum_redis.Dict.Laws.{find-put, has-put}
use minimum_redis.Database.{Keyspace}
use minimum_redis.Lua.{
  LuaLibrary, LuaScriptingEngine, validate_script, calculate_sha1, simple, eval, evalsha,
  script_exists, script_load,
}

abbrev cached : Bytes → LuaScriptingEngine → LuaScriptingEngine
cached script e = record e { script_cache = put (calculate_sha1 script) script e.script_cache }

script_load-cached :
    (script : Bytes) (e : LuaScriptingEngine)
    → validate_script script ≡ true
    → script_load script e ≡ (cached script e, simple (calculate_sha1 script))
unfolding script_load
script_load-cached script e valid = rw valid refl

evalsha-find :
    (lua : LuaLibrary) (now : ℕ → ℤ) (sha1 script : Bytes) (keys args : List Bytes)
    (e : LuaScriptingEngine) (d : Keyspace)
    → find sha1 e.script_cache ≡ some script
    → evalsha lua now sha1 keys args e d ≡ eval lua now script keys args e d
evalsha-find lua now sha1 script keys args e d found = unfold evalsha eval in rw found refl

-- SCRIPT LOAD of a script without the refused words replies with its digest. In the engine after it, whatever
-- the keys, the arguments, the times and the data, EVALSHA of the digest does what EVAL of the script
-- does, SCRIPT EXISTS finds the digest, and any other digest is found as before.
pub evalsha-script_load :
    (lua : LuaLibrary) (now : ℕ → ℤ) (script other : Bytes) (keys args : List Bytes)
    (e : LuaScriptingEngine) (d : Keyspace)
    → validate_script script ≡ true
    → ((script_load script e).1 ≡ simple (calculate_sha1 script))
      × (evalsha lua now (calculate_sha1 script) keys args (script_load script e).0 d
          ≡ eval lua now script keys args (script_load script e).0 d)
      × (script_exists other (script_load script e).0
          ≡ (if equal (calculate_sha1 script) other then true else script_exists other e))
evalsha-script_load lua now script other keys args e d valid =
    let sha1 = calculate_sha1 script in
    let kept =
      find-put sha1 sha1 script e.script_cache
      ∙ ap (λ b. if b then some script else find sha1 e.script_cache) (equal_refl sha1) in
    rw (script_load-cached script e valid) (
      refl,
      evalsha-find lua now sha1 script keys args (cached script e) d kept,
      unfold script_exists in has-put sha1 other script e.script_cache,
    )
