-- ===== src/Tests/Scripts.antt =====
-- Scripts, and the thread that saves, at concrete values.
use minimum_redis.Base.{
  ◌-◌, ◌^◌, ◌*◌, true, false, List, [], ◌∷◌, Bytes, codes, text, equal, if◌then◌else◌, ◌≡◌, refl,
  arith,
}
use minimum_redis.Lua.{
  LuaScriptingEngine, validate_script, calculate_sha1, simple, eval, evalsha, script_load,
  script_exists,
}
use minimum_redis.Lua.Cache.{evalsha-script_load}
use minimum_redis.Base.Int.{pos, negsuc, ◌+ℤ◌, wrap_32}
use minimum_redis.SaveDaemon.{
  SaveDaemon, new_daemon, start, success, exception, returned, thrown, Round, worker_loop,
}
use minimum_redis.SaveDaemon.Rounds.{Counted, worker_loop-Counts}
use minimum_redis.Tests.Data.{outside, noon, one_key}

abbrev script : Bytes
script = codes "return 1"

abbrev fresh : LuaScriptingEngine
fresh = record { machine = 0; script_cache = [] }

script_valid : validate_script script ≡ true
unfolding validate_script text
script_valid = refl

evalsha-script_load_example :
    ((script_load script fresh).1 ≡ simple (calculate_sha1 script))
    × (evalsha outside.lua noon (calculate_sha1 script) [] [] (script_load script fresh).0 one_key
        ≡ eval outside.lua noon script [] [] (script_load script fresh).0 one_key)
    × (script_exists (codes "c21") (script_load script fresh).0 ≡ (
        if equal (calculate_sha1 script) (codes "c21")
        then true
        else script_exists (codes "c21") fresh))
evalsha-script_load_example =
    evalsha-script_load outside.lua noon script (codes "c21") [] [] fresh one_key script_valid

-- Two waits of 30 seconds, with a save between them that takes a second; the publisher throws at the
-- event of this save.
abbrev rounds : List Round
rounds =
    record {
      timed_out = true;
      is_stopped = false;
      now = 30 * 10 ^ 9;
      saved = success;
      in_try = thrown (codes "busy");
      in_handler = returned;
      later = 31 * 10 ^ 9;
    }
    ∷ record {
      timed_out = true;
      is_stopped = false;
      now = 61 * 10 ^ 9;
      saved = exception (codes "full");
      in_try = returned;
      in_handler = returned;
      later = 61 * 10 ^ 9;
    }
    ∷ []

-- A daemon with a publisher, whose first counter is about to wrap.
abbrev daemon : SaveDaemon
daemon = record (new_daemon (codes "a.rdb") true) { successful_saves = pos (2 ^ 31 - 1) }

worker_loop-Counts_example : Counted daemon rounds (worker_loop 0 rounds (start daemon))
worker_loop-Counts_example =
    worker_loop-Counts 0 rounds daemon refl (refl, omega arith, (refl, omega arith, tt))
      (refl, (refl, tt)) ((omega arith, omega arith), (omega arith, omega arith))

wrapped : (worker_loop 0 rounds (start daemon)).daemon ≡ record daemon {
  running = true;
  successful_saves = negsuc (2 ^ 31 - 1);
  failed_saves = pos 2;
  last_save_time = 61 * 10 ^ 9;
}
unfolding worker_loop start ◌+ℤ◌ wrap_32
wrapped = refl
