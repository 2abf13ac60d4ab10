-- ===== src/Commands/Scripts.antt =====
-- commands.cpp: EVAL, EVALSHA and SCRIPT.
use minimum_redis.Base.{
  ℕ, ltb, not, ◌||◌, Option, none, some, List, [], ◌∷◌, ◌++◌, Bytes, text, equal, length, take,
  drop, if◌then◌else◌,
}
use minimum_redis.Base.Int.{ℤ, pos, pos_part, ◌+ℤ◌, bits_64}
use minimum_redis.Base.Number.{stoi}
use minimum_redis.Resp.Value.{RespValue, str_val}
use minimum_redis.Lua.{
  LuaScriptingEngine, Scripted, eval, evalsha, script_exists, script_load, script_flush,
}
use minimum_redis.Commands.Reply.{Clock, is_bulk, all_bulk, texts, array_header, ok_reply}
use minimum_redis.Commands.State.{CommandProcessor, Shared, Outcome, Outside, replies}

-- What a run of the engine leaves, if C++ says what that is.
abbrev pub scripted : Outside → CommandProcessor → Shared → Option Scripted → Outcome
scripted o p s none = o.undefined p s
scripted o p s (some (engine, d, reply)) =
    replies (record p { lua_engine = engine }) (record s { keyspace = d }) reply

-- `3 + num_keys` as an index: a negative sum becomes a large one.
abbrev pub first_argument : ℤ → ℕ
first_argument num_keys = bits_64 (num_keys +ℤ pos 3)

-- The replies of EVAL and EVALSHA to arguments that they refuse.
pub record Refusals : Type 0 where
  pub too_few : Bytes
  pub no_bulk : Bytes
  pub no_integer : Bytes
  pub too_many_keys : Bytes
  pub bad_key : Bytes
  pub bad_argument : Bytes

-- The keys and the arguments of a script, of which there are as many keys as the number says.
unfoldable pub with_num_keys :
    Refusals
    → (List Bytes → List Bytes → Outcome)
    → (Bytes → Outcome)
    → List RespValue
    → Option ℤ
    → Outcome
unfolding bits_64 ◌+ℤ◌
with_num_keys refusals run refuse args none = refuse refusals.no_integer
with_num_keys refusals run refuse args (some num_keys) =
    let keys = take (pos_part num_keys) (drop 3 args) in
    let script_args = drop (first_argument num_keys) args in
    if ltb (length args) (first_argument num_keys)
    then refuse refusals.too_many_keys
    else if not (all_bulk keys)
    then refuse refusals.bad_key
    else if not (all_bulk script_args)
    then refuse refusals.bad_argument
    else run (texts keys) (texts script_args)

unfoldable pub with_script :
    Refusals
    → (Bytes → List Bytes → List Bytes → Outcome)
    → (Bytes → Outcome)
    → List RespValue
    → Outcome
unfolding stoi
with_script refusals run refuse (name ∷ script ∷ num_keys ∷ rest) =
    if not (is_bulk script) || not (is_bulk num_keys)
    then refuse refusals.no_bulk
    else with_num_keys refusals (run (str_val script)) refuse (name ∷ script ∷ num_keys ∷ rest)
        (stoi (str_val num_keys))
with_script refusals run refuse _ = refuse refusals.too_few

abbrev pub eval_refusals : Refusals
eval_refusals = record {
  too_few = text "-ERR EVAL requires at least 3 arguments\r\n";
  no_bulk = text "-ERR EVAL script and numkeys must be bulk strings\r\n";
  no_integer = text "-ERR EVAL numkeys must be an integer\r\n";
  too_many_keys = text "-ERR EVAL insufficient arguments for numkeys\r\n";
  bad_key = text "-ERR EVAL keys must be bulk strings\r\n";
  bad_argument = text "-ERR EVAL arguments must be bulk strings\r\n";
}

unfoldable pub handle_eval : Outside → Clock → List RespValue → CommandProcessor → Shared → Outcome
unfolding eval
handle_eval o now args p s =
    with_script eval_refusals
      (λ script keys script_args.
        scripted o p s (eval o.lua now script keys script_args p.lua_engine s.keyspace))
      (replies p s) args

abbrev pub evalsha_refusals : Refusals
evalsha_refusals = record {
  too_few = text "-ERR EVALSHA requires at least 3 arguments\r\n";
  no_bulk = text "-ERR EVALSHA sha1 and numkeys must be bulk strings\r\n";
  no_integer = text "-ERR EVALSHA numkeys must be an integer\r\n";
  too_many_keys = text "-ERR EVALSHA insufficient arguments for numkeys\r\n";
  bad_key = text "-ERR EVALSHA keys must be bulk strings\r\n";
  bad_argument = text "-ERR EVALSHA arguments must be bulk strings\r\n";
}

unfoldable pub handle_evalsha :
    Outside → Clock → List RespValue → CommandProcessor → Shared → Outcome
unfolding evalsha
handle_evalsha o now args p s =
    with_script evalsha_refusals
      (λ sha1 keys script_args.
        scripted o p s (evalsha o.lua now sha1 keys script_args p.lua_engine s.keyspace))
      (replies p s) args

abbrev pub loaded_script : CommandProcessor → Shared → LuaScriptingEngine × Bytes → Outcome
loaded_script p s (engine, reply) = replies (record p { lua_engine = engine }) s reply

abbrev pub script_load_command : List RespValue → CommandProcessor → Shared → Outcome
script_load_command (script ∷ []) p s =
    if is_bulk script
    then loaded_script p s (script_load (str_val script) p.lua_engine)
    else replies p s (text "-ERR SCRIPT LOAD requires exactly 1 argument\r\n")
script_load_command _ p s = replies p s (text "-ERR SCRIPT LOAD requires exactly 1 argument\r\n")

abbrev pub exists_replies : LuaScriptingEngine → List Bytes → Bytes
exists_replies engine [] = []
exists_replies engine (sha1 ∷ more) =
    (if script_exists sha1 engine then text ":1\r\n" else text ":0\r\n")
    ++ exists_replies engine more

unfoldable pub handle_script : List RespValue → CommandProcessor → Shared → Outcome
unfolding script_load script_exists script_flush
handle_script (name ∷ sub ∷ rest) p s =
    if not (is_bulk sub)
    then replies p s (text "-ERR SCRIPT subcommand must be a bulk string\r\n")
    else if equal (str_val sub) (text "LOAD")
    then script_load_command rest p s
    else if equal (str_val sub) (text "EXISTS")
    then replies p s (
        if all_bulk rest
        then array_header (length rest) ++ exists_replies p.lua_engine (texts rest)
        else text "-ERR SCRIPT EXISTS arguments must be bulk strings\r\n")
    else if equal (str_val sub) (text "FLUSH")
    then replies (record p { lua_engine = script_flush p.lua_engine }) s ok_reply
    else replies p s (text "-ERR Unknown SCRIPT subcommand\r\n")
handle_script _ p s = replies p s (text "-ERR SCRIPT requires at least 1 subcommand\r\n")
