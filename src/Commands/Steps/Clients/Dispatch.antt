-- ===== src/Commands/Steps/Clients/Dispatch.antt =====
-- commands.cpp: every command and every script keeps the clients of `client_processors`.
use minimum_redis.Base.{
  not, ◌&&◌, ◌||◌, Option, none, some, List, [], ◌∷◌, ◌++◌, Bytes, text, equal, ltb, length, take,
  drop, refl,
}
use minimum_redis.Base.Int.{ℤ, pos_part}
use minimum_redis.Base.Number.{stoi}
use minimum_redis.Dict.{find}
use minimum_redis.Resp.Value.{RespValue, str_val}
use minimum_redis.Lua.{Scripted, eval, evalsha}
use minimum_redis.Commands.Reply.{Clock, Handler, is_bulk, all_bulk, texts}
use minimum_redis.Commands.State.{CommandProcessor, Shared, Outcome, Outside, replies}
use minimum_redis.Commands.Table.{queued_commands, expiry_commands}
use minimum_redis.Commands.Cluster.{redirect}
use minimum_redis.Commands.Scripts.{
  scripted, first_argument, Refusals, with_num_keys, with_script, handle_eval, handle_evalsha,
  eval_refusals, evalsha_refusals,
}
use minimum_redis.Commands.Processor.{
  upper, dispatch, run_now, ends_transaction, unless_moved, process_args, push_command,
  process_command, array_of,
}
use minimum_redis.Commands.Steps.Clients.{
  Same, IsOrderly, if-Same, handle_multi-Same, handle_discard-Same, handle_unwatch-Same,
  handle_exec-Same, handle_watch-Same, handle_subscribe-Same, handle_unsubscribe-Same,
  handle_publish-Same, handle_script-Same,
}

scripted-Same :
    (o : Outside) (orderly : IsOrderly o) (p : CommandProcessor) (s : Shared) (r : Option Scripted)
    → Same p s (scripted o p s r)
scripted-Same o orderly p s none = orderly p s
scripted-Same o orderly p s (some (engine, d, reply)) = (refl, refl)

with_num_keys-Same :
    (p : CommandProcessor) (s : Shared) (refusals : Refusals)
    (run : List Bytes → List Bytes → Outcome) (args : List RespValue) (num_keys : Option ℤ)
    → ((keys script_args : List Bytes) → Same p s (run keys script_args))
    → Same p s (with_num_keys refusals run (replies p s) args num_keys)
unfolding with_num_keys
with_num_keys-Same p s refusals run args none h = (refl, refl)
with_num_keys-Same p s refusals run args (some n) h =
    if-Same p s (ltb (length args) (first_argument n)) _ _ (refl, refl)
      (if-Same p s (not (all_bulk (take (pos_part n) (drop 3 args)))) _ _ (refl, refl)
        (if-Same p s (not (all_bulk (drop (first_argument n) args))) _ _ (refl, refl)
          (h (texts (take (pos_part n) (drop 3 args))) (texts (drop (first_argument n) args)))))

with_script-Same :
    (p : CommandProcessor) (s : Shared) (refusals : Refusals)
    (run : Bytes → List Bytes → List Bytes → Outcome) (args : List RespValue)
    → ((script : Bytes) (keys script_args : List Bytes) → Same p s (run script keys script_args))
    → Same p s (with_script refusals run (replies p s) args)
unfolding with_script
with_script-Same p s refusals run [] h = (refl, refl)
with_script-Same p s refusals run (c ∷ []) h = (refl, refl)
with_script-Same p s refusals run (c ∷ k ∷ []) h = (refl, refl)
with_script-Same p s refusals run (c ∷ k ∷ n ∷ rest) h =
    if-Same p s (not (is_bulk k) || not (is_bulk n)) _ _ (refl, refl)
      (with_num_keys-Same p s refusals (run (str_val k)) (c ∷ k ∷ n ∷ rest) (stoi (str_val n))
        (h (str_val k)))

handle_eval-Same :
    (o : Outside) (orderly : IsOrderly o) (now : Clock) (args : List RespValue)
    (p : CommandProcessor) (s : Shared)
    → Same p s (handle_eval o now args p s)
handle_eval-Same o orderly now args p s =
    unfold handle_eval in
    with_script-Same p s eval_refusals _ args (λ script keys script_args.
      scripted-Same o orderly p s (eval o.lua now script keys script_args p.lua_engine s.keyspace))

handle_evalsha-Same :
    (o : Outside) (orderly : IsOrderly o) (now : Clock) (args : List RespValue)
    (p : CommandProcessor) (s : Shared)
    → Same p s (handle_evalsha o now args p s)
handle_evalsha-Same o orderly now args p s =
    unfold handle_evalsha in
    with_script-Same p s evalsha_refusals _ args (λ sha1 keys script_args.
      scripted-Same o orderly p s (evalsha o.lua now sha1 keys script_args p.lua_engine s.keyspace))

dispatch-Same :
    (o : Outside) (orderly : IsOrderly o) (now : Clock) (n : Bytes) (args : List RespValue)
    (p : CommandProcessor) (s : Shared) (h : Option Handler)
    → Same p s (dispatch o now n args p s h)
dispatch-Same o orderly now n args p s (some h) = (refl, refl)
dispatch-Same o orderly now n args p s none =
    if-Same p s (equal n (text "MULTI")) _ _ (handle_multi-Same args p s) (
      if-Same p s (equal n (text "EXEC")) _ _ (handle_exec-Same o now args p s) (
        if-Same p s (equal n (text "DISCARD")) _ _ (handle_discard-Same args p s) (
          if-Same p s (equal n (text "WATCH")) _ _ (handle_watch-Same args p s) (
            if-Same p s (equal n (text "UNWATCH")) _ _ (handle_unwatch-Same args p s) (
              if-Same p s (equal n (text "SUBSCRIBE")) _ _ (handle_subscribe-Same args p s) (
                if-Same p s (equal n (text "PUBLISH")) _ _ (handle_publish-Same args p s) (
                  if-Same p s (equal n (text "UNSUBSCRIBE")) _ _ (handle_unsubscribe-Same args p s)
                    (if-Same p s (equal n (text "EVAL")) _ _
                      (handle_eval-Same o orderly now args p s)
                      (if-Same p s (equal n (text "EVALSHA")) _ _
                        (handle_evalsha-Same o orderly now args p s)
                        (if-Same p s (equal n (text "SCRIPT")) _ _ (handle_script-Same args p s) (
                          if-Same p s (equal n (text "CLUSTER")) _ _ (refl, refl)
                            (if-Same p s (equal n (text "INFO")) _ _ (refl, refl)
                              (refl, refl)))))))))))))

unless_moved-Same :
    (p : CommandProcessor) (s : Shared) (moved : Option Bytes) (run : Outcome)
    → Same p s run
    → Same p s (unless_moved moved p s run)
unless_moved-Same p s none run h = h
unless_moved-Same p s (some reply) run h = (refl, refl)

process_args-Same :
    (o : Outside) (orderly : IsOrderly o) (now : Clock) (args : List RespValue)
    (p : CommandProcessor) (s : Shared)
    → Same p s (process_args o now args p s)
process_args-Same o orderly now [] p s = unfold process_args in (refl, refl)
process_args-Same o orderly now (name ∷ args) p s =
    let n = upper (str_val name) in
    let ran : Same p s (run_now o now n (name ∷ args) p s) =
      unfold run_now in
      dispatch-Same o orderly now n (name ∷ args) p s
        (find n (queued_commands o ++ expiry_commands)) in
    unfold process_args push_command in
    if-Same p s (not (is_bulk name)) _ _ (refl, refl)
      (if-Same p s (p.in_transaction && not (ends_transaction n)) _ _ (refl, refl)
        (unless_moved-Same p s (redirect o.hash o.cluster n (name ∷ args))
          (run_now o now n (name ∷ args) p s) ran))

pub process_command-Same :
    (o : Outside) (orderly : IsOrderly o) (now : Clock) (command : RespValue) (p : CommandProcessor)
    (s : Shared)
    → Same p s (process_command o now command p s)
process_command-Same o orderly now command p s =
    unfold process_command in process_args-Same o orderly now (array_of command) p s
