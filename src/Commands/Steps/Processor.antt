-- ===== src/Commands/Steps/Processor.antt =====
-- commands.cpp: whatever a client sends, the map stays well-formed.
use minimum_redis.Base.{
  ◌++◌, not, ◌&&◌, ◌||◌, Bool, true, false, ◌⊎◌, inl, inr, Option, none, some, List, [], ◌∷◌, Bytes,
  text, equal, ltb, length, take, drop, if◌then◌else◌, ◌≡◌, refl,
}
use minimum_redis.Base.Int.{ℤ, pos_part}
use minimum_redis.Base.Number.{stoi}
use minimum_redis.Dict.{find}
use minimum_redis.Resp.Value.{RespValue, str_val}
use minimum_redis.Database.Step.{Reach, here}
use minimum_redis.Database.WellFormed.{IsWellFormed, Reach-IsWellFormed}
use minimum_redis.Lua.{Scripted, eval, evalsha}
use minimum_redis.Lua.Steps.{ScriptedReach, eval-ScriptedReach, evalsha-ScriptedReach}
use minimum_redis.Commands.Reply.{Clock, Handler, is_bulk, all_bulk, texts}
use minimum_redis.Commands.State.{CommandProcessor, Shared, Outcome, Outside, replies}
use minimum_redis.Commands.Table.{queued_commands, expiry_commands}
use minimum_redis.Commands.Cluster.{redirect}
use minimum_redis.Commands.Scripts.{
  scripted, first_argument, Refusals, with_num_keys, with_script, handle_eval, handle_evalsha,
}
use minimum_redis.Commands.Processor.{
  upper, dispatch, run_now, ends_transaction, unless_moved, process_args,
}
use minimum_redis.Commands.Steps.SortedSets.{NoNan}
use minimum_redis.Commands.Steps.Table.{FoundKeeps, find-commands, QueueNoNan}
use minimum_redis.Commands.Scripts.{eval_refusals, evalsha_refusals}
use minimum_redis.Commands.Processor.{push_command}
use minimum_redis.Commands.Steps.Stays.{
  handle_multi-Stays, handle_discard-Stays, handle_unwatch-Stays, handle_exec-Stays,
  handle_watch-Stays, handle_subscribe-Stays, handle_unsubscribe-Stays, handle_publish-Stays,
  handle_script-Stays,
}

-- Operations could have made the map that is left, or a script's behaviour was left undefined.
abbrev pub Kept : Outside → CommandProcessor → Shared → Outcome → Type 0
Kept o p s r = Reach s.keyspace r.shared.keyspace ⊎ (r ≡ o.undefined p s)

if-Kept :
    (o : Outside) (p : CommandProcessor) (s : Shared) (b : Bool) (x y : Outcome)
    → Kept o p s x
    → Kept o p s y
    → Kept o p s (if b then x else y)
if-Kept o p s true x y h k = h
if-Kept o p s false x y h k = k

scripted-Kept :
    (o : Outside) (p : CommandProcessor) (s : Shared) (r : Option Scripted)
    → ScriptedReach s.keyspace r
    → Kept o p s (scripted o p s r)
scripted-Kept o p s none h = inr refl
scripted-Kept o p s (some (engine, d, reply)) h = inl h

with_num_keys-Kept :
    (o : Outside) (p : CommandProcessor) (s : Shared) (refusals : Refusals)
    (run : List Bytes → List Bytes → Outcome) (args : List RespValue) (num_keys : Option ℤ)
    → ((keys script_args : List Bytes) → Kept o p s (run keys script_args))
    → Kept o p s (with_num_keys refusals run (replies p s) args num_keys)
unfolding with_num_keys
with_num_keys-Kept o p s refusals run args none h = inl here
with_num_keys-Kept o p s refusals run args (some n) h =
    if-Kept o p s (ltb (length args) (first_argument n)) _ _ (inl here) (
      if-Kept o p s (not (all_bulk (take (pos_part n) (drop 3 args)))) _ _ (inl here) (
        if-Kept o p s (not (all_bulk (drop (first_argument n) args))) _ _ (inl here)
          (h (texts (take (pos_part n) (drop 3 args))) (texts (drop (first_argument n) args)))))

with_script-Kept :
    (o : Outside) (p : CommandProcessor) (s : Shared) (refusals : Refusals)
    (run : Bytes → List Bytes → List Bytes → Outcome) (args : List RespValue)
    → ((script : Bytes) (keys script_args : List Bytes) → Kept o p s (run script keys script_args))
    → Kept o p s (with_script refusals run (replies p s) args)
unfolding with_script
with_script-Kept o p s refusals run [] h = inl here
with_script-Kept o p s refusals run (c ∷ []) h = inl here
with_script-Kept o p s refusals run (c ∷ k ∷ []) h = inl here
with_script-Kept o p s refusals run (c ∷ k ∷ n ∷ rest) h =
    if-Kept o p s (not (is_bulk k) || not (is_bulk n)) _ _ (inl here) (
      with_num_keys-Kept o p s refusals (run (str_val k)) (c ∷ k ∷ n ∷ rest) (stoi (str_val n))
        (h (str_val k)))

handle_eval-Kept :
    (o : Outside) (now : Clock) (args : List RespValue) (p : CommandProcessor) (s : Shared)
    → Kept o p s (handle_eval o now args p s)
handle_eval-Kept o now args p s =
    unfold handle_eval in
    with_script-Kept o p s eval_refusals _ args (λ script keys script_args.
      scripted-Kept o p s (eval o.lua now script keys script_args p.lua_engine s.keyspace)
        (eval-ScriptedReach o.lua now script keys script_args p.lua_engine s.keyspace))

handle_evalsha-Kept :
    (o : Outside) (now : Clock) (args : List RespValue) (p : CommandProcessor) (s : Shared)
    → Kept o p s (handle_evalsha o now args p s)
handle_evalsha-Kept o now args p s =
    unfold handle_evalsha in
    with_script-Kept o p s evalsha_refusals _ args (λ sha1 keys script_args.
      scripted-Kept o p s (evalsha o.lua now sha1 keys script_args p.lua_engine s.keyspace)
        (evalsha-ScriptedReach o.lua now sha1 keys script_args p.lua_engine s.keyspace))

dispatch-Kept :
    (o : Outside) (now : Clock) (n : Bytes) (args : List RespValue) (p : CommandProcessor)
    (s : Shared) (h : Option Handler)
    → FoundKeeps o.stod h
    → NoNan o.stod args
    → QueueNoNan o.stod p.transaction_queue
    → Kept o p s (dispatch o now n args p s h)
dispatch-Kept o now n args p s (some h) k numbers queued = inl (k now args s.keyspace numbers)
dispatch-Kept o now n args p s none k numbers queued =
    if-Kept o p s (equal n (text "MULTI")) _ _ (inl (handle_multi-Stays args p s)) (
      if-Kept o p s (equal n (text "EXEC")) _ _ (inl (handle_exec-Stays o now args p s queued)) (
        if-Kept o p s (equal n (text "DISCARD")) _ _ (inl (handle_discard-Stays args p s)) (
          if-Kept o p s (equal n (text "WATCH")) _ _ (inl (handle_watch-Stays args p s)) (
            if-Kept o p s (equal n (text "UNWATCH")) _ _ (inl (handle_unwatch-Stays args p s)) (
              if-Kept o p s (equal n (text "SUBSCRIBE")) _ _ (inl (handle_subscribe-Stays args p s))
                (if-Kept o p s (equal n (text "PUBLISH")) _ _ (inl (handle_publish-Stays args p s))
                  (if-Kept o p s (equal n (text "UNSUBSCRIBE")) _ _
                    (inl (handle_unsubscribe-Stays args p s))
                    (if-Kept o p s (equal n (text "EVAL")) _ _ (handle_eval-Kept o now args p s) (
                      if-Kept o p s (equal n (text "EVALSHA")) _ _
                        (handle_evalsha-Kept o now args p s)
                        (if-Kept o p s (equal n (text "SCRIPT")) _ _
                          (inl (handle_script-Stays args p s))
                          (if-Kept o p s (equal n (text "CLUSTER")) _ _ (inl here) (
                            if-Kept o p s (equal n (text "INFO")) _ _ (inl here)
                              (inl here)))))))))))))

unless_moved-Kept :
    (o : Outside) (p : CommandProcessor) (s : Shared) (moved : Option Bytes) (run : Outcome)
    → Kept o p s run
    → Kept o p s (unless_moved moved p s run)
unless_moved-Kept o p s none run h = h
unless_moved-Kept o p s (some reply) run h = inl here

process_args-Kept :
    (o : Outside) (now : Clock) (args : List RespValue) (p : CommandProcessor) (s : Shared)
    → NoNan o.stod args
    → QueueNoNan o.stod p.transaction_queue
    → Kept o p s (process_args o now args p s)
process_args-Kept o now [] p s numbers queued = unfold process_args in inl here
process_args-Kept o now (name ∷ args) p s numbers queued =
    let n = upper (str_val name) in
    let ran =
      dispatch-Kept o now n (name ∷ args) p s (find n (queued_commands o ++ expiry_commands))
        (find-commands o n) numbers queued in
    unfold process_args in
    if-Kept o p s (not (is_bulk name)) _ _ (inl here) (
      if-Kept o p s (p.in_transaction && not (ends_transaction n)) _ _
        (inl (unfold push_command in here))
        (unless_moved-Kept o p s (redirect o.hash o.cluster n (name ∷ args))
          (run_now o now n (name ∷ args) p s) (unfold run_now in ran)))

-- A command of a client, in a transaction or not, of which no argument reads as a NaN, no more than
-- an argument of the commands on the queue: from a well-formed map it leads to a well-formed one,
-- whatever the command is, but for a script whose behaviour C++ leaves undefined.
pub process_args-IsWellFormed :
    (o : Outside) (now : Clock) (args : List RespValue) (p : CommandProcessor) (s : Shared)
    → NoNan o.stod args
    → QueueNoNan o.stod p.transaction_queue
    → IsWellFormed s.keyspace
    → IsWellFormed (process_args o now args p s).shared.keyspace
      ⊎ (process_args o now args p s ≡ o.undefined p s)
process_args-IsWellFormed o now args p s numbers queued w =
    elim (process_args-Kept o now args p s numbers queued) [
      | inl r ↦ inl (Reach-IsWellFormed r w)
      | inr undefined ↦ inr undefined
    ]
