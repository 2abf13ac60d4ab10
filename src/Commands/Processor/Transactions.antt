-- ===== src/Commands/Processor/Transactions.antt =====
-- commands.cpp: a transaction does what its commands do one after another, or nothing.
use minimum_redis.Base.{
  Bool, true, false, List, [], ◌∷◌, ◌++◌, text, equal, equal_refl, length, none, ◌≡◌, refl, arith,
  ◌∙◌, Bool-cases, inl, inr,
}
use minimum_redis.Base.{ℕ}
use minimum_redis.Dict.{Dict, find}
use minimum_redis.Resp.Value.{RespValue, bulk_string}
use minimum_redis.Database.{Keyspace}
use minimum_redis.Commands.Reply.{Clock, array_header, ok_reply}
use minimum_redis.Commands.State.{
  TransactionCommand, CommandProcessor, Shared, Outcome, Outside, replies,
}
use minimum_redis.Commands.Table.{queued_commands, expiry_commands, execute_func}
use minimum_redis.Commands.Queue.{
  after, run_queue, handle_multi, unmodified, cleared, exec_abort, handle_exec,
}
use minimum_redis.Commands.Cluster.{redirect}
use minimum_redis.Commands.Processor.{upper, run_now, process_args}
use minimum_redis.Commands.Processor.Send.{
  send_all, AllQueued, named, all_named, idling, queueing, alone, AllQueued-alone, send_all-idle,
  send_all-queueing, run_queue-alone,
}

run_queue-count :
    (o : Outside) (now : Clock) (cs : List (List RespValue)) (d : Keyspace)
    → (run_queue o (all_named cs) now d).count ≡ length cs
unfolding run_queue
run_queue-count o now [] d = refl
run_queue-count o now (c ∷ cs) d =
    omega (arith, run_queue-count o (after 3 now) cs (execute_func o (named c) now d).0)

abbrev pub multi_command : List RespValue
multi_command = bulk_string (text "MULTI") ∷ []

abbrev pub exec_command : List RespValue
exec_command = bulk_string (text "EXEC") ∷ []

-- MULTI and then the commands, from a processor that is in no transaction.
unfoldable pub begin : Outside → Clock → List (List RespValue) → CommandProcessor → Shared → Outcome
unfolding send_all
begin o now cs p s = send_all o now (multi_command ∷ cs) p s

upper_multi : upper (text "MULTI") ≡ text "MULTI"
unfolding upper text
upper_multi = refl

upper_exec : upper (text "EXEC") ≡ text "EXEC"
unfolding upper text
upper_exec = refl

run_now-multi :
    (o : Outside) (now : Clock) (args : List RespValue) (p : CommandProcessor) (s : Shared)
    → run_now o now (text "MULTI") args p s ≡ handle_multi args p s
run_now-multi o now args p s =
    let unknown : find (text "MULTI") (queued_commands o ++ expiry_commands) ≡ none =
      unfold find queued_commands expiry_commands text equal in refl in
    unfold run_now in rw unknown (rw (equal_refl (text "MULTI")) refl)

run_now-exec :
    (o : Outside) (now : Clock) (args : List RespValue) (p : CommandProcessor) (s : Shared)
    → run_now o now (text "EXEC") args p s ≡ handle_exec o now args p s
run_now-exec o now args p s =
    let unknown : find (text "EXEC") (queued_commands o ++ expiry_commands) ≡ none =
      unfold find queued_commands expiry_commands text equal in refl in
    let other : equal (text "EXEC") (text "MULTI") ≡ false = unfold text equal in refl in
    unfold run_now in rw unknown (rw other (rw (equal_refl (text "EXEC")) refl))

process-multi :
    (o : Outside) (now : Clock) (p : CommandProcessor) (queue : List TransactionCommand)
    (watches : Dict ℕ) (s : Shared)
    → process_args o now multi_command (idling p queue watches) s
      ≡ replies (queueing p [] watches) s ok_reply
process-multi o now p queue watches s =
    let here : redirect o.hash o.cluster (text "MULTI") multi_command ≡ none =
      unfold redirect in refl in
    unfold process_args in
    rw upper_multi (
      rw here (
        run_now-multi o now multi_command (idling p queue watches) s
        ∙ (unfold handle_multi in refl)))

process-exec :
    (o : Outside) (now : Clock) (p : CommandProcessor) (queue : List TransactionCommand)
    (watches : Dict ℕ) (s : Shared)
    → process_args o now exec_command (queueing p queue watches) s
      ≡ handle_exec o now exec_command (queueing p queue watches) s
process-exec o now p queue watches s =
    let here : redirect o.hash o.cluster (text "EXEC") exec_command ≡ none =
      unfold redirect in refl in
    unfold process_args in
    rw upper_exec (
      rw (equal_refl (text "EXEC"))
        (rw here (run_now-exec o now exec_command (queueing p queue watches) s)))

-- After MULTI and the commands, the processor has them on its queue and nothing has run.
pub begin-queueing :
    (o : Outside) (now : Clock) (cs : List (List RespValue)) (p : CommandProcessor)
    (queue : List TransactionCommand) (watches : Dict ℕ) (s : Shared)
    → AllQueued o cs
    → ((begin o now cs (idling p queue watches) s).processor ≡ queueing p (all_named cs) watches)
      × ((begin o now cs (idling p queue watches) s).shared ≡ s)
begin-queueing o now cs p queue watches s q =
    unfold begin send_all in
    rw (process-multi o now p queue watches s)
      (send_all-queueing o (after 3 now) cs p [] watches s q)

-- What a whole transaction does at its EXEC: what the commands do when they are sent one after
-- another to a server on its own, with their replies in an array, or nothing.
abbrev pub all_or_nothing :
    Bool → Outside → Clock → List (List RespValue) → CommandProcessor → Shared → Outcome
all_or_nothing true o now cs p s =
    let sent = send_all (alone o) now cs p s in
    replies (cleared p) sent.shared (array_header (length cs) ++ sent.reply)
all_or_nothing false o now cs p s = replies (cleared p) s exec_abort

exec-queue :
    (o : Outside) (now : Clock) (cs : List (List RespValue)) (p : CommandProcessor)
    (queue : List TransactionCommand) (watches : Dict ℕ) (s : Shared)
    → AllQueued o cs
    → handle_exec o now exec_command (queueing p (all_named cs) watches) s
      ≡ all_or_nothing (unmodified s.keyspace watches) o now cs (idling p queue watches) s
exec-queue o now cs p queue watches s q = elim (Bool-cases (unmodified s.keyspace watches)) [
  | inl same ↦
      let sent = send_all-idle o now cs p queue watches s (AllQueued-alone o cs q) in
      unfold handle_exec in
      rw same (
        rw (run_queue-count o now cs s.keyspace)
          (rw sent (rw (run_queue-alone o (all_named cs) now s.keyspace) refl)))
  | inr changed ↦ unfold handle_exec in rw changed refl
]

-- A processor outside of a transaction is sent MULTI and commands that a transaction can run; then
-- nothing has run. At EXEC, on whatever other clients have left by then, all of them run just as if
-- they were sent one after another at that time to a server on its own, and their replies are the
-- array that EXEC replies with, if no watched key has another modification count than was recorded;
-- otherwise none of them runs, and EXEC replies that the transaction is aborted. In both cases the
-- processor is then in no transaction, with no queue and no watches.
pub exec-all_or_nothing :
    (o : Outside) (before now : Clock) (cs : List (List RespValue)) (p : CommandProcessor)
    (queue : List TransactionCommand) (watches : Dict ℕ) (s t : Shared)
    → AllQueued o cs
    → ((begin o before cs (idling p queue watches) s).shared ≡ s)
      × (process_args o now exec_command (begin o before cs (idling p queue watches) s).processor t
          ≡ all_or_nothing (unmodified t.keyspace watches) o now cs (idling p queue watches) t)
exec-all_or_nothing o before now cs p queue watches s t q =
    let (processor, shared) = begin-queueing o before cs p queue watches s q in
    (
      shared,
      rw processor
          (process-exec o now p (all_named cs) watches t ∙ exec-queue o now cs p queue watches t q),
    )
