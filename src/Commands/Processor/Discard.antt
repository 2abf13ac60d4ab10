-- ===== src/Commands/Processor/Discard.antt =====
-- commands.cpp: DISCARD leaves nothing of a transaction.
use minimum_redis.Base.{false, List, [], ◌∷◌, ◌++◌, text, equal, equal_refl, none, ◌≡◌, refl, ◌∙◌}
use minimum_redis.Base.{ℕ}
use minimum_redis.Dict.{Dict, find}
use minimum_redis.Resp.Value.{RespValue, bulk_string}
use minimum_redis.Commands.Reply.{Clock, ok_reply}
use minimum_redis.Commands.State.{TransactionCommand, CommandProcessor, Shared, Outside, replies}
use minimum_redis.Commands.Table.{queued_commands, expiry_commands}
use minimum_redis.Commands.Queue.{handle_discard}
use minimum_redis.Commands.Cluster.{redirect}
use minimum_redis.Commands.Processor.{upper, run_now, process_args}
use minimum_redis.Commands.Processor.Transactions.{begin, begin-queueing}
use minimum_redis.Commands.Processor.Send.{AllQueued, all_named, idling, queueing}

abbrev pub discard_command : List RespValue
discard_command = bulk_string (text "DISCARD") ∷ []

upper_discard : upper (text "DISCARD") ≡ text "DISCARD"
unfolding upper text
upper_discard = refl

run_now-discard :
    (o : Outside) (now : Clock) (args : List RespValue) (p : CommandProcessor) (s : Shared)
    → run_now o now (text "DISCARD") args p s ≡ handle_discard args p s
run_now-discard o now args p s =
    let unknown : find (text "DISCARD") (queued_commands o ++ expiry_commands) ≡ none =
      unfold find queued_commands expiry_commands text equal in refl in
    let multi : equal (text "DISCARD") (text "MULTI") ≡ false = unfold text equal in refl in
    let exec : equal (text "DISCARD") (text "EXEC") ≡ false = unfold text equal in refl in
    unfold run_now in rw unknown (rw multi (rw exec (rw (equal_refl (text "DISCARD")) refl)))

process-discard :
    (o : Outside) (now : Clock) (p : CommandProcessor) (queue : List TransactionCommand)
    (watches : Dict ℕ) (s : Shared)
    → process_args o now discard_command (queueing p queue watches) s
      ≡ replies (idling p [] watches) s ok_reply
process-discard o now p queue watches s =
    let exec : equal (text "DISCARD") (text "EXEC") ≡ false = unfold text equal in refl in
    let here : redirect o.hash o.cluster (text "DISCARD") discard_command ≡ none =
      unfold redirect in refl in
    unfold process_args in
    rw upper_discard (
      rw exec (
        rw (equal_refl (text "DISCARD")) (
          rw here (
            run_now-discard o now discard_command (queueing p queue watches) s
            ∙ (unfold handle_discard in refl)))))

-- A processor outside of a transaction is sent MULTI, commands that a transaction can run, and
-- DISCARD: the keys, the subscribers and the messages are what other clients have made of them, the
-- processor is outside of a transaction with an empty queue, and its watches are still there.
pub discard-nothing :
    (o : Outside) (before now : Clock) (cs : List (List RespValue)) (p : CommandProcessor)
    (queue : List TransactionCommand) (watches : Dict ℕ) (s t : Shared)
    → AllQueued o cs
    → process_args o now discard_command (begin o before cs (idling p queue watches) s).processor t
      ≡ replies (idling p [] watches) t ok_reply
discard-nothing o before now cs p queue watches s t q =
    rw (begin-queueing o before cs p queue watches s q).0
      (process-discard o now p (all_named cs) watches t)
