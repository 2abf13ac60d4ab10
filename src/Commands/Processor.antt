-- ===== src/Commands/Processor.antt =====
-- commands.cpp, process_command: from a request to its handler.
pub mod Send
pub mod Transactions
pub mod Discard
pub mod Watches
pub mod Routing
use minimum_redis.Base.{
  ◌-◌, leb, Bool, true, false, not, ◌&&◌, Option, none, some, List, [], ◌∷◌, ◌++◌, Bytes, text,
  equal, if◌then◌else◌,
}
use minimum_redis.Dict.{find}
use minimum_redis.Resp.Value.{RespValue, to_list, str_val, array}
use minimum_redis.Commands.Reply.{Clock, Handler, is_bulk}
use minimum_redis.Commands.State.{
  TransactionCommand, CommandProcessor, Shared, Outcome, Outside, replies, outcome,
}
use minimum_redis.Commands.Table.{queued_commands, expiry_commands, unknown_reply}
use minimum_redis.Commands.Queue.{
  handle_multi, handle_exec, handle_discard, handle_watch, handle_unwatch,
}
use minimum_redis.Commands.Channels.{handle_subscribe, handle_publish, handle_unsubscribe}
use minimum_redis.Commands.Cluster.{redirect, handle_cluster}
use minimum_redis.Commands.Info.{handle_info}
use minimum_redis.Commands.Scripts.{handle_eval, handle_evalsha, handle_script}

-- `::toupper` in the "C" locale
unfoldable pub upper : Bytes → Bytes
upper [] = []
upper (c ∷ s) = (if leb b'a' c && leb c b'z' then c - 32 else c) ∷ upper s

-- The commands on the processor itself, behind those on data in the second chain of tests.
abbrev pub dispatch :
    Outside → Clock → Bytes → List RespValue → CommandProcessor → Shared → Option Handler → Outcome
dispatch o now upper_cmd args p s (some handler) = outcome p s (handler now args s.keyspace)
dispatch o now upper_cmd args p s none =
    if equal upper_cmd (text "MULTI")
    then handle_multi args p s
    else if equal upper_cmd (text "EXEC")
    then handle_exec o now args p s
    else if equal upper_cmd (text "DISCARD")
    then handle_discard args p s
    else if equal upper_cmd (text "WATCH")
    then handle_watch args p s
    else if equal upper_cmd (text "UNWATCH")
    then handle_unwatch args p s
    else if equal upper_cmd (text "SUBSCRIBE")
    then handle_subscribe args p s
    else if equal upper_cmd (text "PUBLISH")
    then handle_publish args p s
    else if equal upper_cmd (text "UNSUBSCRIBE")
    then handle_unsubscribe args p s
    else if equal upper_cmd (text "EVAL")
    then handle_eval o now args p s
    else if equal upper_cmd (text "EVALSHA")
    then handle_evalsha o now args p s
    else if equal upper_cmd (text "SCRIPT")
    then handle_script args p s
    else if equal upper_cmd (text "CLUSTER")
    then replies p s (handle_cluster o.cluster args)
    else if equal upper_cmd (text "INFO")
    then replies p s (handle_info o.daemon)
    else replies p s unknown_reply

-- The commands that run at once. No two tests hold of one name, so their order is of no matter.
unfoldable pub run_now :
    Outside → Clock → Bytes → List RespValue → CommandProcessor → Shared → Outcome
unfolding find
run_now o now upper_cmd args p s =
    dispatch o now upper_cmd args p s (find upper_cmd (queued_commands o ++ expiry_commands))

abbrev pub ends_transaction : Bytes → Bool
ends_transaction upper_cmd =
    if equal upper_cmd (text "EXEC") then true else equal upper_cmd (text "DISCARD")

-- `transaction_queue.push(tx_cmd)`
unfoldable pub push_command : Bytes → List RespValue → CommandProcessor → CommandProcessor
push_command upper_cmd args p =
    let tx_cmd : TransactionCommand = record { command_name = upper_cmd; args = args } in
    record p { transaction_queue = p.transaction_queue ++ tx_cmd ∷ [] }

unfoldable pub queued_reply : Bytes
queued_reply = text "+QUEUED\r\n"

-- Behind the queue: another node's key is sent there, and other commands run.
abbrev pub unless_moved : Option Bytes → CommandProcessor → Shared → Outcome → Outcome
unless_moved (some reply) p s run = replies p s reply
unless_moved none p s run = run

unfoldable pub process_args : Outside → Clock → List RespValue → CommandProcessor → Shared → Outcome
unfolding upper push_command
process_args o now [] p s = replies p s (text "-ERR Invalid command format\r\n")
process_args o now (name ∷ args) p s =
    let upper_cmd = upper (str_val name) in
    if not (is_bulk name)
    then replies p s (text "-ERR Command name must be a bulk string\r\n")
    else if p.in_transaction && not (ends_transaction upper_cmd)
    then replies (push_command upper_cmd (name ∷ args) p) s queued_reply
    else unless_moved (redirect o.hash o.cluster upper_cmd (name ∷ args)) p s
        (run_now o now upper_cmd (name ∷ args) p s)

abbrev pub array_of : RespValue → List RespValue
array_of (array vs) = to_list vs
array_of _ = []

unfoldable pub process_command : Outside → Clock → RespValue → CommandProcessor → Shared → Outcome
unfolding process_args
process_command o now command p s = process_args o now (array_of command) p s
