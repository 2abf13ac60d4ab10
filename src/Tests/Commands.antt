-- ===== src/Tests/Commands.antt =====
-- Transactions, and the loop over the buffer, at concrete commands.
use minimum_redis.Base.{
  ◌⊎◌, false, true, List, [], ◌∷◌, Bytes, text, codes, equal, length, ◌≡◌, refl, arith,
}
use minimum_redis.Base.Number.{to_string}
use minimum_redis.Dict.{find}
use minimum_redis.Resp.Value.{RespValue, bulk_string}
use minimum_redis.Resp.Encode.{request}
use minimum_redis.Database.{at_key}
use minimum_redis.Commands.Reply.{bulk_reply, ok_reply}
use minimum_redis.Commands.Keys.{handle_get}
use minimum_redis.Commands.Keys.RoundTrip.{after_set, handle_get-handle_set}
use minimum_redis.Commands.State.{new_processor, Shared, replies}
use minimum_redis.Commands.Table.{queued_commands}
use minimum_redis.Commands.Queue.{unmodified}
use minimum_redis.Commands.Processor.{upper, process_args}
use minimum_redis.Commands.Processor.Send.{AllQueued, IsQueued, idling}
use minimum_redis.Commands.Processor.Transactions.{
  begin, exec_command, all_or_nothing, exec-all_or_nothing,
}
use minimum_redis.Commands.Processor.Discard.{discard_command, discard-nothing}
use minimum_redis.Commands.Processor.Watches.{same_counts, watch_command, watch-exec}
use minimum_redis.Double.{is_nan}
use minimum_redis.Database
use minimum_redis.Database.Step
use minimum_redis.Database.Step.{here, next}
use minimum_redis.Database.WellFormed.{IsWellFormed, Reach-IsWellFormed, empty-IsWellFormed}
use minimum_redis.Commands.Steps.Processor.{process_args-IsWellFormed}
use minimum_redis.Server.{process_buffer}
use minimum_redis.Tests.Data.{outside, noon, k, one_key, one_shared, no_keys}
use minimum_redis.Server.Pipeline.{
  is_real, requests, serve, process_buffer-real, process_buffer-requests,
}

-- lpush k a, and get k
abbrev two_commands : List (List RespValue)
two_commands =
    (bulk_string (codes "lpush") ∷ bulk_string k ∷ bulk_string (codes "a") ∷ [])
    ∷ (bulk_string (codes "GET") ∷ bulk_string k ∷ [])
    ∷ []

two_commands-AllQueued : AllQueued outside two_commands
unfolding IsQueued upper find queued_commands equal text
two_commands-AllQueued = ((refl, (_, refl)), ((refl, (_, refl)), tt))

exec-all_or_nothing_example :
    ((begin outside noon two_commands (idling (new_processor 4) [] ((k, 4) ∷ [])) no_keys).shared
      ≡ no_keys)
    × (process_args outside noon exec_command
          (begin outside noon two_commands
            (idling (new_processor 4) [] ((k, 4) ∷ []))
            no_keys).processor
          one_shared
        ≡ all_or_nothing
            (unmodified one_key ((k, 4) ∷ []))
            outside
            noon
            two_commands
            (idling (new_processor 4) [] ((k, 4) ∷ []))
            one_shared)
exec-all_or_nothing_example =
    exec-all_or_nothing outside noon noon two_commands (new_processor 4) [] ((k, 4) ∷ []) no_keys
      one_shared two_commands-AllQueued

discard-nothing_example :
    process_args outside noon discard_command
      (begin outside noon two_commands (idling (new_processor 4) [] []) one_shared).processor
      one_shared
    ≡ replies (idling (new_processor 4) [] []) one_shared ok_reply
discard-nothing_example =
    discard-nothing outside noon noon two_commands (new_processor 4) [] [] one_shared one_shared
      two_commands-AllQueued

watch-exec_example :
    process_args outside noon exec_command
      (begin outside noon two_commands
        (process_args outside noon (watch_command (k ∷ [])) (new_processor 4) no_keys).processor
        one_shared).processor
      one_shared
    ≡ all_or_nothing
        (same_counts [] one_key (k ∷ []))
        outside
        noon
        two_commands
        (process_args outside noon (watch_command (k ∷ [])) (new_processor 4) no_keys).processor
        one_shared
watch-exec_example =
    watch-exec outside noon noon noon k [] two_commands 4 one_shared no_keys one_shared
      two_commands-AllQueued

handle_get-handle_set_example :
    (handle_get noon
      (bulk_string (codes "GET") ∷ bulk_string k ∷ [])
      (after_set noon (bulk_string (codes "SET")) k (codes "w") one_key)).1
    ≡ bulk_reply (codes "w")
handle_get-handle_set_example =
    handle_get-handle_set noon noon (bulk_string (codes "SET")) (bulk_string (codes "GET")) k
      (codes "w") one_key (unfold at_key find equal in refl)

process_buffer-real_example :
    is_real
      (process_buffer outside 9 (λ i. noon) (codes "*1\r\n+x") (new_processor 4) one_shared).status
    ≡ true
process_buffer-real_example =
    process_buffer-real outside 9 (λ i. noon) (codes "*1\r\n+x") (new_processor 4) one_shared
      (omega arith) (omega arith)

-- The requests `SET k w` and `GET k`.
abbrev two_requests : List (List Bytes)
two_requests = (codes "SET" ∷ k ∷ codes "w" ∷ []) ∷ (codes "GET" ∷ k ∷ []) ∷ []

short : length (requests two_requests) ≡ 47
unfolding requests request to_string
short = refl

process_buffer-requests_example :
    process_buffer outside 100 (λ i. noon) (requests two_requests) (new_processor 4) one_shared
    ≡ serve outside (λ i. noon) two_requests (new_processor 4) one_shared
process_buffer-requests_example =
    process_buffer-requests outside 100 (λ i. noon) two_requests (new_processor 4) one_shared
      (omega (arith, short)) (omega (arith, short))

-- A map with one string.
abbrev stored : Shared
stored = record no_keys { keyspace = (Database.set k (codes "v") []).0 }

stored-IsWellFormed : IsWellFormed stored.keyspace
stored-IsWellFormed = Reach-IsWellFormed (next k here (Step.set (codes "v"))) empty-IsWellFormed

-- `ZADD z 1 m`, whose score `stod` reads as zero.
abbrev zadd_command : List RespValue
zadd_command =
    bulk_string (codes "ZADD")
    ∷ bulk_string (codes "z")
    ∷ bulk_string (codes "1")
    ∷ bulk_string (codes "m")
    ∷ []

zero_number : is_nan 0 ≡ false
unfolding is_nan
zero_number = refl

process_args-IsWellFormed_example :
    IsWellFormed (process_args outside noon zadd_command (new_processor 4) stored).shared.keyspace
    ⊎ (process_args outside noon zadd_command (new_processor 4) stored
        ≡ outside.undefined (new_processor 4) stored)
process_args-IsWellFormed_example =
    process_args-IsWellFormed outside noon zadd_command (new_processor 4) stored
      (zero_number, (zero_number, (zero_number, (zero_number, tt)))) tt stored-IsWellFormed
