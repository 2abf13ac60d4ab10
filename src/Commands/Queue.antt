-- ===== src/Commands/Queue.antt =====
-- commands.cpp: MULTI, EXEC and DISCARD, and WATCH and UNWATCH.
use minimum_redis.Base.{
  ℕ, ◌+◌, ◌==◌, Bool, true, false, not, ◌&&◌, List, [], ◌∷◌, ◌++◌, Bytes, text, if◌then◌else◌,
}
use minimum_redis.Dict.{Dict, put}
use minimum_redis.Resp.Value.{RespValue, str_val}
use minimum_redis.Database.{Keyspace, get_mod_count}
use minimum_redis.Commands.Reply.{Clock, is_bulk, array_header, ok_reply}
use minimum_redis.Commands.State.{
  TransactionCommand, CommandProcessor, Shared, Outcome, Outside, replies, outcome,
}
use minimum_redis.Commands.Table.{execute_func}

unfoldable pub handle_multi : List RespValue → CommandProcessor → Shared → Outcome
handle_multi (c ∷ []) p s =
    if p.in_transaction
    then replies p s (text "-ERR MULTI cannot be nested\r\n")
    else replies (record p { in_transaction = true; transaction_queue = [] }) s ok_reply
handle_multi _ p s = replies p s (text "-ERR MULTI requires no arguments\r\n")

-- The loop over the watched keys: whether each has the count that was recorded.
unfoldable pub unmodified : Keyspace → Dict ℕ → Bool
unfolding get_mod_count
unmodified d [] = true
unmodified d ((key, count) ∷ watches) = get_mod_count key d == count && unmodified d watches

-- The clock's readings behind the first `n`.
abbrev pub after : ℕ → Clock → Clock
after n now i = now (n + i)

-- The loop over the queue: the keyspace, the number of results and their concatenation. A command
-- reads the clock three times at most.
pub record Results : Type 0 where
  pub keyspace : Keyspace
  pub count : ℕ
  pub response : Bytes

unfoldable pub run_queue : Outside → List TransactionCommand → Clock → Keyspace → Results
unfolding execute_func
run_queue o [] now d = record { keyspace = d; count = 0; response = [] }
run_queue o (cmd ∷ queue) now d =
    let (d1, result) = execute_func o cmd now d in
    let rest = run_queue o queue (after 3 now) d1 in
    record { keyspace = rest.keyspace; count = rest.count + 1; response = result ++ rest.response }

-- The processor after EXEC.
abbrev pub cleared : CommandProcessor → CommandProcessor
cleared p = record p { in_transaction = false; transaction_queue = []; watched_keys = [] }

unfoldable pub exec_abort : Bytes
exec_abort = text "-EXECABORT Transaction discarded because of watched key modification\r\n"

unfoldable pub handle_exec : Outside → Clock → List RespValue → CommandProcessor → Shared → Outcome
unfolding unmodified run_queue
handle_exec o now (c ∷ []) p s =
    let results = run_queue o p.transaction_queue now s.keyspace in
    if not p.in_transaction
    then replies p s (text "-ERR EXEC without MULTI\r\n")
    else if unmodified s.keyspace p.watched_keys
    then outcome (cleared p) s (results.keyspace, array_header results.count ++ results.response)
    else replies (cleared p) s exec_abort
handle_exec o now _ p s = replies p s (text "-ERR EXEC requires no arguments\r\n")

unfoldable pub handle_discard : List RespValue → CommandProcessor → Shared → Outcome
handle_discard (c ∷ []) p s =
    if p.in_transaction
    then replies (record p { in_transaction = false; transaction_queue = [] }) s ok_reply
    else replies p s (text "-ERR DISCARD without MULTI\r\n")
handle_discard _ p s = replies p s (text "-ERR DISCARD requires no arguments\r\n")

-- The loop of `handle_watch`: a bad argument ends it, with the watches recorded so far.
unfoldable pub watch_keys : List RespValue → CommandProcessor → Shared → Outcome
unfolding put get_mod_count
watch_keys [] p s = replies p s ok_reply
watch_keys (k ∷ ks) p s =
    let watches = put (str_val k) (get_mod_count (str_val k) s.keyspace) p.watched_keys in
    let later = watch_keys ks (record p { watched_keys = watches }) s in
    if is_bulk k then later else replies p s (text "-ERR WATCH keys must be bulk strings\r\n")

unfoldable pub handle_watch : List RespValue → CommandProcessor → Shared → Outcome
unfolding watch_keys
handle_watch (c ∷ k ∷ ks) p s =
    if p.in_transaction
    then replies p s (text "-ERR WATCH cannot be used inside MULTI\r\n")
    else watch_keys (k ∷ ks) p s
handle_watch _ p s = replies p s (text "-ERR WATCH requires at least 1 argument\r\n")

unfoldable pub handle_unwatch : List RespValue → CommandProcessor → Shared → Outcome
handle_unwatch (c ∷ []) p s = replies (record p { watched_keys = [] }) s ok_reply
handle_unwatch _ p s = replies p s (text "-ERR UNWATCH requires no arguments\r\n")
