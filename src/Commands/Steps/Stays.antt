-- ===== src/Commands/Steps/Stays.antt =====
-- commands.cpp: the commands on the processor itself leave the map, except that EXEC changes it by
-- the operations of its queue.
use minimum_redis.Base.{
  not, ◌&&◌, Bool, true, false, List, [], ◌∷◌, Bytes, text, equal, if◌then◌else◌,
}
use minimum_redis.Dict.{put}
use minimum_redis.Resp.Value.{RespValue, str_val}
use minimum_redis.Database.{get_mod_count}
use minimum_redis.Database.Step.{Reach, here}
use minimum_redis.PubSub.{subscribe, unsubscribe}
use minimum_redis.Commands.Reply.{Clock, is_bulk}
use minimum_redis.Commands.State.{CommandProcessor, Shared, Outcome, Outside}
use minimum_redis.Commands.Queue.{
  unmodified, handle_multi, handle_exec, handle_discard, watch_keys, handle_watch, handle_unwatch,
}
use minimum_redis.Commands.Channels.{
  subscribe_each, handle_subscribe, publish, handle_publish, unsubscribe_each, handle_unsubscribe,
}
use minimum_redis.Commands.Scripts.{script_load_command, handle_script}
use minimum_redis.Commands.Steps.Table.{QueueNoNan, run_queue-Reach}

abbrev pub Stays : Shared → Outcome → Type 0
Stays s r = Reach s.keyspace r.shared.keyspace

pub if-Stays :
    (s : Shared) (b : Bool) (x y : Outcome) → Stays s x → Stays s y → Stays s (if b then x else y)
if-Stays s true x y h k = h
if-Stays s false x y h k = k

pub handle_multi-Stays :
    (args : List RespValue) (p : CommandProcessor) (s : Shared) → Stays s (handle_multi args p s)
unfolding handle_multi
handle_multi-Stays [] p s = here
handle_multi-Stays (c ∷ []) p s = if-Stays s p.in_transaction _ _ here here
handle_multi-Stays (c ∷ d ∷ r) p s = here

pub handle_discard-Stays :
    (args : List RespValue) (p : CommandProcessor) (s : Shared) → Stays s (handle_discard args p s)
unfolding handle_discard
handle_discard-Stays [] p s = here
handle_discard-Stays (c ∷ []) p s = if-Stays s p.in_transaction _ _ here here
handle_discard-Stays (c ∷ d ∷ r) p s = here

pub handle_unwatch-Stays :
    (args : List RespValue) (p : CommandProcessor) (s : Shared) → Stays s (handle_unwatch args p s)
unfolding handle_unwatch
handle_unwatch-Stays [] p s = here
handle_unwatch-Stays (c ∷ []) p s = here
handle_unwatch-Stays (c ∷ d ∷ r) p s = here

pub handle_exec-Stays :
    (o : Outside) (now : Clock) (args : List RespValue) (p : CommandProcessor) (s : Shared)
    → QueueNoNan o.stod p.transaction_queue
    → Stays s (handle_exec o now args p s)
unfolding handle_exec
handle_exec-Stays o now [] p s numbers = here
handle_exec-Stays o now (c ∷ []) p s numbers = if-Stays s (not p.in_transaction) _ _ here (
    if-Stays s (unmodified s.keyspace p.watched_keys) _ _
      (run_queue-Reach o p.transaction_queue now s.keyspace numbers) here)
handle_exec-Stays o now (c ∷ d ∷ r) p s numbers = here

watch_keys-Stays :
    (keys : List RespValue) (p : CommandProcessor) (s : Shared) → Stays s (watch_keys keys p s)
unfolding watch_keys
watch_keys-Stays [] p s = here
watch_keys-Stays (k ∷ ks) p s =
    let watches = put (str_val k) (get_mod_count (str_val k) s.keyspace) p.watched_keys in
    if-Stays s (is_bulk k) (watch_keys ks (record p { watched_keys = watches }) s) _
      (watch_keys-Stays ks (record p { watched_keys = watches }) s) here

pub handle_watch-Stays :
    (args : List RespValue) (p : CommandProcessor) (s : Shared) → Stays s (handle_watch args p s)
unfolding handle_watch
handle_watch-Stays [] p s = here
handle_watch-Stays (c ∷ []) p s = here
handle_watch-Stays (c ∷ k ∷ ks) p s =
    if-Stays s p.in_transaction _ (watch_keys (k ∷ ks) p s) here (watch_keys-Stays (k ∷ ks) p s)

subscribe_each-Stays :
    (channels : List RespValue) (reply : Bytes) (p : CommandProcessor) (s : Shared)
    → Stays s (subscribe_each channels reply p s)
unfolding subscribe_each
subscribe_each-Stays [] reply p s = here
subscribe_each-Stays (c ∷ cs) reply p s =
    if-Stays s (is_bulk c) _ _
      (subscribe_each-Stays cs _ p
        (record s { subscribers = subscribe p.client_fd (str_val c) s.subscribers }))
      here

pub handle_subscribe-Stays :
    (args : List RespValue) (p : CommandProcessor) (s : Shared)
    → Stays s (handle_subscribe args p s)
unfolding handle_subscribe
handle_subscribe-Stays [] p s = here
handle_subscribe-Stays (c ∷ []) p s = here
handle_subscribe-Stays (c ∷ k ∷ ks) p s = subscribe_each-Stays (k ∷ ks) [] p s

unsubscribe_each-Stays :
    (channels : List RespValue) (reply : Bytes) (p : CommandProcessor) (s : Shared)
    → Stays s (unsubscribe_each channels reply p s)
unfolding unsubscribe_each
unsubscribe_each-Stays [] reply p s = here
unsubscribe_each-Stays (c ∷ cs) reply p s =
    if-Stays s (is_bulk c) _ _
      (unsubscribe_each-Stays cs _ p
        (record s { subscribers = unsubscribe p.client_fd (str_val c) s.subscribers }))
      here

pub handle_unsubscribe-Stays :
    (args : List RespValue) (p : CommandProcessor) (s : Shared)
    → Stays s (handle_unsubscribe args p s)
unfolding handle_unsubscribe
handle_unsubscribe-Stays [] p s = here
handle_unsubscribe-Stays (c ∷ []) p s = here
handle_unsubscribe-Stays (c ∷ k ∷ ks) p s = unsubscribe_each-Stays (k ∷ ks) [] p s

pub handle_publish-Stays :
    (args : List RespValue) (p : CommandProcessor) (s : Shared) → Stays s (handle_publish args p s)
unfolding handle_publish
handle_publish-Stays [] p s = here
handle_publish-Stays (n ∷ []) p s = here
handle_publish-Stays (n ∷ c ∷ []) p s = here
handle_publish-Stays (n ∷ c ∷ m ∷ []) p s =
    if-Stays s (is_bulk c && is_bulk m) (publish (str_val c) (str_val m) p s) _ here here
handle_publish-Stays (n ∷ c ∷ m ∷ k ∷ r) p s = here

script_load_command-Stays :
    (args : List RespValue) (p : CommandProcessor) (s : Shared)
    → Stays s (script_load_command args p s)
script_load_command-Stays [] p s = here
script_load_command-Stays (c ∷ []) p s = if-Stays s (is_bulk c) _ _ here here
script_load_command-Stays (c ∷ d ∷ r) p s = here

pub handle_script-Stays :
    (args : List RespValue) (p : CommandProcessor) (s : Shared) → Stays s (handle_script args p s)
unfolding handle_script
handle_script-Stays [] p s = here
handle_script-Stays (c ∷ []) p s = here
handle_script-Stays (c ∷ sub ∷ rest) p s = if-Stays s (not (is_bulk sub)) _ _ here (
    if-Stays s (equal (str_val sub) (text "LOAD")) (script_load_command rest p s) _
      (script_load_command-Stays rest p s)
      (if-Stays s (equal (str_val sub) (text "EXISTS")) _ _ here
        (if-Stays s (equal (str_val sub) (text "FLUSH")) _ _ here here)))
