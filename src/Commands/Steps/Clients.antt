-- ===== src/Commands/Steps/Clients.antt =====
-- commands.cpp: whatever a client sends, `client_processors` keeps its clients, and the client's
-- processor its descriptor.
pub mod Dispatch
use minimum_redis.Base.{
  ℕ, ◌==◌, not, ◌&&◌, ◌||◌, Bool, true, false, Bool-cases, inl, inr, Option, none, some, List, [],
  ◌∷◌, ◌++◌, Bytes, text, equal, ltb, length, take, drop, if◌then◌else◌, ◌≡◌, refl, ap, ◌∙◌,
}
use minimum_redis.Base.Int.{ℤ, pos_part}
use minimum_redis.Base.Number.{stoi}
use minimum_redis.Dict.{find, put}
use minimum_redis.Resp.Value.{RespValue, str_val}
use minimum_redis.Database.{get_mod_count}
use minimum_redis.PubSub.{subscribe, unsubscribe, get_subscribers}
use minimum_redis.Lua.{Scripted, eval, evalsha}
use minimum_redis.Commands.Reply.{Clock, Handler, is_bulk, all_bulk, texts}
use minimum_redis.Commands.State.{CommandProcessor, Inboxes, Shared, Outcome, Outside, replies}
use minimum_redis.Commands.Table.{queued_commands, expiry_commands}
use minimum_redis.Commands.Cluster.{redirect}
use minimum_redis.Commands.Queue.{
  unmodified, handle_multi, handle_exec, handle_discard, watch_keys, handle_watch, handle_unwatch,
}
use minimum_redis.Commands.Channels.{
  queue_pubsub_message, queue_all, pubsub_message, subscribe_each, handle_subscribe, publish,
  handle_publish, unsubscribe_each, handle_unsubscribe,
}
use minimum_redis.Commands.Scripts.{
  scripted, first_argument, Refusals, with_num_keys, with_script, handle_eval, handle_evalsha,
  eval_refusals, evalsha_refusals, script_load_command, handle_script,
}
use minimum_redis.Commands.Processor.{
  upper, dispatch, run_now, ends_transaction, unless_moved, process_args, push_command,
  process_command, array_of,
}

-- The descriptors of `client_processors`.
abbrev pub fds_of : Inboxes → List ℕ
fds_of [] = []
fds_of ((fd, waiting) ∷ r) = fd ∷ fds_of r

-- The same clients, and the same descriptor in the processor.
abbrev pub Same : CommandProcessor → Shared → Outcome → Type 0
Same p s r = (fds_of r.shared.inboxes ≡ fds_of s.inboxes) × (r.processor.client_fd ≡ p.client_fd)

-- Where C++ does not say what a script does, it is taken to do the same.
abbrev pub IsOrderly : Outside → Type 0
IsOrderly o = (p : CommandProcessor) (s : Shared) → Same p s (o.undefined p s)

pub if-Same :
    (p : CommandProcessor) (s : Shared) (b : Bool) (x y : Outcome)
    → Same p s x
    → Same p s y
    → Same p s (if b then x else y)
if-Same p s true x y h k = h
if-Same p s false x y h k = k

pub handle_multi-Same :
    (args : List RespValue) (p : CommandProcessor) (s : Shared) → Same p s (handle_multi args p s)
unfolding handle_multi
handle_multi-Same [] p s = (refl, refl)
handle_multi-Same (c ∷ []) p s = if-Same p s p.in_transaction _ _ (refl, refl) (refl, refl)
handle_multi-Same (c ∷ d ∷ r) p s = (refl, refl)

pub handle_discard-Same :
    (args : List RespValue) (p : CommandProcessor) (s : Shared) → Same p s (handle_discard args p s)
unfolding handle_discard
handle_discard-Same [] p s = (refl, refl)
handle_discard-Same (c ∷ []) p s = if-Same p s p.in_transaction _ _ (refl, refl) (refl, refl)
handle_discard-Same (c ∷ d ∷ r) p s = (refl, refl)

pub handle_unwatch-Same :
    (args : List RespValue) (p : CommandProcessor) (s : Shared) → Same p s (handle_unwatch args p s)
unfolding handle_unwatch
handle_unwatch-Same [] p s = (refl, refl)
handle_unwatch-Same (c ∷ []) p s = (refl, refl)
handle_unwatch-Same (c ∷ d ∷ r) p s = (refl, refl)

pub handle_exec-Same :
    (o : Outside) (now : Clock) (args : List RespValue) (p : CommandProcessor) (s : Shared)
    → Same p s (handle_exec o now args p s)
unfolding handle_exec
handle_exec-Same o now [] p s = (refl, refl)
handle_exec-Same o now (c ∷ []) p s =
    if-Same p s (not p.in_transaction) _ _ (refl, refl)
      (if-Same p s (unmodified s.keyspace p.watched_keys) _ _ (refl, refl) (refl, refl))
handle_exec-Same o now (c ∷ d ∷ r) p s = (refl, refl)

watch_keys-Same :
    (keys : List RespValue) (p : CommandProcessor) (s : Shared) → Same p s (watch_keys keys p s)
unfolding watch_keys
watch_keys-Same [] p s = (refl, refl)
watch_keys-Same (k ∷ ks) p s =
    let watches = put (str_val k) (get_mod_count (str_val k) s.keyspace) p.watched_keys in
    if-Same p s (is_bulk k) (watch_keys ks (record p { watched_keys = watches }) s) _
      (watch_keys-Same ks (record p { watched_keys = watches }) s) (refl, refl)

pub handle_watch-Same :
    (args : List RespValue) (p : CommandProcessor) (s : Shared) → Same p s (handle_watch args p s)
unfolding handle_watch
handle_watch-Same [] p s = (refl, refl)
handle_watch-Same (c ∷ []) p s = (refl, refl)
handle_watch-Same (c ∷ k ∷ ks) p s =
    if-Same p s p.in_transaction _ (watch_keys (k ∷ ks) p s) (refl, refl)
      (watch_keys-Same (k ∷ ks) p s)

subscribe_each-Same :
    (channels : List RespValue) (reply : Bytes) (p : CommandProcessor) (s : Shared)
    → Same p s (subscribe_each channels reply p s)
unfolding subscribe_each
subscribe_each-Same [] reply p s = (refl, refl)
subscribe_each-Same (c ∷ cs) reply p s =
    if-Same p s (is_bulk c) _ _
      (subscribe_each-Same cs _ p
        (record s { subscribers = subscribe p.client_fd (str_val c) s.subscribers }))
      (refl, refl)

pub handle_subscribe-Same :
    (args : List RespValue) (p : CommandProcessor) (s : Shared)
    → Same p s (handle_subscribe args p s)
unfolding handle_subscribe
handle_subscribe-Same [] p s = (refl, refl)
handle_subscribe-Same (c ∷ []) p s = (refl, refl)
handle_subscribe-Same (c ∷ k ∷ ks) p s = subscribe_each-Same (k ∷ ks) [] p s

unsubscribe_each-Same :
    (channels : List RespValue) (reply : Bytes) (p : CommandProcessor) (s : Shared)
    → Same p s (unsubscribe_each channels reply p s)
unfolding unsubscribe_each
unsubscribe_each-Same [] reply p s = (refl, refl)
unsubscribe_each-Same (c ∷ cs) reply p s =
    if-Same p s (is_bulk c) _ _
      (unsubscribe_each-Same cs _ p
        (record s { subscribers = unsubscribe p.client_fd (str_val c) s.subscribers }))
      (refl, refl)

pub handle_unsubscribe-Same :
    (args : List RespValue) (p : CommandProcessor) (s : Shared)
    → Same p s (handle_unsubscribe args p s)
unfolding handle_unsubscribe
handle_unsubscribe-Same [] p s = (refl, refl)
handle_unsubscribe-Same (c ∷ []) p s = (refl, refl)
handle_unsubscribe-Same (c ∷ k ∷ ks) p s = unsubscribe_each-Same (k ∷ ks) [] p s

fds_of-queue_pubsub_message :
    (fd : ℕ) (message : Bytes) (boxes : Inboxes)
    → fds_of (queue_pubsub_message fd message boxes) ≡ fds_of boxes
unfolding queue_pubsub_message
fds_of-queue_pubsub_message fd message [] = refl
fds_of-queue_pubsub_message fd message ((f, waiting) ∷ r) = elim (Bool-cases (f == fd)) [
  | inl e ↦ rw e refl
  | inr e ↦ rw e (ap (◌∷◌ f) (fds_of-queue_pubsub_message fd message r))
]

fds_of-queue_all :
    (fds : List ℕ) (message : Bytes) (boxes : Inboxes)
    → fds_of (queue_all fds message boxes) ≡ fds_of boxes
unfolding queue_all
fds_of-queue_all [] message boxes = refl
fds_of-queue_all (fd ∷ fds) message boxes =
    fds_of-queue_all fds message (queue_pubsub_message fd message boxes)
    ∙ fds_of-queue_pubsub_message fd message boxes

pub handle_publish-Same :
    (args : List RespValue) (p : CommandProcessor) (s : Shared) → Same p s (handle_publish args p s)
unfolding handle_publish
handle_publish-Same [] p s = (refl, refl)
handle_publish-Same (n ∷ []) p s = (refl, refl)
handle_publish-Same (n ∷ c ∷ []) p s = (refl, refl)
handle_publish-Same (n ∷ c ∷ m ∷ []) p s =
    let fds = get_subscribers (str_val c) s.subscribers in
    let message = pubsub_message (str_val c) (str_val m) in
    if-Same p s (is_bulk c && is_bulk m) (publish (str_val c) (str_val m) p s) _
      (fds_of-queue_all fds message s.inboxes, refl) (refl, refl)
handle_publish-Same (n ∷ c ∷ m ∷ k ∷ r) p s = (refl, refl)

script_load_command-Same :
    (args : List RespValue) (p : CommandProcessor) (s : Shared)
    → Same p s (script_load_command args p s)
script_load_command-Same [] p s = (refl, refl)
script_load_command-Same (c ∷ []) p s = if-Same p s (is_bulk c) _ _ (refl, refl) (refl, refl)
script_load_command-Same (c ∷ d ∷ r) p s = (refl, refl)

pub handle_script-Same :
    (args : List RespValue) (p : CommandProcessor) (s : Shared) → Same p s (handle_script args p s)
unfolding handle_script
handle_script-Same [] p s = (refl, refl)
handle_script-Same (c ∷ []) p s = (refl, refl)
handle_script-Same (c ∷ sub ∷ rest) p s =
    if-Same p s (not (is_bulk sub)) _ _ (refl, refl)
      (if-Same p s (equal (str_val sub) (text "LOAD")) (script_load_command rest p s) _
        (script_load_command-Same rest p s)
        (if-Same p s (equal (str_val sub) (text "EXISTS")) _ _ (refl, refl)
          (if-Same p s (equal (str_val sub) (text "FLUSH")) _ _ (refl, refl) (refl, refl))))
