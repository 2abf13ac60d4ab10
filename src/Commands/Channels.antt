-- ===== src/Commands/Channels.antt =====
-- commands.cpp: SUBSCRIBE, PUBLISH and UNSUBSCRIBE, and the messages that wait for a client. The
-- pipe that wakes a client's thread up is left out.
pub mod Delivery
use minimum_redis.Base.{
  ℕ, ◌==◌, Bool, ◌&&◌, List, [], ◌∷◌, ◌++◌, Bytes, text, length, if◌then◌else◌,
}
use minimum_redis.Base.Number.{to_string}
use minimum_redis.Resp.Value.{RespValue, str_val}
use minimum_redis.PubSub.{subscribe, unsubscribe, get_subscribers}
use minimum_redis.Commands.Reply.{is_bulk, bulk_reply, number_reply}
use minimum_redis.Commands.State.{CommandProcessor, Inboxes, Shared, Outcome, replies}

-- `queue_pubsub_message` of the processor that `client_processors` has for the client, if it has one
unfoldable pub queue_pubsub_message : ℕ → Bytes → Inboxes → Inboxes
queue_pubsub_message fd message [] = []
queue_pubsub_message fd message ((f, waiting) ∷ r) =
    if f == fd
    then (f, waiting ++ message ∷ []) ∷ r
    else (f, waiting) ∷ queue_pubsub_message fd message r

-- The loop over the subscribers.
unfoldable pub queue_all : List ℕ → Bytes → Inboxes → Inboxes
unfolding queue_pubsub_message
queue_all [] message boxes = boxes
queue_all (fd ∷ fds) message boxes = queue_all fds message (queue_pubsub_message fd message boxes)

-- The queue of a client's processor.
unfoldable pub pubsub_messages : ℕ → Inboxes → List Bytes
pubsub_messages fd [] = []
pubsub_messages fd ((f, waiting) ∷ r) = if f == fd then waiting else pubsub_messages fd r

abbrev pub subscribe_reply : Bytes → Bytes
subscribe_reply channel = text "*3\r\n$9\r\nsubscribe\r\n" ++ (bulk_reply channel ++ text ":1\r\n")

-- The loop over the channels; a bad one ends it, with those before it subscribed.
unfoldable pub subscribe_each : List RespValue → Bytes → CommandProcessor → Shared → Outcome
unfolding subscribe
subscribe_each [] response p s = replies p s response
subscribe_each (c ∷ cs) response p s =
    let channel = str_val c in
    let joined = record s { subscribers = subscribe p.client_fd channel s.subscribers } in
    let later = subscribe_each cs (response ++ subscribe_reply channel) p joined in
    if is_bulk c
    then later
    else replies p s (text "-ERR SUBSCRIBE channels must be bulk strings\r\n")

unfoldable pub handle_subscribe : List RespValue → CommandProcessor → Shared → Outcome
unfolding subscribe_each
handle_subscribe (name ∷ c ∷ cs) p s = subscribe_each (c ∷ cs) [] p s
handle_subscribe _ p s = replies p s (text "-ERR SUBSCRIBE requires at least 1 channel\r\n")

unfoldable pub pubsub_message : Bytes → Bytes → Bytes
pubsub_message channel message =
    text "*3\r\n$7\r\nmessage\r\n" ++ (bulk_reply channel ++ bulk_reply message)

abbrev pub publish : Bytes → Bytes → CommandProcessor → Shared → Outcome
publish channel message p s =
    let fds = get_subscribers channel s.subscribers in
    replies p (record s { inboxes = queue_all fds (pubsub_message channel message) s.inboxes })
      (number_reply (length fds))

unfoldable pub handle_publish : List RespValue → CommandProcessor → Shared → Outcome
unfolding get_subscribers queue_all pubsub_message
handle_publish (name ∷ c ∷ m ∷ []) p s =
    if is_bulk c && is_bulk m
    then publish (str_val c) (str_val m) p s
    else replies p s (text "-ERR PUBLISH arguments must be bulk strings\r\n")
handle_publish _ p s = replies p s (text "-ERR PUBLISH requires exactly 2 arguments\r\n")

abbrev pub unsubscribe_reply : Bytes → Bytes
unsubscribe_reply channel =
    text "*3\r\n$11\r\nunsubscribe\r\n" ++ (bulk_reply channel ++ text ":0\r\n")

unfoldable pub unsubscribe_each : List RespValue → Bytes → CommandProcessor → Shared → Outcome
unfolding unsubscribe
unsubscribe_each [] response p s = replies p s response
unsubscribe_each (c ∷ cs) response p s =
    let channel = str_val c in
    let left = record s { subscribers = unsubscribe p.client_fd channel s.subscribers } in
    let later = unsubscribe_each cs (response ++ unsubscribe_reply channel) p left in
    if is_bulk c
    then later
    else replies p s (text "-ERR UNSUBSCRIBE channels must be bulk strings\r\n")

unfoldable pub handle_unsubscribe : List RespValue → CommandProcessor → Shared → Outcome
unfolding unsubscribe_each
handle_unsubscribe (name ∷ c ∷ cs) p s = unsubscribe_each (c ∷ cs) [] p s
handle_unsubscribe _ p s =
    replies p s (text "-ERR UNSUBSCRIBE from all channels not implemented\r\n")
