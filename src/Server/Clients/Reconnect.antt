-- ===== src/Server/Clients/Reconnect.antt =====
-- main.cpp, the end of `handle_client`: the subscriptions of a client that has gone.
use minimum_redis.Base.{
  ℕ, ◌==◌, true, List, [], ◌∷◌, Bytes, ◌≡◌, refl, arith, ◌∙◌, Bool-cases, inl, inr,
}
use minimum_redis.Resp.Value.{RespValue, bulk_string}
use minimum_redis.PubSub.{get_subscribers}
use minimum_redis.Commands.State.{CommandProcessor, Inboxes}
use minimum_redis.Commands.Channels.{pubsub_messages, pubsub_message, handle_publish}
use minimum_redis.Commands.Channels.Delivery.{has_inbox, copies, handle_publish-delivers}
use minimum_redis.Server.Clients.{Network, connect, cleanup, put_inbox}

put_inbox-opened :
    (fd : ℕ) (messages : List Bytes) (boxes : Inboxes)
    → (has_inbox fd (put_inbox fd messages boxes) ≡ true)
      × (pubsub_messages fd (put_inbox fd messages boxes) ≡ messages)
unfolding put_inbox pubsub_messages
put_inbox-opened fd messages [] = (ground arith, ground arith)
put_inbox-opened fd messages ((f, waiting) ∷ r) = elim (Bool-cases (f == fd)) [
  | inl e ↦ (rw e (rw e refl), rw e (rw e refl))
  | inr e ↦
      let (opened, now) = put_inbox-opened fd messages r in (rw e (rw e opened), rw e (rw e now))
]

-- A client goes, and another one comes that is given its descriptor. What anybody then publishes to
-- a channel waits for the new client once for each time that the client that has gone had
-- subscribed to the channel: the end of a connection leaves its subscriptions.
pub reconnect-subscribed :
    (name : RespValue) (channel message : Bytes) (p : CommandProcessor) (n : Network) (fd : ℕ)
    → pubsub_messages fd
        (handle_publish
          (name ∷ bulk_string channel ∷ bulk_string message ∷ [])
          p
          (connect fd (cleanup fd n)).shared).shared.inboxes
      ≡ copies fd (get_subscribers channel n.shared.subscribers) (pubsub_message channel message)
unfolding connect cleanup
reconnect-subscribed name channel message p n fd =
    let (opened, empty) = put_inbox-opened fd [] (cleanup fd n).shared.inboxes in
    (handle_publish-delivers name channel message p (connect fd (cleanup fd n)).shared fd opened).1
    ∙ rw empty refl
