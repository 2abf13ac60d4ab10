-- ===== src/Commands/Channels/Delivery.antt =====
-- commands.cpp, handle_publish: which messages wait for whom.
use minimum_redis.Base.{
  ℕ, ◌==◌, Bool, true, false, ◌||◌, List, [], ◌∷◌, ◌++◌, append-nil, append_assoc, Bytes, length,
  if◌then◌else◌, ◌≡◌, refl, arith, ◌∙◌, Bool-cases, inl, inr,
}
use minimum_redis.Resp.Value.{RespValue, bulk_string}
use minimum_redis.PubSub.{get_subscribers}
use minimum_redis.Commands.Reply.{number_reply}
use minimum_redis.Commands.State.{CommandProcessor, Inboxes, Shared, replies}
use minimum_redis.Commands.Channels.{
  queue_pubsub_message, queue_all, pubsub_messages, pubsub_message, handle_publish,
}

-- The client is connected.
abbrev pub has_inbox : ℕ → Inboxes → Bool
has_inbox fd [] = false
has_inbox fd ((f, waiting) ∷ r) = f == fd || has_inbox fd r

-- The message, once for each time that the client stands among the subscribers.
abbrev pub copies : ℕ → List ℕ → Bytes → List Bytes
copies fd [] message = []
copies fd (f ∷ fds) message =
    if f == fd then message ∷ copies fd fds message else copies fd fds message

queue-has_inbox :
    (fd f : ℕ) (message : Bytes) (boxes : Inboxes)
    → has_inbox fd (queue_pubsub_message f message boxes) ≡ has_inbox fd boxes
unfolding queue_pubsub_message
queue-has_inbox fd f message [] = refl
queue-has_inbox fd f message ((g, waiting) ∷ r) = ground (arith, queue-has_inbox fd f message r)

pubsub_messages-queue :
    (fd f : ℕ) (message : Bytes) (boxes : Inboxes)
    → has_inbox fd boxes ≡ true
    → pubsub_messages fd (queue_pubsub_message f message boxes)
      ≡ (if f == fd then pubsub_messages fd boxes ++ message ∷ [] else pubsub_messages fd boxes)
unfolding queue_pubsub_message pubsub_messages
pubsub_messages-queue fd f message [] h = absurd (ground arith)
pubsub_messages-queue fd f message ((g, waiting) ∷ r) h =
    ground (arith, pubsub_messages-queue fd f message r)

pubsub_messages-queue_all :
    (fd : ℕ) (fds : List ℕ) (message : Bytes) (boxes : Inboxes)
    → has_inbox fd boxes ≡ true
    → pubsub_messages fd (queue_all fds message boxes)
      ≡ pubsub_messages fd boxes ++ copies fd fds message
unfolding queue_all
pubsub_messages-queue_all fd [] message boxes h = rw append-nil refl
pubsub_messages-queue_all fd (f ∷ fds) message boxes h =
    let open_still = queue-has_inbox fd f message boxes in
    let later =
      pubsub_messages-queue_all fd fds message (queue_pubsub_message f message boxes)
        (rw open_still h) in
    let queued = pubsub_messages-queue fd f message boxes h in
    elim (Bool-cases (f == fd)) [
      | inl e ↦
          later
          ∙ rw queued (
              rw e (append_assoc (pubsub_messages fd boxes) (message ∷ []) (copies fd fds message)))
      | inr e ↦ later ∙ rw queued (rw e refl)
    ]

-- PUBLISH of a message to a channel, both bulk strings: each connected client has the message behind
-- those that wait for it, once for each of its subscriptions to the channel, and so other clients
-- have what they had; the reply is the number of the subscriptions, and the processor, the keys and
-- the subscribers stay.
pub handle_publish-delivers :
    (name : RespValue) (channel message : Bytes) (p : CommandProcessor) (s : Shared) (fd : ℕ)
    → has_inbox fd s.inboxes ≡ true
    → (handle_publish (name ∷ bulk_string channel ∷ bulk_string message ∷ []) p s
        ≡ replies p
            (record s {
              inboxes =
                  queue_all
                    (get_subscribers channel s.subscribers)
                    (pubsub_message channel message)
                    s.inboxes;
            })
            (number_reply (length (get_subscribers channel s.subscribers))))
      × (pubsub_messages fd
            (handle_publish
              (name ∷ bulk_string channel ∷ bulk_string message ∷ [])
              p
              s).shared.inboxes
          ≡ pubsub_messages fd s.inboxes
            ++ copies fd (get_subscribers channel s.subscribers) (pubsub_message channel message))
unfolding handle_publish
handle_publish-delivers name channel message p s fd h = (
  refl,
  pubsub_messages-queue_all fd (get_subscribers channel s.subscribers)
      (pubsub_message channel message) s.inboxes h,
)
