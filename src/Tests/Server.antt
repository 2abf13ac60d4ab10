-- ===== src/Tests/Server.antt =====
-- Deliveries, clients and messages, at concrete bytes.
use minimum_redis.Base.{
  ◌+◌, ◌≤◌, ◌<◌, true, false, some, [], ◌∷◌, ◌++◌, Bytes, codes, length, ◌≡◌, refl, arith,
}
use minimum_redis.Resp.Value.{bulk_string}
use minimum_redis.PubSub.{get_subscribers}
use minimum_redis.Commands.State.{Shared, new_processor, replies}
use minimum_redis.Commands.Reply.{number_reply}
use minimum_redis.Commands.Channels.{queue_all, pubsub_messages, pubsub_message, handle_publish}
use minimum_redis.Commands.Channels.Delivery.{copies, handle_publish-delivers}
use minimum_redis.Server.{Status, Client, stop, buffer_size, write_first, handle_input}
use minimum_redis.Server.Delivery.{is_waiting, later_clocks, count_commands, handle_input-append}
use minimum_redis.Server.Clients.{
  Session, Network, connect, cleanup, started, find_session, room, read_input, connects, reads,
  Serves, starts, goes_on,
}
use minimum_redis.Server.Clients.Room.{Serves-room}
use minimum_redis.Server.Clients.Reconnect.{reconnect-subscribed}
use minimum_redis.Tests.Data.{outside, noon, one_key, no_keys}

abbrev idle : Client
idle = stop Status.waiting [] (new_processor 4) no_keys []

-- The request `LPUSH k a` in two reads.
abbrev first_bytes : Bytes
first_bytes = codes "*3\r\n$5\r\nLPUSH\r\n"

abbrev last_bytes : Bytes
last_bytes = codes "$1\r\nk\r\n$1\r\na\r\n"

first_waits : is_waiting (handle_input outside (λ i. noon) first_bytes idle).status ≡ true
unfolding handle_input
first_waits = refl

handle_input-append_example :
    handle_input outside (λ i. noon) (first_bytes ++ last_bytes) idle
    ≡ write_first (handle_input outside (λ i. noon) first_bytes idle).written (
        handle_input outside
          (later_clocks
            (count_commands (length ([] ++ first_bytes) + 1) ([] ++ first_bytes))
            (λ i. noon))
          last_bytes
          (handle_input outside (λ i. noon) first_bytes idle))
handle_input-append_example =
    handle_input-append outside (λ i. noon) first_bytes last_bytes idle (omega arith) first_waits

-- A client that has come and has sent the first bytes.
abbrev new_session : Session
new_session = record { processor = new_processor 4; buffer = [] }

abbrev one_client : Network
one_client =
    (read_input outside (λ i. noon) 4 first_bytes new_session (connect 4 (started one_key))).1

one_client-Serves : Serves outside one_client
unfolding connect
one_client-Serves =
    goes_on (goes_on (starts one_key) refl (connects 4 (unfold find_session in refl))) refl (
      reads 4 (λ i. noon) first_bytes new_session (unfold connect find_session in refl)
        (omega arith) (omega arith))

abbrev waiting_session : Session
waiting_session = record { processor = new_processor 4; buffer = first_bytes }

one_client-found : find_session 4 one_client.sessions ≡ some waiting_session
unfolding connect find_session read_input
one_client-found = refl

Serves-room_example :
    (1024 ≤ room waiting_session) × (length (waiting_session.buffer ++ last_bytes) < buffer_size)
Serves-room_example =
    Serves-room outside one_client 4 waiting_session last_bytes one_client-Serves one_client-found
      (omega arith)

-- Two clients, of which one has subscribed twice to a channel, and left it once.
abbrev listening : Shared
listening = record {
  keyspace = [];
  subscribers = (codes "news", 5 ∷ 4 ∷ 5 ∷ []) ∷ [];
  inboxes = (4, []) ∷ (5, codes "old" ∷ []) ∷ [];
}

abbrev publish_command : Bytes
publish_command = codes "PUBLISH"

handle_publish-delivers_example :
    (handle_publish
        (bulk_string publish_command ∷ bulk_string (codes "news") ∷ bulk_string (codes "hi") ∷ [])
        (new_processor 4)
        listening
      ≡ replies
          (new_processor 4)
          (record listening {
            inboxes =
                queue_all
                  (get_subscribers (codes "news") listening.subscribers)
                  (pubsub_message (codes "news") (codes "hi"))
                  listening.inboxes;
          })
          (number_reply (length (get_subscribers (codes "news") listening.subscribers))))
    × (pubsub_messages 5
          (handle_publish
            (bulk_string publish_command
              ∷ bulk_string (codes "news")
              ∷ bulk_string (codes "hi")
              ∷ [])
            (new_processor 4)
            listening).shared.inboxes
        ≡ pubsub_messages 5 listening.inboxes
          ++ copies 5
              (get_subscribers (codes "news") listening.subscribers)
              (pubsub_message (codes "news") (codes "hi")))
handle_publish-delivers_example =
    handle_publish-delivers (bulk_string publish_command) (codes "news") (codes "hi")
      (new_processor 4) listening 5 refl

abbrev two_clients : Network
two_clients = record {
  shared = listening;
  sessions =
      (4, record { processor = new_processor 4; buffer = [] })
      ∷ (5, record { processor = new_processor 5; buffer = [] })
      ∷ [];
  is_terminated = false;
}

reconnect-subscribed_example :
    pubsub_messages 5
      (handle_publish
        (bulk_string publish_command ∷ bulk_string (codes "news") ∷ bulk_string (codes "hi") ∷ [])
        (new_processor 4)
        (connect 5 (cleanup 5 two_clients)).shared).shared.inboxes
    ≡ copies 5
        (get_subscribers (codes "news") listening.subscribers)
        (pubsub_message (codes "news") (codes "hi"))
reconnect-subscribed_example =
    reconnect-subscribed (bulk_string publish_command) (codes "news") (codes "hi") (new_processor 4)
      two_clients 5
