-- ===== src/RedisTui/Served.antt =====
-- clients/tui/redis_tui.cpp at a server that runs main.cpp: the connection carries the requests to
-- `handle_client`, and what it writes back to the client.
pub mod Browse
pub mod Request
pub mod Reply
use minimum_redis.Base.{
  ℕ, zero, suc, ◌+◌, Bool, true, false, not, Option, none, some, List, [], ◌∷◌, ◌++◌, Bytes, length,
  take, drop, if◌then◌else◌,
}
use minimum_redis.Commands.Reply.{Clock}
use minimum_redis.Commands.State.{Outside}
use minimum_redis.Server.Clients.{
  Session, Network, Written, find_session, room, connect, read_input,
}
use minimum_redis.RedisClient.{Received, Link}

-- The server, the bytes on their way to the client, and the number of times that the server has
-- read from its socket.
pub record Wire : Type 0 where
  pub network : Network
  pub waiting : Bytes
  pub reads : ℕ

abbrev pub written : Wire → Written → Wire
written w (bytes, network) = record {
  network = network;
  waiting = w.waiting ++ bytes;
  reads = w.reads + 1;
}

abbrev pub no_bytes : Wire → Option Session → Wire × Received
no_bytes w none = (w, Received.closed)
no_bytes w (some c) = (w, Received.timeout)

-- `recv` takes at most 8191 bytes, the size of the client's buffer but one.
unfoldable pub take_bytes : ℕ → Bytes → Wire → Wire × Received
take_bytes fd [] w = no_bytes w (find_session fd w.network.sessions)
take_bytes fd (b ∷ bytes) w =
    (record w { waiting = drop 8191 (b ∷ bytes) }, Received.bytes (take 8191 (b ∷ bytes)))

unfoldable pub open_connection : ℕ → Wire → Wire × Bool
open_connection fd w =
    (record w { network = connect fd w.network; waiting = [] }, not w.network.is_terminated)

-- The server's thread reads the bytes, as many as it has room for at a time; each time takes at
-- least one byte.
module _ (o : Outside) (clocks : ℕ → ℕ → Clock) (fd : ℕ) where
  abbrev pub deliver_part : (Bytes → Wire → Wire) → Bytes → Wire → Option Session → Wire
  deliver_part again bytes w none = w
  deliver_part again bytes w (some c) =
      again (drop (room c) bytes)
        (written w (read_input o (clocks w.reads) fd (take (room c) bytes) c w.network))

  unfoldable pub deliver : ℕ → Bytes → Wire → Wire
  deliver zero bytes w = w
  deliver (suc f) [] w = w
  deliver (suc f) (b ∷ bytes) w =
      let part = deliver_part (deliver f) (b ∷ bytes) w (find_session fd w.network.sessions) in
      if w.network.is_terminated then w else part

  abbrev pub server_link : Link Wire
  server_link = record {
    send = λ bytes w. (deliver (length bytes + 1) bytes w, true);
    receive = λ w. take_bytes fd w.waiting w;
    connect_to_server = open_connection fd;
  }
