-- ===== src/Server/Clients.antt =====
-- main.cpp: the clients that are connected, each with its thread in `handle_client`, and what the
-- threads share. The threads take turns: one of them runs from one `select` to the next. The pipe
-- that wakes a thread up is left out, as are errors of `write`.
pub mod Room
pub mod Reconnect
pub mod Registered
use minimum_redis.Base.{
  ℕ, ◌-◌, ◌==◌, ◌≤◌, Bool, true, false, Option, none, some, List, [], ◌∷◌, ◌++◌, Bytes, length,
  if◌then◌else◌, ◌≡◌,
}
use minimum_redis.Database.{Keyspace}
use minimum_redis.Commands.Reply.{Clock}
use minimum_redis.Commands.State.{CommandProcessor, new_processor, Inboxes, Shared, Outside}
use minimum_redis.Commands.Channels.{pubsub_messages}
use minimum_redis.Server.{Status, Client, stop, buffer_size, handle_input}

-- The local variables of `handle_client`.
pub record Session : Type 0 where
  pub processor : CommandProcessor
  pub buffer : Bytes

abbrev pub Sessions : Type 0
Sessions = List (ℕ × Session)

-- The process: what is shared, the connected clients by their descriptors, and whether an exception
-- that is not caught has ended it.
pub record Network : Type 0 where
  pub shared : Shared
  pub sessions : Sessions
  pub is_terminated : Bool

unfoldable pub find_session : ℕ → Sessions → Option Session
find_session fd [] = none
find_session fd ((f, c) ∷ r) = if f == fd then some c else find_session fd r

unfoldable pub put_session : ℕ → Session → Sessions → Sessions
put_session fd c [] = (fd, c) ∷ []
put_session fd c ((f, b) ∷ r) = if f == fd then (f, c) ∷ r else (f, b) ∷ put_session fd c r

unfoldable pub erase_session : ℕ → Sessions → Sessions
erase_session fd [] = []
erase_session fd ((f, c) ∷ r) = if f == fd then r else (f, c) ∷ erase_session fd r

-- `client_processors[client_fd] = &processor`, with its messages
unfoldable pub put_inbox : ℕ → List Bytes → Inboxes → Inboxes
put_inbox fd messages [] = (fd, messages) ∷ []
put_inbox fd messages ((f, waiting) ∷ r) =
    if f == fd then (f, messages) ∷ r else (f, waiting) ∷ put_inbox fd messages r

-- `client_processors.erase(client_fd)`
unfoldable pub erase_inbox : ℕ → Inboxes → Inboxes
erase_inbox fd [] = []
erase_inbox fd ((f, waiting) ∷ r) = if f == fd then r else (f, waiting) ∷ erase_inbox fd r

-- The server before its first client, with the keys of the file.
abbrev pub started : Keyspace → Network
started d = record {
  shared = record { keyspace = d; subscribers = []; inboxes = [] };
  sessions = [];
  is_terminated = false;
}

-- `accept` has given a descriptor, and `handle_client` starts.
unfoldable pub connect : ℕ → Network → Network
unfolding put_session put_inbox
connect fd n = record {
  shared = record n.shared { inboxes = put_inbox fd [] n.shared.inboxes };
  sessions = put_session fd (record { processor = new_processor fd; buffer = [] }) n.sessions;
  is_terminated = n.is_terminated;
}

-- The end of `handle_client`.
unfoldable pub cleanup : ℕ → Network → Network
unfolding erase_session erase_inbox
cleanup fd n = record {
  shared = record n.shared { inboxes = erase_inbox fd n.shared.inboxes };
  sessions = erase_session fd n.sessions;
  is_terminated = n.is_terminated;
}

-- What is written to the client's socket, and the process after that.
abbrev pub Written : Type 0
Written = Bytes × Network

-- The loop over the buffer has ended. It ends in no other status than the first three.
abbrev pub after_status : Status → ℕ → Session → Network → Network
after_status Status.waiting fd c n = record n { sessions = put_session fd c n.sessions }
after_status Status.closed fd c n = cleanup fd n
after_status Status.terminated fd c n = record n { is_terminated = true }
after_status Status.faulty fd c n = record n { is_terminated = true }
after_status Status.exhausted fd c n = record n { is_terminated = true }

abbrev pub after_input : ℕ → Network → Client → Written
after_input fd n c = (
  c.written,
  after_status c.status fd (record { processor = c.processor; buffer = c.buffer })
      (record n { shared = c.shared }),
)

-- The client as the loop over the buffer finds it.
abbrev pub client_of : Session → Shared → Client
client_of c s = stop Status.waiting [] c.processor s c.buffer

-- `read` has returned some bytes.
unfoldable pub read_input : Outside → (ℕ → Clock) → ℕ → Bytes → Session → Network → Written
unfolding handle_input put_session cleanup
read_input o clocks fd input c n =
    after_input fd n (handle_input o clocks input (client_of c n.shared))

abbrev pub concat : List Bytes → Bytes
concat [] = []
concat (m ∷ ms) = m ++ concat ms

-- The loop over the client's messages.
unfoldable pub notify : ℕ → Network → Written
unfolding pubsub_messages put_inbox
notify fd n = (
  concat (pubsub_messages fd n.shared.inboxes),
  record n { shared = record n.shared { inboxes = put_inbox fd [] n.shared.inboxes } },
)

-- `BUFFER_SIZE - buf_pos - 1`
abbrev pub room : Session → ℕ
room c = buffer_size - length c.buffer - 1

-- One turn of a thread, or of the loop over `accept`. A descriptor in use is not given again; `read`
-- gives at most the bytes that there is room for, and 0 bytes, as for an error, end the connection.
pub data Turn (o : Outside) (n : Network) : Network → Type 0 where
  connects : (fd : ℕ) → find_session fd n.sessions ≡ none → Turn o n (connect fd n)
  reads :
      (fd : ℕ) (clocks : ℕ → Clock) (input : Bytes) (c : Session)
      → find_session fd n.sessions ≡ some c
      → 1 ≤ length input
      → length input ≤ room c
      → Turn o n (read_input o clocks fd input c n).1
  notifies : (fd : ℕ) (c : Session) → find_session fd n.sessions ≡ some c → Turn o n (notify fd n).1
  hangs_up : (fd : ℕ) (c : Session) → find_session fd n.sessions ≡ some c → Turn o n (cleanup fd n)

-- What the process can become, from its start with the keys of its file.
pub data Serves (o : Outside) : Network → Type 0 where
  starts : (d : Keyspace) → Serves o (started d)
  goes_on : {n m : Network} → Serves o n → n.is_terminated ≡ false → Turn o n m → Serves o m
