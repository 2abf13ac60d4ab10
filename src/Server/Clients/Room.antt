-- ===== src/Server/Clients/Room.antt =====
-- main.cpp: the buffer of a client never fills up.
use minimum_redis.Base.{
  ℕ, ◌+◌, ◌-◌, ◌==◌, ◌≤◌, ◌<◌, true, some, [], ◌∷◌, ◌++◌, Bytes, length, length-append, ◌≡◌, refl,
  arith, Bool-cases, inl, inr,
}
use minimum_redis.Commands.Reply.{Clock}
use minimum_redis.Commands.State.{Outside, new_processor}
use minimum_redis.Server.{Status, Client, buffer_size, process_buffer, handle_input}
use minimum_redis.Server.Delivery.{is_waiting, check_space-waiting}
use minimum_redis.Server.Clients.{
  Session, Sessions, Network, find_session, put_session, erase_session, connect, cleanup,
  after_status, client_of, read_input, notify, room, Turn, connects, reads, notifies, hangs_up,
  Serves, starts, goes_on,
}

abbrev pub HasRoom : Session → Type 0
HasRoom c = 1024 ≤ room c

abbrev pub AllHaveRoom : Sessions → Type 0
AllHaveRoom [] = Unit
AllHaveRoom ((fd, c) ∷ r) = HasRoom c × AllHaveRoom r

put_session-AllHaveRoom :
    (fd : ℕ) (c : Session) (r : Sessions)
    → HasRoom c
    → AllHaveRoom r
    → AllHaveRoom (put_session fd c r)
unfolding put_session
put_session-AllHaveRoom fd c [] h a = (h, tt)
put_session-AllHaveRoom fd c ((f, b) ∷ r) h (k, a) = elim (Bool-cases (f == fd)) [
  | inl e ↦ rw e (h, a)
  | inr e ↦ rw e (k, put_session-AllHaveRoom fd c r h a)
]

erase_session-AllHaveRoom :
    (fd : ℕ) (r : Sessions) → AllHaveRoom r → AllHaveRoom (erase_session fd r)
unfolding erase_session
erase_session-AllHaveRoom fd [] a = tt
erase_session-AllHaveRoom fd ((f, b) ∷ r) (k, a) = elim (Bool-cases (f == fd)) [
  | inl e ↦ rw e a
  | inr e ↦ rw e (k, erase_session-AllHaveRoom fd r a)
]

find_session-HasRoom :
    (fd : ℕ) (c : Session) (r : Sessions) → AllHaveRoom r → find_session fd r ≡ some c → HasRoom c
unfolding find_session
find_session-HasRoom fd c [] a h = absurd (ground arith)
find_session-HasRoom fd c ((f, b) ∷ r) (k, a) h = ground (arith, find_session-HasRoom fd c r a)

after_status-AllHaveRoom :
    (status : Status) (fd : ℕ) (c : Session) (n : Network)
    → (is_waiting status ≡ true → HasRoom c)
    → AllHaveRoom n.sessions
    → AllHaveRoom (after_status status fd c n).sessions
unfolding cleanup
after_status-AllHaveRoom Status.waiting fd c n h a =
    put_session-AllHaveRoom fd c n.sessions (h refl) a
after_status-AllHaveRoom Status.closed fd c n h a = erase_session-AllHaveRoom fd n.sessions a
after_status-AllHaveRoom Status.terminated fd c n h a = a
after_status-AllHaveRoom Status.faulty fd c n h a = a
after_status-AllHaveRoom Status.exhausted fd c n h a = a

handle_input-room :
    (o : Outside) (clocks : ℕ → Clock) (input : Bytes) (c : Client)
    → is_waiting (handle_input o clocks input c).status ≡ true
    → length (handle_input o clocks input c).buffer < buffer_size - 1024
unfolding handle_input
handle_input-room o clocks input c w =
    let buffer = c.buffer ++ input in
    let sent = process_buffer o (length buffer + 1) clocks buffer c.processor c.shared in
    let (kept, (waits, has_room)) = check_space-waiting sent w in rw kept has_room

Turn-AllHaveRoom :
    (o : Outside) (n m : Network) → Turn o n m → AllHaveRoom n.sessions → AllHaveRoom m.sessions
unfolding connect cleanup read_input notify
Turn-AllHaveRoom o n m (connects fd free) a =
    put_session-AllHaveRoom fd (record { processor = new_processor fd; buffer = [] }) n.sessions
      (omega arith) a
Turn-AllHaveRoom o n m (reads fd clocks input c found some_input fits) a =
    let after = handle_input o clocks input (client_of c n.shared) in
    after_status-AllHaveRoom after.status fd
      (record { processor = after.processor; buffer = after.buffer })
      (record n { shared = after.shared })
      (λ w. omega (arith, handle_input-room o clocks input (client_of c n.shared) w)) a
Turn-AllHaveRoom o n m (notifies fd c found) a = a
Turn-AllHaveRoom o n m (hangs_up fd c found) a = erase_session-AllHaveRoom fd n.sessions a

Serves-AllHaveRoom : (o : Outside) (n : Network) → Serves o n → AllHaveRoom n.sessions
Serves-AllHaveRoom o n (starts d) = tt
Serves-AllHaveRoom o n (goes_on {n = m} before running turn) =
    Turn-AllHaveRoom o m n turn (Serves-AllHaveRoom o m before)

-- However the clients come, send, listen and go, each client's thread has room for at least 1024
-- more bytes whenever it reads; and when the bytes that it asks for have come, the buffer's end is
-- still inside of the 8192 bytes.
pub Serves-room :
    (o : Outside) (n : Network) (fd : ℕ) (c : Session) (input : Bytes)
    → Serves o n
    → find_session fd n.sessions ≡ some c
    → length input ≤ room c
    → (1024 ≤ room c) × (length (c.buffer ++ input) < buffer_size)
Serves-room o n fd c input served found fits =
    let has_room = find_session-HasRoom fd c n.sessions (Serves-AllHaveRoom o n served) found in
    (has_room, omega (arith, length-append {0} c.buffer input))
