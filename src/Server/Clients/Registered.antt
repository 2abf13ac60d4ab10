-- ===== src/Server/Clients/Registered.antt =====
-- main.cpp: `client_processors` has the clients that are connected, no more and no fewer.
use minimum_redis.Base.{
  ℕ, ◌==◌, Bool, true, false, Bool-cases, inl, inr, some, List, [], ◌∷◌, Bytes, if◌then◌else◌, ◌≡◌,
  refl, sym, ap, ◌∙◌, arith, ==_iff,
}
use minimum_redis.Commands.State.{Outside, Inboxes, new_processor}
use minimum_redis.Commands.Steps.Clients.{fds_of, IsOrderly}
use minimum_redis.Server.{Status, handle_input}
use minimum_redis.Server.Kept.{handle_input-Kept}
use minimum_redis.Server.Clients.{
  Session, Sessions, Network, find_session, put_session, erase_session, put_inbox, erase_inbox,
  connect, cleanup, after_status, client_of, read_input, notify, Turn, connects, reads, notifies,
  hangs_up, Serves, starts, goes_on,
}

if-false : {A : Type 0} (b : Bool) (x y z : A) → b ≡ false → (if b then x else y) ≡ z → y ≡ z
if-false true x y z e h = absurd (ground arith)
if-false false x y z e h = h

-- The list of descriptors with one more, if it is not there yet, and without one.
add_fd : ℕ → List ℕ → List ℕ
add_fd fd [] = fd ∷ []
add_fd fd (f ∷ fds) = if f == fd then f ∷ fds else f ∷ add_fd fd fds

erase_fd : ℕ → List ℕ → List ℕ
erase_fd fd [] = []
erase_fd fd (f ∷ fds) = if f == fd then fds else f ∷ erase_fd fd fds

-- The descriptors of the threads.
abbrev pub session_fds : Sessions → List ℕ
session_fds [] = []
session_fds ((fd, c) ∷ r) = fd ∷ session_fds r

fds_of-put_inbox :
    (fd : ℕ) (messages : List Bytes) (b : Inboxes)
    → fds_of (put_inbox fd messages b) ≡ add_fd fd (fds_of b)
unfolding put_inbox add_fd
fds_of-put_inbox fd messages [] = refl
fds_of-put_inbox fd messages ((f, waiting) ∷ r) = elim (Bool-cases (f == fd)) [
  | inl e ↦ rw e refl
  | inr e ↦ rw e (ap (◌∷◌ f) (fds_of-put_inbox fd messages r))
]

fds_of-erase_inbox : (fd : ℕ) (b : Inboxes) → fds_of (erase_inbox fd b) ≡ erase_fd fd (fds_of b)
unfolding erase_inbox erase_fd
fds_of-erase_inbox fd [] = refl
fds_of-erase_inbox fd ((f, waiting) ∷ r) = elim (Bool-cases (f == fd)) [
  | inl e ↦ rw e refl
  | inr e ↦ rw e (ap (◌∷◌ f) (fds_of-erase_inbox fd r))
]

session_fds-put_session :
    (fd : ℕ) (c : Session) (r : Sessions)
    → session_fds (put_session fd c r) ≡ add_fd fd (session_fds r)
unfolding put_session add_fd
session_fds-put_session fd c [] = refl
session_fds-put_session fd c ((f, b) ∷ r) = elim (Bool-cases (f == fd)) [
  | inl e ↦ rw e refl
  | inr e ↦ rw e (ap (◌∷◌ f) (session_fds-put_session fd c r))
]

session_fds-erase_session :
    (fd : ℕ) (r : Sessions) → session_fds (erase_session fd r) ≡ erase_fd fd (session_fds r)
unfolding erase_session erase_fd
session_fds-erase_session fd [] = refl
session_fds-erase_session fd ((f, b) ∷ r) = elim (Bool-cases (f == fd)) [
  | inl e ↦ rw e refl
  | inr e ↦ rw e (ap (◌∷◌ f) (session_fds-erase_session fd r))
]

-- A descriptor that is there is not added.
add_fd-found :
    (fd : ℕ) (c : Session) (r : Sessions)
    → find_session fd r ≡ some c
    → add_fd fd (session_fds r) ≡ session_fds r
unfolding find_session add_fd
add_fd-found fd c [] h = absurd (ground arith)
add_fd-found fd c ((f, b) ∷ r) h = elim (Bool-cases (f == fd)) [
  | inl e ↦ rw e refl
  | inr e ↦ rw e (
      ap (◌∷◌ f)
        (add_fd-found fd c r (if-false (f == fd) (some b) (find_session fd r) (some c) e h)))
]

-- Each thread's processor has the descriptor of its connection.
abbrev pub AllOwn : Sessions → Type 0
AllOwn [] = Unit
AllOwn ((fd, c) ∷ r) = (c.processor.client_fd ≡ fd) × AllOwn r

abbrev pub IsRegistered : Network → Type 0
IsRegistered n = (fds_of n.shared.inboxes ≡ session_fds n.sessions) × AllOwn n.sessions

put_session-AllOwn :
    (fd : ℕ) (c : Session) (r : Sessions)
    → c.processor.client_fd ≡ fd
    → AllOwn r
    → AllOwn (put_session fd c r)
unfolding put_session
put_session-AllOwn fd c [] h a = (h, tt)
put_session-AllOwn fd c ((f, b) ∷ r) h (k, a) = elim (Bool-cases (f == fd)) [
  | inl e ↦ rw e (h ∙ sym ((==_iff f fd).0 e), a)
  | inr e ↦ rw e (k, put_session-AllOwn fd c r h a)
]

erase_session-AllOwn : (fd : ℕ) (r : Sessions) → AllOwn r → AllOwn (erase_session fd r)
unfolding erase_session
erase_session-AllOwn fd [] a = tt
erase_session-AllOwn fd ((f, b) ∷ r) (k, a) = elim (Bool-cases (f == fd)) [
  | inl e ↦ rw e a
  | inr e ↦ rw e (k, erase_session-AllOwn fd r a)
]

find_session-own :
    (fd : ℕ) (c : Session) (r : Sessions)
    → AllOwn r
    → find_session fd r ≡ some c
    → c.processor.client_fd ≡ fd
unfolding find_session
find_session-own fd c [] a h = absurd (ground arith)
find_session-own fd c ((f, b) ∷ r) (k, a) h = ground (arith, find_session-own fd c r)

put-IsRegistered :
    (fd : ℕ) (messages : List Bytes) (c : Session) (b : Inboxes) (r : Sessions)
    → fds_of b ≡ session_fds r
    → fds_of (put_inbox fd messages b) ≡ session_fds (put_session fd c r)
put-IsRegistered fd messages c b r h =
    fds_of-put_inbox fd messages b ∙ (ap (add_fd fd) h ∙ sym (session_fds-put_session fd c r))

erase-IsRegistered :
    (fd : ℕ) (b : Inboxes) (r : Sessions)
    → fds_of b ≡ session_fds r
    → fds_of (erase_inbox fd b) ≡ session_fds (erase_session fd r)
erase-IsRegistered fd b r h =
    fds_of-erase_inbox fd b ∙ (ap (erase_fd fd) h ∙ sym (session_fds-erase_session fd r))

after_status-IsRegistered :
    (status : Status) (fd : ℕ) (c d : Session) (n : Network)
    → find_session fd n.sessions ≡ some d
    → c.processor.client_fd ≡ fd
    → IsRegistered n
    → IsRegistered (after_status status fd c n)
unfolding cleanup
after_status-IsRegistered Status.waiting fd c d n found own (fds, a) = (
  fds ∙ (sym (add_fd-found fd d n.sessions found) ∙ sym (session_fds-put_session fd c n.sessions)),
  put_session-AllOwn fd c n.sessions own a,
)
after_status-IsRegistered Status.closed fd c d n found own (fds, a) =
    (erase-IsRegistered fd n.shared.inboxes n.sessions fds, erase_session-AllOwn fd n.sessions a)
after_status-IsRegistered Status.terminated fd c d n found own h = h
after_status-IsRegistered Status.faulty fd c d n found own h = h
after_status-IsRegistered Status.exhausted fd c d n found own h = h

Turn-IsRegistered :
    (o : Outside) (orderly : IsOrderly o) (n m : Network)
    → Turn o n m
    → IsRegistered n
    → IsRegistered m
unfolding connect cleanup read_input notify
Turn-IsRegistered o orderly n m (connects fd free) (fds, a) =
    let c : Session = record { processor = new_processor fd; buffer = [] } in
    (
      put-IsRegistered fd [] c n.shared.inboxes n.sessions fds,
      put_session-AllOwn fd c n.sessions refl a,
    )
Turn-IsRegistered o orderly n m (reads fd clocks input c found some_input fits) (fds, a) =
    let after = handle_input o clocks input (client_of c n.shared) in
    let (boxes, same_fd) = handle_input-Kept o orderly clocks input (client_of c n.shared) in
    after_status-IsRegistered after.status fd
      (record { processor = after.processor; buffer = after.buffer }) c
      (record n { shared = after.shared }) found
      (same_fd ∙ find_session-own fd c n.sessions a found) (boxes ∙ fds, a)
Turn-IsRegistered o orderly n m (notifies fd c found) (fds, a) = (
  fds_of-put_inbox fd [] n.shared.inboxes
      ∙ (ap (add_fd fd) fds ∙ (add_fd-found fd c n.sessions found)),
  a,
)
Turn-IsRegistered o orderly n m (hangs_up fd c found) (fds, a) =
    (erase-IsRegistered fd n.shared.inboxes n.sessions fds, erase_session-AllOwn fd n.sessions a)

-- However the clients come, send, hear and go, `client_processors` has the processors of exactly the
-- threads that run, and each has its connection's descriptor; where the behaviour of a script is
-- undefined, it is taken not to change this.
pub Serves-IsRegistered : (o : Outside) (n : Network) → IsOrderly o → Serves o n → IsRegistered n
Serves-IsRegistered o n orderly (starts d) = (refl, tt)
Serves-IsRegistered o n orderly (goes_on {n = m} before running turn) =
    Turn-IsRegistered o orderly m n turn (Serves-IsRegistered o m orderly before)
