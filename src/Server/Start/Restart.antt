-- ===== src/Server/Start/Restart.antt =====
-- main.cpp, `main`: what the server starts with, and what is left of its keys when it is started
-- again.
use minimum_redis.Base.{
  ℕ, Bool, true, false, Option, none, some, List, [], ◌∷◌, Bytes, if◌then◌else◌, ◌≡◌, refl, subst,
  ◌∙◌,
}
use minimum_redis.Database.{Keyspace}
use minimum_redis.Rdb.File.{load_rdb}
use minimum_redis.Commands.State.{Outside}
use minimum_redis.Server.Clients.{
  Network, started, connect, find_session, Turn, connects, Serves, starts, goes_on,
}
use minimum_redis.Server.Start.{
  Process, Calls, Started, prepare, listen_on, accept_one, accept_all, accepting, main,
}

-- No descriptor is given that is still in use.
abbrev pub Fresh : List (Option ℕ) → Network → Type 0
Fresh [] n = Unit
Fresh (none ∷ more) n = Fresh more n
Fresh (some fd ∷ more) n = (find_session fd n.sessions ≡ none) × Fresh more (connect fd n)

connect-running : (fd : ℕ) (n : Network) → (connect fd n).is_terminated ≡ n.is_terminated
unfolding connect
connect-running fd n = refl

connect-keyspace : (fd : ℕ) (n : Network) → (connect fd n).shared.keyspace ≡ n.shared.keyspace
unfolding connect
connect-keyspace fd n = refl

-- What the turns of the clients lead to, from a network.
pub data Leads (o : Outside) (n : Network) : Network → Type 0 where
  here : Leads o n n
  turns : {m k : Network} → Leads o n m → m.is_terminated ≡ false → Turn o m k → Leads o n k

-- Serving is what a start leads to.
Leads-Serves : {o : Outside} {n m : Network} → Serves o n → Leads o n m → Serves o m
Leads-Serves served here = served
Leads-Serves served (turns l runs turn) = goes_on (Leads-Serves served l) runs turn

-- The keys of the file; what was read in front of an error counts.
abbrev pub file_keys : Option Bytes → Keyspace
file_keys none = []
file_keys (some file) = (load_rdb file []).0

accept_all-Leads :
    (o : Outside) (n : Network) (accepted : List (Option ℕ)) (p : Process)
    → p.network.is_terminated ≡ false
    → Leads o n p.network
    → Fresh accepted p.network
    → Leads o n (accept_all accepted p).network
unfolding accept_all accept_one
accept_all-Leads o n [] p runs led fresh = led
accept_all-Leads o n (none ∷ more) p runs led fresh = accept_all-Leads o n more p runs led fresh
accept_all-Leads o n (some fd ∷ more) p runs led (free, fresh) =
    accept_all-Leads o n more (accept_one (some fd) p) (connect-running fd p.network ∙ runs)
      (turns led runs (connects fd free)) fresh

accept_all-keyspace :
    (accepted : List (Option ℕ)) (p : Process)
    → (accept_all accepted p).network.shared.keyspace ≡ p.network.shared.keyspace
unfolding accept_all accept_one
accept_all-keyspace [] p = refl
accept_all-keyspace (none ∷ more) p = accept_all-keyspace more p
accept_all-keyspace (some fd ∷ more) p =
    accept_all-keyspace more (accept_one (some fd) p) ∙ connect-keyspace fd p.network

-- What holds of the process, if it serves.
abbrev IfServing : (Process → Type 0) → Started → Type 0
IfServing P (Started.serving p) = P p
IfServing P (Started.died message p) = Unit

if-IfServing :
    (P : Process → Type 0) (b : Bool) (x y : Started)
    → IfServing P x
    → IfServing P y
    → IfServing P (if b then x else y)
if-IfServing P true x y h i = h
if-IfServing P false x y h i = i

-- Listening leaves the network as it is.
listen_on-IfServing :
    (P : Network → Type 0) (c : Calls) (p : Process)
    → P p.network
    → IfServing (λ q. P q.network) (listen_on c p)
unfolding listen_on
listen_on-IfServing P c p h =
    let Q : Process → Type 0 = λ q. P q.network in
    if-IfServing Q c.has_socket _ _
      (if-IfServing Q c.is_bound _ _ (if-IfServing Q c.is_listening _ _ h tt) tt) tt

accepting-IfServing :
    (P : Network → Type 0) (Q : Process → Type 0) (accepted : List (Option ℕ)) (s : Started)
    → ((p : Process) → P p.network → Q (accept_all accepted p))
    → IfServing (λ q. P q.network) s
    → IfServing Q (accepting accepted s)
accepting-IfServing P Q accepted (Started.serving p) next h = next p h
accepting-IfServing P Q accepted (Started.died message p) next h = tt

main-IfServing :
    (P : Network → Type 0) (Q : Process → Type 0) (file : Option Bytes) (calls : Calls)
    (accepted : List (Option ℕ))
    → P (prepare file).network
    → ((p : Process) → P p.network → Q (accept_all accepted p))
    → IfServing Q (main file calls accepted)
unfolding main
main-IfServing P Q file calls accepted h next =
    accepting-IfServing P Q accepted (listen_on calls (prepare file)) next
      (listen_on-IfServing P calls (prepare file) h)

-- The network with which `main` begins to accept, from a start with the keys `d`.
abbrev IsReady : Outside → Keyspace → List (Option ℕ) → Network → Type 0
IsReady o d accepted n =
    (n.is_terminated ≡ false) × Leads o (started d) n × (n.shared.keyspace ≡ d) × Fresh accepted n

prepare-IsReady :
    (o : Outside) (accepted : List (Option ℕ)) (file : Option Bytes)
    → Fresh accepted (prepare file).network
    → IsReady o (file_keys file) accepted (prepare file).network
unfolding prepare
prepare-IsReady o accepted none fresh = (refl, here, refl, fresh)
prepare-IsReady o accepted (some file) fresh = (refl, here, refl, fresh)

-- A network that the turns lead to from a start with the keys `d`, and whose keys these still are.
abbrev Holding : Outside → Keyspace → Process → Type 0
Holding o d p = Leads o (started d) p.network × Serves o p.network × (p.network.shared.keyspace ≡ d)

-- Whatever the file holds and whichever connections are taken: if `main` comes to serve, and is
-- given no descriptor that is in use, then its network is one that the turns of the clients lead to
-- from a start with the keys of the file, none if there is no file and what `load_rdb` has read if
-- there is one, and these are still its keys.
pub main-Serves :
    (o : Outside) (file : Option Bytes) (calls : Calls) (accepted : List (Option ℕ)) (p : Process)
    → Fresh accepted (prepare file).network
    → main file calls accepted ≡ Started.serving p
    → Leads o (started (file_keys file)) p.network
      × Serves o p.network
      × (p.network.shared.keyspace ≡ file_keys file)
main-Serves o file calls accepted p fresh h =
    let d = file_keys file in
    subst (IfServing (Holding o d)) h (
      main-IfServing (IsReady o d accepted) (Holding o d) file calls accepted
        (prepare-IsReady o accepted file fresh)
        (λ q (runs, led, keys, free).
          let reached = accept_all-Leads o (started d) accepted q runs led free in
          (reached, Leads-Serves (starts d) reached, accept_all-keyspace accepted q ∙ keys)))
