-- ===== src/PubSub.antt =====
-- db.cpp, class PubSubManager: the channels and their subscribers. The mutex is left out: every
-- operation holds it from its first statement to its last, so an operation is one step.
pub mod Channels
use minimum_redis.Base.{
  ℕ, Bool, true, false, ◌==◌, Option, none, some, List, [], ◌∷◌, ◌++◌, Bytes, if◌then◌else◌,
}
use minimum_redis.Dict.{Dict, find, put, erase}

-- The field `subscribers`, with the file descriptors of the clients.
abbrev pub Subscribers : Type 0
Subscribers = Dict (List ℕ)

abbrev pub or_empty : Option (List ℕ) → List ℕ
or_empty none = []
or_empty (some fds) = fds

unfoldable pub subscribe : ℕ → Bytes → Subscribers → Subscribers
unfolding find put
subscribe client_fd channel m = put channel (or_empty (find channel m) ++ client_fd ∷ []) m

-- `subs.erase(std::remove(...), subs.end())`
unfoldable pub without : ℕ → List ℕ → List ℕ
without fd [] = []
without fd (x ∷ xs) = if x == fd then without fd xs else x ∷ without fd xs

abbrev pub unsubscribe_left : Bytes → List ℕ → Subscribers → Subscribers
unsubscribe_left channel [] m = erase channel m
unsubscribe_left channel (x ∷ xs) m = put channel (x ∷ xs) m

unfoldable pub unsubscribe : ℕ → Bytes → Subscribers → Subscribers
unfolding find put erase without
unsubscribe client_fd channel m =
    unsubscribe_left channel (without client_fd (or_empty (find channel m))) m

-- The first loop of `unsubscribe_all`, over the channels.
unfoldable pub without_all : ℕ → Subscribers → Subscribers
unfolding without
without_all fd [] = []
without_all fd ((c, subs) ∷ m) = (c, without fd subs) ∷ without_all fd m

-- The second loop, which erases the channels without subscribers.
unfoldable pub drop_empty : Subscribers → Subscribers
drop_empty [] = []
drop_empty ((c, []) ∷ m) = drop_empty m
drop_empty ((c, x ∷ xs) ∷ m) = (c, x ∷ xs) ∷ drop_empty m

unfoldable pub unsubscribe_all : ℕ → Subscribers → Subscribers
unfolding without_all drop_empty
unsubscribe_all client_fd m = drop_empty (without_all client_fd m)

unfoldable pub get_subscribers : Bytes → Subscribers → List ℕ
unfolding find
get_subscribers channel m = or_empty (find channel m)
