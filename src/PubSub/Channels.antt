-- ===== src/PubSub/Channels.antt =====
-- db.cpp, class PubSubManager: who is subscribed after each operation.
use minimum_redis.Base.{
  ℕ, false, List, [], ◌∷◌, ◌++◌, Bytes, equal, equal_iff, if◌then◌else◌, ◌≡◌, ◌≢◌, refl, arith,
}
use minimum_redis.Dict.{find, put, erase, has, Unique}
use minimum_redis.Dict.Laws.{find-put, find-erase}
use minimum_redis.PubSub.{
  Subscribers, or_empty, subscribe, without, unsubscribe, unsubscribe_left, without_all, drop_empty,
  unsubscribe_all, get_subscribers,
}

-- SUBSCRIBE puts the client behind the subscribers of its channel, and leaves the other channels.
pub get_subscribers-subscribe :
    (fd : ℕ) (channel other : Bytes) (m : Subscribers)
    → get_subscribers other (subscribe fd channel m) ≡ (
        if equal channel other
        then get_subscribers channel m ++ fd ∷ []
        else get_subscribers other m)
unfolding get_subscribers subscribe
get_subscribers-subscribe fd channel other m = rw find-put (ground arith)

left-member :
    (channel other : Bytes) (left : List ℕ) (m : Subscribers)
    → or_empty (find other (unsubscribe_left channel left m))
      ≡ (if equal channel other then left else or_empty (find other m))
left-member channel other [] m = rw find-erase (ground arith)
left-member channel other (x ∷ xs) m = rw find-put (ground arith)

-- UNSUBSCRIBE takes every occurrence of the client off its channel, and leaves the other channels.
pub get_subscribers-unsubscribe :
    (fd : ℕ) (channel other : Bytes) (m : Subscribers)
    → get_subscribers other (unsubscribe fd channel m) ≡ (
        if equal channel other
        then without fd (get_subscribers channel m)
        else get_subscribers other m)
unfolding get_subscribers unsubscribe
get_subscribers-unsubscribe fd channel other m =
    left-member channel other (without fd (or_empty (find channel m))) m

find-missing : (c : Bytes) (m : Subscribers) → has c m ≡ false → or_empty (find c m) ≡ []
unfolding has
find-missing c m h = ground arith

find-drop_empty :
    (c : Bytes) (m : Subscribers)
    → Unique m
    → or_empty (find c (drop_empty m)) ≡ or_empty (find c m)
unfolding find drop_empty
find-drop_empty c [] u = refl
find-drop_empty c ((k, []) ∷ m) u =
    ground (arith, find-drop_empty c m u.1, equal_iff k c, find-missing c m, u.0)
find-drop_empty c ((k, x ∷ xs) ∷ m) u = ground (arith, find-drop_empty c m u.1)

find-without_all :
    (fd : ℕ) (c : Bytes) (m : Subscribers)
    → or_empty (find c (without_all fd m)) ≡ without fd (or_empty (find c m))
unfolding find without_all
find-without_all fd c [] = unfold without in refl
find-without_all fd c ((k, s) ∷ m) = ground (arith, find-without_all fd c m)

has-without_all : (fd : ℕ) (c : Bytes) (m : Subscribers) → has c (without_all fd m) ≡ has c m
unfolding has find without_all
has-without_all fd c [] = refl
has-without_all fd c ((k, s) ∷ m) = ground (arith, has-without_all fd c m)

without_all-Unique : (fd : ℕ) (m : Subscribers) → Unique m → Unique (without_all fd m)
unfolding without_all
without_all-Unique fd [] u = tt
without_all-Unique fd ((k, s) ∷ m) u =
    (rw (has-without_all fd k m) u.0, without_all-Unique fd m u.1)

-- `unsubscribe_all` takes the client off every channel; the channels stand once each, as in a map.
pub get_subscribers-unsubscribe_all :
    (fd : ℕ) (c : Bytes) (m : Subscribers)
    → Unique m
    → get_subscribers c (unsubscribe_all fd m) ≡ without fd (get_subscribers c m)
unfolding get_subscribers unsubscribe_all
get_subscribers-unsubscribe_all fd c m u =
    rw (find-drop_empty c (without_all fd m) (without_all-Unique fd m u)) (find-without_all fd c m)

-- No channel is kept without a subscriber.
unfoldable pub NoneEmpty : Subscribers → Type 0
NoneEmpty [] = Unit
NoneEmpty ((c, s) ∷ m) = (s ≢ []) × NoneEmpty m

cons-nonempty : (x : ℕ) (xs : List ℕ) → (x ∷ xs) ≢ []
cons-nonempty x xs h = cc

append-nonempty : (xs : List ℕ) (x : ℕ) → (xs ++ x ∷ []) ≢ []
append-nonempty [] x h = cc
append-nonempty (y ∷ ys) x h = cc

put-NoneEmpty :
    (c : Bytes) (s : List ℕ) (m : Subscribers) → s ≢ [] → NoneEmpty m → NoneEmpty (put c s m)
unfolding put NoneEmpty
put-NoneEmpty c s [] h n = (h, tt)
put-NoneEmpty c s ((k, t) ∷ m) h n = ground (arith, put-NoneEmpty c s m h n.1)

erase-NoneEmpty : (c : Bytes) (m : Subscribers) → NoneEmpty m → NoneEmpty (erase c m)
unfolding erase NoneEmpty
erase-NoneEmpty c [] n = n
erase-NoneEmpty c ((k, t) ∷ m) n = ground (arith, erase-NoneEmpty c m n.1)

left-NoneEmpty :
    (c : Bytes) (left : List ℕ) (m : Subscribers)
    → NoneEmpty m
    → NoneEmpty (unsubscribe_left c left m)
left-NoneEmpty c [] m n = erase-NoneEmpty c m n
left-NoneEmpty c (x ∷ xs) m n = put-NoneEmpty c (x ∷ xs) m (cons-nonempty x xs) n

drop_empty-NoneEmpty : (m : Subscribers) → NoneEmpty (drop_empty m)
unfolding drop_empty NoneEmpty
drop_empty-NoneEmpty [] = tt
drop_empty-NoneEmpty ((c, []) ∷ m) = drop_empty-NoneEmpty m
drop_empty-NoneEmpty ((c, x ∷ xs) ∷ m) = (cons-nonempty x xs, drop_empty-NoneEmpty m)

-- The calls that change the manager.
pub data PubSubStep : Type 0 where
  join leave : ℕ → Bytes → PubSubStep
  leave_all : ℕ → PubSubStep

unfoldable pub run_step : PubSubStep → Subscribers → Subscribers
unfolding subscribe unsubscribe unsubscribe_all
run_step (PubSubStep.join fd c) m = subscribe fd c m
run_step (PubSubStep.leave fd c) m = unsubscribe fd c m
run_step (PubSubStep.leave_all fd) m = unsubscribe_all fd m

unfoldable pub run : List PubSubStep → Subscribers → Subscribers
unfolding run_step
run [] m = m
run (s ∷ ss) m = run ss (run_step s m)

run_step-NoneEmpty : (s : PubSubStep) (m : Subscribers) → NoneEmpty m → NoneEmpty (run_step s m)
unfolding run_step
run_step-NoneEmpty (PubSubStep.join fd c) m n =
    unfold subscribe in
    put-NoneEmpty c (or_empty (find c m) ++ fd ∷ []) m (append-nonempty (or_empty (find c m)) fd) n
run_step-NoneEmpty (PubSubStep.leave fd c) m n =
    unfold unsubscribe in left-NoneEmpty c (without fd (or_empty (find c m))) m n
run_step-NoneEmpty (PubSubStep.leave_all fd) m n =
    unfold unsubscribe_all in drop_empty-NoneEmpty (without_all fd m)

run-NoneEmpty-from : (ss : List PubSubStep) (m : Subscribers) → NoneEmpty m → NoneEmpty (run ss m)
unfolding run
run-NoneEmpty-from [] m n = n
run-NoneEmpty-from (s ∷ ss) m n = run-NoneEmpty-from ss (run_step s m) (run_step-NoneEmpty s m n)

-- However clients come and go, from the empty manager on no channel is kept without a subscriber.
pub run-NoneEmpty : (ss : List PubSubStep) → NoneEmpty (run ss [])
run-NoneEmpty ss = run-NoneEmpty-from ss [] (unfold NoneEmpty in tt)
