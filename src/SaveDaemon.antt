-- ===== src/SaveDaemon.antt =====
-- save_daemon.h and save_daemon.cpp: the thread that saves the data from time to time. A time is a
-- number of nanoseconds of the steady clock, which never runs back; what is written to the console
-- and the pause of five seconds after a failure are left out. The interval is not negative. An
-- exception is a `std::exception`, with its message.
pub mod Counters
pub mod Saves
pub mod Rounds
use minimum_redis.Base.{
  ℕ, ◌+◌, ◌-◌, ◌*◌, ◌^◌, leb, Bool, true, false, ◌||◌, ◌&&◌, List, [], ◌∷◌, ◌++◌, Bytes, text,
  if◌then◌else◌,
}
use minimum_redis.Base.Int.{ℤ, pos, ◌+ℤ◌, wrap_32}
use minimum_redis.Base.Number.{to_string_ℤ}
use minimum_redis.Commands.State.{DaemonStatus}

pub record SaveDaemon : Type 0 where
  pub running : Bool
  pub stop_requested : Bool
  pub save_interval : ℕ
  pub db_file : Bytes
  pub has_publisher : Bool
  pub successful_saves : ℤ
  pub failed_saves : ℤ
  pub last_save_time : ℕ

-- `SaveDaemon(file, save_func, event_publisher)`
abbrev pub new_daemon : Bytes → Bool → SaveDaemon
new_daemon file has_publisher = record {
  running = false;
  stop_requested = false;
  save_interval = 30;
  db_file = file;
  has_publisher = has_publisher;
  successful_saves = pos 0;
  failed_saves = pos 0;
  last_save_time = 0;
}

-- The thread that `start` makes begins with the time in `worker_loop`.
unfoldable pub start : SaveDaemon → SaveDaemon
start d = if d.running then d else record d { stop_requested = false; running = true }

-- The state in which `stop` waits for the thread, and the one it leaves.
unfoldable pub request_stop : SaveDaemon → SaveDaemon
request_stop d = if d.running then record d { stop_requested = true } else d

unfoldable pub stop : SaveDaemon → SaveDaemon
unfolding request_stop
stop d = if d.running then record (request_stop d) { running = false } else d

unfoldable pub set_interval : ℕ → SaveDaemon → SaveDaemon
set_interval interval d = record d { save_interval = interval }

-- The result of `save_function`, or the message of its exception.
pub data Saved : Type 0 where
  success failure : Saved
  exception : Bytes → Saved

-- A call of `publish_event`: it returns, or throws an exception with a message.
pub data Published : Type 0 where
  returned : Published
  thrown : Bytes → Published

-- What `publish_event` is called with: a channel and a message.
pub record Event : Type 0 where
  pub channel : Bytes
  pub message : Bytes

-- What is left behind: the daemon, the calls of `publish_event`, and whether an exception has left
-- the thread, with which the process ends.
pub record Performed : Type 0 where
  pub daemon : SaveDaemon
  pub events : List Event
  pub is_escaped : Bool

abbrev pub idle : SaveDaemon → Performed
idle d = record { daemon = d; events = []; is_escaped = false }

abbrev pub with_events : List Event → Performed → Performed
with_events events p = record p { events = events ++ p.events }

abbrev pub published : SaveDaemon → Bytes → List Event
published d message =
    if d.has_publisher
    then record { channel = text "__save_events__"; message = message } ∷ []
    else []

-- `++` on a `std::atomic<int>`, which wraps.
abbrev pub increment : ℤ → ℤ
increment n = wrap_32 (n +ℤ pos 1)

abbrev pub is_thrown : Published → Bool
is_thrown returned = false
is_thrown (thrown what) = true

-- The handler. An exception of its own call of `publish_event` is not caught.
unfoldable pub handle_exception : Published → Bytes → SaveDaemon → Performed
handle_exception call what d = record {
  daemon = record d { failed_saves = increment d.failed_saves };
  events = published d (text "exception:" ++ what);
  is_escaped = d.has_publisher && is_thrown call;
}

-- The call of `publish_event` at the end of the `try`, and the handler's call if it throws.
unfoldable pub publish : Published → Published → Bytes → SaveDaemon → Performed
publish returned second message d = with_events (published d message) (idle d)
publish (thrown what) second message d =
    let handled = with_events (published d message) (handle_exception second what d) in
    if d.has_publisher then handled else idle d

unfoldable pub perform_save : Saved → Published → Published → SaveDaemon → Performed
unfolding publish handle_exception to_string_ℤ
perform_save success first second d =
    let n = increment d.successful_saves in
    publish first second (text "success:" ++ to_string_ℤ n) (record d { successful_saves = n })
perform_save failure first second d =
    let n = increment d.failed_saves in
    publish first second (text "failure:" ++ to_string_ℤ n) (record d { failed_saves = n })
perform_save (exception what) first second d = handle_exception second what d

-- What the outside does in one round of the loop: whether `wait_for` timed out, whether `stop` was
-- called by then, the time behind the wait, the result of a save, what the calls of `publish_event`
-- do in the `try` and in its handler, and the time behind the save.
pub record Round : Type 0 where
  pub timed_out : Bool
  pub is_stopped : Bool
  pub now : ℕ
  pub saved : Saved
  pub in_try : Published
  pub in_handler : Published
  pub later : ℕ

abbrev pub is_due : Round → SaveDaemon → Bool
is_due r d =
    leb (d.save_interval * 10 ^ 9) (r.now - d.last_save_time)
    || (if r.timed_out then false else true)

abbrev pub after_save : ℕ → Performed → Performed
after_save later p =
    if p.is_escaped then p else record p { daemon = record p.daemon { last_save_time = later } }

-- Behind the wait.
unfoldable pub worker_round : Round → SaveDaemon → Performed
unfolding perform_save
worker_round r d =
    if is_due r d then after_save r.later (perform_save r.saved r.in_try r.in_handler d) else idle d

-- The loop, over the rounds that there are until the process ends.
unfoldable pub worker_rounds : List Round → SaveDaemon → Performed
unfolding worker_round request_stop
worker_rounds [] d = idle d
worker_rounds (r ∷ rs) d =
    let p = worker_round r d in
    let rest = worker_rounds rs p.daemon in
    if d.stop_requested
    then idle d
    else if r.is_stopped
    then idle (request_stop d)
    else if p.is_escaped
    then p
    else with_events p.events rest

unfoldable pub worker_loop : ℕ → List Round → SaveDaemon → Performed
unfolding worker_rounds
worker_loop now rounds d = worker_rounds rounds (record d { last_save_time = now })

-- What INFO shows.
abbrev pub status_of : SaveDaemon → DaemonStatus
status_of d = record {
  is_running = d.running;
  get_interval = d.save_interval;
  get_successful_saves = d.successful_saves;
  get_failed_saves = d.failed_saves;
}
