-- ===== src/SaveDaemon/Rounds.antt =====
-- save_daemon.cpp, worker_loop: what the thread counts and publishes.
use minimum_redis.Base.{
  ℕ, suc, ◌+◌, ◌-◌, ◌*◌, ◌^◌, ◌≤◌, leb, Bool, true, false, List, [], ◌∷◌, length, length-append,
  if◌then◌else◌, ◌≡◌, refl, sym, subst, arith, ap, ◌∙◌,
}
use minimum_redis.Base.Int.{pos, ◌+ℤ◌, wrap_32}
use minimum_redis.SaveDaemon.{
  SaveDaemon, start, is_thrown, Performed, perform_save, Round, is_due, worker_round, with_events,
  worker_rounds, worker_loop,
}
use minimum_redis.SaveDaemon.Counters.{wrap_32-add, wrap_32-IsInt32, wrap_32-add_zero}
use minimum_redis.SaveDaemon.Saves.{
  succeeded, failed, thrown_at, counted, IsCounted, perform_save-daemon, perform_save-length,
  perform_save-caught,
}

-- No round is stopped, and a wait that timed out has taken the interval, from a time that is at
-- least that of the last save.
abbrev pub AllElapsed : ℕ → ℕ → List Round → Type 0
AllElapsed interval last [] = Unit
AllElapsed interval last (r ∷ rs) =
    (r.is_stopped ≡ false) × (last + interval * 10 ^ 9 ≤ r.now) × AllElapsed interval r.later rs

-- No call of the publisher in a handler throws.
abbrev pub AllCaught : List Round → Type 0
AllCaught [] = Unit
AllCaught (r ∷ rs) = (is_thrown r.in_handler ≡ false) × AllCaught rs

abbrev pub successes : List Round → ℕ
successes [] = 0
successes (r ∷ rs) = succeeded r.saved + successes rs

abbrev pub failures : List Round → ℕ
failures [] = 0
failures (r ∷ rs) = failed r.saved + failures rs

abbrev pub throws : Bool → List Round → ℕ
throws has_publisher [] = 0
throws has_publisher (r ∷ rs) = thrown_at has_publisher r.saved r.in_try + throws has_publisher rs

-- What some rounds leave of a daemon.
pub record Counted (d : SaveDaemon) (rounds : List Round) (p : Performed) : Type 0 where
  pub successful :
      p.daemon.successful_saves ≡ wrap_32 (d.successful_saves +ℤ pos (successes rounds))
  pub failing :
      p.daemon.failed_saves
      ≡ wrap_32 (d.failed_saves +ℤ pos (failures rounds + throws d.has_publisher rounds))
  pub calls :
      length p.events
      ≡ (if d.has_publisher then length rounds else 0) + throws d.has_publisher rounds
  pub caught : p.is_escaped ≡ false

-- A wait that took the interval is due, as is one that did not time out.
elapsed-is_due :
    (r : Round) (d : SaveDaemon)
    → d.last_save_time + d.save_interval * 10 ^ 9 ≤ r.now
    → is_due r d ≡ true
elapsed-is_due r d h =
    let due : leb (d.save_interval * 10 ^ 9) (r.now - d.last_save_time) ≡ true = ground arith in
    rw due refl

-- The daemon behind a round.
abbrev behind : Round → SaveDaemon → SaveDaemon
behind r d = record (counted r.saved r.in_try d) { last_save_time = r.later }

abbrev saved_in : Round → SaveDaemon → Performed
saved_in r d = perform_save r.saved r.in_try r.in_handler d

if-false : {A : Type 0} {b : Bool} (x y : A) → b ≡ false → (if b then x else y) ≡ y
if-false x y h = rw h refl

worker_round-due :
    (r : Round) (d : SaveDaemon)
    → is_due r d ≡ true
    → is_thrown r.in_handler ≡ false
    → IsCounted d
    → worker_round r d
      ≡ record { daemon = behind r d; events = (saved_in r d).events; is_escaped = false }
unfolding worker_round
worker_round-due r d due caught small =
    let p = saved_in r d in
    let no_escape = perform_save-caught r.saved r.in_try r.in_handler d caught in
    let later : SaveDaemon → Performed =
      λ e. record p { daemon = record e { last_save_time = r.later } } in
    let kept : Bool → Performed =
      λ b. record { daemon = behind r d; events = p.events; is_escaped = b } in
    rw due (if-false p (later p.daemon) no_escape)
    ∙ (ap later (perform_save-daemon r.saved r.in_try r.in_handler d small) ∙ ap kept no_escape)

worker_rounds-due :
    (r : Round) (rs : List Round) (d : SaveDaemon)
    → d.stop_requested ≡ false
    → r.is_stopped ≡ false
    → is_due r d ≡ true
    → is_thrown r.in_handler ≡ false
    → IsCounted d
    → worker_rounds (r ∷ rs) d ≡ with_events (saved_in r d).events (worker_rounds rs (behind r d))
unfolding worker_rounds
worker_rounds-due r rs d going kept due caught small =
    let go : Performed → Performed =
      λ q. if q.is_escaped then q else with_events q.events (worker_rounds rs q.daemon) in
    if-false _ _ going ∙ (if-false _ _ kept ∙ ap go (worker_round-due r d due caught small))

calls_sum :
    (b : Bool) (m n k : ℕ)
    → ((if b then 1 else 0) + m) + ((if b then n else 0) + k) ≡ (if b then suc n else 0) + (m + k)
calls_sum b m n k = ground arith

sums : (a b c e : ℕ) → (a + b) + (c + e) ≡ (a + c) + (b + e)
sums a b c e = omega arith

worker_rounds-Counted :
    (rounds : List Round) (d : SaveDaemon)
    → d.stop_requested ≡ false
    → AllElapsed d.save_interval d.last_save_time rounds
    → AllCaught rounds
    → IsCounted d
    → Counted d rounds (worker_rounds rounds d)
worker_rounds-Counted [] d going elapsed caught (small, small') =
    unfold worker_rounds in
    record {
      successful = wrap_32-add_zero d.successful_saves small;
      failing = wrap_32-add_zero d.failed_saves small';
      calls = ground arith;
      caught = refl;
    }
worker_rounds-Counted (r ∷ rs) d going (kept, due, elapsed) (caught, more) small =
    let e = behind r d in
    let later =
      worker_rounds-Counted rs e going elapsed more (wrap_32-IsInt32 _, wrap_32-IsInt32 _) in
    let step = worker_rounds-due r rs d going kept (elapsed-is_due r d due) caught small in
    let b = d.has_publisher in
    let once = thrown_at b r.saved r.in_try in
    record {
      successful =
          ap (λ p. p.daemon.successful_saves) step
          ∙ (later.successful ∙ wrap_32-add d.successful_saves (succeeded r.saved) (successes rs));
      failing =
          ap (λ p. p.daemon.failed_saves) step
          ∙ (later.failing
              ∙ (wrap_32-add d.failed_saves (failed r.saved + once) (failures rs + throws b rs)
                  ∙ ap (λ n. wrap_32 (d.failed_saves +ℤ pos n))
                      (sums (failed r.saved) once (failures rs) (throws b rs))));
      calls =
          ap (λ p. length p.events) step
          ∙ (length-append {0} (saved_in r d).events (worker_rounds rs e).events
              ∙ (ap (λ n. n + length (worker_rounds rs e).events)
                    (perform_save-length r.saved r.in_try r.in_handler d)
                  ∙ (ap (λ n. (if b then 1 else 0) + once + n) later.calls
                      ∙ calls_sum b once (length rs) (throws b rs))));
      caught = ap (λ p. p.is_escaped) step ∙ later.caught;
    }

-- The thread that is started runs some rounds of its loop, in none of which it is asked to stop. The
-- counters of saves and failures are words of 32 bits. If every wait takes the interval, and no call
-- of the publisher in the handler of an exception throws, then no exception leaves the thread, the
-- counter of the saves has grown by the rounds whose save succeeds, and that of the failures by the
-- other rounds and by those in which the publisher throws at the event of a save that has not
-- thrown, both modulo 2 ^ 32 and read with a sign. A daemon with a publisher calls it once in each
-- round, and once more for each such exception; one without a publisher never calls it.
pub worker_loop-Counts :
    (now : ℕ) (rounds : List Round) (d : SaveDaemon)
    → d.running ≡ false
    → AllElapsed d.save_interval now rounds
    → AllCaught rounds
    → IsCounted d
    → Counted d rounds (worker_loop now rounds (start d))
worker_loop-Counts now rounds d stopped elapsed caught small =
    let e : SaveDaemon = record d { stop_requested = false; running = true } in
    let begun : start d ≡ e = unfold start in if-false d e stopped in
    let c =
      worker_rounds-Counted rounds (record e { last_save_time = now }) refl elapsed caught small in
    subst (λ s. Counted d rounds (worker_loop now rounds s)) (sym begun)
      (unfold worker_loop in
        record {
          successful = c.successful;
          failing = c.failing;
          calls = c.calls;
          caught = c.caught;
        })
