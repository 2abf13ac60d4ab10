-- ===== src/SaveDaemon/Saves.antt =====
-- save_daemon.cpp, perform_save: what one save counts and publishes.
use minimum_redis.Base.{
  ℕ, ◌+◌, Bool, false, ◌&&◌, ◌++◌, Bytes, text, length, if◌then◌else◌, ◌≡◌, refl, arith, ap, ◌∙◌,
  Bool-cases, inl, inr,
}
use minimum_redis.Base.Int.{ℤ, pos, ◌+ℤ◌, IsInt32, wrap_32}
use minimum_redis.Base.Number.{to_string_ℤ}
use minimum_redis.SaveDaemon.{
  SaveDaemon, Saved, Published, returned, thrown, is_thrown, increment, handle_exception, publish,
  perform_save, success, failure, exception,
}
use minimum_redis.SaveDaemon.Counters.{wrap_32-add_zero, increment_if, increment_again}

-- A save counts as a success, or as a failure; and the publisher may throw at the event of a save
-- that has not thrown.
abbrev pub succeeded : Saved → ℕ
succeeded success = 1
succeeded _ = 0

abbrev pub failed : Saved → ℕ
failed success = 0
failed _ = 1

abbrev pub thrown_at : Bool → Saved → Published → ℕ
thrown_at has_publisher (exception what) call = 0
thrown_at has_publisher _ call = if has_publisher && is_thrown call then 1 else 0

-- The daemon behind one save.
abbrev pub counted : Saved → Published → SaveDaemon → SaveDaemon
counted s call d = record d {
  successful_saves = wrap_32 (d.successful_saves +ℤ pos (succeeded s));
  failed_saves = wrap_32 (d.failed_saves +ℤ pos (failed s + thrown_at d.has_publisher s call));
}

publish-daemon :
    (call second : Published) (message : Bytes) (d : SaveDaemon)
    → (publish call second message d).daemon ≡ record d {
      failed_saves =
          if d.has_publisher && is_thrown call then increment d.failed_saves else d.failed_saves;
    }
unfolding publish handle_exception
publish-daemon returned second message d = elim (Bool-cases d.has_publisher) [
  | inl e ↦ rw e refl
  | inr e ↦ rw e refl
]
publish-daemon (thrown what) second message d = elim (Bool-cases d.has_publisher) [
  | inl e ↦ rw e refl
  | inr e ↦ rw e refl
]

publish-length :
    (call second : Published) (message : Bytes) (d : SaveDaemon)
    → length (publish call second message d).events
      ≡ (if d.has_publisher then 1 else 0) + (if d.has_publisher && is_thrown call then 1 else 0)
unfolding publish handle_exception
publish-length returned second message d = elim (Bool-cases d.has_publisher) [
  | inl e ↦ rw e refl
  | inr e ↦ rw e refl
]
publish-length (thrown what) second message d = elim (Bool-cases d.has_publisher) [
  | inl e ↦ rw e refl
  | inr e ↦ rw e refl
]

publish-caught :
    (call second : Published) (message : Bytes) (d : SaveDaemon)
    → is_thrown second ≡ false
    → (publish call second message d).is_escaped ≡ false
unfolding publish handle_exception
publish-caught returned second message d h = refl
publish-caught (thrown what) second message d h = elim (Bool-cases d.has_publisher) [
  | inl e ↦ rw (e, h) refl
  | inr e ↦ rw e refl
]

abbrev pub IsCounted : SaveDaemon → Type 0
IsCounted d = IsInt32 d.successful_saves × IsInt32 d.failed_saves

pub perform_save-daemon :
    (s : Saved) (call second : Published) (d : SaveDaemon)
    → IsCounted d
    → (perform_save s call second d).daemon ≡ counted s call d
unfolding perform_save handle_exception
perform_save-daemon success call second d (small, small') =
    let n = increment d.successful_saves in
    let c = d.has_publisher && is_thrown call in
    let e : SaveDaemon = record d { successful_saves = n } in
    let now : ℤ → SaveDaemon = λ fails. record e { failed_saves = fails } in
    let none_first : (if c then 1 else 0) ≡ 0 + (if c then 1 else 0) = omega arith in
    publish-daemon call second (text "success:" ++ to_string_ℤ n) e
    ∙ (ap now (increment_if c d.failed_saves small')
        ∙ ap (λ k. now (wrap_32 (d.failed_saves +ℤ pos k))) none_first)
perform_save-daemon failure call second d (small, small') =
    let n = increment d.failed_saves in
    let c = d.has_publisher && is_thrown call in
    let e : SaveDaemon = record d { failed_saves = n } in
    let now : ℤ → SaveDaemon = λ fails. record d { failed_saves = fails } in
    let kept : ℤ → SaveDaemon = λ saves. record d {
      successful_saves = saves;
      failed_saves = wrap_32 (d.failed_saves +ℤ pos (1 + (if c then 1 else 0)));
    } in
    publish-daemon call second (text "failure:" ++ to_string_ℤ n) e
    ∙ (ap now (increment_again c d.failed_saves)
        ∙ ap kept (wrap_32-add_zero d.successful_saves small))
perform_save-daemon (exception what) call second d (small, small') =
    let kept : ℤ → SaveDaemon =
      λ saves. record d { successful_saves = saves; failed_saves = increment d.failed_saves } in
    ap kept (wrap_32-add_zero d.successful_saves small)

pub perform_save-length :
    (s : Saved) (call second : Published) (d : SaveDaemon)
    → length (perform_save s call second d).events
      ≡ (if d.has_publisher then 1 else 0) + thrown_at d.has_publisher s call
unfolding perform_save handle_exception
perform_save-length success call second d = publish-length call second _ _
perform_save-length failure call second d = publish-length call second _ _
perform_save-length (exception what) call second d = elim (Bool-cases d.has_publisher) [
  | inl e ↦ rw e refl
  | inr e ↦ rw e refl
]

pub perform_save-caught :
    (s : Saved) (call second : Published) (d : SaveDaemon)
    → is_thrown second ≡ false
    → (perform_save s call second d).is_escaped ≡ false
unfolding perform_save handle_exception
perform_save-caught success call second d h = publish-caught call second _ _ h
perform_save-caught failure call second d h = publish-caught call second _ _ h
perform_save-caught (exception what) call second d h = elim (Bool-cases d.has_publisher) [
  | inl e ↦ rw (e, h) refl
  | inr e ↦ rw e refl
]
