-- ===== src/Commands/Processor/Watches.antt =====
-- commands.cpp: WATCH, and the transaction behind it.
use minimum_redis.Base.{
  ℕ, ◌==◌, Bool, true, false, ◌&&◌, none, List, [], ◌∷◌, ◌++◌, Bytes, text, equal, equal_iff,
  equal_refl, ◌≡◌, refl, sym, arith, ◌∙◌, Bool-cases, inl, inr,
}
use minimum_redis.Dict.{Dict, find, put}
use minimum_redis.Resp.Value.{RespValue, bulk_string}
use minimum_redis.Database.{Keyspace, get_mod_count}
use minimum_redis.Commands.Reply.{Clock, ok_reply}
use minimum_redis.Commands.State.{CommandProcessor, new_processor, Shared, Outside, replies}
use minimum_redis.Commands.Table.{queued_commands, expiry_commands}
use minimum_redis.Commands.Queue.{unmodified, watch_keys, handle_watch}
use minimum_redis.Commands.Cluster.{redirect}
use minimum_redis.Commands.Processor.{upper, run_now, process_args}
use minimum_redis.Commands.Processor.Send.{idling, AllQueued}
use minimum_redis.Commands.Processor.Transactions.{
  begin, exec_command, all_or_nothing, exec-all_or_nothing,
}

-- Whether two keyspaces have the same modification count for each of the keys.
unfoldable pub same_counts : Keyspace → Keyspace → List Bytes → Bool
same_counts d e [] = true
same_counts d e (k ∷ ks) = get_mod_count k e == get_mod_count k d && same_counts d e ks

abbrev pub bulk_all : List Bytes → List RespValue
bulk_all [] = []
bulk_all (k ∷ ks) = bulk_string k ∷ bulk_all ks

abbrev pub watch_command : List Bytes → List RespValue
watch_command ks = bulk_string (text "WATCH") ∷ bulk_all ks

-- The watches with those of the keys behind them.
unfoldable pub recorded : Keyspace → List Bytes → Dict ℕ → Dict ℕ
recorded d [] w = w
recorded d (k ∷ ks) w = recorded d ks (put k (get_mod_count k d) w)

-- Every watch is of the count in the keyspace `d`.
abbrev pub AllOf : Keyspace → Dict ℕ → Type 0
AllOf d [] = Unit
AllOf d ((k, n) ∷ w) = (n ≡ get_mod_count k d) × AllOf d w

put-AllOf :
    (d : Keyspace) (k : Bytes) (w : Dict ℕ) → AllOf d w → AllOf d (put k (get_mod_count k d) w)
unfolding put
put-AllOf d k [] a = (refl, tt)
put-AllOf d k ((j, n) ∷ w) a = elim (Bool-cases (equal j k)) [
  | inl e ↦ let same = (equal_iff j k).0 e in rw e (rw same refl, a.1)
  | inr e ↦ rw e (a.0, put-AllOf d k w a.1)
]

unmodified-put :
    (d e : Keyspace) (k : Bytes) (w : Dict ℕ)
    → AllOf d w
    → unmodified e (put k (get_mod_count k d) w)
      ≡ (get_mod_count k e == get_mod_count k d && unmodified e w)
unfolding put unmodified
unmodified-put d e k [] a = refl
unmodified-put d e k ((j, n) ∷ w) a = elim (Bool-cases (equal j k)) [
  | inl h ↦
      let same = (equal_iff j k).0 h in
      let count = a.0 in rw h (rw same (rw count (rw same (ground arith))))
  | inr h ↦ rw h (rw (unmodified-put d e k w a.1) (ground arith))
]

unmodified-recorded :
    (d e : Keyspace) (ks : List Bytes) (w : Dict ℕ)
    → AllOf d w
    → unmodified e (recorded d ks w) ≡ (same_counts d e ks && unmodified e w)
unfolding recorded same_counts
unmodified-recorded d e [] w a = refl
unmodified-recorded d e (k ∷ ks) w a =
    rw (unmodified-recorded d e ks (put k (get_mod_count k d) w) (put-AllOf d k w a))
      (rw (unmodified-put d e k w a) (ground arith))

watch_keys-recorded :
    (ks : List Bytes) (w : Dict ℕ) (fd : ℕ) (s : Shared)
    → watch_keys (bulk_all ks) (idling (new_processor fd) [] w) s
      ≡ replies (idling (new_processor fd) [] (recorded s.keyspace ks w)) s ok_reply
unfolding watch_keys recorded
watch_keys-recorded [] w fd s = refl
watch_keys-recorded (k ∷ ks) w fd s =
    watch_keys-recorded ks (put k (get_mod_count k s.keyspace) w) fd s

upper_watch : upper (text "WATCH") ≡ text "WATCH"
unfolding upper text
upper_watch = refl

run_now-watch :
    (o : Outside) (now : Clock) (args : List RespValue) (p : CommandProcessor) (s : Shared)
    → run_now o now (text "WATCH") args p s ≡ handle_watch args p s
run_now-watch o now args p s =
    let unknown : find (text "WATCH") (queued_commands o ++ expiry_commands) ≡ none =
      unfold find queued_commands expiry_commands text equal in refl in
    let multi : equal (text "WATCH") (text "MULTI") ≡ false = unfold text equal in refl in
    let exec : equal (text "WATCH") (text "EXEC") ≡ false = unfold text equal in refl in
    let discard : equal (text "WATCH") (text "DISCARD") ≡ false = unfold text equal in refl in
    unfold run_now in
    rw unknown (rw multi (rw exec (rw discard (rw (equal_refl (text "WATCH")) refl))))

-- WATCH is routed to no other node.
redirect-watch :
    (o : Outside) (k : Bytes) (ks : List Bytes)
    → redirect o.hash o.cluster (text "WATCH") (watch_command (k ∷ ks)) ≡ none
redirect-watch o k ks =
    let set : equal (text "WATCH") (text "SET") ≡ false = unfold text equal in refl in
    let get : equal (text "WATCH") (text "GET") ≡ false = unfold text equal in refl in
    let del : equal (text "WATCH") (text "DEL") ≡ false = unfold text equal in refl in
    let exists : equal (text "WATCH") (text "EXISTS") ≡ false = unfold text equal in refl in
    unfold redirect in
    rw (set, get, del, exists)
      (elim (Bool-cases o.cluster.enabled) [ inl e ↦ rw e refl | inr e ↦ rw e refl ])

process-watch :
    (o : Outside) (now : Clock) (k : Bytes) (ks : List Bytes) (fd : ℕ) (s : Shared)
    → process_args o now (watch_command (k ∷ ks)) (new_processor fd) s
      ≡ replies (idling (new_processor fd) [] (recorded s.keyspace (k ∷ ks) [])) s ok_reply
process-watch o now k ks fd s =
    unfold process_args in
    rw upper_watch (
      rw (redirect-watch o k ks) (
        run_now-watch o now (watch_command (k ∷ ks)) (new_processor fd) s
        ∙ (unfold handle_watch in watch_keys-recorded (k ∷ ks) [] fd s)))

-- A new processor is sent WATCH of some keys in a state `s` of the server, then, in a state `r`,
-- MULTI and commands that a transaction can run, and EXEC in a state `t`: if `t` has the same
-- modification count as `s` for each of the keys, all the commands run as if they were sent one
-- after another at that time to a server on its own, with their replies in an array; otherwise none
-- of them runs, and EXEC replies that the transaction is aborted.
pub watch-exec :
    (o : Outside) (first before now : Clock) (k : Bytes) (ks : List Bytes)
    (cs : List (List RespValue)) (fd : ℕ) (r s t : Shared)
    → AllQueued o cs
    → process_args o now exec_command
        (begin o before cs
          (process_args o first (watch_command (k ∷ ks)) (new_processor fd) s).processor
          r).processor
        t
      ≡ all_or_nothing
          (same_counts s.keyspace t.keyspace (k ∷ ks))
          o
          now
          cs
          (process_args o first (watch_command (k ∷ ks)) (new_processor fd) s).processor
          t
watch-exec o first before now k ks cs fd r s t q =
    let watches = recorded s.keyspace (k ∷ ks) [] in
    let both : unmodified t.keyspace watches ≡ same_counts s.keyspace t.keyspace (k ∷ ks) =
      unmodified-recorded s.keyspace t.keyspace (k ∷ ks) [] tt
      ∙ (unfold unmodified in ground arith) in
    rw (process-watch o first k ks fd s)
      (rw (sym both) (exec-all_or_nothing o before now cs (new_processor fd) [] watches r t q).1)
