-- ===== src/Commands/Processor/Send.antt =====
-- commands.cpp, process_command: commands sent one after another, in a transaction and outside.
use minimum_redis.Base.{
  ℕ, true, false, none, some, List, [], ◌∷◌, ◌++◌, append-nil, append_assoc, Bytes, text, equal,
  equal_iff, ◌≡◌, refl, Bool-cases, inl, inr,
}
use minimum_redis.Dict.{Dict, find}
use minimum_redis.Resp.Value.{RespValue, str_val}
use minimum_redis.Database.{Keyspace}
use minimum_redis.Cluster.{new_config}
use minimum_redis.Commands.Reply.{Clock, Handler, is_bulk}
use minimum_redis.Commands.State.{
  TransactionCommand, CommandProcessor, Shared, Outcome, Outside, replies, outcome,
}
use minimum_redis.Commands.Table.{queued_commands, expiry_commands, execute_func}
use minimum_redis.Commands.Queue.{after, run_queue}
use minimum_redis.Commands.Cluster.{redirect}
use minimum_redis.Commands.Processor.{
  upper, run_now, ends_transaction, push_command, queued_reply, process_args,
}

-- A client's commands in their order, each behind the three clock readings of the one before: the
-- replies stand one behind the other.
unfoldable pub send_all :
    Outside → Clock → List (List RespValue) → CommandProcessor → Shared → Outcome
unfolding process_args
send_all o now [] p s = replies p s []
send_all o now (args ∷ more) p s =
    let first = process_args o now args p s in
    let rest = send_all o (after 3 now) more first.processor first.shared in
    replies rest.processor rest.shared (first.reply ++ rest.reply)

-- A command that a transaction can run.
unfoldable pub IsQueued : Outside → List RespValue → Type 0
unfolding upper
IsQueued o [] = ⊥
IsQueued o (name ∷ args) =
    (is_bulk name ≡ true)
    × ((h : Handler) × (find (upper (str_val name)) (queued_commands o) ≡ some h))

abbrev pub AllQueued : Outside → List (List RespValue) → Type 0
AllQueued o [] = Unit
AllQueued o (c ∷ cs) = IsQueued o c × AllQueued o cs

abbrev pub named : List RespValue → TransactionCommand
named [] = record { command_name = []; args = [] }
named (name ∷ args) = record { command_name = upper (str_val name); args = name ∷ args }

abbrev pub all_named : List (List RespValue) → List TransactionCommand
all_named [] = []
all_named (c ∷ cs) = named c ∷ all_named cs

-- EXEC and DISCARD are in no table.
exec_unqueued : (o : Outside) → find (text "EXEC") (queued_commands o) ≡ none
unfolding find queued_commands text equal
exec_unqueued o = refl

discard_unqueued : (o : Outside) → find (text "DISCARD") (queued_commands o) ≡ none
unfolding find queued_commands text equal
discard_unqueued o = refl

not_ending :
    (o : Outside) (n : Bytes) (h : Handler)
    → find n (queued_commands o) ≡ some h
    → ends_transaction n ≡ false
not_ending o n h found = elim (Bool-cases (equal n (text "EXEC"))) [
  | inl e ↦ let named_exec = (equal_iff n (text "EXEC")).0 e in let missing = exec_unqueued o in cc
  | inr e ↦ elim (Bool-cases (equal n (text "DISCARD"))) [
    | inl f ↦
        let named_discard = (equal_iff n (text "DISCARD")).0 f in
        let missing = discard_unqueued o in cc
    | inr f ↦ rw (e, f) refl
  ]
]

find-append :
    {V : Type 0} (k : Bytes) (a b : Dict V) (v : V) → find k a ≡ some v → find k (a ++ b) ≡ some v
unfolding find
find-append k [] b v h = cc
find-append k ((j, w) ∷ a) b v h = elim (Bool-cases (equal j k)) [
  | inl e ↦ rw e (rw e at h)
  | inr e ↦ rw e (find-append k a b v (rw e at h))
]

-- A processor outside of a transaction, with a queue and watches.
abbrev pub idling : CommandProcessor → List TransactionCommand → Dict ℕ → CommandProcessor
idling p queue watches = record p {
  in_transaction = false;
  transaction_queue = queue;
  watched_keys = watches;
}

abbrev pub queueing : CommandProcessor → List TransactionCommand → Dict ℕ → CommandProcessor
queueing p queue watches = record p {
  in_transaction = true;
  transaction_queue = queue;
  watched_keys = watches;
}

-- The server on its own: no command is sent to another node.
abbrev pub alone : Outside → Outside
alone o = record o { cluster = new_config }

redirect-alone :
    (o : Outside) (n : Bytes) (args : List RespValue)
    → redirect (alone o).hash (alone o).cluster n args ≡ none
unfolding redirect
redirect-alone o n [] = refl
redirect-alone o n (name ∷ []) = refl
redirect-alone o n (name ∷ k ∷ rest) = refl

run_now-known :
    (o : Outside) (now : Clock) (n : Bytes) (args : List RespValue) (p : CommandProcessor)
    (s : Shared) (h : Handler)
    → find n (queued_commands o) ≡ some h
    → run_now o now n args p s
      ≡ outcome p s (execute_func o (record { command_name = n; args = args }) now s.keyspace)
run_now-known o now n args p s h found =
    let known = find-append n (queued_commands o) expiry_commands h found in
    unfold run_now execute_func in rw (known, found) refl

-- Outside of a transaction such a command runs at once.
process-idle :
    (o : Outside) (now : Clock) (c : List RespValue) (p : CommandProcessor)
    (queue : List TransactionCommand) (watches : Dict ℕ) (s : Shared)
    → IsQueued (alone o) c
    → process_args (alone o) now c (idling p queue watches) s
      ≡ outcome (idling p queue watches) s (execute_func (alone o) (named c) now s.keyspace)
unfolding IsQueued
process-idle o now [] p queue watches s q = absurd q
process-idle o now (name ∷ args) p queue watches s (bulk, (h, found)) =
    let here = redirect-alone o (upper (str_val name)) (name ∷ args) in
    unfold process_args in
    rw bulk (
      rw here (
        run_now-known (alone o) now (upper (str_val name)) (name ∷ args) (idling p queue watches) s
          h found))

-- Inside a transaction it is put on the queue.
process-queueing :
    (o : Outside) (now : Clock) (c : List RespValue) (p : CommandProcessor)
    (queue : List TransactionCommand) (watches : Dict ℕ) (s : Shared)
    → IsQueued o c
    → process_args o now c (queueing p queue watches) s
      ≡ replies (queueing p (queue ++ named c ∷ []) watches) s queued_reply
unfolding IsQueued
process-queueing o now [] p queue watches s q = absurd q
process-queueing o now (name ∷ args) p queue watches s (bulk, (h, found)) =
    let going = not_ending o (upper (str_val name)) h found in
    unfold process_args push_command in rw (bulk, going) refl

pub send_all-idle :
    (o : Outside) (now : Clock) (cs : List (List RespValue)) (p : CommandProcessor)
    (queue : List TransactionCommand) (watches : Dict ℕ) (s : Shared)
    → AllQueued (alone o) cs
    → send_all (alone o) now cs (idling p queue watches) s
      ≡ outcome (idling p queue watches) s (
        (run_queue (alone o) (all_named cs) now s.keyspace).keyspace,
        (run_queue (alone o) (all_named cs) now s.keyspace).response,
      )
unfolding send_all run_queue
send_all-idle o now [] p queue watches s q = refl
send_all-idle o now (c ∷ cs) p queue watches s (q, qs) =
    let d1 = (execute_func (alone o) (named c) now s.keyspace).0 in
    rw (process-idle o now c p queue watches s q)
      (rw (send_all-idle o (after 3 now) cs p queue watches (record s { keyspace = d1 }) qs) refl)

pub send_all-queueing :
    (o : Outside) (now : Clock) (cs : List (List RespValue)) (p : CommandProcessor)
    (queue : List TransactionCommand) (watches : Dict ℕ) (s : Shared)
    → AllQueued o cs
    → ((send_all o now cs (queueing p queue watches) s).processor
        ≡ queueing p (queue ++ all_named cs) watches)
      × ((send_all o now cs (queueing p queue watches) s).shared ≡ s)
unfolding send_all
send_all-queueing o now [] p queue watches s q = (rw append-nil refl, refl)
send_all-queueing o now (c ∷ cs) p queue watches s (q, qs) =
    let later = send_all-queueing o (after 3 now) cs p (queue ++ named c ∷ []) watches s qs in
    rw (process-queueing o now c p queue watches s q)
      (rw (append_assoc queue (named c ∷ []) (all_named cs)) at later.0, later.1)

-- The commands run alike on a server on its own.
queued-alone : (o : Outside) → queued_commands (alone o) ≡ queued_commands o
unfolding queued_commands
queued-alone o = refl

pub AllQueued-alone :
    (o : Outside) (cs : List (List RespValue)) → AllQueued o cs → AllQueued (alone o) cs
unfolding IsQueued
AllQueued-alone o [] q = tt
AllQueued-alone o ([] ∷ cs) (q, qs) = absurd q
AllQueued-alone o ((name ∷ args) ∷ cs) ((bulk, (h, found)), qs) =
    ((bulk, (h, rw (queued-alone o) found)), AllQueued-alone o cs qs)

execute_func-alone :
    (o : Outside) (c : TransactionCommand) (now : Clock) (d : Keyspace)
    → execute_func (alone o) c now d ≡ execute_func o c now d
execute_func-alone o c now d = unfold execute_func in rw (queued-alone o) refl

pub run_queue-alone :
    (o : Outside) (queue : List TransactionCommand) (now : Clock) (d : Keyspace)
    → run_queue (alone o) queue now d ≡ run_queue o queue now d
unfolding run_queue
run_queue-alone o [] now d = refl
run_queue-alone o (c ∷ queue) now d =
    rw (execute_func-alone o c now d)
      (rw (run_queue-alone o queue (after 3 now) (execute_func o c now d).0) refl)
