-- ===== src/Commands/Processor/Routing.antt =====
-- commands.cpp, process_command: the commands of another node's keys, in the configuration of main.
use minimum_redis.Base.{
  ℕ, ◌%◌, true, false, none, some, List, ◌∷◌, Bytes, text, equal, if◌then◌else◌, ◌≡◌, refl,
  Bool-cases, ltb, inl, inr,
}
use minimum_redis.Resp.Value.{RespValue, bulk_string}
use minimum_redis.Cluster.{node2, initialize_cluster_mvc}
use minimum_redis.Cluster.Slots.{get_node_for_key-mvc}
use minimum_redis.Commands.Reply.{Clock}
use minimum_redis.Commands.State.{CommandProcessor, Shared, Outside, replies}
use minimum_redis.Commands.Cluster.{is_routed, moved_reply, redirect}
use minimum_redis.Commands.Processor.{upper, run_now, process_args}

abbrev pub in_main : Outside → Outside
in_main o = record o { cluster = initialize_cluster_mvc }

-- The reply that sends the client to the second node.
abbrev pub second_node : (Bytes → ℕ) → Bytes → Bytes
second_node hash key = moved_reply (hash key % 4) node2

redirect-mvc :
    (hash : Bytes → ℕ) (n key : Bytes) (name : RespValue) (rest : List RespValue)
    → is_routed n ≡ true
    → redirect hash initialize_cluster_mvc n (name ∷ bulk_string key ∷ rest)
      ≡ (if ltb (hash key % 4) 2 then none else some (second_node hash key))
unfolding initialize_cluster_mvc text
redirect-mvc hash n key name rest routed =
    let on : initialize_cluster_mvc.enabled ≡ true = unfold initialize_cluster_mvc in refl in
    let me : initialize_cluster_mvc.my_node_id ≡ text "node1" =
      unfold initialize_cluster_mvc in refl in
    let slots : initialize_cluster_mvc.total_slots ≡ 4 = unfold initialize_cluster_mvc in refl in
    let first : equal (text "node1") (text "node1") ≡ true = unfold text equal in refl in
    let second : equal (text "node2") (text "node1") ≡ false = unfold text equal in refl in
    unfold redirect in
    rw (on, routed, get_node_for_key-mvc hash key)
      (elim (Bool-cases (ltb (hash key % 4) 2)) [
        | inl e ↦ rw (e, me, first) refl
        | inr e ↦ rw (e, me, second, slots) refl
      ])

-- In the configuration that `main` starts with, outside of a transaction, a SET, GET, DEL or EXISTS
-- runs if the hash of its first key leaves 0 or 1 modulo 4. Otherwise it changes nothing, and the
-- reply sends the client to the second node with the slot of that key.
pub process_args-redirect :
    (o : Outside) (now : Clock) (n key : Bytes) (rest : List RespValue) (p : CommandProcessor)
    (s : Shared)
    → p.in_transaction ≡ false
    → is_routed (upper n) ≡ true
    → process_args (in_main o) now (bulk_string n ∷ bulk_string key ∷ rest) p s ≡ (
        if ltb (o.hash key % 4) 2
        then run_now (in_main o) now (upper n) (bulk_string n ∷ bulk_string key ∷ rest) p s
        else replies p s (second_node o.hash key))
process_args-redirect o now n key rest p s idle routed =
    let moved = redirect-mvc o.hash (upper n) key (bulk_string n) rest routed in
    unfold process_args in
    rw idle (
      rw moved
        (elim (Bool-cases (ltb (o.hash key % 4) 2)) [ inl e ↦ rw e refl | inr e ↦ rw e refl ]))
