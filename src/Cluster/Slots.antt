-- ===== src/Cluster/Slots.antt =====
-- cluster.cpp: which node answers for a key.
use minimum_redis.Base.{
  ℕ, ◌%◌, ◌<◌, Bool, true, false, ◌||◌, ◌⊎◌, some, List, [], ◌∷◌, Bytes, if◌then◌else◌, ◌≡◌, refl,
  arith, Bool-cases, ltb, inl, inr,
}
use minimum_redis.Cluster.{
  ClusterNode, ClusterConfig, has_slot, first_with, slot_of, get_node_for_key, node1, node2,
  initialize_cluster_mvc,
}

-- Some node has the slot.
abbrev pub assigned : ℕ → List ClusterNode → Bool
assigned slot [] = false
assigned slot (n ∷ ns) = has_slot slot n.assigned_slots || assigned slot ns

-- The node is the first of the list that has the slot: no node before it has.
abbrev pub IsFirst : ℕ → ClusterNode → List ClusterNode → Type 0
IsFirst slot n [] = ⊥
IsFirst slot n (m ∷ ms) =
    ((m ≡ n) × (has_slot slot m.assigned_slots ≡ true))
    ⊎ ((has_slot slot m.assigned_slots ≡ false) × IsFirst slot n ms)

first_with-IsFirst :
    (slot : ℕ) (ns : List ClusterNode)
    → assigned slot ns ≡ true
    → (n : ClusterNode) × ((first_with slot ns ≡ some n) × IsFirst slot n ns)
unfolding first_with
first_with-IsFirst slot [] h = absurd (ground arith)
first_with-IsFirst slot (m ∷ ms) h = elim (Bool-cases (has_slot slot m.assigned_slots)) [
  | inl e ↦ (m, (rw e refl, inl (refl, e)))
  | inr e ↦
      let (n, (found, first)) = first_with-IsFirst slot ms (rw e at h) in
      (n, (rw e found, inr (e, first)))
]

-- In a cluster that is enabled, a key whose slot some node has is answered for by a node: by the
-- first one of the configuration that has the slot.
pub get_node_for_key-IsFirst :
    (hash : Bytes → ℕ) (c : ClusterConfig) (key : Bytes)
    → c.enabled ≡ true
    → assigned (slot_of hash c key) c.nodes ≡ true
    → (n : ClusterNode) × ((get_node_for_key hash c key ≡ some n)
        × IsFirst (slot_of hash c key) n c.nodes)
get_node_for_key-IsFirst hash c key on h =
    let (n, (found, first)) = first_with-IsFirst (slot_of hash c key) c.nodes h in
    (n, (unfold get_node_for_key in rw on (rw found refl), first))

-- The node of a slot in the configuration that `main` starts with.
abbrev node_of_slot : ℕ → ClusterNode
node_of_slot slot = if ltb slot 2 then node1 else node2

below_4 : (n : ℕ) → n % 4 < 4
below_4 n = omega arith

first_with-mvc :
    (slot : ℕ) → slot < 4 → first_with slot (node1 ∷ node2 ∷ []) ≡ some (node_of_slot slot)
unfolding first_with
first_with-mvc slot h = ground arith

-- In the configuration that `main` starts with, the first node answers for the keys whose hash
-- leaves 0 or 1 modulo 4, and the second node for the other keys.
pub get_node_for_key-mvc :
    (hash : Bytes → ℕ) (key : Bytes)
    → get_node_for_key hash initialize_cluster_mvc key
      ≡ some (if ltb (hash key % 4) 2 then node1 else node2)
get_node_for_key-mvc hash key =
    unfold get_node_for_key initialize_cluster_mvc in
    rw (first_with-mvc (hash key % 4) (below_4 (hash key))) refl
