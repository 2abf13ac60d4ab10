-- ===== src/Cluster.antt =====
-- cluster.h and cluster.cpp: the nodes of the cluster and the slots of the keys. `hash` is
-- `std::hash<std::string>`, which the C++ library defines.
pub mod Slots
use minimum_redis.Base.{
  ℕ, zero, suc, ◌+◌, ◌%◌, ◌==◌, Bool, true, false, not, ◌||◌, Option, none, some, List, [], ◌∷◌,
  Bytes, text, equal, if◌then◌else◌,
}

pub record ClusterNode : Type 0 where
  pub node_id : Bytes
  pub ip_address : Bytes
  pub port : ℕ
  pub is_master : Bool
  pub last_seen : ℕ
  pub assigned_slots : List ℕ

-- `ClusterNode(id, ip, p, master)`
abbrev pub new_node : Bytes → Bytes → ℕ → Bool → ClusterNode
new_node id ip p master = record {
  node_id = id;
  ip_address = ip;
  port = p;
  is_master = master;
  last_seen = 0;
  assigned_slots = [];
}

pub record ClusterConfig : Type 0 where
  pub enabled : Bool
  pub my_node_id : Bytes
  pub my_ip : Bytes
  pub my_port : ℕ
  pub nodes : List ClusterNode
  pub total_slots : ℕ

-- The configuration that the global object starts with.
abbrev pub new_config : ClusterConfig
new_config = record {
  enabled = false;
  my_node_id = [];
  my_ip = text "127.0.0.1";
  my_port = 6379;
  nodes = [];
  total_slots = 4;
}

-- `std::find` over the slots of a node.
abbrev pub has_slot : ℕ → List ℕ → Bool
has_slot slot [] = false
has_slot slot (s ∷ ss) = s == slot || has_slot slot ss

-- The loop over the nodes.
unfoldable pub first_with : ℕ → List ClusterNode → Option ClusterNode
first_with slot [] = none
first_with slot (n ∷ ns) = if has_slot slot n.assigned_slots then some n else first_with slot ns

-- `nodes[0]`, if no node has the slot.
abbrev pub or_first : Option ClusterNode → List ClusterNode → Option ClusterNode
or_first (some n) nodes = some n
or_first none [] = none
or_first none (n ∷ ns) = some n

abbrev pub slot_of : (Bytes → ℕ) → ClusterConfig → Bytes → ℕ
slot_of hash c key = hash key % c.total_slots

unfoldable pub get_node_for_key : (Bytes → ℕ) → ClusterConfig → Bytes → Option ClusterNode
unfolding first_with
get_node_for_key hash c key =
    if not c.enabled then none else or_first (first_with (slot_of hash c key) c.nodes) c.nodes

unfoldable pub node_by_id : Bytes → List ClusterNode → Option ClusterNode
unfolding equal
node_by_id id [] = none
node_by_id id (n ∷ ns) = if equal n.node_id id then some n else node_by_id id ns

unfoldable pub get_node_by_id : ClusterConfig → Bytes → Option ClusterNode
unfolding node_by_id
get_node_by_id c id = node_by_id id c.nodes

abbrev pub node1 : ClusterNode
node1 = record (new_node (text "node1") (text "127.0.0.1") 6379 true) {
  assigned_slots = 0 ∷ 1 ∷ [];
}

abbrev pub node2 : ClusterNode
node2 = record (new_node (text "node2") (text "127.0.0.1") 6380 false) {
  assigned_slots = 2 ∷ 3 ∷ [];
}

-- What `main` starts with.
unfoldable pub initialize_cluster_mvc : ClusterConfig
initialize_cluster_mvc = record {
  enabled = true;
  my_node_id = text "node1";
  my_ip = text "127.0.0.1";
  my_port = 6379;
  nodes = node1 ∷ node2 ∷ [];
  total_slots = 4;
}
