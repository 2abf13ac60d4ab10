-- ===== src/Commands/Cluster.antt =====
-- commands.cpp: the redirection of a key that another node answers for, and CLUSTER.
use minimum_redis.Base.{
  ℕ, zero, suc, ◌+◌, ◌%◌, Bool, ◌&&◌, ◌||◌, Option, none, some, List, [], ◌∷◌, ◌++◌, Bytes, text,
  equal, length, get_elem?, if◌then◌else◌,
}
use minimum_redis.Base.Number.{to_string}
use minimum_redis.Resp.Value.{RespValue, str_val}
use minimum_redis.Cluster.{ClusterNode, ClusterConfig, get_node_for_key, slot_of}
use minimum_redis.Commands.Reply.{is_bulk, bulk_reply, number_reply, array_header}

-- The commands that are routed.
abbrev pub is_routed : Bytes → Bool
is_routed upper_cmd =
    equal upper_cmd (text "SET")
    || (equal upper_cmd (text "GET")
        || (equal upper_cmd (text "DEL") || equal upper_cmd (text "EXISTS")))

abbrev pub moved_reply : ℕ → ClusterNode → Bytes
moved_reply slot n =
    text "-MOVED "
    ++ (to_string slot
        ++ (b' ' ∷ (n.ip_address ++ (b':' ∷ (to_string n.port ++ (b'\r' ∷ b'\n' ∷ []))))))

abbrev pub moved_to : (Bytes → ℕ) → ClusterConfig → Bytes → Option ClusterNode → Option Bytes
moved_to hash c key none = none
moved_to hash c key (some n) =
    if equal n.node_id c.my_node_id then none else some (moved_reply (slot_of hash c key) n)

-- The reply that sends the client to the node of the key; `none` where the command runs here.
unfoldable pub redirect : (Bytes → ℕ) → ClusterConfig → Bytes → List RespValue → Option Bytes
unfolding get_node_for_key
redirect hash c upper_cmd (name ∷ k ∷ rest) =
    if c.enabled && (is_routed upper_cmd && is_bulk k)
    then moved_to hash c (str_val k) (get_node_for_key hash c (str_val k))
    else none
redirect hash c upper_cmd _ = none

abbrev pub slot_words : List ℕ → Bytes
slot_words [] = []
slot_words (s ∷ ss) = b' ' ∷ (to_string s ++ slot_words ss)

abbrev pub node_line : ClusterNode → Bytes
node_line n =
    n.node_id
    ++ (b' '
        ∷ (n.ip_address
            ++ (b':'
                ∷ (to_string n.port
                    ++ ((if n.is_master then text " master" else text " slave")
                        ++ (text " - 0 0 0 connected"
                            ++ (slot_words n.assigned_slots ++ (b'\r' ∷ b'\n' ∷ []))))))))

unfoldable pub nodes_info : List ClusterNode → Bytes
nodes_info [] = []
nodes_info (n ∷ ns) = node_line n ++ nodes_info ns

abbrev pub info_line : Bytes → ℕ → Bytes
info_line name n = name ++ (to_string n ++ (b'\r' ∷ b'\n' ∷ []))

unfoldable pub cluster_info : ClusterConfig → Bytes
cluster_info c =
    text "cluster_state:ok\r\n"
    ++ (info_line (text "cluster_slots_assigned:") c.total_slots
        ++ (info_line (text "cluster_slots_ok:") c.total_slots
            ++ info_line (text "cluster_size:") (length c.nodes)))

-- `nodes[slot % nodes.size()]`. With no nodes the code divides by zero; here nothing is written then.
abbrev pub slot_entry : ℕ → Option ClusterNode → Bytes
slot_entry slot none = []
slot_entry slot (some n) =
    array_header 3
    ++ (number_reply slot
        ++ (number_reply slot
            ++ (array_header 3
                ++ (bulk_reply n.ip_address ++ (number_reply n.port ++ bulk_reply n.node_id)))))

-- The loop over the slots, `count` of them from `slot` on.
unfoldable pub slot_entries : ℕ → ℕ → List ClusterNode → Bytes
slot_entries zero slot nodes = []
slot_entries (suc count) slot nodes =
    slot_entry slot (get_elem? nodes (slot % length nodes)) ++ slot_entries count (slot + 1) nodes

-- The subcommands. The processor and the data stay as they are.
abbrev pub cluster_reply : ClusterConfig → Bytes → Bytes
cluster_reply c subcmd =
    if equal subcmd (text "NODES")
    then bulk_reply (nodes_info c.nodes)
    else if equal subcmd (text "INFO")
    then bulk_reply (cluster_info c)
    else if equal subcmd (text "SLOTS")
    then array_header c.total_slots ++ slot_entries c.total_slots 0 c.nodes
    else text "-ERR Unknown CLUSTER subcommand\r\n"

unfoldable pub handle_cluster : ClusterConfig → List RespValue → Bytes
unfolding nodes_info cluster_info slot_entries
handle_cluster c (name ∷ sub ∷ rest) =
    if is_bulk sub
    then cluster_reply c (str_val sub)
    else text "-ERR CLUSTER subcommand must be a bulk string\r\n"
handle_cluster c _ = text "-ERR CLUSTER requires at least 1 subcommand\r\n"
