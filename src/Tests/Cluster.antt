-- ===== src/Tests/Cluster.antt =====
-- The nodes of the keys, at concrete keys: a key with as many bytes as its slot.
use minimum_redis.Base.{◌%◌, true, [], ◌∷◌, text, codes, equal, ltb, if◌then◌else◌, ◌≡◌, refl}
use minimum_redis.Resp.Value.{bulk_string}
use minimum_redis.Cluster.{ClusterConfig, new_config, node1, node2}
use minimum_redis.Commands.State.{new_processor, replies}
use minimum_redis.Commands.Cluster.{is_routed}
use minimum_redis.Commands.Processor.{upper, run_now, process_args}
use minimum_redis.Commands.Processor.Routing.{in_main, second_node, process_args-redirect}
use minimum_redis.Tests.Data.{outside, noon, one_shared}

-- Both nodes have the slot 1.
abbrev both : ClusterConfig
both = record new_config {
  enabled = true;
  nodes =
      record node1 { assigned_slots = 0 ∷ 1 ∷ [] }
      ∷ record node2 { assigned_slots = 1 ∷ 3 ∷ [] }
      ∷ [];
}

-- The key `abc` is of the second node.
get_routed : is_routed (upper (codes "get")) ≡ true
unfolding upper equal text
get_routed = refl

process_args-redirect_example :
    process_args
      (in_main outside)
      noon
      (bulk_string (codes "get") ∷ bulk_string (codes "abc") ∷ [])
      (new_processor 4)
      one_shared
    ≡ (if ltb (outside.hash (codes "abc") % 4) 2
        then run_now
            (in_main outside)
            noon
            (upper (codes "get"))
            (bulk_string (codes "get") ∷ bulk_string (codes "abc") ∷ [])
            (new_processor 4)
            one_shared
        else replies (new_processor 4) one_shared (second_node outside.hash (codes "abc")))
process_args-redirect_example =
    process_args-redirect outside noon (codes "get") (codes "abc") [] (new_processor 4) one_shared
      refl get_routed
