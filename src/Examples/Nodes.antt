-- ===== src/Examples/Nodes.antt =====
-- The nodes of a cluster, the client that is opened on them, and scans, at concrete inputs.
use mathlib.Core.List.{cons-ne-nil}
use async_long_request_proxy.Prelude.{
  ℕ, suc, String, ◌≡◌, refl, true, none, some, [], ◌∷◌, map, if◌then◌else◌, arith, ◌==◌, length,
  All,
}
use async_long_request_proxy.Result.{ok, err, invalid_cluster_node}
use async_long_request_proxy.Text.{
  units, is_white_space, trim_start, trim_end, split, parse_int, value, span_digits,
}
use async_long_request_proxy.Text.Parts.{join}
use async_long_request_proxy.Redis.ClusterNodes.{
  ClusterNode, parse_entry, parse_entries, parse_cluster_nodes,
}
use async_long_request_proxy.Redis.ClusterNodes.Printed.{Entry, IsEntry, print_entry, parse-print}
use async_long_request_proxy.Redis.ClusterNodes.Valid.{IsNode, commas, parse_cluster_nodes-IsNode}
use async_long_request_proxy.Redis.Connection.{cluster}
use async_long_request_proxy.Redis.Client.{RedisModuleOptions, RedisService, new_redis_service}
use async_long_request_proxy.Redis.Scan.{Scan, scan_keys}
use async_long_request_proxy.Redis.Scan.Complete.{last, more, flat, scan_keys-flat}

abbrev pub node : String → ℕ → ClusterNode
node host port = record { host = units host; port = port }

nodes_read :
    parse_cluster_nodes (units " a:7000 ,b, c:0065535x:9")
    ≡ ok (node "a" 7000 ∷ node "b" 6379 ∷ node "c" 65535 ∷ [])
unfolding parse_cluster_nodes parse_entries parse_entry split trim_start trim_end is_white_space
    parse_int span_digits value
nodes_read = refl

bad_ports :
    (parse_cluster_nodes (units "a:65536") ≡ err (invalid_cluster_node (units "a:65536")))
    × (parse_cluster_nodes (units "a:-1") ≡ err (invalid_cluster_node (units "a:-1")))
    × (parse_cluster_nodes (units "a:x") ≡ err (invalid_cluster_node (units "a:x")))
    × (parse_cluster_nodes (units ":1") ≡ err (invalid_cluster_node (units ":1")))
    × (parse_cluster_nodes [] ≡ err (invalid_cluster_node []))
unfolding parse_cluster_nodes parse_entries parse_entry split trim_start trim_end is_white_space
    parse_int span_digits value
bad_ports = (refl, refl, refl, refl, refl)

abbrev first_entry : Entry
first_entry = record { before = units " "; node = node "a" 7000; after = [] }

abbrev second_entry : Entry
second_entry = record { before = []; node = node "b" 6379; after = units "  " }

first_IsEntry : IsEntry first_entry
unfolding is_white_space
first_IsEntry = record {
  before_white = (refl, tt);
  node_printable = record {
    host_some = cons-ne-nil b'a' [];
    host_comma = (refl, tt);
    host_colon = (refl, tt);
    host_dense = (refl, tt);
    port_low = omega arith;
    port_high = omega arith;
  };
  after_white = tt;
}

second_IsEntry : IsEntry second_entry
unfolding is_white_space
second_IsEntry = record {
  before_white = tt;
  node_printable = record {
    host_some = cons-ne-nil b'b' [];
    host_comma = (refl, tt);
    host_colon = (refl, tt);
    host_dense = (refl, tt);
    port_low = omega arith;
    port_high = omega arith;
  };
  after_white = (refl, (refl, tt));
}

parse-print_example :
    parse_cluster_nodes (join b',' (print_entry first_entry) (map print_entry (second_entry ∷ [])))
    ≡ ok (map (λ e. e.node) (first_entry ∷ second_entry ∷ []))
parse-print_example =
    parse-print first_entry (second_entry ∷ []) (first_IsEntry, (second_IsEntry, tt))

parse_cluster_nodes-IsNode_example :
    All IsNode (node "a" 7000 ∷ node "b" 6379 ∷ node "c" 65535 ∷ [])
    × (length (node "a" 7000 ∷ node "b" 6379 ∷ node "c" 65535 ∷ [])
        ≡ suc (commas (units " a:7000 ,b, c:0065535x:9")))
parse_cluster_nodes-IsNode_example =
    parse_cluster_nodes-IsNode (units " a:7000 ,b, c:0065535x:9")
      (node "a" 7000 ∷ node "b" 6379 ∷ node "c" 65535 ∷ []) nodes_read

abbrev cluster_options : RedisModuleOptions
cluster_options = record {
  host = [];
  port = 6379;
  password = none;
  db = some 0;
  cluster_mode = some true;
  cluster_nodes = some (units "a:7000");
}

abbrev cluster_service : RedisService
cluster_service = record {
  is_cluster = true;
  client =
      cluster (node "a" 7000 ∷ []) (record { password = none; db = some 0; max_retries = none });
}

service_made : (new_redis_service cluster_options none).0 ≡ ok cluster_service
unfolding new_redis_service parse_cluster_nodes parse_entries parse_entry split trim_start trim_end
    is_white_space parse_int span_digits value
service_made = refl

-- A server with two pages.
abbrev two_pages : Scan
two_pages cursor = if cursor == "0" then ("7", "k1" ∷ "k2" ∷ []) else ("0", "k3" ∷ [])

abbrev one_page : Scan
one_page cursor = ("0", "k4" ∷ [])

scan_keys-flat_example :
    scan_keys 2 true one_page (two_pages ∷ one_page ∷ [])
    ≡ some (flat (map flat ((("k1" ∷ "k2" ∷ []) ∷ ("k3" ∷ []) ∷ []) ∷ (("k4" ∷ []) ∷ []) ∷ [])))
scan_keys-flat_example =
    scan_keys-flat 2 true one_page (two_pages ∷ one_page ∷ [])
      ((("k1" ∷ "k2" ∷ []) ∷ ("k3" ∷ []) ∷ []) ∷ (("k4" ∷ []) ∷ []) ∷ [])
      (more refl refl (last refl), omega arith, (last refl, omega arith, tt))
