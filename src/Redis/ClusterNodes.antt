-- ===== src/Redis/ClusterNodes.antt =====
-- libs/redis/cluster-nodes.util.ts
pub mod Printed
pub mod Valid
use async_long_request_proxy.Prelude.{
  ℕ, Bool, true, false, not, ◌&&◌, ◌||◌, Option, none, some, List, [], ◌∷◌, leb, ltb, if◌then◌else◌,
}
use async_long_request_proxy.Result.{Error, invalid_cluster_node, Result, ok, err}
use async_long_request_proxy.Text.{Text, Signed, trim, split, parse_int}

pub record ClusterNode : Type 0 where
  pub host : Text
  pub port : ℕ

-- What the second part of an entry says: no part and an empty one mean the default port.
abbrev pub port_of : List Text → Option Signed
port_of [] = some (record { is_negative = false; magnitude = 6379 })
port_of ([] ∷ ts) = some (record { is_negative = false; magnitude = 6379 })
port_of (t ∷ ts) = parse_int t

-- isNaN(port) || port < 1 || port > 65535
abbrev pub is_bad_port : Option Signed → Bool
is_bad_port none = true
is_bad_port (some n) = n.is_negative || ltb n.magnitude 1 || ltb 65535 n.magnitude

abbrev pub port_number : Option Signed → ℕ
port_number none = 0
port_number (some n) = n.magnitude

-- The two parts of an entry; others are dropped.
abbrev pub node_of : Text → List Text → Result ClusterNode
node_of entry [] = err (invalid_cluster_node entry)
node_of entry ([] ∷ rest) = err (invalid_cluster_node entry)
node_of entry (host ∷ rest) =
    let port = port_of rest in
    if is_bad_port port
    then err (invalid_cluster_node entry)
    else ok (record { host = host; port = port_number port })

unfoldable pub parse_entry : Text → Result ClusterNode
parse_entry raw = let entry = trim raw in node_of entry (split b':' entry)

-- One entry after another; the first bad one throws.
abbrev pub and_nodes : Result ClusterNode → Result (List ClusterNode) → Result (List ClusterNode)
and_nodes (err e) rest = err e
and_nodes (ok node) (err e) = err e
and_nodes (ok node) (ok nodes) = ok (node ∷ nodes)

unfoldable pub parse_entries : List Text → Result (List ClusterNode)
parse_entries [] = ok []
parse_entries (t ∷ ts) = and_nodes (parse_entry t) (parse_entries ts)

unfoldable pub parse_cluster_nodes : Text → Result (List ClusterNode)
parse_cluster_nodes raw = parse_entries (split b',' raw)
