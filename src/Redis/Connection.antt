-- ===== src/Redis/Connection.antt =====
-- libs/redis: the constructor options of an ioredis client, and the choice of a cluster's client.
use async_long_request_proxy.Prelude.{ℕ, Option, none, some, List, [], ◌∷◌}
use async_long_request_proxy.Result.{cluster_nodes_missing, Result, ok, err}
use async_long_request_proxy.Text.{Text}
use async_long_request_proxy.Redis.ClusterNodes.{ClusterNode, parse_cluster_nodes}

-- What stands behind the nodes, or behind host and port; `max_retries` is null if it is `none`.
pub record RedisOptions : Type 0 where
  pub password : Option Text
  pub db : Option ℕ
  pub max_retries : Option ℕ

-- new Cluster(...), or new Redis(...)
pub data Connection : Type 0 where
  cluster : List ClusterNode → RedisOptions → Connection
  standalone : (host : Text) (port : ℕ) → RedisOptions → Connection

-- A missing and an empty text are both falsy.
abbrev pub truthy_text : Option Text → Option Text
truthy_text none = none
truthy_text (some []) = none
truthy_text (some (c ∷ s)) = some (c ∷ s)

abbrev pub of_nodes : RedisOptions → Result (List ClusterNode) → Result Connection
of_nodes options (err e) = err e
of_nodes options (ok nodes) = ok (cluster nodes options)

-- Without nodes, or with a bad one, this throws.
abbrev pub connect_cluster : RedisOptions → Option Text → Result Connection
connect_cluster options none = err cluster_nodes_missing
connect_cluster options (some raw) = of_nodes options (parse_cluster_nodes raw)
