-- ===== src/Config/Connections.antt =====
-- The shared Redis client and the BullMQ connections are opened on the same server.
use async_long_request_proxy.Prelude.{◌≡◌, ◌≢◌, refl, ◌∙◌, Option, none, some, [], ◌∷◌}
use async_long_request_proxy.Result.{Result, ok, err}
use async_long_request_proxy.Text.{Text}
use async_long_request_proxy.Redis.Connection.{Connection, truthy_text}
use async_long_request_proxy.Redis.Client.{
  RedisModuleOptions, RedisService, connect, service_of, new_redis_service,
}
use async_long_request_proxy.Queue.Adapter.{QueueConfig, create_bull_mq_connection}
use async_long_request_proxy.Config.{AppConfig, build_redis_options}

-- `config.redis`, as QueueModule.forRoot is given it.
abbrev pub queue_config : AppConfig → QueueConfig
queue_config cfg = record {
  host = cfg.redis.host;
  port = cfg.redis.port;
  password = cfg.redis.password;
  db = some cfg.redis.db;
  cluster_mode = some cfg.redis.cluster_mode;
  cluster_nodes = cfg.redis.cluster_nodes;
}

abbrev pub client_of : Result RedisService → Result Connection
client_of (err e) = err e
client_of (ok s) = ok s.client

client_of-service_of :
    (o : RedisModuleOptions) (r : Result Connection) → client_of (service_of o r) ≡ r
client_of-service_of o (err e) = refl
client_of-service_of o (ok c) = refl

truthy_text_twice : (o : Option Text) → truthy_text (truthy_text o) ≡ truthy_text o
truthy_text_twice none = refl
truthy_text_twice (some []) = refl
truthy_text_twice (some (c ∷ s)) = refl

truthy_text-some : (o : Option Text) → o ≢ some [] → truthy_text o ≡ o
truthy_text-some none h = refl
truthy_text-some (some []) h = absurd (h refl)
truthy_text-some (some (c ∷ s)) h = refl

-- If the configuration's password is not the empty text, the constructor of the Redis service
-- gives the client that `createBullMqConnection` gives, with the same nodes, or the same host and
-- port, the same password and database, or both throw the same error.
pub connections_agree :
    (cfg : AppConfig) (stored : Option RedisModuleOptions)
    → cfg.redis.password ≢ some []
    → client_of (new_redis_service (build_redis_options cfg) stored).0
      ≡ create_bull_mq_connection (queue_config cfg)
unfolding new_redis_service build_redis_options create_bull_mq_connection
connections_agree cfg stored h =
    client_of-service_of (build_redis_options cfg) (connect (build_redis_options cfg))
    ∙ rw (truthy_text_twice cfg.redis.cluster_nodes, truthy_text-some cfg.redis.password h) refl
