-- ===== src/Redis/Client.antt =====
-- libs/redis/redis.service.ts: the shared client and the isolated ones. `_storedOptions` is the
-- state; `duplicate` of ioredis is a parameter.
pub mod Isolated
use async_long_request_proxy.Prelude.{
  ℕ, String, Bool, true, false, Option, none, some, if◌then◌else◌,
}
use async_long_request_proxy.Result.{not_initialized, Result, ok, err, App}
use async_long_request_proxy.Text.{Text}
use async_long_request_proxy.Redis.Connection.{
  RedisOptions, Connection, standalone, truthy_text, connect_cluster,
}

pub record RedisModuleOptions : Type 0 where
  pub host : Text
  pub port : ℕ
  pub password : Option Text
  pub db : Option ℕ
  pub cluster_mode : Option Bool
  pub cluster_nodes : Option Text

pub record RedisService : Type 0 where
  pub is_cluster : Bool
  pub client : Connection

-- options.clusterMode === true
abbrev pub is_true : Option Bool → Bool
is_true none = false
is_true (some b) = b

abbrev pub redis_options : RedisModuleOptions → RedisOptions
redis_options o = record { password = o.password; db = o.db; max_retries = none }

abbrev pub connect_nodes : RedisModuleOptions → Result Connection
connect_nodes o = connect_cluster (redis_options o) (truthy_text o.cluster_nodes)

abbrev pub connect : RedisModuleOptions → Result Connection
connect o =
    if is_true o.cluster_mode
    then connect_nodes o
    else ok (standalone o.host o.port (redis_options o))

abbrev pub service_of : RedisModuleOptions → Result Connection → Result RedisService
service_of o (err e) = err e
service_of o (ok client) = ok (record { is_cluster = is_true o.cluster_mode; client = client })

-- The constructor. The options are stored before anything can throw.
unfoldable pub new_redis_service : RedisModuleOptions → App (Option RedisModuleOptions) RedisService
new_redis_service options stored = (service_of options (connect options), some options)

module _ (duplicate : Connection → Connection) where
  abbrev pub isolated : RedisService → Option RedisModuleOptions → Result Connection
  isolated service none = err not_initialized
  isolated service (some opts) =
      if service.is_cluster then connect_nodes opts else ok (duplicate service.client)

  unfoldable pub create_isolated_client : RedisService → App (Option RedisModuleOptions) Connection
  create_isolated_client service stored = (isolated service stored, stored)

-- The commands of the wrapper, as they are sent.
pub data Command : Type 0 where
  get_command del_command : String → Command
  set_command : String → String → Option ℕ → Command
  expire_command : String → ℕ → Command

abbrev pub get : String → Command
get key = get_command key

-- With a time to live: SET key value EX ttl.
abbrev pub set : String → String → Option ℕ → Command
set key value ttl_seconds = set_command key value ttl_seconds

abbrev pub del : String → Command
del key = del_command key

abbrev pub expire : String → ℕ → Command
expire key ttl_seconds = expire_command key ttl_seconds
