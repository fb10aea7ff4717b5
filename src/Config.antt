-- ===== src/Config.antt =====
-- src/config: from the environment's variables to the configuration and the options of the clients.
-- The checks of numbers by zod are a parameter; `z.coerce.number()` is `Number`.
pub mod Schema
pub mod Valid
pub mod Connections
use async_long_request_proxy.Prelude.{ℕ, Bool, true, false, Option, none, some}
use async_long_request_proxy.Result.{invalid_environment, Result, ok, err}
use async_long_request_proxy.Text.{Text}
use async_long_request_proxy.Redis.Connection.{truthy_text}
use async_long_request_proxy.Redis.Client.{RedisModuleOptions}
use async_long_request_proxy.Config.Schema.{NodeEnv, Variables, Env, Zod, parse_env}

-- AppConfig and its parts.
pub record AppSection : Type 0 where
  pub env : NodeEnv
  pub port : ℕ
  pub proxy_api_key : Option Text

pub record RedisSection : Type 0 where
  pub host : Text
  pub port : ℕ
  pub password : Option Text
  pub db : ℕ
  pub cluster_mode : Bool
  pub cluster_nodes : Option Text

pub record RateLimitSection : Type 0 where
  pub enabled : Bool
  pub capacity : ℕ

pub record MaintenanceSection : Type 0 where
  pub data_retention_days : ℕ
  pub timeout_sweeper_cron : Text
  pub data_retention_cron : Text

pub record AppConfig : Type 0 where
  pub app : AppSection
  pub database_url : Text
  pub redis : RedisSection
  pub rate_limit : RateLimitSection
  pub maintenance : MaintenanceSection

abbrev pub config_of : Env → AppConfig
config_of e = record {
  app = record { env = e.node_env; port = e.port; proxy_api_key = e.proxy_api_key };
  database_url = e.database_url;
  redis = record {
    host = e.redis_host;
    port = e.redis_port;
    password = e.redis_password;
    db = e.redis_db;
    cluster_mode = e.redis_cluster_mode;
    cluster_nodes = e.redis_cluster_nodes;
  };
  rate_limit = record { enabled = e.rate_limit_enabled; capacity = e.rate_limit_capacity };
  maintenance = record {
    data_retention_days = e.data_retention_days;
    timeout_sweeper_cron = e.timeout_sweeper_cron;
    data_retention_cron = e.data_retention_cron;
  };
}

abbrev pub parsed_config : Option Env → Result AppConfig
parsed_config none = err invalid_environment
parsed_config (some e) = ok (config_of e)

-- `appConfig`, on what `process.env` holds once the .env file, if there is one, has been read.
unfoldable pub app_config : Zod → Variables → Result AppConfig
app_config Z v = parsed_config (parse_env Z v)

-- redis.factory.ts: a text that is missing or empty is left out.
unfoldable pub build_redis_options : AppConfig → RedisModuleOptions
build_redis_options cfg = record {
  host = cfg.redis.host;
  port = cfg.redis.port;
  password = truthy_text cfg.redis.password;
  db = some cfg.redis.db;
  cluster_mode = some cfg.redis.cluster_mode;
  cluster_nodes = truthy_text cfg.redis.cluster_nodes;
}
