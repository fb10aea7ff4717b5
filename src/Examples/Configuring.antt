-- ===== src/Examples/Configuring.antt =====
-- Numbers as they are read, and the configuration, at concrete variables.
use mathlib.Core.List.{cons-ne-nil}
use async_long_request_proxy.Prelude.{
  ◌%◌, ◌^◌, ◌≡◌, refl, ap, true, false, not, ◌&&◌, Option, none, some, [], leb, nat_eq, arith, Bool,
  &&-true,
}
use async_long_request_proxy.Result.{ok, err, invalid_environment}
use async_long_request_proxy.Text.{
  Text, units, is_white_space, trim_start, trim_end, value, span_digits,
}
use async_long_request_proxy.Text.Numeral.{
  Number, nan, infinite, finite, number, round_half_even, finer, coarser, to_double, value_in,
  same_text,
}
use async_long_request_proxy.Redis.Client.{new_redis_service}
use async_long_request_proxy.Config.Schema.{
  Variables, NodeEnv, Zod, whole_of, is_database_url, begins_line, parse_env,
}
use async_long_request_proxy.Config.{AppConfig, app_config, build_redis_options}
use async_long_request_proxy.Config.Valid.{max_safe_integer, ZodLaws, IsConfig, app_config-IsConfig}
use async_long_request_proxy.Config.Connections.{queue_config, client_of, connections_agree}
use async_long_request_proxy.Queue.Adapter.{create_bull_mq_connection}

numbers_read :
    (number (units " 8080 ") ≡ number (units "8080"))
    × (number (units "0x1F") ≡ number (units "31"))
    × (number (units "1e3") ≡ number (units "1000"))
    × (number (units "9007199254740993") ≡ number (units "9007199254740992"))
    × (number (units "1e400") ≡ infinite false)
    × (number (units "-Infinity") ≡ infinite true)
    × (number (units "12a") ≡ nan)
    × (number (units ".") ≡ nan)
    × (number (units ".5") ≡ finite false (2 ^ 52) (2 ^ 53))
unfolding number trim_start trim_end is_white_space to_double finer coarser round_half_even value_in
    same_text span_digits value
numbers_read = (refl, refl, refl, refl, refl, refl, refl, refl, refl)

abbrev is_whole : Number → Bool
is_whole (finite negative units per_one) = not negative && nat_eq (units % per_one) 0
is_whole _ = false

abbrev zod : Zod
zod = record {
  int = λ x. leb (whole_of x) max_safe_integer && is_whole x;
  positive = λ x. leb 1 (whole_of x) && is_whole x;
  min = λ n x. leb n (whole_of x) && is_whole x;
}

zod_laws : ZodLaws zod
zod_laws = record {
  int_whole = λ x h.
      let (a, _) = &&-true (leb (whole_of x) max_safe_integer) (is_whole x) h in ground arith;
  int_positive = λ x h k. let (a, _) = &&-true (leb 1 (whole_of x)) (is_whole x) k in ground arith;
}

abbrev variables : Variables
variables = record {
  node_env = none;
  port = some (units "3000");
  proxy_api_key = none;
  database_url = some (units "POSTGRESQL://db");
  redis_host = none;
  redis_port = none;
  redis_password = some (units "secret");
  redis_db = some (units "0");
  redis_cluster_mode = some (units "true");
  redis_cluster_nodes = some (units "a:7000");
  rate_limit_enabled = some (units "false");
  rate_limit_capacity = none;
  data_retention_days = none;
  timeout_sweeper_cron = none;
  data_retention_cron = none;
}

abbrev pub configuration : AppConfig
configuration = record {
  app = record { env = NodeEnv.production; port = 3000; proxy_api_key = none };
  database_url = units "POSTGRESQL://db";
  redis = record {
    host = units "localhost";
    port = 6379;
    password = some (units "secret");
    db = 0;
    cluster_mode = true;
    cluster_nodes = some (units "a:7000");
  };
  rate_limit = record { enabled = false; capacity = 1000 };
  maintenance = record {
    data_retention_days = 30;
    timeout_sweeper_cron = units "* * * * *";
    data_retention_cron = units "0 3 * * *";
  };
}

accepted : app_config zod variables ≡ ok configuration
unfolding app_config parse_env number trim_start trim_end is_white_space to_double finer coarser
    round_half_even value_in same_text span_digits value is_database_url begins_line
accepted = refl

app_config-IsConfig_example : IsConfig configuration
app_config-IsConfig_example = app_config-IsConfig zod zod_laws variables configuration accepted

-- A cluster without nodes, a port of zero and a URL of another database stop the start-up.
refused_environments :
    (app_config zod (record variables { redis_cluster_nodes = some [] }) ≡ err invalid_environment)
    × (app_config zod (record variables { port = some (units "0") }) ≡ err invalid_environment)
    × (app_config zod (record variables { database_url = some (units "mysql://db") })
        ≡ err invalid_environment)
unfolding app_config parse_env number trim_start trim_end is_white_space to_double finer coarser
    round_half_even value_in same_text span_digits value is_database_url begins_line
refused_environments = (refl, refl, refl)

abbrev text_or_empty : Option Text → Text
text_or_empty none = []
text_or_empty (some s) = s

connections_agree_example :
    client_of (new_redis_service (build_redis_options configuration) none).0
    ≡ create_bull_mq_connection (queue_config configuration)
connections_agree_example =
    connections_agree configuration none
      (λ h. cons-ne-nil b's' (units "ecret") (ap text_or_empty h))
