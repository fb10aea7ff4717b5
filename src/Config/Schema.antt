-- ===== src/Config/Schema.antt =====
-- src/config/env.schema.ts: one check after another. All issues together make one ZodError, so
-- which checks fail does not matter for the outcome.
use async_long_request_proxy.Prelude.{
  ℕ, ◌+◌, ◌/◌, Bool, true, false, not, ◌&&◌, ◌||◌, Option, none, some, [], ◌∷◌, nat_eq, leb,
  if◌then◌else◌,
}
use async_long_request_proxy.Text.{Text, units}
use async_long_request_proxy.Text.Numeral.{Number, nan, infinite, finite, same_text, number}

-- The variables of the environment that the schema names.
pub record Variables : Type 0 where
  pub node_env : Option Text
  pub port : Option Text
  pub proxy_api_key : Option Text
  pub database_url : Option Text
  pub redis_host : Option Text
  pub redis_port : Option Text
  pub redis_password : Option Text
  pub redis_db : Option Text
  pub redis_cluster_mode : Option Text
  pub redis_cluster_nodes : Option Text
  pub rate_limit_enabled : Option Text
  pub rate_limit_capacity : Option Text
  pub data_retention_days : Option Text
  pub timeout_sweeper_cron : Option Text
  pub data_retention_cron : Option Text

pub data NodeEnv : Type 0 where
  development production test : NodeEnv

pub record Env : Type 0 where
  pub node_env : NodeEnv
  pub port : ℕ
  pub proxy_api_key : Option Text
  pub database_url : Text
  pub redis_host : Text
  pub redis_port : ℕ
  pub redis_password : Option Text
  pub redis_db : ℕ
  pub redis_cluster_mode : Bool
  pub redis_cluster_nodes : Option Text
  pub rate_limit_enabled : Bool
  pub rate_limit_capacity : ℕ
  pub data_retention_days : ℕ
  pub timeout_sweeper_cron : Text
  pub data_retention_cron : Text

-- The checks .int(), .positive() and .min(n) of zod.
pub record Zod : Type 0 where
  pub int : Number → Bool
  pub positive : Number → Bool
  pub min : ℕ → Number → Bool

infixl 5 ◌>>=◌
unfoldable pub ◌>>=◌ : {A B : Type 0} → Option A → (A → Option B) → Option B
none >>= f = none
some a >>= f = f a

-- .default(value)
abbrev pub or_default : {A : Type 0} → A → (Text → Option A) → Option Text → Option A
or_default value parse none = some value
or_default value parse (some s) = parse s

-- A number that is not negative and has passed `.int()`.
abbrev pub whole_of : Number → ℕ
whole_of nan = 0
whole_of (infinite negative) = 0
whole_of (finite negative units per_one) = units / per_one

-- z.enum([...])
abbrev pub node_env_of : Text → Option NodeEnv
node_env_of s =
    if same_text s (units "development")
    then some development
    else if same_text s (units "production")
    then some production
    else if same_text s (units "test")
    then some test
    else none

-- z.enum(['true', 'false']) and its transform
abbrev pub flag_of : Text → Option Bool
flag_of s =
    if same_text s (units "true")
    then some true
    else if same_text s (units "false")
    then some false
    else none

abbrev pub text_of : Text → Option Text
text_of s = some s

-- .min(1)
abbrev pub some_text_of : Text → Option Text
some_text_of [] = none
some_text_of (c ∷ s) = some (c ∷ s)

-- A pattern's letter, in either case, or its other character.
abbrev pub same_unit : ℕ → ℕ → Bool
same_unit p c = nat_eq p c || leb b'a' p && leb p b'z' && nat_eq (c + 32) p

-- The pattern's text, then at least one character that ends no line.
unfoldable pub begins_line : Text → Text → Bool
begins_line [] [] = false
begins_line [] (c ∷ s) = not (nat_eq c 10 || nat_eq c 13 || nat_eq c 8232 || nat_eq c 8233)
begins_line (p ∷ ps) [] = false
begins_line (p ∷ ps) (c ∷ s) = same_unit p c && begins_line ps s

-- /^postgre(?:s|sql):\/\/.+/i
unfoldable pub is_database_url : Text → Bool
is_database_url s = begins_line (units "postgres://") s || begins_line (units "postgresql://") s

abbrev pub database_url_of : Option Text → Option Text
database_url_of none = none
database_url_of (some s) = if is_database_url s then some s else none

abbrev pub has_nodes : Option Text → Bool
has_nodes none = false
has_nodes (some []) = false
has_nodes (some (c ∷ s)) = true

-- The superRefine: a cluster needs its nodes.
abbrev pub refine : Env → Option Env
refine e = if e.redis_cluster_mode && not (has_nodes e.redis_cluster_nodes) then none else some e

module _ (Z : Zod) where
  abbrev pub positive_of : Text → Option ℕ
  positive_of s = let n = number s in if Z.int n && Z.positive n then some (whole_of n) else none

  abbrev pub not_negative_of : Text → Option ℕ
  not_negative_of s = let n = number s in if Z.int n && Z.min 0 n then some (whole_of n) else none

  unfoldable pub parse_env : Variables → Option Env
  unfolding ◌>>=◌
  parse_env v = do
    node_env ← or_default production node_env_of v.node_env
    port ← or_default 8080 positive_of v.port
    database_url ← database_url_of v.database_url
    redis_host ← or_default (units "localhost") some_text_of v.redis_host
    redis_port ← or_default 6379 positive_of v.redis_port
    redis_db ← or_default 0 not_negative_of v.redis_db
    redis_cluster_mode ← or_default false flag_of v.redis_cluster_mode
    rate_limit_enabled ← or_default false flag_of v.rate_limit_enabled
    rate_limit_capacity ← or_default 1000 positive_of v.rate_limit_capacity
    data_retention_days ← or_default 30 positive_of v.data_retention_days
    timeout_sweeper_cron ← or_default (units "* * * * *") text_of v.timeout_sweeper_cron
    data_retention_cron ← or_default (units "0 3 * * *") text_of v.data_retention_cron
    refine (record {
      node_env = node_env;
      port = port;
      proxy_api_key = v.proxy_api_key;
      database_url = database_url;
      redis_host = redis_host;
      redis_port = redis_port;
      redis_password = v.redis_password;
      redis_db = redis_db;
      redis_cluster_mode = redis_cluster_mode;
      redis_cluster_nodes = v.redis_cluster_nodes;
      rate_limit_enabled = rate_limit_enabled;
      rate_limit_capacity = rate_limit_capacity;
      data_retention_days = data_retention_days;
      timeout_sweeper_cron = timeout_sweeper_cron;
      data_retention_cron = data_retention_cron;
    })
