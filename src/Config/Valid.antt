-- ===== src/Config/Valid.antt =====
-- What an accepted environment gives.
use mathlib.Core.Path.{subst}
use mathlib.Core.List.{cons-ne-nil}
use async_long_request_proxy.Prelude.{
  ℕ, ◌-◌, ◌^◌, ◌≤◌, ◌≡◌, ◌≢◌, Bool, true, false, not, ◌&&◌, Option, none, some, [], ◌∷◌, &&-true,
  if_rule, arith,
}
use async_long_request_proxy.Result.{ok}
use async_long_request_proxy.Text.{Text, units}
use async_long_request_proxy.Text.Numeral.{Number, number}
use async_long_request_proxy.Config.Schema.{
  Variables, NodeEnv, Env, Zod, ◌>>=◌, or_default, whole_of, node_env_of, flag_of, text_of,
  some_text_of, is_database_url, database_url_of, has_nodes, refine, positive_of, not_negative_of,
  parse_env,
}
use async_long_request_proxy.Config.{AppConfig, config_of, parsed_config, app_config}

abbrev pub max_safe_integer : ℕ
max_safe_integer = 2 ^ 53 - 1

-- What zod documents: `.int()` accepts whole numbers up to MAX_SAFE_INTEGER, `.positive()` those
-- above zero.
pub record ZodLaws (Z : Zod) : Type 0 where
  pub int_whole : (x : Number) → Z.int x ≡ true → whole_of x ≤ max_safe_integer
  pub int_positive : (x : Number) → Z.int x ≡ true → Z.positive x ≡ true → 1 ≤ whole_of x

abbrev pub IsPositive : ℕ → Type 0
IsPositive n = (1 ≤ n) × (n ≤ max_safe_integer)

-- A property of a value, if there is one.
Gives : {A : Type 0} → (A → Type 0) → Option A → Type 0
Gives P none = Unit
Gives P (some a) = P a

module _ {A B : Type 0} (P : A → Type 0) (Q : B → Type 0) where
  >>=-Gives :
      (m : Option A) (f : A → Option B)
      → Gives P m
      → ((a : A) → P a → Gives Q (f a))
      → Gives Q (m >>= f)
  unfolding Gives ◌>>=◌
  >>=-Gives none f h k = tt
  >>=-Gives (some a) f h k = k a h

module _ {A : Type 0} (P : A → Type 0) where
  or_default-Gives :
      (d : A) (f : Text → Option A) (v : Option Text)
      → P d
      → ((s : Text) → Gives P (f s))
      → Gives P (or_default d f v)
  unfolding Gives
  or_default-Gives d f none h k = h
  or_default-Gives d f (some s) h k = k s

record IsEnv (e : Env) : Type 0 where
  port : IsPositive e.port
  database_url : is_database_url e.database_url ≡ true
  redis_host : e.redis_host ≢ []
  redis_port : IsPositive e.redis_port
  redis_db : e.redis_db ≤ max_safe_integer
  rate_limit_capacity : IsPositive e.rate_limit_capacity
  data_retention_days : IsPositive e.data_retention_days
  nodes : e.redis_cluster_mode ≡ true → has_nodes e.redis_cluster_nodes ≡ true

-- Ports and amounts are positive whole numbers, the texts have their form, and a cluster has nodes.
pub record IsConfig (c : AppConfig) : Type 0 where
  pub port : IsPositive c.app.port
  pub database_url : is_database_url c.database_url ≡ true
  pub redis_host : c.redis.host ≢ []
  pub redis_port : IsPositive c.redis.port
  pub redis_db : c.redis.db ≤ max_safe_integer
  pub capacity : IsPositive c.rate_limit.capacity
  pub retention_days : IsPositive c.maintenance.data_retention_days
  pub nodes : c.redis.cluster_mode ≡ true → has_nodes c.redis.cluster_nodes ≡ true

some_text_of-Gives : (s : Text) → Gives (λ t. t ≢ []) (some_text_of s)
unfolding Gives
some_text_of-Gives [] = tt
some_text_of-Gives (c ∷ s) = cons-ne-nil c s

database_url_of-Gives :
    (v : Option Text) → Gives (λ t. is_database_url t ≡ true) (database_url_of v)
unfolding Gives
database_url_of-Gives none = tt
database_url_of-Gives (some s) =
    if_rule (Gives (λ t. is_database_url t ≡ true)) (is_database_url s) (some s) none (λ h. h)
      (λ _. tt)

anything : {A : Type 0} (o : Option A) → Gives (λ _. Unit {0}) o
unfolding Gives
anything none = tt
anything (some a) = tt

refine-Gives :
    (e : Env)
    → ((e.redis_cluster_mode ≡ true → has_nodes e.redis_cluster_nodes ≡ true) → IsEnv e)
    → Gives IsEnv (refine e)
unfolding Gives
refine-Gives e h =
    if_rule (Gives IsEnv) (e.redis_cluster_mode && not (has_nodes e.redis_cluster_nodes)) none
      (some e) (λ _. tt)
      (λ f. h (needs_nodes e.redis_cluster_mode (has_nodes e.redis_cluster_nodes) f))
  where
    needs_nodes : (a b : Bool) → (a && not b) ≡ false → a ≡ true → b ≡ true
    needs_nodes a b h k = ground (arith, h, k)

module _ (Z : Zod) (laws : ZodLaws Z) where
  positive_of-Gives : (s : Text) → Gives IsPositive (positive_of Z s)
  unfolding Gives
  positive_of-Gives s =
      let n = number s in
      if_rule (Gives IsPositive) (Z.int n && Z.positive n) (some (whole_of n)) none
        (λ h.
          let (i, p) = &&-true (Z.int n) (Z.positive n) h in
          (laws.int_positive n i p, laws.int_whole n i))
        (λ _. tt)

  not_negative_of-Gives : (s : Text) → Gives (λ n. n ≤ max_safe_integer) (not_negative_of Z s)
  unfolding Gives
  not_negative_of-Gives s =
      let n = number s in
      if_rule (Gives (λ n. n ≤ max_safe_integer)) (Z.int n && Z.min 0 n) (some (whole_of n)) none
        (λ h. let (i, _) = &&-true (Z.int n) (Z.min 0 n) h in laws.int_whole n i) (λ _. tt)

  parse_env-Gives : (v : Variables) → Gives IsEnv (parse_env Z v)
  unfolding parse_env
  parse_env-Gives v =
      let positive = λ (d : ℕ) (h : IsPositive d) (w : Option Text).
        or_default-Gives IsPositive d (positive_of Z) w h positive_of-Gives in
      >>=-Gives _ IsEnv _ _ (anything (or_default NodeEnv.production node_env_of v.node_env))
        (λ _ _.
          >>=-Gives IsPositive IsEnv _ _ (positive 8080 (omega arith, omega arith) v.port)
            (λ port hp. >>=-Gives _ IsEnv _ _ (database_url_of-Gives v.database_url) (λ url hu.
              >>=-Gives _ IsEnv _ _
                (or_default-Gives (λ t. t ≢ []) (units "localhost") some_text_of v.redis_host
                  (cons-ne-nil _ _) some_text_of-Gives)
                (λ host hh.
                  >>=-Gives IsPositive IsEnv _ _
                    (positive 6379 (omega arith, omega arith) v.redis_port)
                    (λ rport hr.
                      >>=-Gives _ IsEnv _ _
                        (or_default-Gives (λ n. n ≤ max_safe_integer) 0 (not_negative_of Z)
                          v.redis_db (omega arith) not_negative_of-Gives)
                        (λ db hd.
                          >>=-Gives _ IsEnv _ _
                            (anything (or_default false flag_of v.redis_cluster_mode))
                            (λ mode _.
                              >>=-Gives _ IsEnv _ _
                                (anything (or_default false flag_of v.rate_limit_enabled))
                                (λ enabled _.
                                  >>=-Gives IsPositive IsEnv _ _
                                    (positive 1000 (omega arith, omega arith) v.rate_limit_capacity)
                                    (λ capacity hc.
                                      >>=-Gives IsPositive IsEnv _ _
                                        (positive 30 (omega arith, omega arith)
                                          v.data_retention_days)
                                        (λ days hy.
                                          >>=-Gives _ IsEnv _ _
                                            (anything (
                                              or_default (units "* * * * *") text_of
                                                v.timeout_sweeper_cron))
                                            (λ sweep _.
                                              >>=-Gives _ IsEnv _ _
                                                (anything (
                                                  or_default (units "0 3 * * *") text_of
                                                    v.data_retention_cron))
                                                (λ retain _. refine-Gives _ (λ hn. record {
                                                  port = hp;
                                                  database_url = hu;
                                                  redis_host = hh;
                                                  redis_port = hr;
                                                  redis_db = hd;
                                                  rate_limit_capacity = hc;
                                                  data_retention_days = hy;
                                                  nodes = hn;
                                                })))))))))))))

IsEnv-IsConfig : (e : Env) → IsEnv e → IsConfig (config_of e)
IsEnv-IsConfig e h = record {
  port = h.port;
  database_url = h.database_url;
  redis_host = h.redis_host;
  redis_port = h.redis_port;
  redis_db = h.redis_db;
  capacity = h.rate_limit_capacity;
  retention_days = h.data_retention_days;
  nodes = h.nodes;
}

parsed_config-IsConfig :
    (o : Option Env) (c : AppConfig) → Gives IsEnv o → parsed_config o ≡ ok c → IsConfig c
unfolding Gives
parsed_config-IsConfig none c g h = cc
parsed_config-IsConfig (some e) c g h =
    let same : config_of e ≡ c = cc in subst IsConfig same (IsEnv-IsConfig e g)

-- Under the documented meaning of zod's checks, every configuration that `appConfig` returns is
-- valid: both ports, the capacity and the retention days are whole numbers from 1 to 2 ^ 53 - 1,
-- the number of the Redis database is at most that, the URL of the database has its form, the
-- Redis host is not empty, and in cluster mode the text of the nodes is not empty.
pub app_config-IsConfig :
    (Z : Zod) → ZodLaws Z → (v : Variables) (c : AppConfig) → app_config Z v ≡ ok c → IsConfig c
unfolding app_config
app_config-IsConfig Z laws v c h =
    parsed_config-IsConfig (parse_env Z v) c (parse_env-Gives Z laws v) h
