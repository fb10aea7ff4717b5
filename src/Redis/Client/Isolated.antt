-- ===== src/Redis/Client/Isolated.antt =====
-- Isolated clients have the connection parameters of the shared client.
use mathlib.Core.Path.{subst}
use async_long_request_proxy.Prelude.{◌≡◌, refl, ap, Option, some, Bool-cases, inl, inr}
use async_long_request_proxy.Result.{Result, ok, err}
use async_long_request_proxy.Redis.Connection.{Connection}
use async_long_request_proxy.Redis.Client.{
  RedisModuleOptions, RedisService, is_true, connect, service_of, new_redis_service, isolated,
  create_isolated_client,
}

module _ (duplicate : Connection → Connection) (keeps : (c : Connection) → duplicate c ≡ c) where
  isolated-service :
      (o : RedisModuleOptions) (r : Result Connection) (s : RedisService)
      → connect o ≡ r
      → service_of o r ≡ ok s
      → isolated duplicate s (some o) ≡ ok s.client
  isolated-service o (err e) s c h = cc
  isolated-service o (ok client) s c h =
      let made : record { is_cluster = is_true o.cluster_mode; client = client } ≡ s = cc in
      subst (λ (s : RedisService). isolated duplicate s (some o) ≡ ok s.client) made
        (elim (Bool-cases (is_true o.cluster_mode)) [
          | inl b ↦ rw b (rw b at c)
          | inr b ↦ rw b (ap ok (keeps client))
        ])

  -- `duplicate` keeps the connection parameters. If the service has been made from some options,
  -- whatever was stored before, then each client isolated from it afterwards has the parameters of
  -- the service's own client, and the stored options stay those of the service, so this holds for
  -- every client after it too.
  pub create_isolated_client_lem :
      (o : RedisModuleOptions) (stored : Option RedisModuleOptions) (s : RedisService)
      → (new_redis_service o stored).0 ≡ ok s
      → create_isolated_client duplicate s (new_redis_service o stored).1 ≡ (ok s.client, some o)
  unfolding new_redis_service create_isolated_client
  create_isolated_client_lem o stored s h =
      ap (λ r. (r, some o)) (isolated-service o (connect o) s refl h)
