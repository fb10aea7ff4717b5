-- ===== src/Health/Ready.antt =====
-- Readiness.
use async_long_request_proxy.Prelude.{◌<◌, ◌≡◌, refl, true, arith, &&-true, ◌↔◌, String}
use async_long_request_proxy.Health.{
  Query, answers, fails, hangs, is_up, is_healthy, postgres_is_healthy, redis_is_healthy, ready,
}

-- The query is answered within two seconds.
abbrev pub IsPrompt : Query → Type 0
IsPrompt (answers after) = after < 2000
IsPrompt (fails after message) = ⊥
IsPrompt hangs = ⊥

up-IsPrompt : (timed_out : String) (q : Query) → is_up (is_healthy timed_out q) ≡ true → IsPrompt q
unfolding is_healthy
up-IsPrompt timed_out (answers after) h = ground (arith, h)
up-IsPrompt timed_out (fails after message) h = ground (arith, h)
up-IsPrompt timed_out hangs h = cc

IsPrompt-up : (timed_out : String) (q : Query) → IsPrompt q → is_up (is_healthy timed_out q) ≡ true
unfolding is_healthy
IsPrompt-up timed_out (answers after) h = ground (arith, h)
IsPrompt-up timed_out (fails after message) h = elim h [ ]
IsPrompt-up timed_out hangs h = elim h [ ]

-- The readiness check succeeds exactly if PostgreSQL and Redis are both answered within two
-- seconds: a query that fails, or hangs, or is answered later, makes it fail.
pub ready_lem : (p r : Query) → ready p r ≡ true ↔ IsPrompt p × IsPrompt r
unfolding ready
ready_lem p r = (only, both)
  where
    only : ready p r ≡ true → IsPrompt p × IsPrompt r
    only h =
        let (a, b) = &&-true (is_up (postgres_is_healthy p)) (is_up (redis_is_healthy r)) h in
        (up-IsPrompt _ p a, up-IsPrompt _ r b)

    both : IsPrompt p × IsPrompt r → ready p r ≡ true
    both h =
        rw
          (
            IsPrompt-up "PostgreSQL check timed out after 2s" p h.0,
            IsPrompt-up "Redis check timed out after 2s" r h.1,
          )
          refl
