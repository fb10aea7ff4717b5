-- ===== src/Result.antt =====
-- Errors as values, calls that may fail, and the state that they run on: what the services throw
-- (NestJS exceptions, libs/http-retry/errors.ts, refusals of PostgreSQL) and the awaits of the
-- code.
pub mod Preserves
use async_long_request_proxy.Prelude.{
  ℕ, ◌≡◌, List, Option, none, some, Bool, true, false, if◌then◌else◌,
}

pub data Error : Type 0 where
  -- exceptions of the HTTP layer
  bad_request unauthorized not_found conflict internal_server_error : Error
  -- a CHECK constraint or a unique index refuses a statement
  check_violation unique_violation : Error
  -- a call to PostgreSQL, Redis or BullMQ failed
  connection_lost : Error
  -- DispatchFailedError: attempts and the last status code
  dispatch_failed : ℕ → Option ℕ → Error
  -- NonRetryableError: the status code
  non_retryable : ℕ → Error
  -- errors of the start-up: a bad entry of the cluster's nodes, no nodes, no service yet, no
  -- connection, a bad environment
  invalid_cluster_node : List ℕ → Error
  cluster_nodes_missing not_initialized cannot_connect invalid_environment : Error

pub data Result {ℓ} (A : Type ℓ) : Type ℓ where
  ok : A → Result A
  err : Error → Result A

-- A method on a state that may throw. What was done before a throw stays done.
abbrev pub App {ℓ} : Type ℓ → Type ℓ → Type ℓ
App S A = S → Result A × S

module _ {ℓ} {S A : Type ℓ} where
  abbrev pub pure : A → App S A
  pure a s = (ok a, s)

  abbrev pub raise : Error → App S A
  raise e s = (err e, s)

module _ {ℓ} {S A B : Type ℓ} where
  abbrev pub continue : Result A → (A → App S B) → App S B
  continue (ok a) f s = f a s
  continue (err e) f s = (err e, s)

  infixl 5 ◌>>=◌ ◌>>◌
  abbrev pub ◌>>=◌ : App S A → (A → App S B) → App S B
  ◌>>=◌ m f s = let (r, s') = m s in continue r f s'

  abbrev pub ◌>>◌ : App S A → App S B → App S B
  m >> n = m >>= λ _. n

module _ {ℓ} {S A : Type ℓ} where
  abbrev pub handle : Result A → (Error → App S A) → App S A
  handle (ok a) h s = (ok a, s)
  handle (err e) h s = h e s

  -- try { m } catch (e) { h(e) }
  abbrev pub try◌catch◌ : App S A → (Error → App S A) → App S A
  try◌catch◌ m h s = let (r, s') = m s in handle r h s'

  abbrev pub commit_or_roll_back : Result A → S → S → Result A × S
  commit_or_roll_back (ok a) before after = (ok a, after)
  commit_or_roll_back (err e) before after = (err e, before)

  -- db.transaction(m): an error restores the state from before.
  abbrev pub transaction : App S A → App S A
  transaction m s = let (r, s') = m s in commit_or_roll_back r s s'

  -- m.catch(log): the error is logged and dropped.
  abbrev pub quietly : App S A → App S Unit
  quietly m s = let (r, s') = m s in (ok tt, s')

-- What becomes of a call over the network: it is answered, it never reaches the server, or it
-- takes effect and the answer is lost.
pub data Outcome : Type 0 where
  replied refused reply_lost : Outcome

abbrev pub perform {ℓ} : {S A : Type ℓ} → Outcome → App S A → App S A
perform replied m s = m s
perform refused m s = (err connection_lost, s)
perform reply_lost m s = (err connection_lost, (m s).1)

abbrev pub IsOk {ℓ} : {A : Type ℓ} → Result A → Type 0
IsOk (ok a) = Unit
IsOk (err e) = ⊥
