-- ===== src/Tasks/Repository/Integrity/Rows.antt =====
-- The constraints of the tables, and what is free for a new row.
use async_long_request_proxy.Prelude.{
  ◌≡◌, ◌∙◌, String, Bool, true, false, Option, none, some, List, [], ◌∷◌, map, ◌==◌, all, any, All,
  &&-true, Bool-cases, inl, inr,
}
use async_long_request_proxy.Table.{select, update}
use async_long_request_proxy.Table.Keyed.{Pairwise, IsKeyed, any-false, eq_sym}
use async_long_request_proxy.Tasks.Schema.{
  TaskSelect, tasks_valid_state_data, has_idempotency_key, idempotency_key_taken,
}
use async_long_request_proxy.Delivery.Schema.{Db}
use async_long_request_proxy.Delivery.Events.Log.{IsLog}
use async_long_request_proxy.Tasks.Repository.{has_id}

abbrev pub IsValid : TaskSelect → Type 0
IsValid t = tasks_valid_state_data t ≡ true

-- Two idempotency keys that the unique index allows side by side.
abbrev pub OtherKey : Option String → Option String → Type 0
OtherKey j none = Unit
OtherKey none (some k) = Unit
OtherKey (some j) (some k) = (j == k) ≡ false

abbrev pub OtherIdempotencyKey : TaskSelect → TaskSelect → Type 0
OtherIdempotencyKey t u = OtherKey t.idempotency_key u.idempotency_key

pub record IsSound (db : Db) : Type 0 where
  pub valid : All (λ t. tasks_valid_state_data t ≡ true) db.tasks
  pub keys : IsKeyed (λ t. t.id) db.tasks
  pub idempotency_keys : Pairwise OtherIdempotencyKey db.tasks
  pub log : IsLog db.events

pub update-IsValid :
    (p : TaskSelect → Bool) (f : TaskSelect → TaskSelect) (ts : List TaskSelect)
    → all tasks_valid_state_data (map f (select p ts)) ≡ true
    → All IsValid ts
    → All IsValid (update p f ts)
unfolding select update
update-IsValid p f [] h v = v
update-IsValid p f (t ∷ ts) h v = elim (Bool-cases (p t)) [
  | inl e ↦ let parts = &&-true _ _ (rw e at h) in rw e (parts.0, update-IsValid p f ts parts.1 v.1)
  | inr e ↦ rw e (v.0, update-IsValid p f ts (rw e at h) v.1)
]

pub idempotency_key_free :
    (key : Option String) (ts : List TaskSelect)
    → idempotency_key_taken key ts ≡ false
    → All (λ t. OtherKey t.idempotency_key key) ts
unfolding idempotency_key_taken
idempotency_key_free none ts h = go ts
  where
    go : (us : List TaskSelect) → All (λ t. OtherKey t.idempotency_key none) us
    go [] = tt
    go (u ∷ us) = (tt, go us)
idempotency_key_free (some k) ts h = go ts (any-false (has_idempotency_key k) ts h)
  where
    other :
        (j : Option String)
        → (elim j [ none ↦ false | some i ↦ i == k ]) ≡ false
        → OtherKey j (some k)
    other none e = tt
    other (some j) e = e

    go :
        (us : List TaskSelect)
        → All (λ t. has_idempotency_key k t ≡ false) us
        → All (λ t. OtherKey t.idempotency_key (some k)) us
    go [] a = tt
    go (u ∷ us) a = (other u.idempotency_key a.0, go us a.1)

pub id_free :
    (id : String) (ts : List TaskSelect)
    → any (has_id id) ts ≡ false
    → All (λ t. (id == t.id) ≡ false) ts
id_free id ts h = go ts (any-false (has_id id) ts h)
  where
    go :
        (us : List TaskSelect)
        → All (λ t. has_id id t ≡ false) us
        → All (λ t. (id == t.id) ≡ false) us
    go [] a = tt
    go (u ∷ us) a = (eq_sym id u.id ∙ a.0, go us a.1)
