-- ===== src/Table.antt =====
-- What the SQL statements of the repositories do to a table, read as a list of rows in the order
-- in which the server scans them: SELECT, UPDATE and DELETE with a WHERE clause, LIMIT 1.
pub mod Laws
pub mod Keyed
pub mod Batches
use async_long_request_proxy.Prelude.{
  Bool, not, Option, none, some, List, [], ◌∷◌, if◌then◌else◌, all,
}

module _ {ℓ} {A : Type ℓ} where
  -- SELECT ... WHERE p LIMIT 1
  unfoldable pub find : (A → Bool) → List A → Option A
  find p [] = none
  find p (t ∷ ts) = if p t then some t else find p ts

  -- SELECT ... WHERE p
  unfoldable pub select : (A → Bool) → List A → List A
  select p [] = []
  select p (t ∷ ts) = let rest = select p ts in if p t then t ∷ rest else rest

  -- UPDATE ... SET f WHERE p
  unfoldable pub update : (A → Bool) → (A → A) → List A → List A
  update p f [] = []
  update p f (t ∷ ts) = (if p t then f t else t) ∷ update p f ts

  -- DELETE ... WHERE p
  unfoldable pub delete : (A → Bool) → List A → List A
  delete p [] = []
  delete p (t ∷ ts) = let rest = delete p ts in if p t then rest else t ∷ rest
