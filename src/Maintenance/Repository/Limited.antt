-- ===== src/Maintenance/Repository/Limited.antt =====
-- The first rows of a table that satisfy a condition, and what a batch does to them: a SELECT with
-- a LIMIT, and an UPDATE of the rows with the keys that it has found.
use async_long_request_proxy.Prelude.{
  ℕ, zero, suc, ◌≡◌, refl, ap, ◌∙◌, Bool, true, false, List, [], ◌∷◌, map, String, ◌==◌, eq_refl,
  All, Bool-cases, inl, inr, take, if◌then◌else◌,
}
use async_long_request_proxy.Table.{select, update}
use async_long_request_proxy.Table.Batches.{key_in}
use async_long_request_proxy.Table.Keyed.{IsKeyed, Pairwise}
use async_long_request_proxy.Maintenance.Repository.Retention.{All-map, not_in_batch}

module _ {ℓ} {A : Type ℓ} where
  -- The first rows, at most so many, that satisfy `q`.
  unfoldable pub first_rows : (A → Bool) → ℕ → List A → List A
  first_rows q zero ts = []
  first_rows q (suc n) [] = []
  first_rows q (suc n) (t ∷ ts) =
      let less = first_rows q n ts in
      let rest = first_rows q (suc n) ts in if q t then t ∷ less else rest

  -- The table with those rows changed.
  unfoldable pub change_first : (A → Bool) → (A → A) → ℕ → List A → List A
  change_first q f zero ts = ts
  change_first q f (suc n) [] = []
  change_first q f (suc n) (t ∷ ts) =
      let less = change_first q f n ts in
      let rest = change_first q f (suc n) ts in if q t then f t ∷ less else t ∷ rest

  pub first_rows_lem :
      (q : A → Bool) (n : ℕ) (ts : List A) → take n (select q ts) ≡ first_rows q n ts
  unfolding first_rows select
  first_rows_lem q zero ts = refl
  first_rows_lem q (suc n) [] = refl
  first_rows_lem q (suc n) (t ∷ ts) = elim (Bool-cases (q t)) [
    | inl e ↦ rw e (ap (λ us. t ∷ us) (first_rows_lem q n ts))
    | inr e ↦ rw e (first_rows_lem q (suc n) ts)
  ]

  first_rows-All {κ} :
      (P : A → Type κ) (q : A → Bool) (n : ℕ) (ts : List A) → All P ts → All P (first_rows q n ts)
  unfolding first_rows
  first_rows-All P q zero ts h = tt
  first_rows-All P q (suc n) [] h = tt
  first_rows-All P q (suc n) (t ∷ ts) h = elim (Bool-cases (q t)) [
    | inl e ↦ rw e (h.0, first_rows-All P q n ts h.1)
    | inr e ↦ rw e (first_rows-All P q (suc n) ts h.1)
  ]

  pub first_rows-Pairwise {κ} :
      (R : A → A → Type κ) (q : A → Bool) (n : ℕ) (ts : List A)
      → Pairwise R ts
      → Pairwise R (first_rows q n ts)
  unfolding first_rows
  first_rows-Pairwise R q zero ts h = tt
  first_rows-Pairwise R q (suc n) [] h = tt
  first_rows-Pairwise R q (suc n) (t ∷ ts) h = elim (Bool-cases (q t)) [
    | inl e ↦ rw e (first_rows-All (R t) q n ts h.0, first_rows-Pairwise R q n ts h.1)
    | inr e ↦ rw e (first_rows-Pairwise R q (suc n) ts h.1)
  ]

  update-same :
      (p q : A → Bool) (f : A → A) (ts : List A)
      → All (λ t. p t ≡ q t) ts
      → update p f ts ≡ update q f ts
  unfolding update
  update-same p q f [] h = refl
  update-same p q f (t ∷ ts) h = rw (h.0, update-same p q f ts h.1) refl

  select-same : (p q : A → Bool) (ts : List A) → All (λ t. p t ≡ q t) ts → select p ts ≡ select q ts
  unfolding select
  select-same p q [] h = refl
  select-same p q (t ∷ ts) h = rw (h.0, select-same p q ts h.1) refl

  update-nothing : (f : A → A) (ts : List A) → update (λ t. false) f ts ≡ ts
  unfolding update
  update-nothing f [] = refl
  update-nothing f (t ∷ ts) = ap (λ us. t ∷ us) (update-nothing f ts)

  select-nothing : (ts : List A) → select (λ t. false) ts ≡ []
  unfolding select
  select-nothing [] = refl
  select-nothing (t ∷ ts) = select-nothing ts

module _ {ℓ} {A : Type ℓ} (key : A → String) (q : A → Bool) where
  abbrev in_first : ℕ → List A → A → Bool
  in_first n ts u = key_in (map key (take n (select q ts))) (key u)

  -- The first row's key is none of the later rows'.
  in_first-later :
      (t : A) (n : ℕ) (ts : List A)
      → q t ≡ true
      → All (λ u. (key u == key t) ≡ false) ts
      → All (λ u. in_first (suc n) (t ∷ ts) u ≡ in_first n ts u) ts
  unfolding select
  in_first-later t n ts e h =
      All-map (λ u. (key u == key t) ≡ false) (λ u. in_first (suc n) (t ∷ ts) u ≡ in_first n ts u)
        (λ u other. rw (e, other) refl) ts h

  in_first-passed :
      (t : A) (n : ℕ) (ts : List A) → q t ≡ false → in_first n (t ∷ ts) ≡ in_first n ts
  unfolding select
  in_first-passed t n ts e =
      let same : select q (t ∷ ts) ≡ select q ts = rw e refl in
      ap (λ us. λ u. key_in (map key (take n us)) (key u)) same

  -- In a table with unique keys, the rows with the keys that the SELECT has found are the rows that
  -- it has found.
  pub update-in_first :
      (f : A → A) (n : ℕ) (ts : List A)
      → IsKeyed key ts
      → update (in_first n ts) f ts ≡ change_first q f n ts
  unfolding change_first update select
  update-in_first f zero ts k = update-nothing f ts
  update-in_first f (suc n) [] k = refl
  update-in_first f (suc n) (t ∷ ts) k = elim (Bool-cases (q t)) [
    | inl e ↦
        rw (e, eq_refl (key t))
          (ap (λ us. f t ∷ us)
            (update-same (in_first (suc n) (t ∷ ts)) (in_first n ts) f ts
                (in_first-later t n ts e k.0)
              ∙ update-in_first f n ts k.1))
    | inr e ↦
        let other = not_in_batch key t q (suc n) ts k.0 in
        rw (e, other)
          (ap (λ us. t ∷ us)
            (ap (λ p. update p f ts) (in_first-passed t (suc n) ts e)
              ∙ update-in_first f (suc n) ts k.1))
  ]

  pub select-in_first :
      (n : ℕ) (ts : List A) → IsKeyed key ts → select (in_first n ts) ts ≡ first_rows q n ts
  unfolding first_rows select
  select-in_first zero ts k = select-nothing ts
  select-in_first (suc n) [] k = refl
  select-in_first (suc n) (t ∷ ts) k = elim (Bool-cases (q t)) [
    | inl e ↦
        rw (e, eq_refl (key t))
          (ap (λ us. t ∷ us)
            (select-same (in_first (suc n) (t ∷ ts)) (in_first n ts) ts
                (in_first-later t n ts e k.0)
              ∙ select-in_first n ts k.1))
    | inr e ↦
        let other = not_in_batch key t q (suc n) ts k.0 in
        rw (e, other)
          (ap (λ p. select p ts) (in_first-passed t (suc n) ts e) ∙ select-in_first (suc n) ts k.1)
  ]
