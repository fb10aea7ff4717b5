-- ===== src/Maintenance/Repository/Retention.antt =====
-- Data retention: the batches delete the old terminal tasks, all of them and nothing else.
use async_long_request_proxy.Prelude.{
  ℕ, zero, suc, ◌<◌, String, ◌≡◌, refl, ap, Bool, true, false, List, [], ◌∷◌, map, All, arith, take,
  length, Bool-cases, inl, inr, ◌==◌, eq_refl,
}
use async_long_request_proxy.Table.{select, delete}
use async_long_request_proxy.Table.Keyed.{IsKeyed, eq_sym}
use async_long_request_proxy.Table.Batches.{key_in}

module _ {ℓ} {A : Type ℓ} where
  -- A DELETE of some of the rows that `q` names, and then of those that it names.
  delete-delete :
      (q p : A → Bool) (ts : List A)
      → All (λ t. p t ≡ true → q t ≡ true) ts
      → delete q (delete p ts) ≡ delete q ts
  unfolding delete
  delete-delete q p [] h = refl
  delete-delete q p (t ∷ ts) h = elim (Bool-cases (p t)) [
    | inl e ↦ rw (e, h.0 e) (delete-delete q p ts h.1)
    | inr e ↦ rw e (elim (Bool-cases (q t)) [
      | inl f ↦ rw f (delete-delete q p ts h.1)
      | inr f ↦ rw f (ap (λ us. t ∷ us) (delete-delete q p ts h.1))
    ])
  ]

  delete-same :
      (q p : A → Bool) (ts : List A)
      → All (λ t. p t ≡ true → q t ≡ true) ts
      → All (λ t. q t ≡ true → p t ≡ true) ts
      → delete p ts ≡ delete q ts
  unfolding delete
  delete-same q p [] h k = refl
  delete-same q p (t ∷ ts) h k = elim (Bool-cases (p t)) [
    | inl e ↦ rw (e, h.0 e) (delete-same q p ts h.1 k.1)
    | inr e ↦ elim (Bool-cases (q t)) [
      | inl f ↦ let wrong = k.0 f in cc
      | inr f ↦ rw (e, f) (ap (λ us. t ∷ us) (delete-same q p ts h.1 k.1))
    ]
  ]

  delete-none : (q : A → Bool) (ts : List A) → select q ts ≡ [] → delete q ts ≡ ts
  unfolding select delete
  delete-none q [] h = refl
  delete-none q (t ∷ ts) h = ground (arith, delete-none q ts)

  pub All-map {κ μ} :
      (P : A → Type κ) (Q : A → Type μ)
      → ((t : A) → P t → Q t)
      → (ts : List A) → All P ts
      → All Q ts
  All-map P Q f [] h = tt
  All-map P Q f (t ∷ ts) h = (f t h.0, All-map P Q f ts h.1)

  pub All-zip {κ μ ν} :
      (P : A → Type κ) (Q : A → Type μ) (R : A → Type ν)
      → ((t : A) → P t → Q t → R t)
      → (ts : List A) → All P ts
      → All Q ts
      → All R ts
  All-zip P Q R f [] h k = tt
  All-zip P Q R f (t ∷ ts) h k = (f t h.0 k.0, All-zip P Q R f ts h.1 k.1)

  pub take_all : (n : ℕ) (xs : List A) → length (take n xs) < n → take n xs ≡ xs
  take_all zero xs h = ground (arith, h)
  take_all (suc n) [] h = refl
  take_all (suc n) (x ∷ xs) h = ap (λ ys. x ∷ ys) (take_all n xs (omega (arith, h)))

module _ {ℓ} {A : Type ℓ} (key : A → String) where
  pub not_in_batch :
      (t : A) (q : A → Bool) (n : ℕ) (ts : List A)
      → All (λ u. (key u == key t) ≡ false) ts
      → key_in (map key (take n (select q ts))) (key t) ≡ false
  unfolding select
  not_in_batch t q zero ts h = refl
  not_in_batch t q (suc n) [] h = refl
  not_in_batch t q (suc n) (u ∷ ts) h = elim (Bool-cases (q u)) [
    | inl e ↦ rw (e, eq_sym (key t) (key u), h.0) (not_in_batch t q n ts h.1)
    | inr e ↦ rw e (not_in_batch t q (suc n) ts h.1)
  ]

  abbrev pub Selected : (A → Bool) → ℕ → List A → A → Type 0
  Selected q n ts u = key_in (map key (take n (select q ts))) (key u) ≡ true → q u ≡ true

  Selected-later :
      (t : A) (q : A → Bool) (n : ℕ) (ts : List A)
      → All (λ u. (key u == key t) ≡ false) ts
      → ((m : ℕ) → All (Selected q m ts) ts)
      → All (Selected q n (t ∷ ts)) ts
  unfolding select
  Selected-later t q zero ts h ih = ih zero
  Selected-later t q (suc n) ts h ih = elim (Bool-cases (q t)) [
    | inl e ↦
        All-zip _ (Selected q n ts) (Selected q (suc n) (t ∷ ts))
          (λ u other s. rw e (λ k. s (ground (arith, k, other)))) ts h (ih n)
    | inr e ↦
        All-map (Selected q (suc n) ts) (Selected q (suc n) (t ∷ ts)) (λ u s. rw e s) ts
          (ih (suc n))
  ]

  -- A row whose key is in the batch is one that the batch selects.
  pub batch-Selected :
      (q : A → Bool) (ts : List A) → IsKeyed key ts → (n : ℕ) → All (Selected q n ts) ts
  unfolding select
  batch-Selected q [] h n = tt
  batch-Selected q (t ∷ ts) h n = (head, Selected-later t q n ts h.0 (batch-Selected q ts h.1))
    where
      head : Selected q n (t ∷ ts) t
      head k = elim (Bool-cases (q t)) [
        | inl e ↦ e
        | inr e ↦
            let other = not_in_batch t q n ts h.0 in let same = (rw (select, e, other) at k) in cc
      ]

  -- Where the whole selection fits into the batch, every selected row's key is in it.
  abbrev Batched : (A → Bool) → List A → A → Type 0
  Batched q ts u = q u ≡ true → key_in (map key (select q ts)) (key u) ≡ true

  selected-batch : (q : A → Bool) (ts : List A) → All (Batched q ts) ts
  unfolding select
  selected-batch q [] = tt
  selected-batch q (t ∷ ts) = (
    λ e. rw (e, eq_refl (key t)) refl,
    All-map (Batched q ts) (Batched q (t ∷ ts))
        (λ u ih f. elim (Bool-cases (q t)) [
          | inl e ↦ rw e (ground (arith, ih f))
          | inr e ↦ rw e (ih f)
        ])
        ts (selected-batch q ts),
  )

-- The rows of the table that a batch names, deleted, are those of the table that are old, or some
-- of them if there are more than fit.
module _ {ℓ} {A : Type ℓ} (key : A → String) (q : A → Bool) (ts : List A) (keyed : IsKeyed key ts)
    (n : ℕ) where
  abbrev in_batch : A → Bool
  in_batch t = key_in (map key (take n (select q ts))) (key t)

  pub delete-batch : delete q (delete in_batch ts) ≡ delete q ts
  delete-batch = delete-delete q in_batch ts (batch-Selected key q ts keyed n)

  pub delete-last_batch : length (take n (select q ts)) < n → delete in_batch ts ≡ delete q ts
  delete-last_batch few =
      let whole = take_all n (select q ts) few in
      delete-same q in_batch ts (batch-Selected key q ts keyed n)
        (rw whole (selected-batch key q ts))
