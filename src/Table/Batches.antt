-- ===== src/Table/Batches.antt =====
-- Statements on a batch of rows: the rows that a SELECT with a LIMIT found, named by their keys.
use async_long_request_proxy.Prelude.{
  ℕ, zero, suc, ◌≡◌, refl, Bool, true, false, ◌&&◌, List, [], ◌∷◌, map, String, ◌==◌, eq_refl, All,
  Bool-cases, arith, inl, inr, any, all, take, &&-true,
}
use async_long_request_proxy.Table.{select}

abbrev pub key_in : List String → String → Bool
key_in keys k = any (λ i. k == i) keys

module _ {ℓ} {A : Type ℓ} where
  pub any-both :
      (q p : A → Bool) (xs : List A)
      → any q xs ≡ true
      → All (λ t. p t ≡ true) xs
      → any (λ t. q t && p t) xs ≡ true
  any-both q p [] h a = cc
  any-both q p (x ∷ xs) h a = elim (Bool-cases (q x)) [
    | inl e ↦ rw (e, a.0) refl
    | inr e ↦ rw e (any-both q p xs (rw e at h) a.1)
  ]

  any-take : (r : A → Bool) (n : ℕ) (xs : List A) → any r (take n xs) ≡ true → any r xs ≡ true
  any-take r zero xs h = cc
  any-take r (suc n) [] h = cc
  any-take r (suc n) (x ∷ xs) h = elim (Bool-cases (r x)) [
    | inl e ↦ rw e refl
    | inr e ↦ rw e (any-take r n xs (rw e at h))
  ]

  any-select : (r p : A → Bool) (xs : List A) → any r (select p xs) ≡ true → any r xs ≡ true
  unfolding select
  any-select r p [] h = cc
  any-select r p (x ∷ xs) h = elim (Bool-cases (r x)) [
    | inl e ↦ rw e refl
    | inr e ↦ rw e (
        any-select r p xs
          (elim (Bool-cases (p x)) [ inl s ↦ (rw (s, e) at h) | inr s ↦ (rw s at h) ]))
  ]

  pub any-batch :
      (r p : A → Bool) (n : ℕ) (xs : List A) → any r (take n (select p xs)) ≡ true → any r xs ≡ true
  any-batch r p n xs h = any-select r p xs (any-take r n (select p xs) h)

  -- One bad row among those that match makes the UPDATE bad.
  pub all-bad {κ} :
      (V : A → Type κ) (valid q p : A → Bool) (f : A → A)
      → ((t : A) → q t ≡ true → V t → valid (f t) ≡ false)
      → (ts : List A) → All V ts
      → any (λ t. q t && p t) ts ≡ true
      → all valid (map f (select p ts)) ≡ false
  unfolding select
  all-bad V valid q p f bad [] v h = cc
  all-bad V valid q p f bad (t ∷ ts) v h = elim (Bool-cases (q t && p t)) [
    | inl e ↦ let (a, b) = &&-true (q t) (p t) e in rw (b, bad t a v.0) refl
    | inr e ↦
        let rest = all-bad V valid q p f bad ts v.1 (rw e at h) in
        elim (Bool-cases (p t)) [ inl s ↦ rw (s, rest) (ground arith) | inr s ↦ rw s rest ]
  ]

module _ {ℓ} {A : Type ℓ} (key : A → String) where
  -- The keys of a batch name its rows.
  pub All-key_in : (xs : List A) → All (λ t. key_in (map key xs) (key t) ≡ true) xs
  All-key_in xs = go xs (key_in (map key xs)) (λ i h. h)
    where
      go :
          (ys : List A) (P : String → Bool)
          → ((i : String) → key_in (map key ys) i ≡ true → P i ≡ true)
          → All (λ t. P (key t) ≡ true) ys
      go [] P each = tt
      go (y ∷ ys) P each =
          (each (key y) (rw (eq_refl (key y)) refl), go ys P (λ i h. each i (ground (arith, h))))
