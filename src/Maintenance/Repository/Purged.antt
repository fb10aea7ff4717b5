-- ===== src/Maintenance/Repository/Purged.antt =====
-- Data retention deletes the events of the old tasks with them, and counts both.
use async_long_request_proxy.Prelude.{
  ℕ, zero, suc, ◌+◌, ◌≤◌, String, ◌≡◌, refl, ap, Bool, true, false, ◌||◌, List, [], ◌∷◌, map, arith,
  take, length, Bool-cases, inl, inr, ◌==◌, eq_iff, sym, ◌∙◌, if◌then◌else◌,
}
use async_long_request_proxy.Table.{select, delete}
use async_long_request_proxy.Table.Batches.{key_in}

module _ {ℓ} {A : Type ℓ} where
  pub length-select-delete :
      (p : A → Bool) (xs : List A) → length (select p xs) + length (delete p xs) ≡ length xs
  unfolding select delete
  length-select-delete p [] = refl
  length-select-delete p (x ∷ xs) = ground (arith, length-select-delete p xs)

  -- Two DELETEs, one after the other, are one.
  pub delete-both :
      (p g h : A → Bool) (xs : List A)
      → ((x : A) → (p x || g x) ≡ h x)
      → delete g (delete p xs) ≡ delete h xs
  unfolding delete
  delete-both p g h [] same = refl
  delete-both p g h (x ∷ xs) same = elim (Bool-cases (p x)) [
    | inl e ↦
        let gone : h x ≡ true = sym (same x) ∙ (rw e refl) in
        rw (e, gone) (delete-both p g h xs same)
    | inr e ↦
        let as_second : g x ≡ h x = (rw e at (same x)) in
        elim (Bool-cases (h x)) [
          | inl f ↦
              let gone = as_second ∙ f in rw (e, f) (rw (delete, gone) (delete-both p g h xs same))
          | inr f ↦
              let kept = as_second ∙ f in
              rw (e, f) (rw (delete, kept) (ap (λ ys. x ∷ ys) (delete-both p g h xs same)))
        ]
  ]

  pub delete-nothing : (p : A → Bool) (xs : List A) → ((x : A) → p x ≡ false) → delete p xs ≡ xs
  unfolding delete
  delete-nothing p [] none = refl
  delete-nothing p (x ∷ xs) none = rw (none x) (ap (λ ys. x ∷ ys) (delete-nothing p xs none))

  pub take-none : (n : ℕ) (xs : List A) → length (take (suc n) xs) ≤ 0 → xs ≡ []
  take-none n [] h = refl
  take-none n (x ∷ xs) h = ground (arith, h)

module _ {ℓ} {A : Type ℓ} (key : A → String) where
  key_in-take :
      (j : String) (n : ℕ) (xs : List A)
      → key_in (map key (take n xs)) j ≡ true
      → key_in (map key xs) j ≡ true
  key_in-take j zero xs h = cc
  key_in-take j (suc n) [] h = cc
  key_in-take j (suc n) (x ∷ xs) h = elim (Bool-cases (j == key x)) [
    | inl e ↦ rw e refl
    | inr e ↦ rw e (key_in-take j n xs (rw e at h))
  ]

  other-key :
      (ids : List String) (j k : String)
      → key_in ids j ≡ false
      → key_in ids k ≡ true
      → (j == k) ≡ false
  other-key ids j k h m = elim (Bool-cases (j == k)) [
    | inl e ↦ let same = ap (key_in ids) ((eq_iff j k).0 e) in cc
    | inr e ↦ e
  ]

  -- A key that the batch does not have is an old one before the batch exactly if it is one after
  -- it.
  select-delete :
      (ids : List String) (q : A → Bool) (j : String) (ts : List A)
      → key_in ids j ≡ false
      → key_in (map key (select q (delete (λ t. key_in ids (key t)) ts))) j
        ≡ key_in (map key (select q ts)) j
  unfolding select delete
  select-delete ids q j [] h = refl
  select-delete ids q j (t ∷ ts) h = elim (Bool-cases (key_in ids (key t))) [
    | inl e ↦
        let other = other-key ids j (key t) h e in
        rw e (elim (Bool-cases (q t)) [
          | inl f ↦ rw (f, other) (select-delete ids q j ts h)
          | inr f ↦ rw f (select-delete ids q j ts h)
        ])
    | inr e ↦ rw e (elim (Bool-cases (q t)) [
      | inl f ↦ rw f (ap (λ b. if j == key t then true else b) (select-delete ids q j ts h))
      | inr f ↦ rw f (select-delete ids q j ts h)
    ])
  ]

  -- The keys of a batch, and of what is old behind it, are the keys of what was old.
  pub key_in-batch :
      (q : A → Bool) (n : ℕ) (ts : List A) (j : String)
      → let ids = map key (take n (select q ts)) in
        (key_in ids j || key_in (map key (select q (delete (λ t. key_in ids (key t)) ts))) j)
        ≡ key_in (map key (select q ts)) j
  key_in-batch q n ts j =
      let ids = map key (take n (select q ts)) in
      elim (Bool-cases (key_in ids j)) [
        | inl e ↦ rw e (sym (key_in-take j n (select q ts) e))
        | inr e ↦ rw e (select-delete ids q j ts e)
      ]
