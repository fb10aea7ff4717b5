-- ===== src/Table/Keyed.antt =====
-- Tables with a primary key, and other constraints between two rows.
use mathlib.Core.Path.{subst}
use async_long_request_proxy.Prelude.{
  ap, ◌≡◌, refl, Bool, false, ◌&&◌, List, [], ◌∷◌, ◌++◌, Option, none, some, String, ◌==◌, eq_iff,
  All, Bool-cases, arith, if◌then◌else◌, inl, inr, any,
}
use async_long_request_proxy.Table.{find, select, update, delete}
use async_long_request_proxy.Table.Laws.{keep_if, All-delete}

pub eq_sym : (a b : String) → (a == b) ≡ (b == a)
eq_sym a b = ground (arith, eq_iff a b, eq_iff b a)

-- Every row is related to every later row.
abbrev pub Pairwise {ℓ κ} : {A : Type ℓ} → (A → A → Type κ) → List A → Type κ
Pairwise R [] = Unit
Pairwise R (t ∷ ts) = All (R t) ts × Pairwise R ts

module _ {ℓ κ} {A : Type ℓ} (R : A → A → Type κ) where
  pub Pairwise-append :
      (ts : List A) (u : A) → All (λ t. R t u) ts → Pairwise R ts → Pairwise R (ts ++ u ∷ [])
  Pairwise-append [] u h k = (tt, tt)
  Pairwise-append (t ∷ ts) u h k = (go ts k.0, Pairwise-append ts u h.1 k.1)
    where
      go : (vs : List A) → All (R t) vs → All (R t) (vs ++ u ∷ [])
      go [] g = (h.0, tt)
      go (v ∷ vs) g = (g.0, go vs g.1)

  pub Pairwise-delete : (p : A → Bool) (ts : List A) → Pairwise R ts → Pairwise R (delete p ts)
  unfolding delete
  Pairwise-delete p [] h = h
  Pairwise-delete p (t ∷ ts) h = elim (Bool-cases (p t)) [
    | inl e ↦ rw e (Pairwise-delete p ts h.1)
    | inr e ↦ rw e (All-delete (R t) p ts h.0, Pairwise-delete p ts h.1)
  ]

  -- An update that keeps the relation between any two rows, each changed or not.
  pub Pairwise-update :
      (p : A → Bool) (f : A → A)
      → ((t u : A) → R t u → R (if p t then f t else t) (if p u then f u else u))
      → (ts : List A) → Pairwise R ts
      → Pairwise R (update p f ts)
  unfolding update
  Pairwise-update p f same [] h = h
  Pairwise-update p f same (t ∷ ts) h = (go ts h.0, Pairwise-update p f same ts h.1)
    where
      go : (us : List A) → All (R t) us → All (R (if p t then f t else t)) (update p f us)
      go [] g = g
      go (u ∷ us) g = (same t u g.0, go us g.1)

-- No two rows of the table have the same key.
abbrev pub IsKeyed {ℓ} : {A : Type ℓ} → (A → String) → List A → Type 0
IsKeyed key = Pairwise (λ t u. (key u == key t) ≡ false)

module _ {ℓ} {A : Type ℓ} where
  abbrev pub option_rows : Option A → List A
  option_rows none = []
  option_rows (some t) = t ∷ []

  pub any-false : (p : A → Bool) (ts : List A) → any p ts ≡ false → All (λ t. p t ≡ false) ts
  any-false p [] h = tt
  any-false p (t ∷ ts) h = (ground arith, any-false p ts (ground arith))

  -- An update that matches no row changes nothing.
  pub update-none : (p : A → Bool) (f : A → A) (ts : List A) → select p ts ≡ [] → update p f ts ≡ ts
  unfolding update select
  update-none p f [] h = refl
  update-none p f (t ∷ ts) h = ground (arith, update-none p f ts)

module _ {ℓ} {A : Type ℓ} (key : A → String) where
  select-none :
      (k : String) (c : A → Bool) (ts : List A)
      → All (λ u. (key u == k) ≡ false) ts
      → select (λ t. key t == k && c t) ts ≡ []
  unfolding select
  select-none k c [] h = refl
  select-none k c (t ∷ ts) h = rw h.0 (select-none k c ts h.1)

  -- `WHERE key = k AND c` matches the row of that key, if it satisfies `c`, and no other.
  pub select-key :
      (k : String) (c : A → Bool) (ts : List A)
      → IsKeyed key ts
      → select (λ t. key t == k && c t) ts ≡ option_rows (keep_if c (find (λ t. key t == k) ts))
  unfolding select find
  select-key k c [] h = refl
  select-key k c (t ∷ ts) h = elim (Bool-cases (key t == k)) [
    | inl e ↦
        let rest : select (λ u. key u == k && c u) ts ≡ [] =
          select-none k c ts
            (subst (λ j. All (λ u. (key u == j) ≡ false) ts) ((eq_iff _ _).0 e) h.0) in
        elim (Bool-cases (c t)) [
          | inl ct ↦ rw (e, ct) (ap (λ us. t ∷ us) rest)
          | inr ct ↦ rw (e, ct) rest
        ]
    | inr e ↦ rw e (select-key k c ts h.1)
  ]
