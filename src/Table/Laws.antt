-- ===== src/Table/Laws.antt =====
-- What a statement leaves of the rows, and how a lookup reads its result.
use mathlib.Core.Path.{subst}
use async_long_request_proxy.Prelude.{
  ◌≡◌, refl, Bool, true, false, any, Option, none, some, List, [], ◌∷◌, ◌++◌, arith, if◌then◌else◌,
  All, Bool-cases, inl, inr,
}
use async_long_request_proxy.Table.{find, update, delete}

module _ {ℓ} {A : Type ℓ} where
  abbrev pub apply_if : (A → Bool) → (A → A) → Option A → Option A
  apply_if p f none = none
  apply_if p f (some t) = some (if p t then f t else t)

  abbrev pub keep_if : (A → Bool) → Option A → Option A
  keep_if p none = none
  keep_if p (some t) = if p t then some t else none

  -- A lookup by a column that the update leaves alone.
  pub find-update :
      (q p : A → Bool) (f : A → A)
      → ((t : A) → q (f t) ≡ q t)
      → (ts : List A) → find q (update p f ts) ≡ apply_if p f (find q ts)
  unfolding find update
  find-update q p f same [] = refl
  find-update q p f same (t ∷ ts) = ground (arith, same t, find-update q p f same ts)

  pub find-append :
      (q : A → Bool) (ts us : List A)
      → find q (ts ++ us) ≡ elim (find q ts) [ none ↦ find q us | some t ↦ some t ]
  unfolding find
  find-append q [] us = refl
  find-append q (t ∷ ts) us = ground (arith, find-append q ts us)

  -- A found row satisfies the test.
  pub find-holds : (q : A → Bool) (ts : List A) {t : A} → find q ts ≡ some t → q t ≡ true
  unfolding find
  find-holds q [] h = cc
  find-holds q (u ∷ ts) h = elim (Bool-cases (q u)) [
    | inl e ↦ ground (arith, e)
    | inr e ↦ find-holds q ts (rw (← h) (rw e))
  ]

  -- UPDATE and SELECT of the same rows.
  pub All-update {κ} :
      (P : A → Type κ) (p : A → Bool) (f : A → A)
      → ((t : A) → p t ≡ true → P t → P (f t))
      → (ts : List A) → All P ts
      → All P (update p f ts)
  unfolding update
  All-update P p f step [] h = h
  All-update P p f step (t ∷ ts) h = elim (Bool-cases (p t)) [
    | inl e ↦ rw e (step t e h.0, All-update P p f step ts h.1)
    | inr e ↦ rw e (h.0, All-update P p f step ts h.1)
  ]

  pub All-delete {κ} :
      (P : A → Type κ) (p : A → Bool) (ts : List A) → All P ts → All P (delete p ts)
  unfolding delete
  All-delete P p [] h = h
  All-delete P p (t ∷ ts) h = elim (Bool-cases (p t)) [
    | inl e ↦ rw e (All-delete P p ts h.1)
    | inr e ↦ rw e (h.0, All-delete P p ts h.1)
  ]

  pub find-All {κ} :
      (P : A → Type κ) (q : A → Bool) (ts : List A) {t : A} → All P ts → find q ts ≡ some t → P t
  unfolding find
  find-All P q [] h e = cc
  find-All P q (u ∷ ts) {t} h e = elim (Bool-cases (q u)) [
    | inl b ↦ let found : some u ≡ some t = (rw b at e) in let same : u ≡ t = cc in subst P same h.0
    | inr b ↦ find-All P q ts h.1 (rw b at e)
  ]

module _ {ℓ} {A : Type ℓ} (r : A → Bool) where
  -- Whether some row satisfies `r`, after a statement.
  pub any-update :
      (p : A → Bool) (f : A → A)
      → ((t : A) → r (f t) ≡ r t)
      → (ts : List A) → any r (update p f ts) ≡ any r ts
  unfolding update
  any-update p f same [] = refl
  any-update p f same (t ∷ ts) = elim (Bool-cases (p t)) [
    | inl e ↦ rw (e, same, any-update p f same ts) refl
    | inr e ↦ rw (e, any-update p f same ts) refl
  ]

  pub any-delete :
      (p : A → Bool)
      → ((t : A) → r t ≡ true → p t ≡ false)
      → (ts : List A) → any r (delete p ts) ≡ any r ts
  unfolding delete
  any-delete p other [] = refl
  any-delete p other (t ∷ ts) = elim (Bool-cases (r t)) [
    | inl e ↦ rw (other t e, e) refl
    | inr e ↦ elim (Bool-cases (p t)) [
      | inl d ↦ rw (d, e) (any-delete p other ts)
      | inr d ↦ rw (d, e) (any-delete p other ts)
    ]
  ]

  pub any-append : (ts us : List A) → any r ts ≡ true → any r (ts ++ us) ≡ true
  any-append [] us h = cc
  any-append (t ∷ ts) us h = elim (Bool-cases (r t)) [
    | inl e ↦ rw e refl
    | inr e ↦ rw e (any-append ts us (rw e at h))
  ]
