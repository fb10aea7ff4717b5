-- ===== src/Result/Preserves.antt =====
-- Invariants of methods: one rule for each way in which the code builds a method from others.
use async_long_request_proxy.Prelude.{◌≡◌, refl}
use async_long_request_proxy.Result.{
  Error, Result, ok, err, App, continue, ◌>>=◌, handle, try◌catch◌, commit_or_roll_back,
  transaction, quietly, Outcome, replied, refused, reply_lost, perform,
}

-- The method keeps `P`, whether it returns or throws.
abbrev pub Preserves {ℓ κ} : {S A : Type ℓ} → (S → Type κ) → App S A → Type (ℓ ⊔ κ)
Preserves {S = S} P m = (s : S) → P s → P (m s).1

module _ {ℓ κ} {S : Type ℓ} (P : S → Type κ) where
  module _ {A B : Type ℓ} where
    continue_rule :
        (r : Result A) (f : A → App S B) (s : S)
        → P s
        → ((a : A) → Preserves P (f a))
        → P (continue r f s).1
    continue_rule (ok a) f s h k = k a s h
    continue_rule (err e) f s h k = h

    pub bind_rule :
        (m : App S A) (f : A → App S B)
        → Preserves P m
        → ((a : A) → Preserves P (f a))
        → Preserves P (m >>= f)
    bind_rule m f h k s p = continue_rule (m s).0 f (m s).1 (h s p) k

    continue_returning :
        (r : Result A) (f : A → App S B) (s : S)
        → P s
        → ((a : A) → r ≡ ok a → Preserves P (f a))
        → P (continue r f s).1
    continue_returning (ok a) f s h k = k a refl s h
    continue_returning (err e) f s h k = h

    -- The rest may use what is known of a value that the first method returns.
    pub returning_rule {μ} :
        (Q : A → Type μ) (m : App S A) (f : A → App S B)
        → Preserves P m
        → ((a : A) (s : S) → (m s).0 ≡ ok a → Q a)
        → ((a : A) → Q a → Preserves P (f a))
        → Preserves P (m >>= f)
    returning_rule Q m f h q k s p =
        continue_returning (m s).0 f (m s).1 (h s p) (λ a e. k a (q a s e))

  module _ {A : Type ℓ} where
    handle_rule :
        (r : Result A) (f : Error → App S A) (s : S)
        → P s
        → ((e : Error) → Preserves P (f e))
        → P (handle r f s).1
    handle_rule (ok a) f s h k = h
    handle_rule (err e) f s h k = k e s h

    pub try_rule :
        (m : App S A) (f : Error → App S A)
        → Preserves P m
        → ((e : Error) → Preserves P (f e))
        → Preserves P (try◌catch◌ m f)
    try_rule m f h k s p = handle_rule (m s).0 f (m s).1 (h s p) k

    roll_back_rule : (r : Result A) (s s' : S) → P s → P s' → P (commit_or_roll_back r s s').1
    roll_back_rule (ok a) s s' p p' = p'
    roll_back_rule (err e) s s' p p' = p

    pub transaction_rule : (m : App S A) → Preserves P m → Preserves P (transaction m)
    transaction_rule m h s p = roll_back_rule (m s).0 s (m s).1 p (h s p)

    pub quietly_rule : (m : App S A) → Preserves P m → (s : S) → P s → P (quietly m s).1
    quietly_rule m h s p = h s p

    pub perform_rule : (o : Outcome) (m : App S A) → Preserves P m → Preserves P (perform o m)
    perform_rule replied m h s p = h s p
    perform_rule refused m h s p = p
    perform_rule reply_lost m h s p = h s p

-- Two calls in a row, and then a third.
module _ {ℓ} {S A B C : Type ℓ} where
  continue_assoc :
      (r : Result A) (f : A → App S B) (g : B → App S C) (s : S)
      → (continue (continue r f s).0 g (continue r f s).1) ≡ continue r (λ a. f a >>= g) s
  continue_assoc (ok a) f g s = refl
  continue_assoc (err e) f g s = refl

  pub bind_assoc :
      (m : App S A) (f : A → App S B) (g : B → App S C) (s : S)
      → ((m >>= f) >>= g) s ≡ (m >>= (λ a. f a >>= g)) s
  bind_assoc m f g s = continue_assoc (m s).0 f g (m s).1
