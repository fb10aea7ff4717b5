-- ===== src/HttpRetry/Delays.antt =====
-- The backoff: how long the loop sleeps between its attempts.
use mathlib.Core.List.{append-nil, append_assoc}
use async_long_request_proxy.Prelude.{
  ℕ, zero, suc, ◌+◌, ◌-◌, ◌*◌, ◌^◌, ◌≤◌, ◌<◌, ◌≡◌, refl, sym, ap, ◌∙◌, true, false, Option, none,
  List, [], ◌∷◌, ◌++◌, nat_eq, min, arith, Bool-cases, Option-cases, inl, inr,
}
use async_long_request_proxy.HttpRetry.{
  HttpRetryOptions, Reply, compute_delay, Progress, start, post_from, post,
}
use async_long_request_proxy.HttpRetry.Attempts.{
  is_transient, note_status, first_final, first_final-stop, first_final-next, first_final-le,
  requests_until, requests_until-next, delay_at, slept, step_final, step_transient, post_lem,
}

module _ (opts : HttpRetryOptions) (reply : ℕ → Reply) (jitter : ℕ → ℕ) where
  -- The delays of `n` waits in a row, the first one after the given attempt.
  pub delays_from : ℕ → ℕ → List ℕ
  delays_from attempt zero = []
  delays_from attempt (suc n) = delay_at opts reply jitter attempt ∷ delays_from (attempt + 1) n

  abbrev Waits : ℕ → ℕ → Option ℕ → Progress → Type 0
  Waits rounds attempt last p =
      (post_from opts reply jitter rounds attempt last p).1.delays
      ≡ p.delays
        ++ delays_from attempt
            (requests_until opts reply jitter rounds attempt (first_final reply rounds attempt) - 1)

  Waits-none :
      (rounds attempt : ℕ) (last : Option ℕ) (p : Progress)
      → requests_until opts reply jitter rounds attempt (first_final reply rounds attempt) ≤ 1
      → (post_from opts reply jitter rounds attempt last p).1.delays ≡ p.delays
      → Waits rounds attempt last p
  unfolding delays_from
  Waits-none rounds attempt last p few same =
      let zero_more : requests_until opts reply jitter rounds attempt
              (first_final reply rounds attempt)
            - 1
          ≡ 0 =
        omega arith in
      rw zero_more (same ∙ sym (append-nil p.delays))

  Waits-more :
      (rounds attempt : ℕ) (last : Option ℕ) (p : Progress)
      → nat_eq (attempt + 1) opts.attempts ≡ false
      → is_transient (reply attempt) ≡ true
      → 0
        < requests_until opts reply jitter rounds
            (attempt + 1)
            (first_final reply rounds (attempt + 1))
      → Waits rounds
          (attempt + 1)
          (note_status last (reply attempt))
          (slept opts reply jitter attempt p)
      → Waits (suc rounds) attempt last p
  unfolding delays_from
  Waits-more rounds attempt last p test t pos ih =
      let n =
        requests_until opts reply jitter rounds (attempt + 1)
          (first_final reply rounds (attempt + 1)) in
      let one_more : requests_until opts reply jitter (suc rounds) attempt
              (first_final reply (suc rounds) attempt)
            - 1
          ≡ suc (n - 1) =
        ap (λ o. requests_until opts reply jitter (suc rounds) attempt o - 1)
          (first_final-next reply rounds attempt t)
        ∙ omega (arith, requests_until-next opts reply jitter rounds attempt) in
      rw (step_transient opts reply jitter rounds attempt last p t, test, one_more)
        (ih
          ∙ append_assoc p.delays (delay_at opts reply jitter attempt ∷ [])
              (delays_from (attempt + 1) (n - 1)))

  some_request :
      (rounds attempt : ℕ)
      → 0
        < requests_until opts reply jitter
            (suc rounds)
            attempt
            (first_final reply (suc rounds) attempt)
  some_request rounds attempt = elim (Option-cases (first_final reply (suc rounds) attempt)) [
    | inl n ↦ rw n (omega arith)
    | inr (i, e) ↦
        let range = first_final-le opts reply jitter (suc rounds) attempt e in rw e (omega arith)
  ]

  Waits-final :
      (rounds attempt : ℕ) (last : Option ℕ) (p : Progress)
      → is_transient (reply attempt) ≡ false
      → Waits (suc rounds) attempt last p
  Waits-final rounds attempt last p f =
      Waits-none (suc rounds) attempt last p
        (rw (first_final-stop reply rounds attempt f) (omega arith))
        (rw (step_final opts reply jitter rounds attempt last p f) refl)

  waits :
      (rounds attempt : ℕ) (last : Option ℕ) (p : Progress)
      → attempt + rounds ≡ opts.attempts
      → Waits rounds attempt last p
  waits zero attempt last p h =
      Waits-none zero attempt last p (unfold first_final in omega arith) (unfold post_from in refl)
  waits (suc zero) attempt last p h = elim (Bool-cases (is_transient (reply attempt))) [
    | inl t ↦
        let test : nat_eq (attempt + 1) opts.attempts ≡ true = ground arith in
        Waits-none 1 attempt last p
          (rw (first_final-next reply 0 attempt t) (unfold first_final in omega arith))
          (rw (step_transient opts reply jitter 0 attempt last p t, test) refl)
    | inr f ↦ Waits-final zero attempt last p f
  ]
  waits (suc (suc rounds)) attempt last p h =
      let ih =
        waits (suc rounds) (attempt + 1) (note_status last (reply attempt))
          (slept opts reply jitter attempt p) (omega arith) in
      elim (Bool-cases (is_transient (reply attempt))) [
        | inl t ↦
            Waits-more (suc rounds) attempt last p (ground arith) t
              (some_request rounds (attempt + 1)) ih
        | inr f ↦ Waits-final (suc rounds) attempt last p f
      ]

  -- The call sleeps once less than it sends requests, and the delays are those that
  -- `computeDelay` gives for the attempts 0, 1, 2, ... in turn.
  pub post_delays :
      (post opts reply jitter start).1.delays
      ≡ delays_from 0 ((post opts reply jitter start).1.requests - 1)
  post_delays =
      rw (post_lem opts reply jitter).1
        (unfold post in waits opts.attempts 0 none start (omega arith))

  -- With a jitter below 200 ms each delay lies between the exponential delay and 200 ms above it,
  -- both cut at the cap.
  pub delay_at-bounds :
      (attempt : ℕ)
      → jitter attempt < 200
      → (min (opts.base_delay_ms * 2 ^ attempt) opts.max_delay_ms
          ≤ delay_at opts reply jitter attempt)
        × (delay_at opts reply jitter attempt ≤ opts.max_delay_ms)
        × (delay_at opts reply jitter attempt < opts.base_delay_ms * 2 ^ attempt + 200)
  unfolding compute_delay
  delay_at-bounds attempt h = (omega arith, omega arith, omega arith)
