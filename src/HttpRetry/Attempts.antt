-- ===== src/HttpRetry/Attempts.antt =====
-- The retry loop against a reference: the first reply that is not transient decides.
use async_long_request_proxy.Prelude.{
  ℕ, zero, suc, ◌+◌, ◌-◌, ◌≤◌, ◌<◌, ◌≡◌, refl, sym, ◌∙◌, Bool, true, false, Option, none, some, [],
  ◌∷◌, ◌++◌, nat_eq, arith, Bool-cases, Option-cases, inl, inr, if◌then◌else◌,
}
use async_long_request_proxy.Result.{Error, Result, ok, err, dispatch_failed, non_retryable}
use async_long_request_proxy.Tasks.Schema.{Json}
use async_long_request_proxy.HttpRetry.{
  HttpRetryOptions, Reply, success, failure, is_retryable_status, is_retryable_network_error,
  compute_delay, Progress, start, judge, post_from, post,
}

-- DispatchFailedError or NonRetryableError.
abbrev pub is_http_error : Error → Bool
is_http_error (dispatch_failed n s) = true
is_http_error (non_retryable s) = true
is_http_error e = false

abbrev pub IsHttpResult : Result Json → Type 0
IsHttpResult (ok answer) = Unit
IsHttpResult (err e) = is_http_error e ≡ true

-- A failure that another attempt may mend.
abbrev pub is_transient : Reply → Bool
is_transient (success answer) = false
is_transient (failure f) = elim f.status [
  | some s ↦ is_retryable_status s
  | none ↦ is_retryable_network_error f
]

-- What a reply that is not transient means for the caller, at the attempt that got it.
abbrev pub conclusion : ℕ → Reply → Result Json
conclusion attempt (success answer) = ok answer
conclusion attempt (failure f) = elim f.status [
  | some s ↦ err (non_retryable s)
  | none ↦ err (dispatch_failed (attempt + 1) none)
]

conclusion-http : (i : ℕ) (r : Reply) → IsHttpResult (conclusion i r)
conclusion-http i (success answer) = tt
conclusion-http i (failure f) = elim (Option-cases f.status) [
  | inl n ↦ rw n refl
  | inr (s, e) ↦ rw e refl
]

abbrev pub note_status : Option ℕ → Reply → Option ℕ
note_status last (success answer) = last
note_status last (failure f) = elim f.status [ some s ↦ some s | none ↦ last ]

module _ (reply : ℕ → Reply) where
  -- The first attempt among `n` whose reply is not transient.
  unfoldable pub first_final : ℕ → ℕ → Option ℕ
  first_final zero attempt = none
  first_final (suc n) attempt =
      let rest = first_final n (attempt + 1) in
      if is_transient (reply attempt) then rest else some attempt

  pub last_status : ℕ → ℕ → Option ℕ → Option ℕ
  last_status zero attempt last = last
  last_status (suc n) attempt last = last_status n (attempt + 1) (note_status last (reply attempt))

  pub first_final-stop :
      (n attempt : ℕ)
      → is_transient (reply attempt) ≡ false
      → first_final (suc n) attempt ≡ some attempt
  unfolding first_final
  first_final-stop n attempt h = rw h

  pub first_final-next :
      (n attempt : ℕ)
      → is_transient (reply attempt) ≡ true
      → first_final (suc n) attempt ≡ first_final n (attempt + 1)
  unfolding first_final
  first_final-next n attempt h = rw h

module _ (opts : HttpRetryOptions) (reply : ℕ → Reply) (jitter : ℕ → ℕ) where
  abbrev pub delay_at : ℕ → ℕ
  delay_at attempt = compute_delay attempt opts.base_delay_ms opts.max_delay_ms (jitter attempt)

  abbrev pub sent : Progress → Progress
  sent p = record p { requests = p.requests + 1 }

  abbrev pub slept : ℕ → Progress → Progress
  slept attempt p = record (sent p) { delays = p.delays ++ delay_at attempt ∷ [] }

  pub step_final :
      (rounds attempt : ℕ) (last : Option ℕ) (p : Progress)
      → is_transient (reply attempt) ≡ false
      → post_from opts reply jitter (suc rounds) attempt last p
        ≡ (conclusion attempt (reply attempt), sent p)
  unfolding post_from judge
  step_final rounds attempt last p h = ground arith

  pub step_transient :
      (rounds attempt : ℕ) (last : Option ℕ) (p : Progress)
      → is_transient (reply attempt) ≡ true
      → post_from opts reply jitter (suc rounds) attempt last p ≡ (
          if nat_eq (attempt + 1) opts.attempts
          then (err (dispatch_failed opts.attempts (note_status last (reply attempt))), sent p)
          else post_from opts reply jitter rounds
              (attempt + 1)
              (note_status last (reply attempt))
              (slept attempt p))
  unfolding post_from judge
  step_transient rounds attempt last p h = ground arith

  abbrev pub decided : Option ℕ → Option ℕ → Result Json
  decided none last = err (dispatch_failed opts.attempts last)
  decided (some i) last = conclusion i (reply i)

  abbrev pub requests_until : ℕ → ℕ → Option ℕ → ℕ
  requests_until rounds attempt none = rounds
  requests_until rounds attempt (some i) = i + 1 - attempt

  -- A decisive reply is not before the attempt from which it is looked for.
  pub first_final-le :
      (n attempt : ℕ) {i : ℕ}
      → first_final reply n attempt ≡ some i
      → (attempt ≤ i) × (i < attempt + n)
  unfolding first_final
  first_final-le zero attempt h = cc
  first_final-le (suc n) attempt {i} h = elim (Bool-cases (is_transient (reply attempt))) [
    | inl t ↦
        let ih = first_final-le n (attempt + 1) (sym (first_final-next reply n attempt t) ∙ h) in
        (omega arith, omega arith)
    | inr f ↦
        let found : some attempt ≡ some i = sym (first_final-stop reply n attempt f) ∙ h in
        let same : attempt ≡ i = cc in (omega arith, omega arith)
  ]

  pub requests_until-next :
      (rounds attempt : ℕ)
      → requests_until (suc rounds) attempt (first_final reply rounds (attempt + 1))
        ≡ 1 + requests_until rounds (attempt + 1) (first_final reply rounds (attempt + 1))
  requests_until-next rounds attempt =
      elim (Option-cases (first_final reply rounds (attempt + 1))) [
        | inl n ↦ rw n (omega arith)
        | inr (i, e) ↦ let range = first_final-le rounds (attempt + 1) e in rw e (omega arith)
      ]

  abbrev Agrees : ℕ → ℕ → Option ℕ → Progress → Type 0
  Agrees rounds attempt last p =
      ((post_from opts reply jitter rounds attempt last p).0
        ≡ decided (first_final reply rounds attempt) (last_status reply rounds attempt last))
      × ((post_from opts reply jitter rounds attempt last p).1.requests
          ≡ p.requests + requests_until rounds attempt (first_final reply rounds attempt))

  loop_last :
      (attempt : ℕ) (last : Option ℕ) (p : Progress)
      → attempt + 1 ≡ opts.attempts
      → is_transient (reply attempt) ≡ true
      → Agrees 1 attempt last p
  loop_last attempt last p h t =
      let test : nat_eq (attempt + 1) opts.attempts ≡ true = ground arith in
      rw (step_transient 0 attempt last p t, test, first_final-next reply 0 attempt t)
        (unfold first_final last_status in (refl, omega arith))

  loop_more :
      (rounds attempt : ℕ) (last : Option ℕ) (p : Progress)
      → nat_eq (attempt + 1) opts.attempts ≡ false
      → is_transient (reply attempt) ≡ true
      → Agrees rounds (attempt + 1) (note_status last (reply attempt)) (slept attempt p)
      → Agrees (suc rounds) attempt last p
  loop_more rounds attempt last p test t ih =
      rw (step_transient rounds attempt last p t, test, first_final-next reply rounds attempt t)
        (unfold last_status in ih.0, omega (arith, ih.1, requests_until-next rounds attempt))

  loop :
      (rounds attempt : ℕ) (last : Option ℕ) (p : Progress)
      → attempt + rounds ≡ opts.attempts
      → Agrees rounds attempt last p
  loop zero attempt last p h = (
    unfold post_from first_final last_status in refl,
    unfold post_from first_final in omega arith,
  )
  loop (suc zero) attempt last p h = elim (Bool-cases (is_transient (reply attempt))) [
    | inl t ↦ loop_last attempt last p (omega arith) t
    | inr f ↦
        rw (step_final 0 attempt last p f, first_final-stop reply 0 attempt f) (refl, omega arith)
  ]
  loop (suc (suc rounds)) attempt last p h =
      let rest =
        loop (suc rounds) (attempt + 1) (note_status last (reply attempt)) (slept attempt p)
          (omega arith) in
      elim (Bool-cases (is_transient (reply attempt))) [
        | inl t ↦ loop_more (suc rounds) attempt last p (ground arith) t rest
        | inr f ↦
            rw
              (
                step_final (suc rounds) attempt last p f,
                first_final-stop reply (suc rounds) attempt f,
              )
              (refl, omega arith)
      ]

  pub post_lem :
      ((post opts reply jitter start).0
        ≡ decided (first_final reply opts.attempts 0) (last_status reply opts.attempts 0 none))
      × ((post opts reply jitter start).1.requests
          ≡ requests_until opts.attempts 0 (first_final reply opts.attempts 0))
  unfolding post
  post_lem =
      let whole = loop opts.attempts 0 none start (omega arith) in (whole.0, omega (arith, whole.1))

  -- How many requests are due: up to the first reply that is not transient, at most all attempts.
  abbrev pub requests_due : ℕ
  requests_due = requests_until opts.attempts 0 (first_final reply opts.attempts 0)

  pub requests_due-bounds : 0 < opts.attempts → (0 < requests_due) × (requests_due ≤ opts.attempts)
  requests_due-bounds some_attempt = elim (Option-cases (first_final reply opts.attempts 0)) [
    | inl n ↦ rw n (some_attempt, omega arith)
    | inr (i, f) ↦ let range = first_final-le opts.attempts 0 f in rw f (omega arith, omega arith)
  ]

  -- What `post` throws is a DispatchFailedError or a NonRetryableError.
  pub post_error : IsHttpResult (post opts reply jitter start).0
  post_error = elim (Option-cases (first_final reply opts.attempts 0)) [
    | inl n ↦ rw (post_lem.0, n) refl
    | inr (i, f) ↦ rw (post_lem.0, f) (conclusion-http i (reply i))
  ]
