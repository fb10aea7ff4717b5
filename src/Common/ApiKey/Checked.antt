-- ===== src/Common/ApiKey/Checked.antt =====
-- A client is let in if the proxy has no key, or with the proxy's key.
use mathlib.Core.List.{append-nil}
use async_long_request_proxy.Prelude.{
  ℕ, String, ◌≡◌, ◌↔◌, ◌⊎◌, inl, inr, refl, sym, true, not, ◌||◌, Option, none, some, List, [],
  nat_eq, length, truthy, arith, Option-cases, Bool-cases, ||-false,
}
use async_long_request_proxy.Result.{unauthorized, ok, err}
use async_long_request_proxy.Executor.Guard.{timing_safe_equal}
use async_long_request_proxy.Executor.Guard.Access.{unpadded, timing_safe_equal_refl}
use async_long_request_proxy.Common.ApiKey.{ClientRequest, provided_key, check_key, api_key_guard}

same_bytes :
    (xs ys : List ℕ)
    → nat_eq (length xs) (length ys) ≡ true
    → timing_safe_equal xs ys ≡ true
    → xs ≡ ys
same_bytes xs ys l e =
    let same : length xs ≡ length ys = ground (arith, l) in
    unpadded xs ys [] same (simp append-nil e)

module _ (bytes : String → List ℕ) where
  check_key-ok : (xs ys : List ℕ) → check_key bytes xs ys ≡ ok true → ys ≡ xs
  check_key-ok xs ys e =
      elim (Bool-cases (not (nat_eq (length xs) (length ys)) || not (timing_safe_equal xs ys))) [
        | inl b ↦ let wrong : err unauthorized ≡ ok true = (rw b at e) in cc
        | inr b ↦
            let (l, t) =
              ||-false (not (nat_eq (length xs) (length ys))) (not (timing_safe_equal xs ys)) b in
            sym (same_bytes xs ys (ground (arith, l)) (ground (arith, t)))
      ]

  key-passes : (xs : List ℕ) → check_key bytes xs xs ≡ ok true
  key-passes xs = rw (timing_safe_equal_refl xs) (ground arith)

  -- The client's key is the proxy's.
  abbrev pub HasKey : Option String → ClientRequest → Type 0
  HasKey key req =
      (k : String) × (p : String) × (truthy key ≡ some k)
      × (provided_key req ≡ some p)
      × (bytes p ≡ bytes k)

  -- The guard lets a client in exactly if no key is configured, an empty one counting as none, or
  -- the client gives a key with the bytes of the configured one.
  pub api_key_guard_lem :
      (key : Option String) (req : ClientRequest)
      → api_key_guard bytes key req ≡ ok true ↔ (truthy key ≡ none) ⊎ HasKey key req
  unfolding api_key_guard
  api_key_guard_lem key req = (only, when)
    where
      only : api_key_guard bytes key req ≡ ok true → (truthy key ≡ none) ⊎ HasKey key req
      only e = elim (Option-cases (truthy key)) [
        | inl n ↦ inl n
        | inr (k, h) ↦ elim (Option-cases (provided_key req)) [
          | inl n ↦ let wrong : err unauthorized ≡ ok true = (rw (api_key_guard, h, n) at e) in cc
          | inr (p, g) ↦
              inr (k, p, h, g, check_key-ok (bytes k) (bytes p) (rw (api_key_guard, h, g) at e))
        ]
      ]

      when : (truthy key ≡ none) ⊎ HasKey key req → api_key_guard bytes key req ≡ ok true
      when (inl n) = rw (api_key_guard, n) refl
      when (inr (k, p, h, g, same)) = rw (api_key_guard, h, g, same) (key-passes (bytes k))
