-- ===== src/Saga/Retry/Laws.antt =====
-- What `retry` of services/order-service/internal/saga/orchestrator.go guarantees.
use go_ozon_marketplace.Prelude.{
  ℕ, zero, suc, ◌+◌, ◌≡◌, refl, Bool, Option, none, some, inl, inr, Bool-cases, ◌==◌,
}
use go_ozon_marketplace.Prelude.Effect.{Error}
use go_ozon_marketplace.Saga.Retry.{Call, Ends, backoff, retry_from, retry}

module _ {T : Type 0} (wait : ℕ → T → Bool × T) (ctx_err : Error) (fn : Call T) (P Q : T → Type 0)
    (wait_keeps : (n : ℕ) (t : T) → P t → P (wait n t).1)
    (fn_ends : (t : T) → P t → Ends P Q (fn t)) where
  backoff_keeps : (i : ℕ) (t : T) → P t → P (backoff wait ctx_err fn i t).1
  unfolding backoff
  backoff_keeps i t p = elim (Bool-cases (i == 0)) [
    | inl first ↦ rw first p
    | inr later ↦ rw later (wait_keeps _ t p)
  ]

  after :
      (r : Option Error × T) (rest : Option Error × T)
      → Ends P Q r
      → (P r.1 → (e : Error) → r.0 ≡ some e → Ends P Q rest)
      → Ends P Q (elim r.0 [ none ↦ (none, r.1) | some _ ↦ rest ])
  after (none, t) rest q ih = q
  after (some e, t) rest p ih = ih p e refl

  -- One attempt, and what is known of the attempts after it.
  attempt-Ends :
      (left i : ℕ) (last : Option Error) (t : T)
      → P t
      → ((j : ℕ) (e : Error) (u : T)
          → P u
          → Ends P Q (retry_from wait ctx_err fn left j (some e) u))
      → Ends P Q (retry_from wait ctx_err fn (suc left) i last t)
  unfolding retry_from
  attempt-Ends left i last t p later =
      let t₁ = (backoff wait ctx_err fn i t).1 in
      let p₁ : P t₁ = backoff_keeps i t p in
      elim (Bool-cases (backoff wait ctx_err fn i t).0) [
        | inl fired ↦ rw fired (
            after (fn t₁) (retry_from wait ctx_err fn left (i + 1) (fn t₁).0 (fn t₁).1)
              (fn_ends t₁ p₁) (λ p₂ e h. rw h (later (i + 1) e (fn t₁).1 p₂)))
        | inr stopped ↦ rw stopped p₁
      ]

  retry_from-Ends :
      (left i : ℕ) (e : Error) (t : T)
      → P t
      → Ends P Q (retry_from wait ctx_err fn left i (some e) t)
  unfolding retry_from
  retry_from-Ends zero i e t p = p
  retry_from-Ends (suc left) i e t p = attempt-Ends left i (some e) t p (retry_from-Ends left)

  first_from :
      (left : ℕ) (t : T)
      → Ends P Q (fn t)
      → Ends P Q (retry_from wait ctx_err fn (suc left) 0 none t)
  unfolding retry_from backoff
  first_from left t first =
      after (fn t) (retry_from wait ctx_err fn left (0 + 1) (fn t).0 (fn t).1) first
        (λ p e h. rw h (retry_from-Ends left (0 + 1) e (fn t).1 p))

  -- The same from what the first attempt, before which there is no wait, gives.
  pub retry-Ends_from : (t : T) → Ends P Q (fn t) → Ends P Q (retry wait ctx_err fn t)
  unfolding retry
  retry-Ends_from t first = first_from 2 t first

  -- A call whose failures keep `P` and whose success gives `Q` from `P` does so with retries too.
  pub retry-Ends : (t : T) → P t → Ends P Q (retry wait ctx_err fn t)
  unfolding retry
  retry-Ends t p = attempt-Ends 2 0 none t p (retry_from-Ends 2)
