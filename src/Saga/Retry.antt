-- ===== src/Saga/Retry.antt =====
-- `Orchestrator.retry` of services/order-service/internal/saga/orchestrator.go, over any state `T`
-- that a call may change.
pub mod Laws
use go_ozon_marketplace.Prelude.{
  ℕ, zero, suc, ◌+◌, ◌-◌, ◌*◌, ◌^◌, ◌≡◌, Bool, true, false, Option, none, some, arith, ◌==◌,
  if◌then◌else◌,
}
use go_ozon_marketplace.Prelude.Effect.{Error}

-- `retryCfg` of NewOrchestrator; the delay is in milliseconds.
abbrev pub max_retries : ℕ
max_retries = 3

abbrev pub base_delay : ℕ
base_delay = 200

-- A call that may fail: its error, and the state after it.
abbrev pub Call : Type 0 → Type 0
Call T = T → Option Error × T

module _ {T : Type 0} (wait : ℕ → T → Bool × T) (ctx_err : Error) (fn : Call T) where
  -- The wait before attempt `i`, none before the first.
  unfoldable pub backoff : ℕ → T → Bool × T
  backoff i t = if i == 0 then (true, t) else wait (base_delay * 2 ^ (i - 1)) t

  -- The loop, with so many attempts left, before attempt `i`.
  unfoldable pub retry_from : ℕ → ℕ → Option Error → Call T
  unfolding backoff
  retry_from zero i last_err t = (last_err, t)
  retry_from (suc left) i last_err t =
      let (fired, t₁) = backoff i t in
      let (e, t₂) = fn t₁ in
      let rest = retry_from left (i + 1) e t₂ in
      if fired then (elim e [ none ↦ (none, t₂) | some _ ↦ rest ]) else (some ctx_err, t₁)

  unfoldable pub retry : Call T
  unfolding retry_from
  retry t = retry_from max_retries 0 none t

-- What holds after a call that ends by success or by an error.
abbrev pub Ends : {T : Type 0} → (T → Type 0) → (T → Type 0) → Option Error × T → Type 0
Ends P Q (none, t) = Q t
Ends P Q (some _, t) = P t
