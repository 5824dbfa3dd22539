-- ===== src/Saga/Keeps/Recovery.antt =====
-- What every call of the environment keeps, the cancellation and the recovery of
-- services/order-service/internal/saga keep.
use go_ozon_marketplace.Prelude.{inl, inr, List, [], ◌∷◌, Option, none, some, Bool-cases}
use go_ozon_marketplace.Prelude.Effect.{Error, Result, ok, err}
use go_ozon_marketplace.Order.Status.{OrderStatus}
use go_ozon_marketplace.Order.Status
use go_ozon_marketplace.Order.Domain.{Order}
use go_ozon_marketplace.Saga.Types.{Saga, is_empty, cancelled}
use go_ozon_marketplace.Saga.Env.{Env, Key}
use go_ozon_marketplace.Saga.Steps.{inventory, as_error}
use go_ozon_marketplace.Saga.Retry.Laws.{retry-Ends}
use go_ozon_marketplace.Saga.Orchestrator.{compensate_with_retry, process_order}
use go_ozon_marketplace.Saga.Recovery.{
  refund_with_retry, close_saga, cancel_saga, cancel_order, state_of, recover_one, recover_all,
  recover_limit, recover,
}
use go_ozon_marketplace.Saga.Invariant.Compensate.{ends_both, both-Ends}
use go_ozon_marketplace.Saga.Keeps.{
  Keeps, OutcomeKeeps, as_error_keeps, persist_saga_keeps, compensate_with_retry_keeps,
  process_order_keeps,
}

module _ (env : Env) (P : env.State → Type 0) (keeps : Keeps env P) where
  open keeps use {
    new_id_keeps, wait_keeps, create_saga_keeps, get_saga_keeps, save_saga_keeps,
    list_incomplete_keeps, get_order_keeps, update_order_status_keeps, reserve_keeps, release_keeps,
    process_payment_keeps, refund_keeps,
  }

  refund_with_retry_keeps :
      (g : Saga) (order : Order) (s : env.State) → P s → P (refund_with_retry env g order s).1
  unfolding refund_with_retry
  refund_with_retry_keeps g order s p = elim (Bool-cases (is_empty g.payment_id)) [
    | inl b ↦ rw b p
    | inr b ↦ rw b (
        ends_both P _ (
          retry-Ends _ _ _ P P wait_keeps
            (λ t h. both-Ends P _ (as_error_keeps env P keeps _ (refund_keeps _ _ t h))) s p))
  ]

  three_calls :
      (r₁ r₂ r₃ last : Option Error × env.State)
      → P r₁.1
      → P r₂.1
      → P r₃.1
      → P last.1
      → P
          (elim r₁.0 as (λ _. Option Error × env.State) [
            | some e ↦ (some e, r₁.1)
            | none ↦ elim r₂.0 as (λ _. Option Error × env.State) [
              | some e ↦ (some e, r₂.1)
              | none ↦ elim r₃.0 as (λ _. Option Error × env.State) [
                | some e ↦ (some e, r₃.1)
                | none ↦ last
              ]
            ]
          ]).1
  three_calls (some e, s₁) r₂ r₃ last p₁ p₂ p₃ p = p₁
  three_calls (none, s₁) (some e, s₂) r₃ last p₁ p₂ p₃ p = p₂
  three_calls (none, s₁) (none, s₂) (some e, s₃) last p₁ p₂ p₃ p = p₃
  three_calls (none, s₁) (none, s₂) (none, s₃) last p₁ p₂ p₃ p = p

  cancel_saga_keeps :
      (order : Order) (g : Saga) (s : env.State) → P s → P (cancel_saga env order g s).1
  unfolding cancel_saga close_saga
  cancel_saga_keeps order g s p =
      let r₁ = refund_with_retry env g order s in
      let r₂ = compensate_with_retry env inventory order Key.no_key g r₁.1 in
      let r₃ = as_error env (env.update_order_status order.id Status.cancelled r₂.1) in
      let p₁ = refund_with_retry_keeps g order s p in
      let p₂ = compensate_with_retry_keeps env P keeps inventory order Key.no_key g r₁.1 p₁ in
      let p₃ =
        as_error_keeps env P keeps _
          (update_order_status_keeps order.id Status.cancelled r₂.1 p₂) in
      three_calls r₁ r₂ r₃ (close_saga env g r₃.1) p₁ p₂ p₃ (
        persist_saga_keeps env P keeps (record g { status = cancelled; current_step = "cancelled" })
          r₃.1 p₃)

  got_saga_to_cancel :
      (order : Order) (r : Result Saga × env.State)
      → P r.1
      → P
          (elim r.0 as (λ _. Option Error × env.State) [
            | ok g ↦ cancel_saga env order g r.1
            | err _ ↦ (some Error.failed_precondition, r.1)
          ]).1
  got_saga_to_cancel order (ok g, s) p = cancel_saga_keeps order g s p
  got_saga_to_cancel order (err e, s) p = p

  pub cancel_order_keeps : (order : Order) (s : env.State) → P s → P (cancel_order env order s).1
  unfolding cancel_order
  cancel_order_keeps order s p =
      got_saga_to_cancel order (env.get_saga order.id s) (get_saga_keeps _ s p)

  pub state_of_keeps :
      (s : env.State) (o : Option (Option Error × env.State))
      → P s
      → OutcomeKeeps env P keeps o
      → P (state_of env s o)
  state_of_keeps s none p h = p
  state_of_keeps s (some (e, s')) p h = h

  got_order :
      (g : Saga) (r : Result Order × env.State)
      → P r.1
      → P (elim r.0 as (λ _. env.State) [
        | ok order ↦ state_of env r.1 (process_order env order (Key.recovery g.order_id) r.1)
        | err _ ↦ r.1
      ])
  got_order g (ok order, s) p = state_of_keeps s _ p (process_order_keeps env P keeps order _ s p)
  got_order g (err e, s) p = p

  recover_all_keeps : (sagas : List Saga) (s : env.State) → P s → P (recover_all env sagas s)
  unfolding recover_all recover_one
  recover_all_keeps [] s p = p
  recover_all_keeps (g ∷ sagas) s p =
      recover_all_keeps sagas _ (got_order g (env.get_order g.order_id s) (get_order_keeps _ s p))

  listed :
      (r : Result (List Saga) × env.State)
      → P r.1
      → P
          (elim r.0 as (λ _. Option Error × env.State) [
            | ok sagas ↦ (none, recover_all env sagas r.1)
            | err e ↦ (some e, r.1)
          ]).1
  listed (ok sagas, s) p = recover_all_keeps sagas s p
  listed (err e, s) p = p

  pub recover_keeps : (s : env.State) → P s → P (recover env s).1
  unfolding recover
  recover_keeps s p =
      listed (env.list_incomplete (recover_limit env) s) (list_incomplete_keeps _ s p)
