-- ===== src/Saga/Forward.antt =====
-- A saga of services/order-service/internal/saga that is confirmed has only gone forward: what the
-- calls of its steps, its waits and its saves keep, the run keeps.
use mathlib.Core.Path.{subst}
use go_ozon_marketplace.Prelude.{
  ℕ, zero, suc, ◌≡◌, refl, ◌⊎◌, inl, inr, Option, none, some, Bool-cases, Option-cases,
}
use go_ozon_marketplace.Prelude.Effect.{Error, Result, ok, err}
use go_ozon_marketplace.Order.Status.{OrderStatus}
use go_ozon_marketplace.Order.Domain.{Order, OrderItem}
use go_ozon_marketplace.Saga.Types.{Saga, confirmed, cancelled, failed}
use go_ozon_marketplace.Saga.Env.{Env, Key}
use go_ozon_marketplace.Saga.Steps.{
  Step, start, inventory, payment, confirm, prepare, Change, changed, execute, execute_start,
  execute_inventory, execute_payment, execute_confirm, reserve_item, as_error,
}
use go_ozon_marketplace.Saga.Retry.Laws.{retry-Ends}
use go_ozon_marketplace.Saga.Orchestrator.{
  next_step, is_terminal, is_pending, persist_saga, save_saga_as, execute_with_retry,
  compensate_saga, handle_step_failure, Round, stop, continue, stop_with, prepare_step, round,
  process_loop, process_saga,
}
use go_ozon_marketplace.Saga.Invariant.Compensate.{ends_both, both-Ends}

-- The calls for an order that do not undo anything keep `P`, whether they succeed or fail.
pub record Forward (env : Env) (order : ℕ) (P : env.State → Type 0) : Type 0 where
  pub wait_keeps : (n : ℕ) (s : env.State) → P s → P (env.wait n s).1
  pub save_saga_keeps : (g : Saga) (s : env.State) → P s → P (env.save_saga g s).1
  pub update_order_status_keeps :
      (id : ℕ) (st : OrderStatus) (s : env.State) → P s → P (env.update_order_status id st s).1
  pub reserve_keeps :
      (product q : ℕ) (k : Key) (s : env.State) → P s → P (env.reserve product q order k s).1
  pub process_payment_keeps :
      (amount : ℕ) (k : Key) (s : env.State) → P s → P (env.process_payment order amount k s).1

module _ (env : Env) (order : Order) (P : env.State → Type 0)
    (forward : Forward env order.id P) where
  open forward use {
    wait_keeps, save_saga_keeps, update_order_status_keeps, reserve_keeps, process_payment_keeps,
  }

  changed_keeps :
      {A : Type 0} (f : A → Saga) (g : Saga) (r : Result A × env.State)
      → P r.1
      → P (changed env f g r).1.1
  changed_keeps f g (ok a, s) p = p
  changed_keeps f g (err e, s) p = p

  reserve_item_keeps :
      (i : Option OrderItem) (key : Key) (g : Saga) (s : env.State)
      → P s
      → P (reserve_item env i order key g s).1.1
  unfolding reserve_item
  reserve_item_keeps none key g s p = p
  reserve_item_keeps (some i) key g s p = changed_keeps _ g _ (reserve_keeps _ _ _ s p)

  execute_keeps :
      (step : Step) (key : Key) (g : Saga) (s : env.State)
      → P s
      → P (execute env step order key g s).1.1
  unfolding execute execute_start execute_inventory execute_payment execute_confirm
  execute_keeps start key g s p = changed_keeps _ g _ (update_order_status_keeps _ _ s p)
  execute_keeps inventory key g s p = reserve_item_keeps _ key g s p
  execute_keeps payment key g s p = changed_keeps _ g _ (process_payment_keeps _ _ s p)
  execute_keeps confirm key g s p = changed_keeps _ g _ (update_order_status_keeps _ _ s p)

  as_error_keeps : (r : Result (Unit {0}) × env.State) → P r.1 → P (as_error env r).1
  as_error_keeps (ok _, s) p = p
  as_error_keeps (err e, s) p = p

  pub persist_saga_keeps : (g : Saga) (s : env.State) → P s → P (persist_saga env g s).1.1
  unfolding persist_saga
  persist_saga_keeps g s p = as_error_keeps _ (save_saga_keeps _ s p)

  pub execute_with_retry_keeps :
      (step : Step) (key : Key) (g : Saga) (s : env.State)
      → P s
      → P (execute_with_retry env step order key g s).1.1
  unfolding execute_with_retry
  execute_with_retry_keeps step key g s p =
      let Q = λ (t : Saga × env.State). P t.1 in
      ends_both Q _ (
        retry-Ends _ _ _ Q Q (λ n t h. wait_keeps n t.1 h)
          (λ t h. both-Ends Q _ (execute_keeps step key t.0 t.1 h)) (g, s) p)

  pub prepare_step_keeps :
      (step : Step) (g : Saga) (s : env.State) → P s → P (prepare_step env step g s).1.1
  unfolding prepare_step
  prepare_step_keeps step g s p = elim (Bool-cases (prepare step g).0) [
    | inl b ↦ rw b (persist_saga_keeps _ s p)
    | inr b ↦ rw b p
  ]

  -- A saga that has failed is saved as failed or as cancelled.
  abbrev Unconfirmed : Saga → Type 0
  Unconfirmed g = (g.status ≡ failed) ⊎ (g.status ≡ cancelled)

  handle_step_failure-Unconfirmed :
      (g : Saga) (step : Step) (key : Key) (e : Error) (s : env.State)
      → Unconfirmed (handle_step_failure env g order step key e s).1.0
  unfolding handle_step_failure compensate_saga save_saga_as persist_saga
  handle_step_failure-Unconfirmed g step key e s = elim (Bool-cases (is_pending g.status)) [
    | inl b ↦ rw b (inl refl)
    | inr b ↦ rw b (inr refl)
  ]

  abbrev RoundKeeps : Round env → Type 0
  RoundKeeps (stop e g s) = P s ⊎ Unconfirmed g
  RoundKeeps (continue g s) = P s

  stop_with_keeps : (c : Change env) → Unconfirmed c.1.0 → RoundKeeps (stop_with env c)
  stop_with_keeps (e, (g, s)) u = inr u

  ended :
      (c₁ c₂ c₃ : Change env) (failed_by : Error → Change env)
      → P c₁.1.1
      → P c₃.1.1
      → ((e : Error) → Unconfirmed (failed_by e).1.0)
      → RoundKeeps (elim c₁.0 [
        | some e ↦ stop (some e) c₁.1.0 c₁.1.1
        | none ↦ elim c₂.0 [
          | some e ↦ stop_with env (failed_by e)
          | none ↦ elim c₃.0 [
            | some e ↦ stop (some e) c₃.1.0 c₃.1.1
            | none ↦ continue c₃.1.0 c₃.1.1
          ]
        ]
      ])
  ended (some e, c₁) c₂ c₃ f p₁ p₃ k = inl p₁
  ended (none, c₁) (some e, c₂) c₃ f p₁ p₃ k = stop_with_keeps (f e) (k e)
  ended (none, c₁) (none, c₂) (some e, c₃) f p₁ p₃ k = inl p₃
  ended (none, c₁) (none, c₂) (none, c₃) f p₁ p₃ k = p₃

  round_keeps :
      (step : Step) (key : Key) (g : Saga) (s : env.State)
      → P s
      → RoundKeeps (round env step order key g s)
  unfolding round
  round_keeps step key g s p =
      let c₁ = prepare_step env step g s in
      let c₂ = execute_with_retry env step order key c₁.1.0 c₁.1.1 in
      let p₁ = prepare_step_keeps step g s p in
      let p₂ = execute_with_retry_keeps step key c₁.1.0 c₁.1.1 p₁ in
      ended c₁ c₂ (persist_saga env c₂.1.0 c₂.1.1)
        (λ e. handle_step_failure env c₂.1.0 order step key e c₂.1.1) p₁
        (persist_saga_keeps c₂.1.0 c₂.1.1 p₂)
        (λ e. handle_step_failure-Unconfirmed c₂.1.0 step key e c₂.1.1)

  abbrev OptionKeeps : Option (Change env) → Type 0
  OptionKeeps none = Unit
  OptionKeeps (some (e, (g, s))) = P s ⊎ Unconfirmed g

  looped :
      (r : Round env) (next : Saga → env.State → Option (Change env))
      → RoundKeeps r
      → ((g : Saga) (s : env.State) → P s → OptionKeeps (next g s))
      → OptionKeeps (elim r [ stop e g s ↦ some (e, (g, s)) | continue g s ↦ next g s ])
  looped (stop e g s) next p k = p
  looped (continue g s) next p k = k g s p

  process_loop_keeps :
      (fuel : ℕ) (key : Key) (g : Saga) (s : env.State)
      → P s
      → OptionKeeps (process_loop env fuel order key g s)
  unfolding process_loop
  process_loop_keeps zero key g s p = tt
  process_loop_keeps (suc fuel) key g s p = elim (Option-cases (next_step g.status)) [
    | inl e ↦ rw (OptionKeeps, e) (inl p)
    | inr (step, e) ↦
        rw (OptionKeeps, e)
          (looped (round env step order key g s) (process_loop env fuel order key)
            (round_keeps step key g s p) (process_loop_keeps fuel key))
  ]

  process_saga_keeps :
      (key : Key) (g : Saga) (s : env.State) → P s → OptionKeeps (process_saga env order key g s)
  unfolding process_saga
  process_saga_keeps key g s p = elim (Bool-cases (is_terminal g.status)) [
    | inl b ↦ rw b (inl p)
    | inr b ↦ rw b (process_loop_keeps _ key g s p)
  ]

  -- What every call that goes forward keeps holds at the end of a run that ends in confirmed.
  pub confirmed_keeps :
      (key : Key) (g : Saga) (s : env.State) {r : Change env}
      → process_saga env order key g s ≡ some r
      → P s
      → r.1.0.status ≡ confirmed
      → P r.1.1
  confirmed_keeps key g s {r} ran p c =
      elim (subst OptionKeeps ran (process_saga_keeps key g s p)) [
        | inl q ↦ q
        | inr (inl f) ↦ absurd (cc (c, f))
        | inr (inr f) ↦ absurd (cc (c, f))
      ]
