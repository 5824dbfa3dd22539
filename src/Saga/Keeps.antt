-- ===== src/Saga/Keeps.antt =====
-- What every call of the environment keeps, the orchestrator, the cancellation and the recovery of
-- services/order-service/internal/saga keep.
pub mod Recovery
use go_ozon_marketplace.Prelude.{
  ℕ, zero, suc, ◌≡◌, inl, inr, Bool, true, false, List, [], ◌∷◌, Option, none, some, String,
  Bool-cases, Option-cases, if◌then◌else◌,
}
use go_ozon_marketplace.Prelude.Effect.{Error, Result, ok, err, Action, Result-cases}
use go_ozon_marketplace.Order.Status.{OrderStatus}
use go_ozon_marketplace.Order.Status
use go_ozon_marketplace.Order.Domain.{Order, OrderItem}
use go_ozon_marketplace.Saga.Types.{
  Saga, SagaReservedItem, SagaStatus, is_empty, compensating, cancelled, failed,
}
use go_ozon_marketplace.Saga.Env.{Env, Key}
use go_ozon_marketplace.Saga.Steps.{
  Step, start, inventory, payment, confirm, name, prepare, Change, changed, execute, execute_start,
  execute_inventory, execute_payment, execute_confirm, reserve_item, as_error, compensate,
  release_all,
}
use go_ozon_marketplace.Saga.Retry.{Ends}
use go_ozon_marketplace.Saga.Retry.Laws.{retry-Ends}
use go_ozon_marketplace.Saga.Orchestrator.{
  next_step, compensation_plan, is_terminal, is_pending, is_not_found, process_fuel, new_saga,
  persist_saga, save_saga_as, wait_saga, execute_with_retry, compensate_with_retry, compensate_all,
  compensate_saga, handle_step_failure, Round, stop, continue, stop_with, prepare_step, round,
  process_loop, process_saga, outcome, create_and_process, process_order,
}
use go_ozon_marketplace.Saga.Recovery.{
  refund_with_retry, close_saga, cancel_saga, cancel_order, state_of, recover_one, recover_all,
  recover_limit, recover, recover_once,
}
use go_ozon_marketplace.Saga.Forward.{Forward, execute_with_retry_keeps, prepare_step_keeps}
use go_ozon_marketplace.Saga.Invariant.Compensate.{ends_both, both-Ends}

-- Every call of the environment keeps `P`, whether it succeeds or fails.
pub record Keeps (env : Env) (P : env.State → Type 0) : Type 0 where
  pub new_id_keeps : (s : env.State) → P s → P (env.new_id s).1
  pub wait_keeps : (n : ℕ) (s : env.State) → P s → P (env.wait n s).1
  pub create_saga_keeps : (g : Saga) (s : env.State) → P s → P (env.create_saga g s).1
  pub get_saga_keeps : (id : ℕ) (s : env.State) → P s → P (env.get_saga id s).1
  pub save_saga_keeps : (g : Saga) (s : env.State) → P s → P (env.save_saga g s).1
  pub list_incomplete_keeps : (n : ℕ) (s : env.State) → P s → P (env.list_incomplete n s).1
  pub get_order_keeps : (id : ℕ) (s : env.State) → P s → P (env.get_order id s).1
  pub update_order_status_keeps :
      (id : ℕ) (st : OrderStatus) (s : env.State) → P s → P (env.update_order_status id st s).1
  pub reserve_keeps :
      (product q order : ℕ) (k : Key) (s : env.State) → P s → P (env.reserve product q order k s).1
  pub release_keeps :
      (product q order : ℕ) (k : Key) (s : env.State) → P s → P (env.release product q order k s).1
  pub process_payment_keeps :
      (order amount : ℕ) (k : Key) (s : env.State)
      → P s
      → P (env.process_payment order amount k s).1
  pub refund_keeps : (id : String) (k : Key) (s : env.State) → P s → P (env.refund id k s).1

module _ (env : Env) (P : env.State → Type 0) (keeps : Keeps env P) where
  open keeps use {
    new_id_keeps, wait_keeps, create_saga_keeps, get_saga_keeps, save_saga_keeps,
    list_incomplete_keeps, get_order_keeps, update_order_status_keeps, reserve_keeps, release_keeps,
    process_payment_keeps, refund_keeps,
  }

  -- Going forward is among what is kept.
  Keeps-Forward : (order : ℕ) → Forward env order P
  Keeps-Forward order = record {
    wait_keeps = wait_keeps;
    save_saga_keeps = save_saga_keeps;
    update_order_status_keeps = update_order_status_keeps;
    reserve_keeps = λ p q k. reserve_keeps p q order k;
    process_payment_keeps = process_payment_keeps order;
  }

  pub as_error_keeps : (r : Result (Unit {0}) × env.State) → P r.1 → P (as_error env r).1
  as_error_keeps (ok _, s) p = p
  as_error_keeps (err e, s) p = p

  release_all_keeps :
      (items : List SagaReservedItem) (order : Order) (errs : Option Error) (s : env.State)
      → P s
      → P (release_all env items order errs s).1
  unfolding release_all
  release_all_keeps [] order errs s p = p
  release_all_keeps (i ∷ items) order errs s p =
      release_all_keeps items order _ _ (release_keeps _ _ _ _ s p)

  compensate_keeps :
      (step : Step) (order : Order) (key : Key) (g : Saga) (s : env.State)
      → P s
      → P (compensate env step order key g s).1
  unfolding compensate
  compensate_keeps inventory order key g s p = release_all_keeps g.reserved_items order none s p
  compensate_keeps payment order key g s p = elim (Bool-cases (is_empty g.payment_id)) [
    | inl b ↦ rw b p
    | inr b ↦ rw b (as_error_keeps _ (refund_keeps _ _ s p))
  ]
  compensate_keeps start order key g s p = p
  compensate_keeps confirm order key g s p = p

  pub persist_saga_keeps : (g : Saga) (s : env.State) → P s → P (persist_saga env g s).1.1
  unfolding persist_saga
  persist_saga_keeps g s p = as_error_keeps _ (save_saga_keeps _ s p)

  save_saga_as_keeps :
      (g : Saga) (st : SagaStatus) (step : String) (e : Option Error) (s : env.State)
      → P s
      → P (save_saga_as env g st step e s).1.1
  unfolding save_saga_as
  save_saga_as_keeps g st step e s p =
      persist_saga_keeps (record g { status = st; current_step = step; error_message = e }) s p

  pub compensate_with_retry_keeps :
      (step : Step) (order : Order) (key : Key) (g : Saga) (s : env.State)
      → P s
      → P (compensate_with_retry env step order key g s).1
  unfolding compensate_with_retry
  compensate_with_retry_keeps step order key g s p = ends_both P _ (
      retry-Ends _ _ _ P P wait_keeps (λ t h. both-Ends P _ (compensate_keeps step order key g t h))
        s p)

  compensate_all_keeps :
      (steps : List Step) (order : Order) (key : Key) (g : Saga) (s : env.State)
      → P s
      → P (compensate_all env steps order key g s)
  unfolding compensate_all
  compensate_all_keeps [] order key g s p = p
  compensate_all_keeps (step ∷ steps) order key g s p =
      compensate_all_keeps steps order key g _ (compensate_with_retry_keeps step order key g s p)

  compensate_saga_keeps :
      (g : Saga) (order : Order) (step : Step) (key : Key) (e : Error) (s : env.State)
      → P s
      → P (compensate_saga env g order step key e s).1.1
  unfolding compensate_saga
  compensate_saga_keeps g order step key e s p = save_saga_as_keeps _ _ _ _ _ (
      update_order_status_keeps _ _ _
        (compensate_all_keeps _ order key _ _ (save_saga_as_keeps _ _ _ _ s p)))

  handle_step_failure_keeps :
      (g : Saga) (order : Order) (step : Step) (key : Key) (e : Error) (s : env.State)
      → P s
      → P (handle_step_failure env g order step key e s).1.1
  unfolding handle_step_failure
  handle_step_failure_keeps g order step key e s p = elim (Bool-cases (is_pending g.status)) [
    | inl b ↦ rw b (save_saga_as_keeps _ _ _ _ s p)
    | inr b ↦ rw b (compensate_saga_keeps g order step key e s p)
  ]

  abbrev RoundKeeps : Round env → Type 0
  RoundKeeps (stop e g s) = P s
  RoundKeeps (continue g s) = P s

  stop_with_keeps : (c : Change env) → P c.1.1 → RoundKeeps (stop_with env c)
  stop_with_keeps (e, (g, s)) p = p

  -- How a round ends by its preparation, its step and its save.
  ended :
      (c₁ c₂ c₃ : Change env) (failed_by : Error → Change env)
      → P c₁.1.1
      → P c₃.1.1
      → ((e : Error) → P (failed_by e).1.1)
      → RoundKeeps (elim c₁.0 [
        | some e ↦ stop (some e) c₁.1.0 c₁.1.1
        | none ↦ elim c₂.0 [
          | some e ↦ stop_with env (failed_by e)
          | none ↦ elim c₃.0 [
            | some e ↦ stop (some e) c₃.1.0 c₃.1.1
            | none ↦ continue c₃.1.0 c₃.1.1
          ]
        ]
      ])
  ended (some e, c₁) c₂ c₃ f p₁ p₃ k = p₁
  ended (none, c₁) (some e, c₂) c₃ f p₁ p₃ k = stop_with_keeps (f e) (k e)
  ended (none, c₁) (none, c₂) (some e, c₃) f p₁ p₃ k = p₃
  ended (none, c₁) (none, c₂) (none, c₃) f p₁ p₃ k = p₃

  round_keeps :
      (step : Step) (order : Order) (key : Key) (g : Saga) (s : env.State)
      → P s
      → RoundKeeps (round env step order key g s)
  unfolding round
  round_keeps step order key g s p =
      let c₁ = prepare_step env step g s in
      let c₂ = execute_with_retry env step order key c₁.1.0 c₁.1.1 in
      let p₁ = prepare_step_keeps env order P (Keeps-Forward order.id) step g s p in
      let p₂ =
        execute_with_retry_keeps env order P (Keeps-Forward order.id) step key c₁.1.0 c₁.1.1 p₁ in
      ended c₁ c₂ (persist_saga env c₂.1.0 c₂.1.1)
        (λ e. handle_step_failure env c₂.1.0 order step key e c₂.1.1) p₁
        (persist_saga_keeps c₂.1.0 c₂.1.1 p₂)
        (λ e. handle_step_failure_keeps c₂.1.0 order step key e c₂.1.1 p₂)

  abbrev OptionKeeps : Option (Change env) → Type 0
  OptionKeeps none = Unit
  OptionKeeps (some c) = P c.1.1

  looped :
      (r : Round env) (next : Saga → env.State → Option (Change env))
      → RoundKeeps r
      → ((g : Saga) (s : env.State) → P s → OptionKeeps (next g s))
      → OptionKeeps (elim r [ stop e g s ↦ some (e, (g, s)) | continue g s ↦ next g s ])
  looped (stop e g s) next p k = p
  looped (continue g s) next p k = k g s p

  process_loop_keeps :
      (fuel : ℕ) (order : Order) (key : Key) (g : Saga) (s : env.State)
      → P s
      → OptionKeeps (process_loop env fuel order key g s)
  unfolding process_loop
  process_loop_keeps zero order key g s p = tt
  process_loop_keeps (suc fuel) order key g s p = elim (Option-cases (next_step g.status)) [
    | inl e ↦ rw (OptionKeeps, e) p
    | inr (step, e) ↦
        rw (OptionKeeps, e)
          (looped (round env step order key g s) (process_loop env fuel order key)
            (round_keeps step order key g s p) (process_loop_keeps fuel order key))
  ]

  process_saga_keeps :
      (order : Order) (key : Key) (g : Saga) (s : env.State)
      → P s
      → OptionKeeps (process_saga env order key g s)
  unfolding process_saga
  process_saga_keeps order key g s p = elim (Bool-cases (is_terminal g.status)) [
    | inl b ↦ rw b p
    | inr b ↦ rw b (process_loop_keeps _ order key g s p)
  ]

  abbrev pub OutcomeKeeps : Option (Option Error × env.State) → Type 0
  OutcomeKeeps none = Unit
  OutcomeKeeps (some (e, s)) = P s

  outcome_keeps : (o : Option (Change env)) → OptionKeeps o → OutcomeKeeps (outcome env o)
  outcome_keeps none h = tt
  outcome_keeps (some (e, (g, s))) h = h

  created :
      (r : Result (Unit {0}) × env.State) (next : env.State → Option (Option Error × env.State))
      → P r.1
      → ((s : env.State) → P s → OutcomeKeeps (next s))
      → OutcomeKeeps (elim r.0 [ ok _ ↦ next r.1 | err e ↦ some (some e, r.1) ])
  created (ok _, s) next p k = k s p
  created (err e, s) next p k = p

  create_and_process_keeps :
      (order : Order) (key : Key) (s : env.State)
      → P s
      → OutcomeKeeps (create_and_process env order key s)
  unfolding create_and_process
  create_and_process_keeps order key s p =
      created _
        (λ s'. outcome env (
          process_saga env order key (new_saga (env.new_id s).0 order (env.now (env.new_id s).1))
            s'))
        (create_saga_keeps _ _ (new_id_keeps s p))
        (λ s' q. outcome_keeps _ (process_saga_keeps order key _ s' q))

  got_saga :
      (order : Order) (key : Key) (r : Result Saga × env.State)
      → P r.1
      → OutcomeKeeps (elim r.0 [
        | ok g ↦ outcome env (process_saga env order key g r.1)
        | err e ↦
            if is_not_found e then create_and_process env order key r.1 else some (some e, r.1)
      ])
  got_saga order key (ok g, s) p = outcome_keeps _ (process_saga_keeps order key g s p)
  got_saga order key (err e, s) p = elim (Bool-cases (is_not_found e)) [
    | inl b ↦ rw b (create_and_process_keeps order key s p)
    | inr b ↦ rw b p
  ]

  pub process_order_keeps :
      (order : Order) (key : Key) (s : env.State)
      → P s
      → OutcomeKeeps (process_order env order key s)
  unfolding process_order
  process_order_keeps order key s p =
      got_saga order key (env.get_saga order.id s) (get_saga_keeps _ s p)
