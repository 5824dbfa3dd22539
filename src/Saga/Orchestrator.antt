-- ===== src/Saga/Orchestrator.antt =====
-- The orchestrator: services/order-service/internal/saga/orchestrator.go. Logging is left out.
use go_ozon_marketplace.Prelude.{
  ℕ, zero, suc, ◌+◌, Bool, true, false, List, [], ◌∷◌, Option, none, some, String, length,
  if◌then◌else◌,
}
use go_ozon_marketplace.Prelude.Effect.{Error, not_found, ok, err}
use Prim.Native.String.{◌++◌}
use go_ozon_marketplace.Order.Status
use go_ozon_marketplace.Order.Domain.{Order}
use go_ozon_marketplace.Saga.Types.{
  Saga, SagaStatus, pending, reserving, reserved, paying, paid, confirming, confirmed, compensating,
  cancelled, failed,
}
use go_ozon_marketplace.Saga.Env.{Env, Key}
use go_ozon_marketplace.Saga.Steps.{
  Step, start, inventory, payment, confirm, name, prepare, Change, execute, as_error, compensate,
}
use go_ozon_marketplace.Saga.Retry.{retry}

unfoldable pub next_step : SagaStatus → Option Step
next_step pending = some start
next_step reserving = some inventory
next_step reserved = some payment
next_step paying = some payment
next_step paid = some confirm
next_step confirming = some confirm
next_step confirmed = none
next_step cancelled = none
next_step failed = none
next_step compensating = none

unfoldable pub is_terminal : SagaStatus → Bool
is_terminal confirmed = true
is_terminal cancelled = true
is_terminal failed = true
is_terminal _ = false

abbrev pub is_pending : SagaStatus → Bool
is_pending pending = true
is_pending _ = false

unfoldable pub compensation_plan : Step → List Step
compensation_plan confirm = payment ∷ inventory ∷ []
compensation_plan inventory = inventory ∷ []
compensation_plan payment = inventory ∷ []
compensation_plan start = inventory ∷ []

-- `strings.Join(names, "+")` of the names of a plan
unfoldable pub join_step_names : List Step → String
unfolding name
join_step_names [] = ""
join_step_names (p ∷ []) = name p
join_step_names (p ∷ q ∷ rest) = name p ++ "+" ++ join_step_names (q ∷ rest)

-- One round for each item, one for each of the other steps, one that finds nothing to do.
abbrev pub process_fuel : Order → ℕ
process_fuel order = length order.items + 5

-- The saga that ProcessOrder creates.
abbrev pub new_saga : ℕ → Order → ℕ → Saga
new_saga id order time = record {
  id = id;
  order_id = order.id;
  status = pending;
  current_step = "";
  error_message = none;
  payment_id = "";
  reserved_items = [];
  created_at = time;
  updated_at = time;
}

abbrev pub is_not_found : Error → Bool
is_not_found not_found = true
is_not_found _ = false

module _ (env : Env) where
  open env use {
    State, now, new_id, wait, ctx_err, create_saga, get_saga, save_saga, list_incomplete, get_order,
    update_order_status, refund,
  }

  -- persistSaga: the saga, mutated whether or not it could be saved
  unfoldable pub persist_saga : Saga → State → Change env
  persist_saga saga s =
      let saga' = record saga { updated_at = now s } in
      let (e, s') = as_error env (save_saga saga' s) in (e, (saga', s'))

  -- saveSaga
  unfoldable pub save_saga_as : Saga → SagaStatus → String → Option Error → State → Change env
  unfolding persist_saga
  save_saga_as saga status step err_msg s =
      persist_saga (record saga { status = status; current_step = step; error_message = err_msg }) s

  -- The wait of `retry`, which leaves the saga as it is.
  abbrev pub wait_saga : ℕ → Saga × State → Bool × (Saga × State)
  wait_saga n (saga, s) = let (fired, s') = wait n s in (fired, (saga, s'))

  unfoldable pub execute_with_retry : Step → Order → Key → Saga → State → Change env
  execute_with_retry step order key saga s =
      retry wait_saga ctx_err (λ (saga', s'). execute env step order key saga' s') (saga, s)

  unfoldable pub compensate_with_retry : Step → Order → Key → Saga → State → Option Error × State
  compensate_with_retry step order key saga s =
      retry wait ctx_err (compensate env step order key saga) s

  -- The loop over the plan; errors are only logged.
  unfoldable pub compensate_all : List Step → Order → Key → Saga → State → State
  compensate_all [] order key saga s = s
  compensate_all (step ∷ rest) order key saga s =
      compensate_all rest order key saga (compensate_with_retry step order key saga s).1

  -- handleStepFailure for any step but the first: the recorded errors are only logged.
  unfoldable pub compensate_saga : Saga → Order → Step → Key → Error → State → Change env
  compensate_saga saga order step key exec_err s =
      let plan = compensation_plan step in
      let (_, (saga₁, s₁)) =
        save_saga_as saga compensating ("compensate_" ++ join_step_names plan) (some exec_err) s in
      let s₂ = compensate_all plan order key saga₁ s₁ in
      let (_, s₃) = update_order_status order.id Status.cancelled s₂ in
      (none, (save_saga_as saga₁ cancelled "cancelled" none s₃).1)

  -- If the very first step fails there is nothing to compensate.
  unfoldable pub handle_step_failure : Saga → Order → Step → Key → Error → State → Change env
  handle_step_failure saga order step key exec_err s =
      if is_pending saga.status
      then (some exec_err, (save_saga_as saga failed (name step) (some exec_err) s).1)
      else compensate_saga saga order step key exec_err s

  -- How one round of ProcessOrder's loop ends.
  pub data Round : Type 0 where
    stop : Option Error → Saga → State → Round
    continue : Saga → State → Round

  abbrev pub stop_with : Change env → Round
  stop_with (e, (saga, s)) = stop e saga s

  -- The first half of a round: `Prepare`, and the save that it asks for.
  unfoldable pub prepare_step : Step → Saga → State → Change env
  unfolding prepare
  prepare_step step saga s =
      let (changed, saga') = prepare step saga in
      if changed then persist_saga saga' s else (none, (saga', s))

  unfoldable pub round : Step → Order → Key → Saga → State → Round
  round step order key saga s =
      let (e₁, (saga₁, s₁)) = prepare_step step saga s in
      let (e₂, (saga₂, s₂)) = execute_with_retry step order key saga₁ s₁ in
      let (e₃, (saga₃, s₃)) = persist_saga saga₂ s₂ in
      elim e₁ [
        | some e ↦ stop (some e) saga₁ s₁
        | none ↦ elim e₂ [
          | some e ↦ stop_with (handle_step_failure saga₂ order step key e s₂)
          | none ↦ elim e₃ [ some e ↦ stop (some e) saga₃ s₃ | none ↦ continue saga₃ s₃ ]
        ]
      ]

  -- The `for` loop, on fuel; `none` means that the fuel ran out.
  unfoldable pub process_loop : ℕ → Order → Key → Saga → State → Option (Change env)
  process_loop zero order key saga s = none
  process_loop (suc fuel) order key saga s = elim (next_step saga.status) [
    | none ↦ some (none, (saga, s))
    | some step ↦ elim (round step order key saga s) [
      | stop e saga' s' ↦ some (e, (saga', s'))
      | continue saga' s' ↦ process_loop fuel order key saga' s'
    ]
  ]

  -- ProcessOrder once it has the saga
  unfoldable pub process_saga : Order → Key → Saga → State → Option (Change env)
  process_saga order key saga s =
      if is_terminal saga.status
      then some (none, (saga, s))
      else process_loop (process_fuel order) order key saga s

  abbrev pub outcome : Option (Change env) → Option (Option Error × State)
  outcome none = none
  outcome (some (e, (_, s))) = some (e, s)

  -- The branch of ProcessOrder that finds no saga.
  unfoldable pub create_and_process : Order → Key → State → Option (Option Error × State)
  create_and_process order key s =
      let (id, s₁) = new_id s in
      let saga = new_saga id order (now s₁) in
      let (r, s₂) = create_saga saga s₁ in
      elim r [ ok _ ↦ outcome (process_saga order key saga s₂) | err e ↦ some (some e, s₂) ]

  unfoldable pub process_order : Order → Key → State → Option (Option Error × State)
  process_order order key s =
      let (r, s₁) = get_saga order.id s in
      elim r [
        | ok saga ↦ outcome (process_saga order key saga s₁)
        | err e ↦ if is_not_found e then create_and_process order key s₁ else some (some e, s₁)
      ]
