-- ===== src/Saga/Tests.antt =====
-- Runs of services/order-service/internal/saga on concrete orders and services, and the theorems
-- about it at them.
use go_ozon_marketplace.Prelude.{
  ◌≡◌, refl, ◌⊎◌, Bool, true, false, [], ◌∷◌, Option, none, some, All, length, get_elem?,
}
use go_ozon_marketplace.Prelude.Effect.{not_found, unavailable, deadline_exceeded, Result, ok, err}
use go_ozon_marketplace.Order.Status
use go_ozon_marketplace.Order.Domain.{Order}
use go_ozon_marketplace.Saga.Types.{Saga, confirmed, compensating, cancelled, failed}
use go_ozon_marketplace.Saga.Env.{Env, given}
use go_ozon_marketplace.Saga.Steps.{
  Change, execute, execute_start, execute_inventory, execute_payment, execute_confirm, reserve_item,
  release_all, compensate, prepare,
}
use go_ozon_marketplace.Saga.Retry.{backoff, retry_from, retry}
use go_ozon_marketplace.Saga.Orchestrator.{
  next_step, is_terminal, compensation_plan, persist_saga, save_saga_as, execute_with_retry,
  compensate_with_retry, compensate_all, compensate_saga, handle_step_failure, prepare_step, round,
  process_loop, process_saga, process_order, new_saga,
}
use go_ozon_marketplace.Saga.Trace.{
  order_set, traced, reserves, attempts, charges, Was, WasReleased, WasRefunded, IsStill, wanted,
  Concerns, IsCausal,
}
use go_ozon_marketplace.Saga.Guarantees.{
  IsFinal, run, run_total, run-IsCausal, confirmed_paid, cancelled_undone, failed_nothing_done,
  compensating_stuck,
}
use go_ozon_marketplace.Saga.Recovery.{refund_with_retry, close_saga, cancel_saga, cancel_order}
use go_ozon_marketplace.Saga.Recovery.Cancel.{IsUndone, cancel_order-IsUndone}

-- Which services answer: the database that holds the orders, and the payments.
abbrev Up : Type 0
Up = Bool × Bool

abbrev answer_if : {A : Type 0} → Bool → A → Up → Result A × Up
answer_if true a s = (ok a, s)
answer_if false a s = (err unavailable, s)

abbrev stuck_saga : Saga
stuck_saga = record {
  id = 9;
  order_id = 1;
  status = compensating;
  current_step = "compensate_inventory";
  error_message = some unavailable;
  payment_id = "pay";
  reserved_items = record { product_id = 7; quantity = 2 } ∷ [];
  created_at = 5;
  updated_at = 5;
}

-- Services that answer as the state says; the saga in the table is `stuck_saga`.
abbrev services : Env
services = record {
  State = Up;
  now = λ s. 5;
  new_id = λ s. (9, s);
  wait = λ n s. (true, s);
  ctx_err = deadline_exceeded;
  create_saga = λ g s. (ok tt, s);
  get_saga = λ o s. (ok stuck_saga, s);
  save_saga = λ g s. (ok tt, s);
  list_incomplete = λ n s. (ok (stuck_saga ∷ []), s);
  get_order = λ o s. (err not_found, s);
  update_order_status = λ o t s. answer_if s.0 tt s;
  reserve = λ p q o k s. (ok tt, s);
  release = λ p q o k s. (ok tt, s);
  process_payment = λ o a k s. answer_if s.1 "pay" s;
  refund = λ p k s. (ok tt, s);
}

abbrev two_items : Order
two_items = record {
  id = 1;
  user_id = 2;
  items =
      record { id = 3; order_id = 1; product_id = 7; quantity = 2; price = 10 }
      ∷ record { id = 4; order_id = 1; product_id = 8; quantity = 1; price = 5 }
      ∷ [];
  total_amount = 25;
  status = Status.pending;
  created_at = 5;
  updated_at = 5;
}

abbrev all_up : Up
all_up = (true, true)

abbrev no_payment : Up
no_payment = (true, false)

abbrev no_database : Up
no_database = (false, true)

abbrev or_start : Up → Option (Change (traced services)) → Change (traced services)
or_start s none = (none, (new_saga 9 two_items 5, (s, [])))
or_start s (some r) = r

-- How the run of the saga of the order ends.
abbrev end_of : Up → Change (traced services)
end_of s = or_start s (run services two_items (given 0) 9 5 s)

run_total_example :
    (r : Change (traced services)) × (run services two_items (given 0) 9 5 no_payment ≡ some r)
    × (r.0 ≡ none → IsFinal r.1.0.status)
run_total_example = run_total services two_items (given 0) 9 5 no_payment

ended : (s : Up) → run services two_items (given 0) 9 5 s ≡ some (end_of s)
ended s = by_result (run_total services two_items (given 0) 9 5 s)
  where
    by_result :
        ((r : Change (traced services)) × (run services two_items (given 0) 9 5 s ≡ some r)
          × (r.0 ≡ none → IsFinal r.1.0.status))
        → run services two_items (given 0) 9 5 s ≡ some (end_of s)
    by_result (r, e, _) = rw e refl

-- With all services up the saga is confirmed; without payments it is cancelled; without the
-- database of the orders it fails.
all_up-confirmed : (end_of all_up).1.0.status ≡ confirmed
unfolding process_saga is_terminal process_loop next_step round prepare_step prepare
    execute_with_retry retry retry_from backoff execute execute_start execute_inventory
    execute_payment execute_confirm reserve_item persist_saga
all_up-confirmed = refl

no_payment-cancelled : (end_of no_payment).1.0.status ≡ cancelled
unfolding process_saga is_terminal process_loop next_step round prepare_step prepare
    execute_with_retry retry retry_from backoff execute execute_start execute_inventory
    execute_payment execute_confirm reserve_item persist_saga handle_step_failure compensate_saga
    compensation_plan save_saga_as compensate_all compensate_with_retry compensate release_all
no_payment-cancelled = refl

no_database-failed : (end_of no_database).1.0.status ≡ failed
unfolding process_saga is_terminal process_loop next_step round prepare_step prepare
    execute_with_retry retry retry_from backoff execute execute_start persist_saga
    handle_step_failure save_saga_as
no_database-failed = refl

confirmed_paid_example :
    (reserves (end_of all_up).1.1.1 ≡ wanted two_items)
    × (charges (end_of all_up).1.1.1 ≡ (end_of all_up).1.0.payment_id ∷ [])
    × Was (order_set 1 Status.paid) (end_of all_up).1.1.1
    × All (Concerns two_items) (end_of all_up).1.1.1
confirmed_paid_example =
    confirmed_paid services two_items (given 0) 9 5 all_up (ended all_up) all_up-confirmed

run-IsCausal_example : IsCausal two_items [] (end_of no_payment).1.1.1
run-IsCausal_example = run-IsCausal services two_items (given 0) 9 5 no_payment (ended no_payment)

cancelled_undone_example :
    let log = (end_of no_payment).1.1.1 in
    All
      (λ i. WasReleased 1 i log ⊎ (get_elem? (wanted two_items) (length (reserves log)) ≡ some i))
      (attempts log)
    × All (λ i. WasReleased 1 i log) (reserves log)
    × ((charges log ≡ [])
        ⊎ ((charges log ≡ (end_of no_payment).1.0.payment_id ∷ [])
            × (((end_of no_payment).1.0.payment_id ≡ "")
                ⊎ WasRefunded (end_of no_payment).1.0.payment_id log)))
cancelled_undone_example =
    cancelled_undone services two_items (given 0) 9 5 no_payment (ended no_payment)
      no_payment-cancelled

failed_nothing_done_example : IsStill (end_of no_database).1.1.1
failed_nothing_done_example =
    failed_nothing_done services two_items (given 0) 9 5 no_database (ended no_database)
      no_database-failed

compensating_stuck_example : process_order services two_items (given 0) all_up ≡ some (none, all_up)
compensating_stuck_example = compensating_stuck services two_items (given 0) all_up refl refl

cancelled_without_error : (cancel_order (traced services) two_items (all_up, [])).0 ≡ none
unfolding cancel_order cancel_saga refund_with_retry close_saga compensate_with_retry compensate
    release_all retry retry_from backoff persist_saga
cancelled_without_error = refl

cancel_order-IsUndone_example :
    let r = cancel_order (traced services) two_items (all_up, []) in
    (g : Saga) × ((services.get_saga 1 all_up).0 ≡ ok g)
    × IsUndone 1 g r.1.1
    × Was (order_set 1 Status.cancelled) r.1.1
cancel_order-IsUndone_example =
    cancel_order-IsUndone services two_items all_up cancelled_without_error
