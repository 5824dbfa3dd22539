-- ===== src/Payment/Tests.antt =====
-- The theorems about services/payment-service/internal/usecase/usecase.go at concrete payments.
use go_ozon_marketplace.Prelude.{ℕ, ◌≡◌, ◌≤◌, refl, true, false, List, [], ◌∷◌, none, some, arith}
use go_ozon_marketplace.Prelude.Effect.{other, ok}
use go_ozon_marketplace.Database.{answered, refused, lost, statement, run_tx}
use go_ozon_marketplace.Database.Laws.{AllOrNothing}
use go_ozon_marketplace.Payment.Tables.{success, refunded, Payment, Refund, Tables, find_payment}
use go_ozon_marketplace.Payment.Repository.{
  insert_payment, select_by_order, create_or_get, get_by_id, update_status_if, create_refund,
  get_refund_by_idempotency_key,
}
use go_ozon_marketplace.Payment.Usecase.{
  settle, process_body, process_payment, existing_refund, record_refund, refund_payment,
  refund_body, refund,
}
use go_ozon_marketplace.Payment.Effects.{Processes}
use go_ozon_marketplace.Payment.Effects.Refunds.{Refunds}
use go_ozon_marketplace.Payment.Invariant.{IsSound, refunds_due, amount_due}
use go_ozon_marketplace.Payment.Guarantees.{
  Call, process_call, refund_call, run_calls, process_payment-Processes, refund-Refunds,
  run_calls-IsSound, process_payment-retry, refund-retry,
}

abbrev one_payment : Payment
one_payment = record { id = 1; order_id = 5; user_id = 2; amount = 100; status = success }

abbrev books : Tables
books = record { payments = one_payment ∷ []; refunds = [] }

books-IsSound : IsSound books
books-IsSound = ((refl, refl, tt), (refl, tt), λ id. by_id id)
  where
    by_id :
        (id : ℕ)
        → (0 ≡ (refunds_due (find_payment id books.payments)))
          × (0 ≤ (amount_due (find_payment id books.payments)))
    by_id id = ground arith

process_payment-Processes_example :
    AllOrNothing
      (Processes true 3 6 2 40 books)
      books
      (process_payment true 3 6 2 40 (books, answered ∷ lost other ∷ []))
process_payment-Processes_example =
    process_payment-Processes true 3 6 2 40 books (answered ∷ lost other ∷ []) books-IsSound

refund-Refunds_example :
    AllOrNothing (Refunds books 8 1 30 (some 4)) books (refund 8 1 30 (some 4) (books, []))
refund-Refunds_example = refund-Refunds 8 1 30 (some 4) books []

abbrev busy : List Call
busy = process_call true 3 6 2 40 ∷ refund_call 8 1 30 (some 4) ∷ refund_call 9 1 70 none ∷ []

run_calls-IsSound_example : IsSound (run_calls busy (books, answered ∷ refused other ∷ [])).0
run_calls-IsSound_example =
    run_calls-IsSound busy (books, answered ∷ refused other ∷ []) books-IsSound

abbrev new_one : Payment
new_one = record { id = 3; order_id = 6; user_id = 2; amount = 40; status = success }

processed : (process_payment true 3 6 2 40 (books, [])).0 ≡ ok new_one
unfolding process_payment process_body create_or_get insert_payment settle update_status_if
    statement run_tx
processed = refl

processed_again :
    (process_payment false 4 6 2 99 (process_payment true 3 6 2 40 (books, [])).1).0 ≡ ok new_one
unfolding process_payment process_body create_or_get insert_payment select_by_order settle
    update_status_if statement run_tx
processed_again = refl

process_payment-retry_example :
    (new_one ≡ new_one)
    × ((process_payment false 4 6 2 99 (process_payment true 3 6 2 40 (books, [])).1).1.0
        ≡ (process_payment true 3 6 2 40 (books, [])).1.0)
process_payment-retry_example =
    process_payment-retry true false 3 4 6 2 2 40 99 (books, []) books-IsSound processed
      processed_again

abbrev refund_made : Payment × Refund
refund_made = (
  record { id = 1; order_id = 5; user_id = 2; amount = 100; status = refunded },
  record { id = 8; payment_id = 1; amount = 30; status = refunded; idempotency_key = some 4 },
)

refund_once : (refund 8 1 30 (some 4) (books, [])).0 ≡ ok refund_made
unfolding refund refund_body existing_refund get_refund_by_idempotency_key get_by_id refund_payment
    record_refund create_refund update_status_if statement run_tx
refund_once = refl

refund_twice : (refund 9 1 70 (some 4) (refund 8 1 30 (some 4) (books, [])).1).0 ≡ ok refund_made
unfolding refund refund_body existing_refund get_refund_by_idempotency_key get_by_id refund_payment
    record_refund create_refund update_status_if statement run_tx
refund_twice = refl

refund-retry_example :
    (refund_made.1 ≡ refund_made.1)
    × ((refund 9 1 70 (some 4) (refund 8 1 30 (some 4) (books, [])).1).1.0
        ≡ (refund 8 1 30 (some 4) (books, [])).1.0)
refund-retry_example = refund-retry 8 9 1 1 30 70 4 (books, []) refund_once refund_twice
