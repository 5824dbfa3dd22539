-- ===== src/Payment/Usecase.antt =====
-- ProcessPayment, Refund, GetByID, GetRefund and ListRefunds:
-- services/payment-service/internal/usecase/usecase.go. Timeouts are faults of the calls.
use go_ozon_marketplace.Prelude.{ℕ, Bool, List, Option, none, some, ◌==◌, ltb, if◌then◌else◌}
use go_ozon_marketplace.Prelude.Effect.{
  not_found, invalid_argument, failed_precondition, Result, ok, err, Action, pure, fail, ◌>>=◌,
  ◌>>◌,
}
use go_ozon_marketplace.Database.{Db, run_tx}
use go_ozon_marketplace.Payment.Tables.{
  Status, pending, success, failed, refunded, Payment, Refund, Tables, same_status,
}
use go_ozon_marketplace.Payment.Repository.{
  create_or_get, get_by_id, update_status_if, create_refund, get_refund_row,
  get_refund_by_idempotency_key, list_refund_rows,
}

-- The status that a random value in [0, 1) decides: `approved` is `randVal < 0.9`.
abbrev pub final_status : Bool → Status
final_status approved = if approved then success else failed

-- A pending payment gets its final status; whether the row was changed is not looked at.
unfoldable pub settle : Status → Payment → Action (Db Tables) Payment
settle final p =
    if same_status p.status pending
    then update_status_if p.id final pending >> pure (record p { status = final })
    else pure p

abbrev pub new_payment : ℕ → ℕ → ℕ → ℕ → Payment
new_payment id order user amount = record {
  id = id;
  order_id = order;
  user_id = user;
  amount = amount;
  status = pending;
}

unfoldable pub process_body : Bool → ℕ → ℕ → ℕ → ℕ → Action (Db Tables) Payment
process_body approved id order user amount =
    create_or_get (new_payment id order user amount) >>= settle (final_status approved)

-- ProcessPayment; `id` is what uuid.New gives.
unfoldable pub process_payment : Bool → ℕ → ℕ → ℕ → ℕ → Action (Db Tables) Payment
process_payment approved id order user amount = run_tx (process_body approved id order user amount)

abbrev pub found_or_none : {S A : Type 0} → Result A × S → Result (Option A) × S
found_or_none (ok a, s) = (ok (some a), s)
found_or_none (err not_found, s) = (ok none, s)
found_or_none (err e, s) = (err e, s)

-- The refund that a call with this key has made, none without a key.
unfoldable pub existing_refund : Option ℕ → Action (Db Tables) (Option Refund)
existing_refund none s = (ok none, s)
existing_refund (some k) s = found_or_none (get_refund_by_idempotency_key k s)

-- No amount, 0, is the whole amount.
abbrev pub refund_amount : ℕ → Payment → ℕ
refund_amount amount p = if amount == 0 then p.amount else amount

abbrev pub new_refund : ℕ → Payment → ℕ → Option ℕ → Refund
new_refund id p amount key = record {
  id = id;
  payment_id = p.id;
  amount = refund_amount amount p;
  status = refunded;
  idempotency_key = key;
}

unfoldable pub record_refund : ℕ → ℕ → Option ℕ → Payment → Action (Db Tables) (Payment × Refund)
record_refund id amount key p =
    create_refund (new_refund id p amount key)
    >> (update_status_if p.id refunded success >>= λ updated.
        if updated
        then pure (record p { status = refunded }, new_refund id p amount key)
        else fail failed_precondition)

-- The checks on the payment, and what follows them
unfoldable pub refund_payment : ℕ → ℕ → Option ℕ → Payment → Action (Db Tables) (Payment × Refund)
refund_payment id amount key p =
    if same_status p.status success
    then if ltb p.amount (refund_amount amount p)
      then fail invalid_argument
      else record_refund id amount key p
    else fail failed_precondition

abbrev pub refund_unless :
    ℕ → ℕ → ℕ → Option ℕ → Option Refund → Action (Db Tables) (Payment × Refund)
refund_unless id payment amount key none = get_by_id payment >>= refund_payment id amount key
refund_unless id payment amount key (some r) = get_by_id r.payment_id >>= λ p. pure (p, r)

unfoldable pub refund_body : ℕ → ℕ → ℕ → Option ℕ → Action (Db Tables) (Payment × Refund)
refund_body id payment amount key = existing_refund key >>= refund_unless id payment amount key

-- Refund; `id` is what uuid.New gives.
unfoldable pub refund : ℕ → ℕ → ℕ → Option ℕ → Action (Db Tables) (Payment × Refund)
refund id payment amount key = run_tx (refund_body id payment amount key)

-- GetByID
unfoldable pub get_payment : ℕ → Action (Db Tables) Payment
get_payment payment = get_by_id payment

-- GetRefund
unfoldable pub get_refund : ℕ → Action (Db Tables) Refund
get_refund id = get_refund_row id

-- ListRefunds
unfoldable pub list_refunds : ℕ → Action (Db Tables) (List Refund)
list_refunds payment = list_refund_rows payment
