-- ===== src/Payment/Repository.antt =====
-- The SQL statements of
-- services/payment-service/internal/repository/postgres/payment_postgres.go, with the keys that the
-- migrations declare: a violated one is an error.
use go_ozon_marketplace.Prelude.{ℕ, Bool, true, false, List, ◌∷◌, Option, none, some, if◌then◌else◌}
use go_ozon_marketplace.Prelude.Effect.{other, Result, ok, err, Action, pure, ◌>>=◌}
use go_ozon_marketplace.Database.{Db, statement, row_or_not_found}
use go_ozon_marketplace.Payment.Tables.{
  Status, Payment, Refund, Tables, find_payment, find_by_order, find_refund, find_by_key,
  same_status, set_status, refunds_of,
}

abbrev pub add_payment :
    Payment → Tables → Option Payment → Option Payment → Result (Option Payment) × Tables
add_payment p t (some _) _ = (ok none, t)
add_payment p t none (some _) = (err other, t)
add_payment p t none none = (ok (some p), record t { payments = p ∷ t.payments })

-- The INSERT of CreateOrGet: the row where it was inserted, none where the order has one.
unfoldable pub insert_payment : Payment → Action (Db Tables) (Option Payment)
insert_payment p =
    statement
      (λ t. add_payment p t (find_by_order p.order_id t.payments) (find_payment p.id t.payments))

-- The SELECT of CreateOrGet
unfoldable pub select_by_order : ℕ → Action (Db Tables) Payment
select_by_order order = statement (λ t. (row_or_not_found (find_by_order order t.payments), t))

abbrev pub or_select : ℕ → Option Payment → Action (Db Tables) Payment
or_select order (some p) = pure p
or_select order none = select_by_order order

-- CreateOrGet
unfoldable pub create_or_get : Payment → Action (Db Tables) Payment
create_or_get p = insert_payment p >>= or_select p.order_id

-- Create, which has no use case: an order or an id that is taken is an error.
unfoldable pub create_payment : Payment → Action (Db Tables) (Unit {0})
create_payment p = statement (λ t.
    elim (add_payment p t (find_by_order p.order_id t.payments) (find_payment p.id t.payments)).0 [
      | ok (some _) ↦ (ok tt, record t { payments = p ∷ t.payments })
      | ok none ↦ (err other, t)
      | err e ↦ (err e, t)
    ])

-- UpdateStatus, which has no use case
unfoldable pub update_payment_status : ℕ → Status → Action (Db Tables) (Unit {0})
update_payment_status id new =
    statement (λ t. (ok tt, record t { payments = set_status id new t.payments }))

-- GetByID
unfoldable pub get_by_id : ℕ → Action (Db Tables) Payment
get_by_id id = statement (λ t. (row_or_not_found (find_payment id t.payments), t))

abbrev pub set_if : ℕ → Status → Status → Tables → Option Payment → Result Bool × Tables
set_if id new expected t none = (ok false, t)
set_if id new expected t (some p) =
    if same_status p.status expected
    then (ok true, record t { payments = set_status id new t.payments })
    else (ok false, t)

-- UpdateStatusIf
unfoldable pub update_status_if : ℕ → Status → Status → Action (Db Tables) Bool
update_status_if id new expected =
    statement (λ t. set_if id new expected t (find_payment id t.payments))

abbrev pub key_taken : Option ℕ → List Refund → Bool
key_taken none rs = false
key_taken (some k) rs = elim (find_by_key k rs) [ none ↦ false | some _ ↦ true ]

abbrev pub is_some : {A : Type 0} → Option A → Bool
is_some none = false
is_some (some _) = true

-- CreateRefund: the id and a key that is not empty are unique, and the payment exists.
unfoldable pub create_refund : Refund → Action (Db Tables) (Unit {0})
create_refund r = statement (λ t.
    if is_some (find_refund r.id t.refunds)
    then (err other, t)
    else if key_taken r.idempotency_key t.refunds
    then (err other, t)
    else if is_some (find_payment r.payment_id t.payments)
    then (ok tt, record t { refunds = r ∷ t.refunds })
    else (err other, t))

-- GetRefund
unfoldable pub get_refund_row : ℕ → Action (Db Tables) Refund
get_refund_row id = statement (λ t. (row_or_not_found (find_refund id t.refunds), t))

-- GetRefundByIdempotencyKey
unfoldable pub get_refund_by_idempotency_key : ℕ → Action (Db Tables) Refund
get_refund_by_idempotency_key k = statement (λ t. (row_or_not_found (find_by_key k t.refunds), t))

-- ListRefunds: the newest refund first
unfoldable pub list_refund_rows : ℕ → Action (Db Tables) (List Refund)
list_refund_rows payment = statement (λ t. (ok (refunds_of payment t.refunds), t))
