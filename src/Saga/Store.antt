-- ===== src/Saga/Store.antt =====
-- The table `sagas` and services/order-service/internal/repository/postgres/saga_postgres.go.
use go_ozon_marketplace.Prelude.{
  ℕ, Bool, false, ◌||◌, List, [], ◌∷◌, Option, none, some, String, ◌==◌, leb, take, if◌then◌else◌,
}
use go_ozon_marketplace.Prelude.Effect.{Error, not_found, other, Result, ok, err, Action}
use go_ozon_marketplace.Database.{Db, statement, row_or_not_found}
use go_ozon_marketplace.Saga.Types.{Saga, SagaStatus}
use go_ozon_marketplace.Saga.Orchestrator.{is_terminal}

-- Does a row have this id, the primary key, or this order, which is UNIQUE?
abbrev pub is_taken : ℕ → ℕ → List Saga → Bool
is_taken id order [] = false
is_taken id order (g ∷ gs) = (g.id == id) || (g.order_id == order) || is_taken id order gs

-- Create
unfoldable pub insert_saga : Saga → Action (Db (List Saga)) (Unit {0})
insert_saga g =
    statement (λ t. if is_taken g.id g.order_id t then (err other, t) else (ok tt, g ∷ t))

abbrev pub find_saga : ℕ → List Saga → Option Saga
find_saga order [] = none
find_saga order (g ∷ gs) = if g.order_id == order then some g else find_saga order gs

-- GetByOrderID
unfoldable pub get_by_order_id : ℕ → Action (Db (List Saga)) Saga
get_by_order_id order = statement (λ t. (row_or_not_found (find_saga order t), t))

-- The row of an order, changed.
abbrev pub set_row : ℕ → (Saga → Saga) → List Saga → List Saga
set_row order f [] = []
set_row order f (g ∷ gs) = if g.order_id == order then f g ∷ gs else g ∷ set_row order f gs

abbrev pub set_found : ℕ → (Saga → Saga) → List Saga → Option Saga → Result (Unit {0}) × List Saga
set_found order f t none = (err not_found, t)
set_found order f t (some _) = (ok tt, set_row order f t)

-- UpdateStatus; `time` is the database's NOW().
unfoldable pub update_saga_status :
    ℕ → SagaStatus → String → Option Error → ℕ → Action (Db (List Saga)) (Unit {0})
update_saga_status order status step message time = statement (λ t.
    set_found order
      (λ g. record g {
        status = status;
        current_step = step;
        error_message = message;
        updated_at = time;
      })
      t (find_saga order t))

-- Save; `time` is the database's NOW().
unfoldable pub save_row : Saga → ℕ → Action (Db (List Saga)) (Unit {0})
save_row saga time = statement (λ t.
    set_found saga.order_id
      (λ g. record g {
        status = saga.status;
        current_step = saga.current_step;
        error_message = saga.error_message;
        payment_id = saga.payment_id;
        reserved_items = saga.reserved_items;
        updated_at = time;
      })
      t (find_saga saga.order_id t))

-- `status NOT IN (confirmed, cancelled, failed)`
unfoldable pub incomplete : List Saga → List Saga
incomplete [] = []
incomplete (g ∷ gs) = if is_terminal g.status then incomplete gs else g ∷ incomplete gs

-- `ORDER BY created_at`
abbrev pub insert_saga_by_age : Saga → List Saga → List Saga
insert_saga_by_age g [] = g ∷ []
insert_saga_by_age g (x ∷ xs) =
    if leb g.created_at x.created_at then g ∷ x ∷ xs else x ∷ insert_saga_by_age g xs

abbrev pub sagas_by_age : List Saga → List Saga
sagas_by_age [] = []
sagas_by_age (g ∷ gs) = insert_saga_by_age g (sagas_by_age gs)

-- ListIncomplete
unfoldable pub list_incomplete_rows : ℕ → Action (Db (List Saga)) (List Saga)
list_incomplete_rows limit = statement (λ t. (ok (take limit (sagas_by_age (incomplete t))), t))
