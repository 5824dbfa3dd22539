-- ===== src/Order/Handler/Tests.antt =====
-- Calls of the order service's handler by different callers.
use text.Mathlib.Text.{◌==◌ as text_eq}
use go_ozon_marketplace.Prelude.{
  ℕ, ◌≡◌, refl, true, [], ◌∷◌, Option, none, some, String, ◌==◌, if◌then◌else◌,
}
use go_ozon_marketplace.Prelude.Effect.{ok, err, other}
use go_ozon_marketplace.Database.{statement}
use go_ozon_marketplace.Errors.{code_permission_denied}
use go_ozon_marketplace.Grpc.{
  Context, Identity, user, admin, get_user_id, find_role, get_role, same_role, status, reply,
}
use go_ozon_marketplace.Order.Status
use go_ozon_marketplace.Order.Repository.{get_order_by_id, update_order_row}
use go_ozon_marketplace.Order.Status.{same_status, OrderStatus-discrete, cancellable_directly}
use go_ozon_marketplace.Order.Usecase.{
  Service, Orchestrator, get_order, cancel_order, cancel_loaded,
}
use go_ozon_marketplace.Order.Handler.{may_see, handle_get_order, handle_cancel_order}
use go_ozon_marketplace.Order.Handler.Access.{Guarded, handlers-Guarded}

abbrev show : ℕ → String
show n = if n == 1 then "1" else if n == 2 then "2" else "3"

abbrev parse : String → Option ℕ
parse s = if text_eq s "1" then some 1 else if text_eq s "2" then some 2 else none

abbrev caller : Identity → Context
caller id = record { identity = some id; user_id_value = none; role_value = none }

abbrev no_saga : Orchestrator
no_saga = record { process_order = λ o key s. (ok tt, s); cancel_order = λ o s. (err other, s) }

-- An order of user 2.
abbrev one_order : Service
one_order = record {
  db = (
    record {
      orders =
          record {
            id = 1;
            user_id = 2;
            total_amount = 25;
            status = Status.pending;
            created_at = 5;
            updated_at = 5;
          }
          ∷ [];
      order_items = [];
      outbox = [];
    },
    [],
  );
  published = [];
}

abbrev stranger : Context
stranger = caller (record { user_id = "3"; role = user })

abbrev manager : Context
manager = caller (record { user_id = "3"; role = admin })

stranger_refused :
    (handle_cancel_order parse show no_saga 9 stranger "1" one_order).0
    ≡ status code_permission_denied
unfolding handle_cancel_order get_user_id get_role find_role same_role may_see get_order
    get_order_by_id statement
stranger_refused = refl

manager_cancels : (handle_cancel_order parse show no_saga 9 manager "1" one_order).0 ≡ reply true
unfolding handle_cancel_order get_user_id get_role find_role same_role may_see get_order
    get_order_by_id statement cancel_order cancel_loaded cancellable_directly same_status
    OrderStatus-discrete update_order_row
manager_cancels = refl

handlers-Guarded_example :
    Guarded parse show stranger "1" one_order (handle_get_order parse show stranger "1" one_order)
    × Guarded parse show stranger "1" one_order
        (handle_cancel_order parse show no_saga 9 stranger "1" one_order)
handlers-Guarded_example = handlers-Guarded parse show stranger no_saga 9 "1" one_order
