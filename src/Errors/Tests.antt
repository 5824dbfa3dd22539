-- ===== src/Errors/Tests.antt =====
-- Errors that cross between services, at concrete kinds.
use go_ozon_marketplace.Prelude.{◌≡◌, refl, some, false}
use go_ozon_marketplace.Prelude.Effect.{not_found}
use go_ozon_marketplace.Errors.{
  kind_insufficient_stock, Entry, code_failed_precondition, code_internal, entry_for, GoError,
  sentinel, wrapped, app, app_over, new_kind_error, to_status, from_status,
}
use go_ozon_marketplace.Errors.Crossing.{Arrives, from_status-crossing, to_status-crossing}

insufficient_stock_code :
    to_status (new_kind_error kind_insufficient_stock) ≡ code_failed_precondition
unfolding to_status new_kind_error entry_for
insufficient_stock_code = refl

-- An AppError that `fmt.Errorf` wraps is an internal error.
wrapped_kind_code : to_status (wrapped (new_kind_error kind_insufficient_stock)) ≡ code_internal
unfolding to_status new_kind_error
wrapped_kind_code = refl

abbrev stock_error : GoError
stock_error = app_over "insufficient_stock" kind_insufficient_stock (sentinel not_found)

stock_error_survives : to_status (from_status (to_status stock_error)) ≡ to_status stock_error
stock_error_survives = to_status-crossing stock_error

abbrev stock_entry : Entry
stock_entry = record {
  grpc_code = code_failed_precondition;
  http_status = 409;
  public_key = "INSUFFICIENT_STOCK";
  retryable = false;
}

insufficient_stock_entry : entry_for kind_insufficient_stock ≡ some stock_entry
unfolding entry_for
insufficient_stock_entry = refl

from_status-crossing_example :
    Arrives stock_entry (app "insufficient_stock" kind_insufficient_stock)
    × Arrives stock_entry stock_error
from_status-crossing_example =
    from_status-crossing "insufficient_stock" kind_insufficient_stock stock_entry
      (sentinel not_found) insufficient_stock_entry
