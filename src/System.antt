-- ===== src/System.antt =====
-- The three services together: the saga of services/order-service over its own tables, the clients
-- of services/order-service/internal/infrastructure/grpcclient, and the handlers of inventory-service
-- and payment-service over theirs.
pub mod Confirmed
pub mod Safety
mod Tests
use go_ozon_marketplace.Prelude.{
  ℕ, ◌+◌, Bool, true, false, List, [], ◌∷◌, Option, none, some, String, if◌then◌else◌,
}
use go_ozon_marketplace.Prelude.Effect.{Error, other, deadline_exceeded, Result, ok, err, Action}
use go_ozon_marketplace.Database.{Fault, answered, refused, lost, Db, next_fault}
use go_ozon_marketplace.Grpc.{Context, Reply, reply, status}
use go_ozon_marketplace.Order.Domain.{Order}
use go_ozon_marketplace.Order.Status.{OrderStatus}
use go_ozon_marketplace.Order.Repository as Orders
use go_ozon_marketplace.Inventory.Usecase as Stock
use go_ozon_marketplace.Inventory.Handler.{StockRequest, handle_reserve, handle_release}
use go_ozon_marketplace.Payment.Handler.{Server, ProtoStatus, handle_process_payment, handle_refund}
use go_ozon_marketplace.Saga.Types.{Saga}
use go_ozon_marketplace.Saga.Env.{Env, Key}
use go_ozon_marketplace.Saga.Store.{insert_saga, get_by_order_id, save_row, list_incomplete_rows}

-- The tables of the services with the faults of their statements, and what the outside decides: the
-- faults of the calls between services, whether a wait ends by its timer, and the outcomes of
-- payments. The clock is also the source of uuids.
pub record Platform : Type 0 where
  pub orders : Db Orders.Tables
  pub sagas : Db (List Saga)
  pub inventory : Stock.Service
  pub payments : Server
  pub network : List Fault
  pub timers : List Bool
  pub approvals : List Bool
  pub clock : ℕ

abbrev pub next_flag : List Bool → Bool × List Bool
next_flag [] = (true, [])
next_flag (b ∷ bs) = (b, bs)

abbrev pub on_orders : {A : Type 0} → Action (Db Orders.Tables) A → Action Platform A
on_orders m s = let (r, db) = m s.orders in (r, record s { orders = db })

abbrev pub on_sagas : {A : Type 0} → Action (Db (List Saga)) A → Action Platform A
on_sagas m s = let (r, db) = m s.sagas in (r, record s { sagas = db })

-- What a client makes of an answer: every error is a status, no sentinel.
abbrev pub of_reply : {A : Type 0} → Reply A → Result A
of_reply (reply a) = ok a
of_reply (status _) = err other

-- A call of another service: the request is lost, or the answer is, or neither.
abbrev pub over_network :
    {A : Type 0} → (Platform → Reply A × Platform) → Platform → Fault → Result A × Platform
over_network m s answered = let (r, s') = m s in (of_reply r, s')
over_network m s (refused e) = (err other, s)
over_network m s (lost e) = let (_, s') = m s in (err other, s')

abbrev pub remote : {A : Type 0} → (Platform → Reply A × Platform) → Action Platform A
remote m s = let (x, rest) = next_fault s.network in over_network m (record s { network = rest }) x

-- `uuid.Parse` and `UUID.String`; the text of a key; Redis, as the use cases of inventory-service
-- have it; and the contexts that the interceptors of the two services make.
module _ (parse : String → Option ℕ) (show : ℕ → String) (key_code : Key → Option ℕ)
    (redis_write : Stock.Redis → Stock.Redis → Stock.Redis)
    (in_inventory in_payment : Context) where
  abbrev pub stock_request : ℕ → ℕ → ℕ → StockRequest
  stock_request product q order = record {
    product_id = show product;
    quantity = q;
    order_id = show order;
  }

  abbrev pub on_inventory :
      {A : Type 0} → (Stock.Service → Reply A × Stock.Service) → Platform → Reply A × Platform
  on_inventory m s = let (r, i) = m s.inventory in (r, record s { inventory = i })

  -- InventoryClient.Reserve
  unfoldable pub client_reserve : ℕ → ℕ → ℕ → Key → Action Platform (Unit {0})
  client_reserve product q order key =
      remote (
        on_inventory
          (handle_reserve parse redis_write in_inventory (stock_request product q order)))

  -- InventoryClient.Release
  unfoldable pub client_release : ℕ → ℕ → ℕ → Key → Action Platform (Unit {0})
  client_release product q order key =
      remote (
        on_inventory
          (handle_release parse redis_write in_inventory (stock_request product q order)))

  abbrev pub on_payments :
      {A : Type 0} → (Server → Reply A × Server) → Platform → Reply A × Platform
  on_payments m s = let (r, p) = m s.payments in (r, record s { payments = p; clock = s.clock + 1 })

  -- The handler of ProcessPayment with the next outcome and a new uuid.
  abbrev pub charge : ℕ → ℕ → Platform → Reply (String × ProtoStatus) × Platform
  charge order amount s =
      let (approved, rest) = next_flag s.approvals in
      on_payments
        (handle_process_payment parse show approved s.clock in_payment (show order) amount)
        (record s { approvals = rest })

  abbrev pub payment_id_of : Result (String × ProtoStatus) × Platform → Result String × Platform
  payment_id_of (ok (id, _), s) = (ok id, s)
  payment_id_of (err e, s) = (err e, s)

  -- PaymentClient.ProcessPayment, which gives the id back and not the status.
  unfoldable pub client_process_payment : ℕ → ℕ → Key → Action Platform String
  client_process_payment order amount key s = payment_id_of (remote (charge order amount) s)

  abbrev pub give_back : String → Key → Platform → Reply ProtoStatus × Platform
  give_back payment key s =
      on_payments (handle_refund parse show s.clock in_payment payment 0 (key_code key)) s

  abbrev pub no_answer : {A : Type 0} → Result A × Platform → Result (Unit {0}) × Platform
  no_answer (ok _, s) = (ok tt, s)
  no_answer (err e, s) = (err e, s)

  -- PaymentClient.Refund, of the whole amount.
  unfoldable pub client_refund : String → Key → Action Platform (Unit {0})
  client_refund payment key s = no_answer (remote (give_back payment key) s)

  -- The environment of the orchestrator
  abbrev pub platform : Env
  platform = record {
    State = Platform;
    now = λ s. s.clock;
    new_id = λ s. (s.clock, record s { clock = s.clock + 1 });
    wait = λ n s.
        let (fired, rest) = next_flag s.timers in
        (fired, record s { timers = rest; clock = s.clock + n });
    ctx_err = deadline_exceeded;
    create_saga = λ g. on_sagas (insert_saga g);
    get_saga = λ order. on_sagas (get_by_order_id order);
    save_saga = λ g s. on_sagas (save_row g s.clock) s;
    list_incomplete = λ n. on_sagas (list_incomplete_rows n);
    get_order = λ id. on_orders (Orders.get_order_by_id id);
    update_order_status = λ id st s. on_orders (Orders.update_order_row id st s.clock) s;
    reserve = client_reserve;
    release = client_release;
    process_payment = client_process_payment;
    refund = client_refund;
  }
