-- ===== src/Order/Repository.antt =====
-- The tables of services/order-service and the SQL statements of order_postgres.go and
-- outbox_postgres.go in services/order-service/internal/repository/postgres that its use cases call.
use go_ozon_marketplace.Prelude.{
  ℕ, Bool, false, ◌||◌, List, [], ◌∷◌, Option, none, some, ◌==◌, leb, if◌then◌else◌,
}
use go_ozon_marketplace.Prelude.Effect.{not_found, other, Result, ok, err, Action, pure, ◌>>◌}
use go_ozon_marketplace.Database.{Db, statement, row_or_not_found}
use go_ozon_marketplace.Order.Status.{OrderStatus}
use go_ozon_marketplace.Order.Domain.{OrderItem, Order}

-- A row of `orders`
pub record OrderRow : Type 0 where
  pub id : ℕ
  pub user_id : ℕ
  pub total_amount : ℕ
  pub status : OrderStatus
  pub created_at : ℕ
  pub updated_at : ℕ

-- An event of the outbox; its payload is the order that is encoded.
pub record OutboxEvent : Type 0 where
  pub id : ℕ
  pub aggregate_id : ℕ
  pub payload : Order
  pub created_at : ℕ

pub record Tables : Type 0 where
  pub orders : List OrderRow
  pub order_items : List OrderItem
  pub outbox : List OutboxEvent

abbrev pub find_order : ℕ → List OrderRow → Option OrderRow
find_order id [] = none
find_order id (o ∷ os) = if o.id == id then some o else find_order id os

abbrev pub has_item : ℕ → List OrderItem → Bool
has_item id [] = false
has_item id (i ∷ is) = (i.id == id) || has_item id is

abbrev pub has_event : ℕ → List OutboxEvent → Bool
has_event id [] = false
has_event id (e ∷ es) = (e.id == id) || has_event id es

abbrev pub order_row : Order → OrderRow
order_row o = record {
  id = o.id;
  user_id = o.user_id;
  total_amount = o.total_amount;
  status = o.status;
  created_at = o.created_at;
  updated_at = o.updated_at;
}

abbrev pub add_order : Order → Tables → Option OrderRow → Result (Unit {0}) × Tables
add_order o t (some _) = (err other, t)
add_order o t none = (ok tt, record t { orders = order_row o ∷ t.orders })

-- The first INSERT of Create
unfoldable pub insert_order_row : Order → Action (Db Tables) (Unit {0})
insert_order_row o = statement (λ t. add_order o t (find_order o.id t.orders))

-- One INSERT of the batch of Create
unfoldable pub insert_item : OrderItem → Action (Db Tables) (Unit {0})
insert_item i = statement (λ t.
    if has_item i.id t.order_items
    then (err other, t)
    else (ok tt, record t { order_items = i ∷ t.order_items }))

unfoldable pub insert_items : List OrderItem → Action (Db Tables) (Unit {0})
insert_items [] = pure tt
insert_items (i ∷ is) = insert_item i >> insert_items is

-- Create of order_postgres.go
unfoldable pub create_order_rows : Order → Action (Db Tables) (Unit {0})
create_order_rows o = insert_order_row o >> insert_items o.items

-- Create of outbox_postgres.go
unfoldable pub create_outbox_event : OutboxEvent → Action (Db Tables) (Unit {0})
create_outbox_event e = statement (λ t.
    if has_event e.id t.outbox then (err other, t) else (ok tt, record t { outbox = e ∷ t.outbox }))

-- `ORDER BY i.id`
abbrev pub insert_by_id : OrderItem → List OrderItem → List OrderItem
insert_by_id i [] = i ∷ []
insert_by_id i (j ∷ js) = if leb i.id j.id then i ∷ j ∷ js else j ∷ insert_by_id i js

-- The items of an order, by their ids.
abbrev pub items_of : ℕ → List OrderItem → List OrderItem
items_of id [] = []
items_of id (i ∷ is) = if i.order_id == id then insert_by_id i (items_of id is) else items_of id is

abbrev pub joined : Tables → OrderRow → Order
joined t o = record {
  id = o.id;
  user_id = o.user_id;
  items = items_of o.id t.order_items;
  total_amount = o.total_amount;
  status = o.status;
  created_at = o.created_at;
  updated_at = o.updated_at;
}

abbrev pub joined_row : Tables → Option OrderRow → Option Order
joined_row t none = none
joined_row t (some o) = some (joined t o)

-- GetByID
unfoldable pub get_order_by_id : ℕ → Action (Db Tables) Order
get_order_by_id id = statement (λ t. (row_or_not_found (joined_row t (find_order id t.orders)), t))

abbrev pub set_order_status : ℕ → OrderStatus → ℕ → List OrderRow → List OrderRow
set_order_status id st time [] = []
set_order_status id st time (o ∷ os) =
    if o.id == id
    then record o { status = st; updated_at = time } ∷ os
    else o ∷ set_order_status id st time os

abbrev pub status_updated :
    ℕ → OrderStatus → ℕ → Tables → Option OrderRow → Result (Unit {0}) × Tables
status_updated id st time t none = (err not_found, t)
status_updated id st time t (some _) =
    (ok tt, record t { orders = set_order_status id st time t.orders })

-- UpdateStatus; `time` is the database's NOW().
unfoldable pub update_order_row : ℕ → OrderStatus → ℕ → Action (Db Tables) (Unit {0})
update_order_row id st time = statement (λ t. status_updated id st time t (find_order id t.orders))
