-- ===== src/System/Safety.antt =====
-- The saga with all of its services keeps the tables of inventory-service and payment-service sound.
pub mod Reserving
pub mod Charging
use mathlib.Core.Path.{subst}
use go_ozon_marketplace.Prelude.{
  ℕ, ◌≤◌, refl, sym, ◌∙◌, inl, inr, Bool, List, [], ◌∷◌, Option, none, some, String, Bool-cases,
  Option-cases,
}
use go_ozon_marketplace.Prelude.Effect.{Result, ok, err}
use go_ozon_marketplace.Database.{Fault, answered, refused, lost, next_fault}
use go_ozon_marketplace.Database.Laws.{statement-reads}
use go_ozon_marketplace.Errors.{Code}
use go_ozon_marketplace.Grpc.{Context, Role, Reply, status, to_reply, require_role, get_user_id}
use go_ozon_marketplace.Order.Domain.{Order}
use go_ozon_marketplace.Inventory.Tables as Inventory
use go_ozon_marketplace.Inventory.Usecase as Stock
use go_ozon_marketplace.Inventory.Handler.{
  StockRequest, handle_reserve, handle_release, int_of_int32,
}
use go_ozon_marketplace.Inventory.Invariant.{IsConsistent, IsConserved, held, total_count}
use go_ozon_marketplace.Inventory.Guarantees.Sequences as Calls
use go_ozon_marketplace.Payment.Tables as Payments
use go_ozon_marketplace.Payment.Repository.{get_by_id}
use go_ozon_marketplace.Payment.Usecase.{process_payment, refund, get_payment}
use go_ozon_marketplace.Payment.Invariant.{IsSound}
use go_ozon_marketplace.Payment.Guarantees as Charges
use go_ozon_marketplace.Payment.Handler.{
  Server, ProtoStatus, on_db, processed, with_payment, may_see, refund_answer,
  handle_process_payment, handle_refund,
}
use go_ozon_marketplace.Saga.Env.{Env, Key}
use go_ozon_marketplace.Saga.Keeps.{Keeps, process_order_keeps}
use go_ozon_marketplace.Saga.Keeps.Recovery.{cancel_order_keeps, state_of_keeps, recover_keeps}
use go_ozon_marketplace.Saga.Orchestrator.{process_order}
use go_ozon_marketplace.Saga.Recovery.{cancel_order, state_of, recover}
use go_ozon_marketplace.System.{
  Platform, over_network, remote, charge, give_back, client_reserve, client_release, payment_id_of,
  client_process_payment, no_answer, client_refund, platform, next_flag, stock_request,
  on_inventory,
}
use go_ozon_marketplace.System.Safety.Reserving.{
  IsStocked, handle_reserve-keeps, handle_release-keeps,
}
use go_ozon_marketplace.System.Safety.Charging.{handle_process_payment-keeps, handle_refund-keeps}

-- Stock adds up and no unit of `before` is lost or made; payments and refunds add up.
abbrev pub IsSafe : Inventory.Tables → Platform → Type 0
IsSafe before s =
    IsConsistent s.inventory.db.0 × IsConserved before s.inventory.db.0 × IsSound s.payments.db.0

module _ (parse : String → Option ℕ) (show : ℕ → String) (key_code : Key → Option ℕ)
    (redis_write : Stock.Redis → Stock.Redis → Stock.Redis) (in_inventory in_payment : Context)
    (before : Inventory.Tables) where
  over_network-keeps :
      {A : Type 0} (m : Platform → Reply A × Platform) (s : Platform) (x : Fault)
      → ((s : Platform) → IsSafe before s → IsSafe before (m s).1)
      → IsSafe before s
      → IsSafe before (over_network m s x).1
  over_network-keeps m s answered k h = k s h
  over_network-keeps m s (refused e) k h = h
  over_network-keeps m s (lost e) k h = k s h

  remote-keeps :
      {A : Type 0} (m : Platform → Reply A × Platform) (s : Platform)
      → ((s : Platform) → IsSafe before s → IsSafe before (m s).1)
      → IsSafe before s
      → IsSafe before (remote m s).1
  remote-keeps m s k h =
      over_network-keeps m (record s { network = (next_fault s.network).1 })
        (next_fault s.network).0 k h

  payment_id_of-state :
      (r : Result (String × ProtoStatus) × Platform)
      → IsSafe before r.1
      → IsSafe before (payment_id_of parse show key_code redis_write in_inventory in_payment r).1
  payment_id_of-state (ok p, s) h = h
  payment_id_of-state (err e, s) h = h

  no_answer-state :
      {A : Type 0} (r : Result A × Platform)
      → IsSafe before r.1
      → IsSafe before (no_answer parse show key_code redis_write in_inventory in_payment r).1
  no_answer-state (ok a, s) h = h
  no_answer-state (err e, s) h = h

  abbrev env : Env
  env = platform parse show key_code redis_write in_inventory in_payment

  on_inventory-keeps :
      (m : Stock.Service → Reply (Unit {0}) × Stock.Service) (s : Platform)
      → ((i : Stock.Service) → IsStocked before i → IsStocked before (m i).1)
      → IsSafe before s
      → IsSafe before
          (remote (on_inventory parse show key_code redis_write in_inventory in_payment m) s).1
  on_inventory-keeps m s k h =
      remote-keeps (on_inventory parse show key_code redis_write in_inventory in_payment m) s
        (λ s' (a, b, c). let (a', b') = k s'.inventory (a, b) in (a', b', c)) h

  client_process_payment-keeps :
      (order amount : ℕ) (key : Key) (s : Platform)
      → IsSafe before s
      → IsSafe before
          (client_process_payment parse show key_code redis_write in_inventory in_payment order
            amount key s).1
  unfolding client_process_payment
  client_process_payment-keeps order amount key s h =
      payment_id_of-state
        (remote (charge parse show key_code redis_write in_inventory in_payment order amount) s)
        (remote-keeps (charge parse show key_code redis_write in_inventory in_payment order amount)
          s
          (λ s' (a, b, c). (
            a,
            b,
            handle_process_payment-keeps parse show in_payment (next_flag s'.approvals).0 s'.clock
                (show order) amount s'.payments c,
          ))
          h)

  client_refund-keeps :
      (payment : String) (key : Key) (s : Platform)
      → IsSafe before s
      → IsSafe before
          (client_refund parse show key_code redis_write in_inventory in_payment payment key s).1
  unfolding client_refund
  client_refund-keeps payment key s h =
      no_answer-state
        (remote (give_back parse show key_code redis_write in_inventory in_payment payment key) s)
        (remote-keeps
          (give_back parse show key_code redis_write in_inventory in_payment payment key) s
          (λ s' (a, b, c). (
            a,
            b,
            handle_refund-keeps parse show in_payment s'.clock payment 0 (key_code key) s'.payments
                c,
          ))
          h)

  platform-Keeps : Keeps env (IsSafe before)
  unfolding client_reserve client_release
  platform-Keeps = record {
    new_id_keeps = λ s h. h;
    wait_keeps = λ n s h. h;
    create_saga_keeps = λ g s h. h;
    get_saga_keeps = λ id s h. h;
    save_saga_keeps = λ g s h. h;
    list_incomplete_keeps = λ n s h. h;
    get_order_keeps = λ id s h. h;
    update_order_status_keeps = λ id st s h. h;
    reserve_keeps = λ p q o k s h.
        on_inventory-keeps
          (handle_reserve parse redis_write in_inventory
            (stock_request parse show key_code redis_write in_inventory in_payment p q o))
          s
          (handle_reserve-keeps parse redis_write in_inventory before
            (stock_request parse show key_code redis_write in_inventory in_payment p q o))
          h;
    release_keeps = λ p q o k s h.
        on_inventory-keeps
          (handle_release parse redis_write in_inventory
            (stock_request parse show key_code redis_write in_inventory in_payment p q o))
          s
          (handle_release-keeps parse redis_write in_inventory before
            (stock_request parse show key_code redis_write in_inventory in_payment p q o))
          h;
    process_payment_keeps = client_process_payment-keeps;
    refund_keeps = client_refund-keeps;
  }

  IsSafe-process :
      (order : Order) (key : Key) (s : Platform)
      → IsSafe before s
      → IsSafe before (state_of env s (process_order env order key s))
  IsSafe-process order key s h =
      state_of_keeps env (IsSafe before) platform-Keeps s (process_order env order key s) h
        (process_order_keeps env (IsSafe before) platform-Keeps order key s h)

  IsSafe-cancel :
      (order : Order) (s : Platform) → IsSafe before s → IsSafe before (cancel_order env order s).1
  IsSafe-cancel order s h = cancel_order_keeps env (IsSafe before) platform-Keeps order s h

  IsSafe-recover : (s : Platform) → IsSafe before s → IsSafe before (recover env s).1
  IsSafe-recover s h = recover_keeps env (IsSafe before) platform-Keeps s h

-- What the order service does with the platform: an order is processed under a key, an order is
-- cancelled, or the worker recovers what is incomplete.
pub data Operation : Type 0 where
  process : Order → Key → Operation
  cancel : Order → Operation
  recovery : Operation

module _ (parse : String → Option ℕ) (show : ℕ → String) (key_code : Key → Option ℕ)
    (redis_write : Stock.Redis → Stock.Redis → Stock.Redis)
    (in_inventory in_payment : Context) where
  abbrev pub operate : Operation → Platform → Platform
  operate (process order key) s =
      state_of (platform parse show key_code redis_write in_inventory in_payment) s (
        process_order (platform parse show key_code redis_write in_inventory in_payment) order key
          s)
  operate (cancel order) s =
      (cancel_order (platform parse show key_code redis_write in_inventory in_payment) order s).1
  operate recovery s =
      (recover (platform parse show key_code redis_write in_inventory in_payment) s).1

  abbrev pub operate_all : List Operation → Platform → Platform
  operate_all [] s = s
  operate_all (o ∷ os) s = operate_all os (operate o s)

  operate-IsSafe :
      (before : Inventory.Tables) (o : Operation) (s : Platform)
      → IsSafe before s
      → IsSafe before (operate o s)
  operate-IsSafe before (process order key) s h =
      IsSafe-process parse show key_code redis_write in_inventory in_payment before order key s h
  operate-IsSafe before (cancel order) s h =
      IsSafe-cancel parse show key_code redis_write in_inventory in_payment before order s h
  operate-IsSafe before recovery s h =
      IsSafe-recover parse show key_code redis_write in_inventory in_payment before s h

  operate_all-IsSafe :
      (before : Inventory.Tables) (os : List Operation) (s : Platform)
      → IsSafe before s
      → IsSafe before (operate_all os s)
  operate_all-IsSafe before [] s h = h
  operate_all-IsSafe before (o ∷ os) s h =
      operate_all-IsSafe before os (operate o s) (operate-IsSafe before o s h)

  -- However many orders are processed, cancelled and recovered, one after the other, under whatever
  -- faults of the databases, of the network and of the timers: from tables in which the stock and the
  -- payments add up, they add up, every product has as many units in all as before, and the active
  -- reservations hold no more of it than that.
  pub operations-IsSafe :
      (os : List Operation) (s : Platform)
      → IsConsistent s.inventory.db.0
      → IsSound s.payments.db.0
      → IsSafe s.inventory.db.0 (operate_all os s)
        × ((p : ℕ)
            → held p (operate_all os s).inventory.db.0.reservations
              ≤ total_count (s.inventory.db.0.inventory p))
  operations-IsSafe os s stocked sound =
      let (a, b, c) = operate_all-IsSafe s.inventory.db.0 os s (stocked, (λ p. refl), sound) in
      (
        (a, b, c),
        (λ p.
            subst (λ n. held p (operate_all os s).inventory.db.0.reservations ≤ n) (b p)
              (Calls.run_calls-no_oversell redis_write [] (operate_all os s).inventory p a)),
      )
