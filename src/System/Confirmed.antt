-- ===== src/System/Confirmed.antt =====
-- What a confirmed order means for the tables of inventory-service and payment-service.
mod Tests
pub mod Stock
pub mod Money
pub mod Clients
use mathlib.Core.Path.{subst}
use go_ozon_marketplace.Prelude.{
  ℕ, ◌+◌, ◌≡◌, refl, sym, ap, ◌∙◌, inl, inr, Bool, List, [], ◌∷◌, ◌++◌, Option, none, some, String,
  map, All, append-nil,
}
use go_ozon_marketplace.Prelude.Effect.{Error, other, Result, ok, err}
use go_ozon_marketplace.Database.{Fault, answered, refused, lost, next_fault}
use go_ozon_marketplace.Grpc.{Context, Reply, reply, status}
use go_ozon_marketplace.Order.Status.{OrderStatus}
use go_ozon_marketplace.Order.Domain.{Order, OrderItem}
use go_ozon_marketplace.Inventory.Tables.{Tables, find_reservation}
use go_ozon_marketplace.Inventory.Effects.{active}
use go_ozon_marketplace.Inventory.Usecase as Inventory
use go_ozon_marketplace.Inventory.Handler.{handle_reserve, int_of_int32}
use go_ozon_marketplace.Payment.Tables.{Payment, find_by_order}
use go_ozon_marketplace.Payment.Invariant.{IsSound}
use go_ozon_marketplace.Payment.Handler.{Server, ProtoStatus, handle_process_payment}
use go_ozon_marketplace.Saga.Types.{Saga, SagaReservedItem, confirmed, int32}
use go_ozon_marketplace.Saga.Env.{Env, Key}
use go_ozon_marketplace.Saga.Steps.{Change, reserved_item}
use go_ozon_marketplace.Saga.Forward.{Forward, confirmed_keeps}
use go_ozon_marketplace.Saga.Orchestrator.{new_saga}
use go_ozon_marketplace.Saga.Trace.{
  Log, reserved, reserve_failed, charged, charge_failed, order_set, order_set_failed, traced,
  reserves, charges, reserve_event, charge_event, order_event,
}
use go_ozon_marketplace.Saga.Trace.Laws.{reserves-append, charges-append}
use go_ozon_marketplace.Saga.Guarantees.{run, confirmed_paid}
use go_ozon_marketplace.System.{
  Platform, of_reply, over_network, remote, stock_request, on_inventory, client_reserve, charge,
  payment_id_of, client_process_payment, platform, next_flag,
}
use go_ozon_marketplace.System.Safety.Charging.{handle_process_payment-keeps}
use go_ozon_marketplace.System.Confirmed.Stock.{IsHeld, IsReply, handle_reserve-Holds}
use go_ozon_marketplace.System.Confirmed.Money.{IsCharged, Pays, handle_process_payment-Pays}
use go_ozon_marketplace.System.Confirmed.Clients.{
  Reserved, Charged, client_reserve-Reserved, client_process_payment-Charged,
}

All-append :
    {A : Type 0} (P : A → Type 0) (xs : List A) {x : A} → All P xs → P x → All P (xs ++ x ∷ [])
All-append P [] h p = (p, tt)
All-append P (y ∷ xs) (h, hs) p = (h, All-append P xs hs p)

All-map :
    {A : Type 0} (P Q : A → Type 0) (xs : List A) → ((x : A) → P x → Q x) → All P xs → All Q xs
All-map P Q [] f h = tt
All-map P Q (x ∷ xs) f (h, hs) = (f x h, All-map P Q xs f hs)

module _ (parse : String → Option ℕ) (show : ℕ → String) (key_code : Key → Option ℕ)
    (redis_write : Inventory.Redis → Inventory.Redis → Inventory.Redis)
    (in_inventory in_payment : Context) (parse-show : (n : ℕ) → parse (show n) ≡ some n)
    (order : Order) where
  abbrev env : Env
  env = platform parse show key_code redis_write in_inventory in_payment

  -- Every reservation and every charge of the log is in the tables.
  abbrev Recorded : Platform × Log → Type 0
  Recorded (s, log) =
      IsSound s.payments.db.0
      × All (IsHeld order.id s.inventory.db.0) (reserves log)
      × All (IsCharged show order.id s.payments.db.0) (charges log)

  module _ (product q : ℕ) (s : Platform) where
    abbrev here : SagaReservedItem
    here = record { product_id = product; quantity = q }

    noted_reserve :
        (log : Log) (r : Result (Unit {0}) × Platform)
        → Reserved parse show key_code redis_write in_inventory in_payment parse-show order.id
            product q s r
        → Recorded (s, log)
        → Recorded (r.1, log ++ reserve_event order.id here r.0 ∷ [])
    noted_reserve log (ok _, s') (same, kept, made) (sound, items, ids) = (
      subst (λ p. IsSound p.db.0) (sym same) sound,
      rw (reserves-append log (reserved order.id here ∷ [])) (
          All-append (IsHeld order.id s'.inventory.db.0) (reserves log)
            (All-map (IsHeld order.id s.inventory.db.0) (IsHeld order.id s'.inventory.db.0)
              (reserves log) kept items)
            (made refl)),
      rw (charges-append log (reserved order.id here ∷ []), append-nil (charges log))
          (subst (λ p. All (IsCharged show order.id p.db.0) (charges log)) (sym same) ids),
    )
    noted_reserve log (err e, s') (same, kept, made) (sound, items, ids) = (
      subst (λ p. IsSound p.db.0) (sym same) sound,
      rw (reserves-append log (reserve_failed order.id here ∷ []), append-nil (reserves log))
          (All-map (IsHeld order.id s.inventory.db.0) (IsHeld order.id s'.inventory.db.0)
            (reserves log) kept items),
      rw (charges-append log (reserve_failed order.id here ∷ []), append-nil (charges log))
          (subst (λ p. All (IsCharged show order.id p.db.0) (charges log)) (sym same) ids),
    )

  module _ (amount : ℕ) (s : Platform) where
    noted_charge :
        (log : Log) (r : Result String × Platform)
        → Charged parse show key_code redis_write in_inventory in_payment parse-show order.id amount
            s r
        → Recorded (s, log)
        → Recorded (r.1, log ++ charge_event order.id amount r.0 ∷ [])
    noted_charge log (ok id, s') (same, sound, kept, made) (_, items, ids) = (
      sound,
      rw (reserves-append log (charged order.id amount id ∷ []), append-nil (reserves log))
          (subst (λ p. All (IsHeld order.id p.db.0) (reserves log)) (sym same) items),
      rw (charges-append log (charged order.id amount id ∷ [])) (
          All-append (IsCharged show order.id s'.payments.db.0) (charges log)
            (All-map (IsCharged show order.id s.payments.db.0)
              (IsCharged show order.id s'.payments.db.0) (charges log) kept ids)
            (made id refl)),
    )
    noted_charge log (err e, s') (same, sound, kept, made) (_, items, ids) = (
      sound,
      rw (reserves-append log (charge_failed order.id amount ∷ []), append-nil (reserves log))
          (subst (λ p. All (IsHeld order.id p.db.0) (reserves log)) (sym same) items),
      rw (charges-append log (charge_failed order.id amount ∷ []), append-nil (charges log))
          (All-map (IsCharged show order.id s.payments.db.0)
            (IsCharged show order.id s'.payments.db.0) (charges log) kept ids),
    )

  noted_order :
      (id : ℕ) (st : OrderStatus) (log : Log) (s : Platform) (r : Result (Unit {0}))
      → Recorded (s, log)
      → Recorded (s, log ++ order_event id st r ∷ [])
  noted_order id st log s (ok _) (sound, items, ids) = (
    sound,
    rw (reserves-append log (order_set id st ∷ []), append-nil (reserves log)) items,
    rw (charges-append log (order_set id st ∷ []), append-nil (charges log)) ids,
  )
  noted_order id st log s (err e) (sound, items, ids) = (
    sound,
    rw (reserves-append log (order_set_failed id st ∷ []), append-nil (reserves log)) items,
    rw (charges-append log (order_set_failed id st ∷ []), append-nil (charges log)) ids,
  )

  Recorded-Forward : Forward (traced env) order.id Recorded
  Recorded-Forward = record {
    wait_keeps = λ n s h. h;
    save_saga_keeps = λ g s h. h;
    update_order_status_keeps =
        λ id st s h. noted_order id st s.1 s.0 (env.update_order_status id st s.0).0 h;
    reserve_keeps = λ product q k s h.
        noted_reserve product q s.0 s.1
          (client_reserve parse show key_code redis_write in_inventory in_payment product q order.id
            k s.0)
          (client_reserve-Reserved parse show key_code redis_write in_inventory in_payment
            parse-show order.id product q s.0 k)
          h;
    process_payment_keeps = λ amount k s h.
        noted_charge amount s.0 s.1
          (client_process_payment parse show key_code redis_write in_inventory in_payment order.id
            amount k s.0)
          (client_process_payment-Charged parse show key_code redis_write in_inventory in_payment
            parse-show order.id amount s.0 k h.0)
          h;
  }

  items_held :
      (t : Tables) (items : List OrderItem)
      → All (IsHeld order.id t) (map reserved_item items)
      → All
          (λ i.
            find_reservation order.id i.product_id t.reservations
            ≡ some (active (int_of_int32 (int32 i.quantity))))
          items
  items_held t [] h = tt
  items_held t (i ∷ items) (h, hs) = (h, items_held t items hs)

  -- If a new saga ends in confirmed, then at that time inventory-service has an active reservation of
  -- every item for the order, of the quantity as an int32, and payment-service has a payment of the
  -- order, whose id the saga holds. Which calls failed on the way, and which answers were lost, does not
  -- matter; what is assumed is that payments were sound before, and that uuids are read back from their
  -- texts.
  pub confirmed-Recorded :
      (key : Key) (id time : ℕ) (s : Platform) {r : Change (traced env)}
      → IsSound s.payments.db.0
      → run env order key id time s ≡ some r
      → r.1.0.status ≡ confirmed
      → let t = r.1.1.0.inventory.db.0 in
        All
          (λ i.
            find_reservation order.id i.product_id t.reservations
            ≡ some (active (int_of_int32 (int32 i.quantity))))
          order.items
        × IsCharged show order.id r.1.1.0.payments.db.0 r.1.0.payment_id
  confirmed-Recorded key id time s {r} sound ran c =
      let (_, items, ids) =
        confirmed_keeps (traced env) order Recorded Recorded-Forward key (new_saga id order time)
          (s, []) ran (sound, tt, tt) c in
      let (all_items, one_charge, _, _) = confirmed_paid env order key id time s ran c in
      let t = r.1.1.0.inventory.db.0 in
      (
        items_held t order.items (subst (All (IsHeld order.id t)) all_items items),
        (subst (All (IsCharged show order.id r.1.1.0.payments.db.0)) one_charge ids).0,
      )
