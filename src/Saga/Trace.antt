-- ===== src/Saga/Trace.antt =====
-- The environment of services/order-service/internal/saga with a log of the calls that move stock,
-- money or the order's status. `traced` calls the environment, and writes down each such call with
-- what it asks for and whether it returned an error.
pub mod Laws
pub mod Attempts
use go_ozon_marketplace.Prelude.{
  ℕ, ◌≡◌, ◌⊎◌, Bool, true, false, List, [], ◌∷◌, ◌++◌, some, String, map, length, get_elem?,
}
use go_ozon_marketplace.Prelude.Effect.{Result, ok, err, Action}
use go_ozon_marketplace.Order.Status.{OrderStatus}
use go_ozon_marketplace.Order.Status
use go_ozon_marketplace.Order.Domain.{Order}
use go_ozon_marketplace.Saga.Types.{SagaReservedItem}
use go_ozon_marketplace.Saga.Env.{Env, Key}
use go_ozon_marketplace.Saga.Steps.{reserved_item}

-- The order of the call, and what it asks for: an item; an amount, with the id of the payment where
-- the call returned one; a payment; a status. The Boolean says that the call returned no error.
pub data Event : Type 0 where
  reserved reserve_failed : ℕ → SagaReservedItem → Event
  released : ℕ → SagaReservedItem → Bool → Event
  charged : ℕ → ℕ → String → Event
  charge_failed : ℕ → ℕ → Event
  refund_asked : String → Bool → Event
  order_set order_set_failed : ℕ → OrderStatus → Event

abbrev pub Log : Type 0
Log = List Event

-- The items whose reservation returned no error; those whose reservation was asked for at all; and
-- the payments of the charges that returned no error.
abbrev pub reserves : Log → List SagaReservedItem
reserves [] = []
reserves (reserved o i ∷ l) = i ∷ reserves l
reserves (_ ∷ l) = reserves l

abbrev pub attempts : Log → List SagaReservedItem
attempts [] = []
attempts (reserved o i ∷ l) = i ∷ attempts l
attempts (reserve_failed o i ∷ l) = i ∷ attempts l
attempts (_ ∷ l) = attempts l

abbrev pub charges : Log → List String
charges [] = []
charges (charged o a id ∷ l) = id ∷ charges l
charges (_ ∷ l) = charges l

-- Was this call made?
abbrev pub Was : Event → Log → Type 0
Was e [] = ⊥
Was e (x ∷ l) = (x ≡ e) ⊎ Was e l

-- Was the release of this item of the order asked for; the refund of this payment?
abbrev pub WasReleased : ℕ → SagaReservedItem → Log → Type 0
WasReleased o i l = (b : Bool) × Was (released o i b) l

abbrev pub WasRefunded : String → Log → Type 0
WasRefunded id l = (b : Bool) × Was (refund_asked id b) l

-- No stock and no money was asked to move.
abbrev pub IsStill : Log → Type 0
IsStill [] = Unit
IsStill (order_set _ _ ∷ l) = IsStill l
IsStill (order_set_failed _ _ ∷ l) = IsStill l
IsStill (_ ∷ l) = ⊥

abbrev pub noted : {S A : Type 0} → (Result A → Event) → Log → Result A × S → Result A × (S × Log)
noted f log (r, s) = (r, (s, log ++ f r ∷ []))

abbrev pub unnoted : {S A : Type 0} → Log → Result A × S → Result A × (S × Log)
unnoted log (r, s) = (r, (s, log))

abbrev pub succeeded : Result (Unit {0}) → Bool
succeeded (ok _) = true
succeeded (err _) = false

abbrev pub reserve_event : ℕ → SagaReservedItem → Result (Unit {0}) → Event
reserve_event o i (ok _) = reserved o i
reserve_event o i (err _) = reserve_failed o i

abbrev pub charge_event : ℕ → ℕ → Result String → Event
charge_event o a (ok id) = charged o a id
charge_event o a (err _) = charge_failed o a

abbrev pub order_event : ℕ → OrderStatus → Result (Unit {0}) → Event
order_event o t (ok _) = order_set o t
order_event o t (err _) = order_set_failed o t

abbrev pub traced : Env → Env
traced env = record {
  State = env.State × Log;
  now = λ s. env.now s.0;
  new_id = λ s. ((env.new_id s.0).0, ((env.new_id s.0).1, s.1));
  wait = λ n s. ((env.wait n s.0).0, ((env.wait n s.0).1, s.1));
  ctx_err = env.ctx_err;
  create_saga = λ g s. unnoted s.1 (env.create_saga g s.0);
  get_saga = λ o s. unnoted s.1 (env.get_saga o s.0);
  save_saga = λ g s. unnoted s.1 (env.save_saga g s.0);
  list_incomplete = λ n s. unnoted s.1 (env.list_incomplete n s.0);
  get_order = λ o s. unnoted s.1 (env.get_order o s.0);
  update_order_status = λ o t s. noted (order_event o t) s.1 (env.update_order_status o t s.0);
  reserve = λ p q o k s.
      noted (reserve_event o (record { product_id = p; quantity = q })) s.1
        (env.reserve p q o k s.0);
  release = λ p q o k s.
      noted (λ r. released o (record { product_id = p; quantity = q }) (succeeded r)) s.1
        (env.release p q o k s.0);
  process_payment = λ o a k s. noted (charge_event o a) s.1 (env.process_payment o a k s.0);
  refund = λ id k s. noted (λ r. refund_asked id (succeeded r)) s.1 (env.refund id k s.0);
}

-- The items of the order, as the saga records them.
abbrev pub wanted : Order → List SagaReservedItem
wanted order = map reserved_item order.items

module _ (order : Order) where
  -- The call is for this order, and for its total amount.
  abbrev pub Concerns : Event → Type 0
  Concerns (reserved o i) = o ≡ order.id
  Concerns (reserve_failed o i) = o ≡ order.id
  Concerns (released o i _) = o ≡ order.id
  Concerns (charged o a _) = (o ≡ order.id) × (a ≡ order.total_amount)
  Concerns (charge_failed o a) = (o ≡ order.id) × (a ≡ order.total_amount)
  Concerns (refund_asked _ _) = Unit
  Concerns (order_set o _) = o ≡ order.id
  Concerns (order_set_failed o _) = o ≡ order.id

  -- What may be asked for after the calls of a log: the reservation of the item that comes after
  -- those reserved; a charge only once every item of the order is reserved; and the status "paid"
  -- only once exactly one charge has returned a payment.
  abbrev pub Follows : Log → Event → Type 0
  Follows before (reserved o i) = get_elem? (wanted order) (length (reserves before)) ≡ some i
  Follows before (reserve_failed o i) = get_elem? (wanted order) (length (reserves before)) ≡ some i
  Follows before (charged _ _ _) = reserves before ≡ wanted order
  Follows before (charge_failed _ _) = reserves before ≡ wanted order
  Follows before (order_set _ Status.paid) = (id : String) × (charges before ≡ id ∷ [])
  Follows before (order_set_failed _ Status.paid) = (id : String) × (charges before ≡ id ∷ [])
  Follows before _ = Unit

  abbrev pub IsAllowed : Log → Event → Type 0
  IsAllowed before e = Concerns e × Follows before e

  -- Every call of a log was allowed when it was made.
  abbrev pub IsCausal : Log → Log → Type 0
  IsCausal before [] = Unit
  IsCausal before (e ∷ l) = IsAllowed before e × IsCausal (before ++ e ∷ []) l
