-- ===== src/System/Confirmed/Clients.antt =====
-- What the calls of the two clients of the saga leave in the tables.
use mathlib.Core.Path.{subst}
use go_ozon_marketplace.Prelude.{ℕ, ◌+◌, ◌≡◌, refl, ap, List, Option, some, String}
use go_ozon_marketplace.Prelude.Effect.{other, Result, ok, err}
use go_ozon_marketplace.Database.{Fault, answered, refused, lost, next_fault}
use go_ozon_marketplace.Grpc.{Context, Reply, reply, status}
use go_ozon_marketplace.Inventory.Usecase as Inventory
use go_ozon_marketplace.Inventory.Handler.{handle_reserve}
use go_ozon_marketplace.Payment.Invariant.{IsSound}
use go_ozon_marketplace.Payment.Handler.{Server, ProtoStatus, handle_process_payment}
use go_ozon_marketplace.Saga.Types.{SagaReservedItem}
use go_ozon_marketplace.Saga.Env.{Key}
use go_ozon_marketplace.System.{
  Platform, of_reply, over_network, stock_request, on_inventory, client_reserve, charge,
  payment_id_of, client_process_payment, next_flag,
}
use go_ozon_marketplace.System.Safety.Charging.{handle_process_payment-keeps}
use go_ozon_marketplace.System.Confirmed.Stock.{IsHeld, IsReply, handle_reserve-Holds}
use go_ozon_marketplace.System.Confirmed.Money.{IsCharged, Pays, handle_process_payment-Pays}

replied : (r : Reply (Unit {0})) → of_reply r ≡ ok tt → IsReply r
replied (reply _) h = tt
replied (status _) h = absurd cc

given_id :
    (r : Reply (String × ProtoStatus)) (a : String × ProtoStatus) → of_reply r ≡ ok a → r ≡ reply a
given_id (reply b) a h = ap reply (cc h)
given_id (status _) a h = absurd cc

module _ (parse : String → Option ℕ) (show : ℕ → String) (key_code : Key → Option ℕ)
    (redis_write : Inventory.Redis → Inventory.Redis → Inventory.Redis)
    (in_inventory in_payment : Context) (parse-show : (n : ℕ) → parse (show n) ≡ some n)
    (order : ℕ) where
  module _ (product q : ℕ) (s : Platform) where
    abbrev pub item : SagaReservedItem
    item = record { product_id = product; quantity = q }

    -- After a call of the client
    abbrev pub Reserved : Result (Unit {0}) × Platform → Type 0
    Reserved (r, s') =
        (s'.payments ≡ s.payments)
        × ((i : SagaReservedItem)
            → IsHeld order s.inventory.db.0 i
            → IsHeld order s'.inventory.db.0 i)
        × (r ≡ ok tt → IsHeld order s'.inventory.db.0 item)

    abbrev call : Platform → Reply (Unit {0}) × Platform
    call = on_inventory parse show key_code redis_write in_inventory in_payment (
        handle_reserve parse redis_write in_inventory
          (stock_request parse show key_code redis_write in_inventory in_payment product q order))

    call-Reserved :
        (rest : List Fault)
        → let (r, s') = call (record s { network = rest }) in Reserved (of_reply r, s')
    call-Reserved rest =
        let h =
          handle_reserve-Holds parse redis_write in_inventory product q order (show product)
            (show order) s.inventory (parse-show product) (parse-show order) in
        (refl, h.0, λ e. h.1 (replied _ e))

    sent :
        (rest : List Fault) (x : Fault)
        → Reserved (over_network call (record s { network = rest }) x)
    sent rest answered = call-Reserved rest
    sent rest (refused e) = (refl, (λ i h. h), (λ h. absurd cc))
    sent rest (lost e) = let (same, kept, _) = call-Reserved rest in (same, kept, (λ h. absurd cc))

    pub client_reserve-Reserved :
        (k : Key)
        → Reserved (
            client_reserve parse show key_code redis_write in_inventory in_payment product q order k
              s)
    unfolding client_reserve
    client_reserve-Reserved k = sent (next_fault s.network).1 (next_fault s.network).0

  module _ (amount : ℕ) (s : Platform) where
    -- After a call of the client
    abbrev pub Charged : Result String × Platform → Type 0
    Charged (r, s') =
        (s'.inventory ≡ s.inventory)
        × IsSound s'.payments.db.0
        × ((text : String)
            → IsCharged show order s.payments.db.0 text
            → IsCharged show order s'.payments.db.0 text)
        × ((text : String) → r ≡ ok text → IsCharged show order s'.payments.db.0 text)

    abbrev call_charge : Platform → Reply (String × ProtoStatus) × Platform
    call_charge = charge parse show key_code redis_write in_inventory in_payment order amount

    abbrev id_of : Result (String × ProtoStatus) × Platform → Result String × Platform
    id_of = payment_id_of parse show key_code redis_write in_inventory in_payment

    -- The answer of the handler, as the client reads it.
    read :
        (r : Result (String × ProtoStatus)) (s' : Platform)
        → s'.inventory ≡ s.inventory
        → IsSound s'.payments.db.0
        → ((text : String)
            → IsCharged show order s.payments.db.0 text
            → IsCharged show order s'.payments.db.0 text)
        → ((text : String) (st : ProtoStatus)
            → r ≡ ok (text, st)
            → IsCharged show order s'.payments.db.0 text)
        → Charged (id_of (r, s'))
    read (ok (text, st)) s' same sound kept made = (
      same,
      sound,
      kept,
      (λ t e. subst (IsCharged show order s'.payments.db.0) (cc e) (made text st refl)),
    )
    read (err e) s' same sound kept made = (same, sound, kept, (λ t h. absurd cc))

    abbrev answer : Reply (String × ProtoStatus) × Server
    answer =
        handle_process_payment parse show (next_flag s.approvals).0 s.clock in_payment (show order)
          amount s.payments

    answer-Pays : IsSound s.payments.db.0 → Pays parse show order s.payments answer
    answer-Pays sound =
        handle_process_payment-Pays parse show order in_payment (next_flag s.approvals).0 s.clock
          amount (show order) s.payments sound (parse-show order)

    answer-IsSound : IsSound s.payments.db.0 → IsSound answer.1.db.0
    answer-IsSound sound =
        handle_process_payment-keeps parse show in_payment (next_flag s.approvals).0 s.clock
          (show order) amount s.payments sound

    abbrev after : List Fault → Platform
    after rest = record s {
      payments = answer.1;
      network = rest;
      approvals = (next_flag s.approvals).1;
      clock = s.clock + 1;
    }

    paid :
        (rest : List Fault) (x : Fault)
        → IsSound s.payments.db.0
        → Charged (id_of (over_network call_charge (record s { network = rest }) x))
    paid rest answered sound =
        read (of_reply answer.0) (after rest) refl (answer-IsSound sound) (answer-Pays sound).0
          (λ text st e. (answer-Pays sound).1 text st (given_id answer.0 (text, st) e))
    paid rest (refused e) sound = (refl, sound, (λ t h. h), (λ t h. absurd cc))
    paid rest (lost e) sound =
        read (err other) (after rest) refl (answer-IsSound sound) (answer-Pays sound).0
          (λ text st h. absurd cc)

    pub client_process_payment-Charged :
        (k : Key)
        → IsSound s.payments.db.0
        → Charged (
            client_process_payment parse show key_code redis_write in_inventory in_payment order
              amount k s)
    unfolding client_process_payment
    client_process_payment-Charged k sound =
        paid (next_fault s.network).1 (next_fault s.network).0 sound
