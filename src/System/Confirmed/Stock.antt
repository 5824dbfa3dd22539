-- ===== src/System/Confirmed/Stock.antt =====
-- What a call of InventoryClient.Reserve leaves in the table of reservations.
use mathlib.Core.Path.{subst}
use go_ozon_marketplace.Prelude.{
  ℕ, ◌≡◌, refl, sym, ap, inl, inr, true, [], ◌∷◌, Option, none, some, String, ◌==◌, arith, ==_iff,
  Bool-cases,
}
use go_ozon_marketplace.Prelude.Effect.{Result, ok, err}
use go_ozon_marketplace.Errors.{Code}
use go_ozon_marketplace.Grpc.{Context, Role, Reply, reply, status, require_role}
use go_ozon_marketplace.Inventory.Tables.{Tables, find_reservation}
use go_ozon_marketplace.Inventory.Usecase as Stock
use go_ozon_marketplace.Inventory.Effects.{active, Reserves}
use go_ozon_marketplace.Inventory.Guarantees.{Does, reserve-Does}
use go_ozon_marketplace.Inventory.Handler.{handle_reserve, int_of_int32, stock_reply_to}
use go_ozon_marketplace.Saga.Types.{SagaReservedItem}

-- The order has an active reservation of the item, of the quantity that the handler reads.
abbrev pub IsHeld : ℕ → Tables → SagaReservedItem → Type 0
IsHeld order t i =
    find_reservation order i.product_id t.reservations ≡ some (active (int_of_int32 i.quantity))

abbrev pub IsReply : {A : Type 0} → Reply A → Type 0
IsReply (reply _) = Unit
IsReply (status _) = ⊥

module _ (product q order : ℕ) {t t' : Tables} where
  -- A reservation takes no other reservation away.
  Reserves-keeps :
      (i : SagaReservedItem) → Reserves product q order t t' → IsHeld order t i → IsHeld order t' i
  Reserves-keeps i (inl (f, same)) h = subst (λ u. IsHeld order u i) (sym same) h
  Reserves-keeps i (inr (new, (stock, e, enough, done))) h =
      subst (λ u. IsHeld order u i) (sym done)
        (elim (Bool-cases (product == i.product_id)) [
          | inl b ↦
              let eq : product ≡ i.product_id = (==_iff product i.product_id).0 b in
              absurd (cc (h, new, ap (λ p. find_reservation order p t.reservations) eq))
          | inr b ↦ let self : (order == order) ≡ true = ground arith in rw (self, b) h
        ])

  Reserves-makes :
      Reserves product q order t t'
      → find_reservation order product t'.reservations ≡ some (active q)
  Reserves-makes (inl (f, same)) =
      subst (λ u. find_reservation order product u.reservations ≡ some (active q)) (sym same) f
  Reserves-makes (inr (new, (stock, e, enough, done))) =
      subst (λ u. find_reservation order product u.reservations ≡ some (active q)) (sym done)
        (ground arith)

ok_of : (q : ℕ) (r : Result (Unit {0})) → IsReply (stock_reply_to q r) → r ≡ ok tt
ok_of q (ok _) h = refl
ok_of q (err e) h = elim h [ ]

module _ (parse : String → Option ℕ) (redis_write : Stock.Redis → Stock.Redis → Stock.Redis)
    (ctx : Context) (product q order : ℕ) where
  abbrev item : SagaReservedItem
  item = record { product_id = product; quantity = q }

  -- After a call: what was held is held, and the item is if the handler has replied.
  abbrev pub Holds : Stock.Service → Reply (Unit {0}) × Stock.Service → Type 0
  Holds s (r, s') =
      ((i : SagaReservedItem) → IsHeld order s.db.0 i → IsHeld order s'.db.0 i)
      × (IsReply r → IsHeld order s'.db.0 item)

  used :
      (x y : ℕ) (s : Stock.Service)
      → x ≡ product
      → y ≡ order
      → let r = Stock.reserve redis_write x (int_of_int32 q) (some y) s in
        Holds s (stock_reply_to (int_of_int32 q) r.0, r.1)
  used x y s e f =
      let done : Does (Reserves product (int_of_int32 q) order) s.db.0
          (Stock.reserve redis_write x (int_of_int32 q) (some y) s) =
        rw (e, f) (reserve-Does redis_write product (int_of_int32 q) order s) in
      (
        (λ i h. elim (done.1) [
          | inl same ↦ subst (λ u. IsHeld order u i) (sym same) h
          | inr m ↦ Reserves-keeps product (int_of_int32 q) order i m h
        ]),
        (λ h. Reserves-makes product (int_of_int32 q) order (done.0 (ok_of (int_of_int32 q) _ h))),
      )

  guarded :
      (c : Option Code) (p o : Option ℕ) (s : Stock.Service)
      → p ≡ some product
      → o ≡ some order
      → Holds s (elim c as (λ _. Reply (Unit {0}) × Stock.Service) [
        | some code ↦ (status code, s)
        | none ↦ elim p as (λ _. Reply (Unit {0}) × Stock.Service) [
          | none ↦ (status Code.code_invalid_argument, s)
          | some x ↦ elim o as (λ _. Reply (Unit {0}) × Stock.Service) [
            | none ↦ (status Code.code_invalid_argument, s)
            | some y ↦ (
              stock_reply_to
                  (int_of_int32 q)
                  (Stock.reserve redis_write x (int_of_int32 q) (some y) s).0,
              (Stock.reserve redis_write x (int_of_int32 q) (some y) s).1,
            )
          ]
        ]
      ])
  guarded (some code) p o s e f = ((λ i h. h), (λ h. elim h [ ]))
  guarded none none o s e f = absurd cc
  guarded none (some x) none s e f = absurd cc
  guarded none (some x) (some y) s e f = used x y s (cc e) (cc f)

  pub handle_reserve-Holds :
      (product_text order_text : String) (s : Stock.Service)
      → parse product_text ≡ some product
      → parse order_text ≡ some order
      → Holds s (
          handle_reserve parse redis_write ctx
            (record { product_id = product_text; quantity = q; order_id = order_text })
            s)
  unfolding handle_reserve
  handle_reserve-Holds product_text order_text s e f =
      guarded (require_role ctx (Role.service ∷ [])) (parse product_text) (parse order_text) s e f
