-- ===== src/System/Confirmed/Money.antt =====
-- What a call of PaymentClient.ProcessPayment leaves in the table of payments.
use mathlib.Core.Path.{subst}
use go_ozon_marketplace.Prelude.{ℕ, ◌≡◌, sym, ap, inl, inr, Bool, Option, none, some, String}
use go_ozon_marketplace.Prelude.Effect.{Result, ok, err}
use go_ozon_marketplace.Database.{Db}
use go_ozon_marketplace.Database.Laws.{AllOrNothing}
use go_ozon_marketplace.Errors.{Code}
use go_ozon_marketplace.Grpc.{Context, Reply, reply, status, get_user_id}
use go_ozon_marketplace.Payment.Tables.{Payment, Tables, find_by_order}
use go_ozon_marketplace.Payment.Usecase.{process_payment}
use go_ozon_marketplace.Payment.Effects.{Processes}
use go_ozon_marketplace.Payment.Invariant.{IsSound}
use go_ozon_marketplace.Payment.Guarantees.{process_payment-Processes, found_after}
use go_ozon_marketplace.Payment.Handler.{
  Server, ProtoStatus, on_db, processed, handle_process_payment,
}

-- The order has the payment with this text as its id.
abbrev pub IsCharged : (ℕ → String) → ℕ → Tables → String → Type 0
IsCharged show order t id =
    (p : Payment) × (find_by_order order t.payments ≡ some p) × (show p.id ≡ id)

module _ (approved : Bool) (id order user amount : ℕ) (show : ℕ → String) {t t' : Tables}
    {a : Payment} where
  Processes-keeps :
      (text : String)
      → Processes approved id order user amount t a t'
      → IsCharged show order t text
      → IsCharged show order t' text
  Processes-keeps text (inl (f, same)) h = subst (λ u. IsCharged show order u text) (sym same) h
  Processes-keeps text (inr (new, no_id, made, same)) (p, found, named) = absurd (cc (new, found))

module _ (parse : String → Option ℕ) (show : ℕ → String) (order : ℕ) where
  -- After a call: the payments that the order had are there, and so is the one replied.
  abbrev pub Pays : Server → Reply (String × ProtoStatus) × Server → Type 0
  Pays s (r, s') =
      ((text : String) → IsCharged show order s.db.0 text → IsCharged show order s'.db.0 text)
      × ((text : String) (st : ProtoStatus)
          → r ≡ reply (text, st)
          → IsCharged show order s'.db.0 text)

  reply-inj : {x y : String × ProtoStatus} → reply x ≡ reply y → x ≡ y
  reply-inj h = cc h

  answered :
      (approved : Bool) (id user amount : ℕ) (text : String) (s : Server)
      (r : Result Payment × Db Tables)
      → AllOrNothing (Processes approved id order user amount s.db.0) s.db.0 r
      → Pays s (processed parse show text (r.0, record s { db = r.1 }))
  answered approved id user amount text s (ok a, (t, fs)) m = (
    (λ x h. Processes-keeps approved id order user amount show x m h),
    (λ x st e. (a, found_after approved id order user amount m, ap (λ p. p.0) (reply-inj e))),
  )
  answered approved id user amount text s (err e, (t, fs)) (inl same) =
      ((λ x h. subst (λ u. IsCharged show order u x) (sym same) h), (λ x st h. absurd cc))
  answered approved id user amount text s (err e, (t, fs)) (inr (a, m)) =
      ((λ x h. Processes-keeps approved id order user amount show x m h), (λ x st h. absurd cc))

  by_user :
      (approved : Bool) (id amount : ℕ) (text : String) (s : Server) (x : ℕ) (v : Option ℕ)
      → IsSound s.db.0
      → x ≡ order
      → Pays s (elim v as (λ _. Reply (String × ProtoStatus) × Server) [
        | none ↦ (status Code.code_internal, s)
        | some y ↦ processed parse show text (on_db (process_payment approved id x y amount) s)
      ])
  by_user approved id amount text s x none h e = ((λ y k. k), (λ y st k. absurd cc))
  by_user approved id amount text s x (some y) h e =
      subst
        (λ z. Pays s (processed parse show text (on_db (process_payment approved id z y amount) s)))
        (sym e)
        (answered approved id y amount text s (process_payment approved id order y amount s.db)
          (process_payment-Processes approved id order y amount s.db.0 s.db.1 h))

  guarded :
      (approved : Bool) (id amount : ℕ) (text : String) (s : Server) (c : Option String)
      (o : Option ℕ) (u : String → Option ℕ)
      → IsSound s.db.0
      → o ≡ some order
      → Pays s (elim c as (λ _. Reply (String × ProtoStatus) × Server) [
        | none ↦ (status Code.code_unauthenticated, s)
        | some caller ↦ elim o as (λ _. Reply (String × ProtoStatus) × Server) [
          | none ↦ (status Code.code_internal, s)
          | some x ↦ elim (u caller) as (λ _. Reply (String × ProtoStatus) × Server) [
            | none ↦ (status Code.code_internal, s)
            | some y ↦ processed parse show text (on_db (process_payment approved id x y amount) s)
          ]
        ]
      ])
  guarded approved id amount text s none o u h e = ((λ x k. k), (λ x st k. absurd cc))
  guarded approved id amount text s (some caller) none u h e = absurd cc
  guarded approved id amount text s (some caller) (some x) u h e =
      by_user approved id amount text s x (u caller) h (cc e)

  pub handle_process_payment-Pays :
      (ctx : Context) (approved : Bool) (id amount : ℕ) (text : String) (s : Server)
      → IsSound s.db.0
      → parse text ≡ some order
      → Pays s (handle_process_payment parse show approved id ctx text amount s)
  unfolding handle_process_payment
  handle_process_payment-Pays ctx approved id amount text s h e =
      guarded approved id amount text s (get_user_id ctx) (parse text) parse h e
