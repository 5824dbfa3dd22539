-- ===== src/System/Safety/Charging.antt =====
-- What the handlers of payment-service keep of its tables.
use mathlib.Core.Path.{subst}
use go_ozon_marketplace.Prelude.{
  ℕ, refl, sym, inl, inr, Bool, [], ◌∷◌, Option, none, some, String, Bool-cases, Option-cases,
}
use go_ozon_marketplace.Prelude.Effect.{Result, ok, err}
use go_ozon_marketplace.Database.Laws.{statement-reads}
use go_ozon_marketplace.Errors.{Code}
use go_ozon_marketplace.Grpc.{Context, Reply, status, get_user_id}
use go_ozon_marketplace.Payment.Tables as Payments
use go_ozon_marketplace.Payment.Repository.{get_by_id}
use go_ozon_marketplace.Payment.Usecase.{process_payment, refund, get_payment}
use go_ozon_marketplace.Payment.Invariant.{IsSound}
use go_ozon_marketplace.Payment.Guarantees as Charges
use go_ozon_marketplace.Payment.Handler.{
  Server, ProtoStatus, on_db, processed, with_payment, may_see, refund_answer,
  handle_process_payment, handle_refund,
}

abbrev pub IsPaidUp : Server → Type 0
IsPaidUp s = IsSound s.db.0

module _ (parse : String → Option ℕ) (show : ℕ → String) (in_payment : Context) where
  processed-keeps :
      (order : String) (r : Result Payments.Payment × Server)
      → IsPaidUp r.1
      → IsPaidUp (processed parse show order r).1
  processed-keeps order (ok p, s) h = h
  processed-keeps order (err e, s) h = h

  charged :
      (approved : Bool) (id amount : ℕ) (order : String) (s : Server) (c : Option String)
      (o : Option ℕ) (u : String → Option ℕ)
      → IsPaidUp s
      → IsPaidUp
          (elim c as (λ _. Reply (String × ProtoStatus) × Server) [
            | none ↦ (status Code.code_unauthenticated, s)
            | some caller ↦ elim o as (λ _. Reply (String × ProtoStatus) × Server) [
              | none ↦ (status Code.code_internal, s)
              | some o ↦ elim (u caller) as (λ _. Reply (String × ProtoStatus) × Server) [
                | none ↦ (status Code.code_internal, s)
                | some u ↦
                    processed parse show order (on_db (process_payment approved id o u amount) s)
              ]
            ]
          ]).1
  charged approved id amount order s none o u h = h
  charged approved id amount order s (some caller) none u h = h
  charged approved id amount order s (some caller) (some o) u h = elim (Option-cases (u caller)) [
    | inl n ↦ rw n h
    | inr (v, e) ↦ rw e (
        processed-keeps order (on_db (process_payment approved id o v amount) s)
          (Charges.run_calls-IsSound (Charges.process_call approved id o v amount ∷ []) s.db h))
  ]

  pub handle_process_payment-keeps :
      (approved : Bool) (id : ℕ) (order : String) (amount : ℕ) (s : Server)
      → IsPaidUp s
      → IsPaidUp (handle_process_payment parse show approved id in_payment order amount s).1
  unfolding handle_process_payment
  handle_process_payment-keeps approved id order amount s h =
      charged approved id amount order s (get_user_id in_payment) (parse order) parse h

  get_payment-keeps : (p : ℕ) (s : Server) → IsPaidUp s → IsPaidUp (on_db (get_payment p) s).1
  unfolding get_payment get_by_id
  get_payment-keeps p s h = subst IsSound (sym (statement-reads _ s.db.0 s.db.1 refl)) h

  with_payment-keeps :
      {A : Type 0} (caller : String) (act : Server → Reply A × Server)
      (r : Result Payments.Payment × Server)
      → IsPaidUp r.1
      → ((s : Server) → IsPaidUp s → IsPaidUp (act s).1)
      → IsPaidUp (with_payment parse show in_payment caller act r).1
  with_payment-keeps caller act (err e, s) h k = h
  with_payment-keeps caller act (ok p, s) h k =
      elim (Bool-cases (may_see parse show in_payment caller p)) [
        | inl b ↦ rw b (k s h)
        | inr b ↦ rw b h
      ]

  given_back :
      (id amount : ℕ) (key : Option ℕ) (s : Server) (c : Option String) (p : Option ℕ)
      → IsPaidUp s
      → IsPaidUp
          (elim c as (λ _. Reply ProtoStatus × Server) [
            | none ↦ (status Code.code_unauthenticated, s)
            | some caller ↦ elim p as (λ _. Reply ProtoStatus × Server) [
              | none ↦ (status Code.code_internal, s)
              | some p ↦
                  with_payment parse show in_payment caller
                    (λ s'. refund_answer parse show (on_db (refund id p amount key) s'))
                    (on_db (get_payment p) s)
            ]
          ]).1
  given_back id amount key s none p h = h
  given_back id amount key s (some caller) none h = h
  given_back id amount key s (some caller) (some p) h =
      with_payment-keeps caller _ (on_db (get_payment p) s) (get_payment-keeps p s h)
        (λ s' h'. Charges.run_calls-IsSound (Charges.refund_call id p amount key ∷ []) s'.db h')

  pub handle_refund-keeps :
      (id : ℕ) (payment : String) (amount : ℕ) (key : Option ℕ) (s : Server)
      → IsPaidUp s
      → IsPaidUp (handle_refund parse show id in_payment payment amount key s).1
  unfolding handle_refund
  handle_refund-keeps id payment amount key s h =
      given_back id amount key s (get_user_id in_payment) (parse payment) h
