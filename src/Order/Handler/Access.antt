-- ===== src/Order/Handler/Access.antt =====
-- Who may read and cancel an order through
-- services/order-service/internal/delivery/grpc/handler.go.
use text.Mathlib.Text.{◌==◌ as text_eq}
use text.Mathlib.TextEquality.{eq_iff}
use go_ozon_marketplace.Prelude.{
  ℕ, ◌≡◌, refl, ◌⊎◌, inl, inr, true, Option, none, some, String, Bool-cases,
}
use go_ozon_marketplace.Prelude.Effect.{Result, ok, err}
use go_ozon_marketplace.Errors.{Code}
use go_ozon_marketplace.Grpc.{Context, Role, get_user_id, get_role, same_role, Reply, reply, status}
use go_ozon_marketplace.Database.Laws.{statement-reads}
use go_ozon_marketplace.Order.Domain.{Order}
use go_ozon_marketplace.Order.Repository.{get_order_by_id}
use go_ozon_marketplace.Order.Usecase.{Service, Orchestrator, get_order}
use go_ozon_marketplace.Order.Handler.{
  may_see, with_order, on_order, handle_get_order, handle_cancel_order,
}

abbrev pub IsRefused : {A : Type 0} → Reply A → Type 0
IsRefused (reply _) = ⊥
IsRefused (status _) = Unit

-- The caller is the order's user, or an admin.
abbrev pub IsPermitted : (ℕ → String) → Context → Order → Type 0
IsPermitted show ctx o =
    (caller : String) × (get_user_id ctx ≡ some caller)
    × ((show o.user_id ≡ caller) ⊎ (get_role ctx ≡ Role.admin))

-- Either the call is refused and changes nothing, or it is about an order that the caller may see.
abbrev pub Guarded :
    {A : Type 0}
    → (String → Option ℕ)
    → (ℕ → String)
    → Context
    → String
    → Service
    → Reply A × Service
    → Type 0
Guarded parse show ctx order s (r, s') =
    (IsRefused r × (s'.db.0 ≡ s.db.0) × (s'.published ≡ s.published))
    ⊎ ((id : ℕ) × (o : Order) × (parse order ≡ some id)
        × ((get_order id s).0 ≡ ok o)
        × IsPermitted show ctx o)

admin_only : (r : Role) → same_role r Role.admin ≡ true → r ≡ Role.admin
unfolding same_role
admin_only Role.admin h = refl
admin_only Role.user h = absurd cc
admin_only Role.service h = absurd cc
admin_only (Role.unknown s) h = absurd cc

get_order-reads : (id : ℕ) (s : Service) → (get_order id s).1.db.0 ≡ s.db.0
unfolding get_order get_order_by_id
get_order-reads id s = statement-reads _ s.db.0 s.db.1 refl

get_order-published : (id : ℕ) (s : Service) → (get_order id s).1.published ≡ s.published
unfolding get_order
get_order-published id s = refl

module _ (parse : String → Option ℕ) (show : ℕ → String) (ctx : Context) where
  seen :
      (caller : String) (o : Order)
      → get_user_id ctx ≡ some caller
      → may_see parse show ctx caller o ≡ true
      → IsPermitted show ctx o
  unfolding may_see
  seen caller o c h = elim (Bool-cases (text_eq (show o.user_id) caller)) [
    | inl same ↦ (caller, c, inl ((eq_iff (show o.user_id) caller).0 same))
    | inr differ ↦ (caller, c, inr (admin_only (get_role ctx) (rw differ at h)))
  ]

  looked_up :
      {A : Type 0} (act : ℕ → Order → Service → Reply A × Service) (order caller : String) (id : ℕ)
      (s : Service) (r : Result Order × Service)
      → get_user_id ctx ≡ some caller
      → parse order ≡ some id
      → r ≡ get_order id s
      → r.1.db.0 ≡ s.db.0
      → r.1.published ≡ s.published
      → Guarded parse show ctx order s (with_order parse show ctx caller (act id) r)
  looked_up act order caller id s (err e, s') c p same t u = inl (tt, t, u)
  looked_up act order caller id s (ok o, s') c p same t u =
      elim (Bool-cases (may_see parse show ctx caller o)) [
        | inl h ↦ inr (id, o, p, cc same, seen caller o c h)
        | inr h ↦ rw h (inl (tt, t, u))
      ]

  by_caller :
      {A : Type 0} (act : ℕ → Order → Service → Reply A × Service) (order : String) (s : Service)
      (c : Option String) (p : Option ℕ)
      → get_user_id ctx ≡ c
      → parse order ≡ p
      → Guarded parse show ctx order s (elim c as (λ _. Reply A × Service) [
        | none ↦ (status Code.code_unauthenticated, s)
        | some caller ↦ elim p as (λ _. Reply A × Service) [
          | none ↦ (status Code.code_invalid_argument, s)
          | some id ↦ with_order parse show ctx caller (act id) (get_order id s)
        ]
      ])
  by_caller act order s none p e f = inl (tt, refl, refl)
  by_caller act order s (some caller) none e f = inl (tt, refl, refl)
  by_caller act order s (some caller) (some id) e f =
      looked_up act order caller id s (get_order id s) e f refl (get_order-reads id s)
        (get_order-published id s)

  on_order-Guarded :
      {A : Type 0} (act : ℕ → Order → Service → Reply A × Service) (order : String) (s : Service)
      → Guarded parse show ctx order s (on_order parse show act ctx order s)
  on_order-Guarded act order s = by_caller act order s (get_user_id ctx) (parse order) refl refl

  -- GetOrder and CancelOrder answer and act only for the user of the order or an admin: any other call
  -- gets an error status, and leaves the tables and the published events as they were.
  pub handlers-Guarded :
      (orchestrator : Orchestrator) (time : ℕ) (order : String) (s : Service)
      → Guarded parse show ctx order s (handle_get_order parse show ctx order s)
        × Guarded parse show ctx order s
            (handle_cancel_order parse show orchestrator time ctx order s)
  unfolding handle_get_order handle_cancel_order
  handlers-Guarded orchestrator time order s =
      (on_order-Guarded _ order s, on_order-Guarded _ order s)
