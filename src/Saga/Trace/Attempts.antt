-- ===== src/Saga/Trace/Attempts.antt =====
-- The reservations that a saga of services/order-service/internal/saga asks for, and those that it
-- knows of.
use mathlib.Core.Path.{subst}
use go_ozon_marketplace.Prelude.{
  ℕ, ◌≡◌, refl, sym, ◌∙◌, ◌⊎◌, inl, inr, List, [], ◌∷◌, ◌++◌, some, append-nil, append_assoc, ap,
  All, length, get_elem?,
}
use go_ozon_marketplace.Order.Domain.{Order}
use go_ozon_marketplace.Saga.Types.{SagaReservedItem}
use go_ozon_marketplace.Saga.Trace.{
  Event, reserved, reserve_failed, Log, reserves, attempts, wanted, IsCausal,
}
use go_ozon_marketplace.Saga.Trace.Laws.{reserves-append}

All-middle :
    (P : SagaReservedItem → Type 0) (xs : List SagaReservedItem) {y : SagaReservedItem}
    (ys : List SagaReservedItem)
    → All P (xs ++ y ∷ ys)
    → P y
All-middle P [] ys h = h.0
All-middle P (x ∷ xs) ys h = All-middle P xs ys h.1

some_eq : {a b : SagaReservedItem} → some a ≡ some b → a ≡ b
some_eq h = cc

module _ (order : Order) where
  -- The item that comes after those reserved by a log.
  abbrev pub IsNext : Log → SagaReservedItem → Type 0
  IsNext l i = get_elem? (wanted order) (length (reserves l)) ≡ some i

  -- A call that reserves nothing leaves the next item as it is.
  same_next :
      (before : Log) (e : Event)
      → reserves (e ∷ []) ≡ []
      → reserves (before ++ e ∷ []) ≡ reserves before
  same_next before e q = rw (reserves-append, q, append-nil)

  -- The first reservation in what follows is of the next item.
  first_reserved :
      (before l : Log) (j : SagaReservedItem) (js : List SagaReservedItem)
      → IsCausal order before l
      → reserves l ≡ j ∷ js
      → IsNext before j
  first_reserved before [] j js c e = absurd cc
  first_reserved before (reserved o i ∷ l) j js c e = subst (λ x. IsNext before x) (cc e) c.0.1
  first_reserved before (x ∷ l) j js c e =
      subst (λ rs. get_elem? (wanted order) (length rs) ≡ some j) (same_next before x refl)
        (first_reserved (before ++ x ∷ []) l j js c.1 e)

  module _ (P : SagaReservedItem → Type 0) (total : Log) (all : All P (reserves total)) where
    abbrev Known : SagaReservedItem → Type 0
    Known i = P i ⊎ IsNext total i

    -- An item that is reserved after a log.
    reserved_after :
        (before l : Log) (j : SagaReservedItem) (js : List SagaReservedItem)
        → total ≡ before ++ l
        → reserves l ≡ j ∷ js
        → P j
    reserved_after before l j js whole e = All-middle P (reserves before) js (
        subst (λ rs. All P rs)
          (ap reserves whole ∙ reserves-append before l ∙ ap (λ rs. reserves before ++ rs) e) all)

    failed-Known :
        (before l : Log) (o : ℕ) (i : SagaReservedItem) (rs : List SagaReservedItem)
        → total ≡ before ++ reserve_failed o i ∷ l
        → IsCausal order before (reserve_failed o i ∷ l)
        → reserves l ≡ rs
        → Known i
    failed-Known before l o i [] whole c e = inr (
        subst (λ rs. get_elem? (wanted order) (length rs) ≡ some i)
          (sym (
            ap reserves whole
            ∙ reserves-append before (reserve_failed o i ∷ l)
            ∙ ap (λ rs. reserves before ++ rs) e
            ∙ append-nil (reserves before)))
          c.0.1)
    failed-Known before l o i (j ∷ js) whole c e =
        let next = first_reserved before (reserve_failed o i ∷ l) j js c e in
        inl (
          subst P (some_eq (sym next ∙ c.0.1))
            (reserved_after before (reserve_failed o i ∷ l) j js whole e))

    attempts-Known :
        (before l : Log) → total ≡ before ++ l → IsCausal order before l → All Known (attempts l)
    attempts-Known before [] whole c = tt
    attempts-Known before (reserved o i ∷ l) whole c = (
      inl (reserved_after before (reserved o i ∷ l) i (reserves l) whole refl),
      attempts-Known (before ++ reserved o i ∷ []) l
          (whole ∙ sym (append_assoc before (reserved o i ∷ []) l)) c.1,
    )
    attempts-Known before (reserve_failed o i ∷ l) whole c = (
      failed-Known before l o i (reserves l) whole c refl,
      attempts-Known (before ++ reserve_failed o i ∷ []) l
          (whole ∙ sym (append_assoc before (reserve_failed o i ∷ []) l)) c.1,
    )
    attempts-Known before (x ∷ l) whole c =
        attempts-Known (before ++ x ∷ []) l (whole ∙ sym (append_assoc before (x ∷ []) l)) c.1

  -- What holds of every item reserved in a causal log holds of every item whose reservation was asked
  -- for, but for the one that comes next.
  pub attempts-All :
      (P : SagaReservedItem → Type 0) (l : Log)
      → IsCausal order [] l
      → All P (reserves l)
      → All (λ i. P i ⊎ IsNext l i) (attempts l)
  attempts-All P l c all = attempts-Known P l all [] l refl c
