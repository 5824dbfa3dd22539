-- ===== src/Saga/Invariant/Quiet.antt =====
-- Calls that reserve nothing and charge nothing leave what is known of a saga of
-- services/order-service/internal/saga as it was.
use go_ozon_marketplace.Prelude.{
  ℕ, ◌≡◌, ◌∙◌, inl, inr, List, [], ◌∷◌, ◌++◌, String, append-nil, All,
}
use go_ozon_marketplace.Order.Status
use go_ozon_marketplace.Order.Domain.{Order}
use go_ozon_marketplace.Saga.Types.{
  SagaStatus, SagaReservedItem, pending, reserving, reserved, paying, paid, confirming, confirmed,
  compensating, cancelled, failed,
}
use go_ozon_marketplace.Saga.Trace.{
  Event, order_set, Log, reserves, charges, WasReleased, IsStill, IsAllowed,
}
use go_ozon_marketplace.Saga.Trace.Laws.{
  reserves-append, charges-append, IsCausal-append, WasReleased-append_left, Was-append_left,
  IsStill-append, WasRefunded-append_left,
}
use go_ozon_marketplace.Saga.Invariant.{Phase, IsAccurate}

pub charges-quiet :
    (log : Log) (e : Event) → charges (e ∷ []) ≡ [] → charges (log ++ e ∷ []) ≡ charges log
charges-quiet log e q = rw (charges-append, q, append-nil)

pub released-quiet :
    (o : ℕ) (items : List SagaReservedItem) (log m : Log)
    → All (λ i. WasReleased o i log) items
    → All (λ i. WasReleased o i (log ++ m)) items
released-quiet o [] log m h = tt
released-quiet o (i ∷ items) log m h =
    (WasReleased-append_left o i log m h.0, released-quiet o items log m h.1)

-- Where nothing has moved, the call moves nothing.
abbrev pub KeepsStill : SagaStatus → Event → Type 0
KeepsStill pending e = IsStill (e ∷ [])
KeepsStill failed e = IsStill (e ∷ [])
KeepsStill _ e = Unit

module _ (order : Order) where
  pub IsAccurate-quiet :
      (items : List SagaReservedItem) (log : Log) (e : Event)
      → reserves (e ∷ []) ≡ []
      → IsAllowed order log e
      → IsAccurate order items log
      → IsAccurate order items (log ++ e ∷ [])
  IsAccurate-quiet items log e q a h =
      (rw (reserves-append, q, append-nil) h.0, h.1, IsCausal-append order [] log e h.2 a)

  pub Phase-quiet :
      (st : SagaStatus) (items : List SagaReservedItem) (id : String) (log : Log) (e : Event)
      → charges (e ∷ []) ≡ []
      → KeepsStill st e
      → Phase order st items id log
      → Phase order st items id (log ++ e ∷ [])
  Phase-quiet pending items id log e q k (none_yet, free, empty, still) =
      (none_yet, charges-quiet log e q ∙ free, empty, IsStill-append log (e ∷ []) still k)
  Phase-quiet reserving items id log e q k h = (charges-quiet log e q ∙ h.0, h.1)
  Phase-quiet reserved items id log e q k h = (h.0, charges-quiet log e q ∙ h.1, h.2)
  Phase-quiet paying items id log e q k h = (h.0, charges-quiet log e q ∙ h.1, h.2)
  Phase-quiet paid items id log e q k h = (h.0, charges-quiet log e q ∙ h.1)
  Phase-quiet confirming items id log e q k h = (h.0, charges-quiet log e q ∙ h.1)
  Phase-quiet confirmed items id log e q k h = (
    h.0,
    charges-quiet log e q ∙ h.1,
    Was-append_left (order_set order.id Status.paid) log (e ∷ []) h.2,
  )
  Phase-quiet compensating items id log e q k h = tt
  Phase-quiet cancelled items id log e q k h = (
    released-quiet order.id items log (e ∷ []) h.0,
    elim h.1 [
      | inl c ↦ inl (charges-quiet log e q ∙ c)
      | inr (c, inl d) ↦ inr (charges-quiet log e q ∙ c, inl d)
      | inr (c, inr d) ↦
          inr (charges-quiet log e q ∙ c, inr (WasRefunded-append_left id log (e ∷ []) d))
    ],
  )
  Phase-quiet failed items id log e q k (none_yet, free, still) =
      (none_yet, charges-quiet log e q ∙ free, IsStill-append log (e ∷ []) still k)
