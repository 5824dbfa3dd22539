-- ===== src/Saga/Trace/Laws.antt =====
-- The observations on a log of services/order-service/internal/saga after one more call.
use go_ozon_marketplace.Prelude.{
  ℕ, ◌≡◌, refl, inl, inr, [], ◌∷◌, ◌++◌, String, append-nil, append_assoc, ap, All,
}
use go_ozon_marketplace.Order.Domain.{Order}
use go_ozon_marketplace.Saga.Types.{SagaReservedItem}
use go_ozon_marketplace.Saga.Trace.{
  Event, reserved, released, charged, refund_asked, order_set, order_set_failed, Log, reserves,
  charges, Was, WasReleased, WasRefunded, IsStill, Concerns, IsAllowed, IsCausal,
}

pub reserves-append : (l m : Log) → reserves (l ++ m) ≡ reserves l ++ reserves m
reserves-append [] m = refl
reserves-append (reserved o i ∷ l) m = ap (λ r. i ∷ r) (reserves-append l m)
reserves-append (_ ∷ l) m = reserves-append l m

pub charges-append : (l m : Log) → charges (l ++ m) ≡ charges l ++ charges m
charges-append [] m = refl
charges-append (charged o a i ∷ l) m = ap (λ r. i ∷ r) (charges-append l m)
charges-append (_ ∷ l) m = charges-append l m

pub Was-append_left : (e : Event) (l m : Log) → Was e l → Was e (l ++ m)
Was-append_left e [] m h = absurd h
Was-append_left e (x ∷ l) m (inl same) = inl same
Was-append_left e (x ∷ l) m (inr h) = inr (Was-append_left e l m h)

pub Was-last : (e : Event) (l : Log) → Was e (l ++ e ∷ [])
Was-last e [] = inl refl
Was-last e (x ∷ l) = inr (Was-last e l)

pub WasReleased-append_left :
    (o : ℕ) (i : SagaReservedItem) (l m : Log) → WasReleased o i l → WasReleased o i (l ++ m)
WasReleased-append_left o i l m (b, h) = (b, Was-append_left (released o i b) l m h)

pub WasRefunded-append_left : (id : String) (l m : Log) → WasRefunded id l → WasRefunded id (l ++ m)
WasRefunded-append_left id l m (b, h) = (b, Was-append_left (refund_asked id b) l m h)

pub IsStill-append : (l m : Log) → IsStill l → IsStill m → IsStill (l ++ m)
IsStill-append [] m h k = k
IsStill-append (order_set _ _ ∷ l) m h k = IsStill-append l m h k
IsStill-append (order_set_failed _ _ ∷ l) m h k = IsStill-append l m h k
IsStill-append (_ ∷ l) m h k = absurd h

module _ (order : Order) where
  pub IsCausal-append :
      (before l : Log) (e : Event)
      → IsCausal order before l
      → IsAllowed order (before ++ l) e
      → IsCausal order before (l ++ e ∷ [])
  IsCausal-append before [] e c a = (rw append-nil at a, tt)
  IsCausal-append before (x ∷ l) e c a =
      (c.0, IsCausal-append (before ++ x ∷ []) l e c.1 (rw (append_assoc before (x ∷ []) l) a))

  -- Every call of a causal log is for the order.
  pub IsCausal-Concerns : (before l : Log) → IsCausal order before l → All (Concerns order) l
  IsCausal-Concerns before [] c = tt
  IsCausal-Concerns before (e ∷ l) c = (c.0.0, IsCausal-Concerns (before ++ e ∷ []) l c.1)
