-- ===== src/Analytics.antt =====
-- The event batcher of services/analytics-service/internal/usecase/batcher.go. Its critical sections
-- are functions, so that callers may interleave; timeouts are failures of BatchInsert.
pub mod Batcher
mod Tests
use go_ozon_marketplace.Prelude.{
  ℕ, ◌≡◌, Bool, List, [], ◌∷◌, ◌++◌, Option, none, some, leb, length, if◌then◌else◌,
}
use go_ozon_marketplace.Prelude.Effect.{Error, Result, ok, err, Action}

-- `size` in NewAnalyticsUsecase
abbrev pub batch_size : ℕ
batch_size = 100

-- The batcher that callers share: its buffer, and the batches that Flush has taken and not yet
-- inserted or restored, one for each call that is at that point.
abbrev pub Shared : Type 0 → Type 0
Shared E = List E × List (List E)

module _ {E : Type 0} where
  -- The section of Add: the buffer, and whether it is to be flushed.
  unfoldable pub append_event : E → List E → Bool × List E
  append_event e buffer =
      let buffer' = buffer ++ e ∷ [] in (leb batch_size (length buffer'), buffer')

  -- The first section of Flush: the events taken, none of an empty buffer, and the buffer.
  unfoldable pub take_events : List E → Option (List E) × List E
  take_events [] = (none, [])
  take_events (e ∷ es) = (some (e ∷ es), [])

  -- The second section of Flush, after a failure.
  unfoldable pub restore_events : List E → List E → List E
  restore_events events buffer = events ++ buffer

  -- The batcher that one caller uses: `R` is the state of the repository.
  module _ {R : Type 0} (batch_insert : List E → Action R (Unit {0})) where
    abbrev pub inserted : List E → Result (Unit {0}) × R → List E → Result (Unit {0}) × (List E × R)
    inserted events (ok _, r) buffer = (ok tt, (buffer, r))
    inserted events (err e, r) buffer = (err e, (restore_events events buffer, r))

    abbrev pub insert_taken : Option (List E) × List E → R → Result (Unit {0}) × (List E × R)
    insert_taken (none, buffer) r = (ok tt, (buffer, r))
    insert_taken (some events, buffer) r = inserted events (batch_insert events r) buffer

    -- Flush; Stop ends with it, once the ticker's loop has ended.
    unfoldable pub flush : Action (List E × R) (Unit {0})
    flush (buffer, r) = insert_taken (take_events buffer) r

    abbrev pub flush_if : Bool × List E → R → Result (Unit {0}) × (List E × R)
    flush_if (full, buffer) r = if full then flush (buffer, r) else (ok tt, (buffer, r))

    -- Add
    unfoldable pub add : E → Action (List E × R) (Unit {0})
    add e (buffer, r) = flush_if (append_event e buffer) r

  -- A section of some caller: from a shared state to another, with the events that the section adds to
  -- the batcher and those that the repository takes. `before` and `after` are other callers' batches.
  pub data Section : Shared E → List E → List E → Shared E → Type 0 where
    adds :
        (e : E) (buffer : List E) (taken : List (List E))
        → Section (buffer, taken) (e ∷ []) [] ((append_event e buffer).1, taken)
    takes :
        (events buffer : List E) (taken : List (List E))
        → (take_events buffer).0 ≡ some events
        → Section (buffer, taken) [] [] ((take_events buffer).1, events ∷ taken)
    inserts :
        (events buffer : List E) (before after : List (List E))
        → Section (buffer, before ++ events ∷ after) [] events (buffer, before ++ after)
    restores :
        (events buffer : List E) (before after : List (List E))
        → Section
            (buffer, before ++ events ∷ after)
            []
            []
            (restore_events events buffer, before ++ after)

  -- Any interleaving of the sections of any callers.
  pub data Run : Shared E → List E → List E → Shared E → Type 0 where
    idle : (s : Shared E) → Run s [] [] s
    section :
        {s s' s'' : Shared E} {a i a' i' : List E}
        → Section s a i s'
        → Run s' a' i' s''
        → Run s (a ++ a') (i ++ i') s''
