-- ===== src/Outbox/Catalog.antt =====
-- The relay of services/catalog-service/internal/outbox/relay.go, which handles the events between
-- two transactions.
use go_ozon_marketplace.Prelude.{
  ℕ, ◌+◌, Bool, ◌||◌, List, [], ◌∷◌, Option, none, some, leb, if◌then◌else◌,
}
use go_ozon_marketplace.Prelude.Effect.{Error, Result, ok, err, Action, pure, ◌>>◌}
use go_ozon_marketplace.Outbox.{
  OutboxEvent, Repo, begin, commit, rollback, get_unprocessed, batch_mark_processed,
  increment_retry_and_set_error, move_to_dlq,
}
use go_ozon_marketplace.Outbox.Relay.{max_retries, batch_limit, calculate_next_retry}

-- `runTx`: begin, the body, and the commit, or a rollback after an error.
abbrev pub end_tx : {A : Type 0} → Result A × Repo → Result A × Repo
end_tx (err e, repo) = (err e, rollback repo)
end_tx (ok a, repo) =
    let (r, repo') = commit repo in elim r [ ok _ ↦ (ok a, repo') | err e ↦ (err e, repo') ]

unfoldable pub run_tx : {A : Type 0} → Action Repo A → Action Repo A
run_tx body repo =
    let (r, repo₁) = begin repo in elim r [ ok _ ↦ end_tx (body repo₁) | err e ↦ (err e, repo₁) ]

-- What came of the call of the handler for an event.
abbrev pub Handled : Type 0
Handled = OutboxEvent × Option Error

-- The handler of the events, over a state of its own, and `errors.Is(err, ErrPoison)`.
module _ {H : Type 0} (handle : OutboxEvent → Action H (Unit {0})) (is_poison : Error → Bool) where
  -- The statement for one result in the second transaction of `poll`
  unfoldable pub store_result : ℕ → Handled → Action Repo (Unit {0})
  store_result now (event, none) = batch_mark_processed now (event.id ∷ [])
  store_result now (event, some e) =
      if is_poison e || leb max_retries (event.retry_count + 1)
      then move_to_dlq event now e
      else increment_retry_and_set_error event.id e (calculate_next_retry now event.retry_count)

  unfoldable pub store_results : ℕ → List Handled → Action Repo (Unit {0})
  store_results now [] = pure tt
  store_results now (h ∷ hs) = store_result now h >> store_results now hs

  abbrev pub handled : Result (Unit {0}) → Option Error
  handled (ok _) = none
  handled (err e) = some e

  -- The loop that calls the handler outside of a transaction.
  unfoldable pub handle_all : List OutboxEvent → H → List Handled × H
  handle_all [] h = ([], h)
  handle_all (event ∷ events) h =
      let (r, h₁) = handle event h in
      let (rest, h₂) = handle_all events h₁ in ((event, handled r) ∷ rest, h₂)

  unfoldable pub handle_and_store : ℕ → List OutboxEvent → Repo × H → Repo × H
  handle_and_store now [] (repo, h) = (repo, h)
  handle_and_store now (event ∷ events) (repo, h) =
      let (results, h₁) = handle_all (event ∷ events) h in
      ((run_tx (store_results now results) repo).1, h₁)

  -- `poll` at the time `now`
  unfoldable pub poll : ℕ → Repo × H → Repo × H
  poll now (repo, h) =
      let (r, repo₁) = run_tx (get_unprocessed now batch_limit) repo in
      elim r [ ok events ↦ handle_and_store now events (repo₁, h) | err _ ↦ (repo₁, h) ]
