-- ===== src/Outbox/Relay.antt =====
-- The relay of services/order-service/internal/outbox/relay.go: one `poll` of the outbox. The ticker
-- that calls `poll`, the query timeout and the log are left out.
use go_ozon_marketplace.Prelude.{ℕ, ◌+◌, ◌*◌, ◌^◌, min, List, [], ◌∷◌, ◌++◌, leb, if◌then◌else◌}
use go_ozon_marketplace.Prelude.Effect.{Error, Result, ok, err, Action}
use go_ozon_marketplace.Database.{Fault, answered, refused, lost, next_fault}
use go_ozon_marketplace.Outbox.{
  OutboxEvent, Repo, begin, commit, rollback, get_unprocessed, batch_mark_processed,
  increment_retry_and_set_error, move_to_dlq,
}

-- NewRelay; the times are in milliseconds.
abbrev pub max_retries : ℕ
max_retries = 5

abbrev pub base_backoff : ℕ
base_backoff = 500

abbrev pub max_backoff : ℕ
max_backoff = 30000

abbrev pub batch_limit : ℕ
batch_limit = 100

-- What SendMessage publishes on the relay's topic: the key and the payload.
abbrev pub Message : Type 0
Message = ℕ × List ℕ

abbrev pub message : OutboxEvent → Message
message e = (e.aggregate_id, e.payload)

-- The broker: what it has received, in order, and the faults of the sends to come.
abbrev pub Broker : Type 0
Broker = List Message × List Fault

abbrev pub World : Type 0
World = Repo × Broker

abbrev pub send_with : Message → List Message → List Fault → Fault → Result (Unit {0}) × Broker
send_with m sent fs answered = (ok tt, (sent ++ m ∷ [], fs))
send_with m sent fs (refused e) = (err e, (sent, fs))
send_with m sent fs (lost e) = (err e, (sent ++ m ∷ [], fs))

-- `producer.SendMessage`
unfoldable pub send_message : Message → Action Broker (Unit {0})
send_message m (sent, fs) = send_with m sent (next_fault fs).1 (next_fault fs).0

-- calculateNextRetry
unfoldable pub calculate_next_retry : ℕ → ℕ → ℕ
calculate_next_retry now retry_count =
    let backoff = base_backoff * 2 ^ min retry_count 10 in
    now + (if leb (max_backoff + 1) backoff then max_backoff else backoff)

-- What `poll` does with an event that it could not send; errors are only logged.
unfoldable pub send_failed : ℕ → OutboxEvent → Error → Repo → Repo
send_failed now event error repo =
    if leb max_retries (event.retry_count + 1)
    then (move_to_dlq event now error repo).1
    else (increment_retry_and_set_error event.id error (calculate_next_retry now event.retry_count)
        repo).1

-- The loop of `poll`: the ids of the events that were sent.
unfoldable pub publish : ℕ → List OutboxEvent → World → List ℕ × World
publish now [] w = ([], w)
publish now (event ∷ events) (repo, broker) =
    let (r, broker₁) = send_message (message event) broker in
    elim r [
      | ok _ ↦ let (ids, w) = publish now events (repo, broker₁) in (event.id ∷ ids, w)
      | err e ↦ publish now events (send_failed now event e repo, broker₁)
    ]

-- The end of `poll`; a rollback after a commit that failed finds no transaction.
unfoldable pub commit_or_rollback : Repo → Repo
commit_or_rollback repo =
    let (r, repo₁) = commit repo in elim r [ ok _ ↦ repo₁ | err _ ↦ rollback repo₁ ]

unfoldable pub finish : ℕ → List ℕ → Repo → Repo
finish now [] repo = commit_or_rollback repo
finish now (id ∷ ids) repo =
    let (r, repo₁) = batch_mark_processed now (id ∷ ids) repo in
    elim r [ ok _ ↦ commit_or_rollback repo₁ | err _ ↦ rollback repo₁ ]

unfoldable pub publish_and_finish : ℕ → List OutboxEvent → World → World
publish_and_finish now events w =
    let (ids, (repo, broker)) = publish now events w in (finish now ids repo, broker)

-- `poll` at the time `now`
unfoldable pub poll : ℕ → World → World
poll now (repo, broker) =
    let (r, repo₁) = begin repo in
    let (events, repo₂) = get_unprocessed now batch_limit repo₁ in
    elim r [
      | err _ ↦ (repo₁, broker)
      | ok _ ↦ elim events [
        | err _ ↦ (rollback repo₂, broker)
        | ok es ↦ publish_and_finish now es (repo₂, broker)
      ]
    ]

-- The polls of the ticker, at these times.
unfoldable pub polls : List ℕ → World → World
polls [] w = w
polls (now ∷ times) w = polls times (poll now w)
