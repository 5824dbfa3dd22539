-- ===== src/Outbox.antt =====
-- The outbox of services/order-service: domain.OutboxEvent, the tables `outbox` and `outbox_dlq`,
-- and the repository of internal/repository/postgres/outbox_postgres.go, which keeps the transaction
-- that is open. The SQL of services/catalog-service is the same.
pub mod Catalog
pub mod Contents
pub mod Delivery
pub mod Drain
pub mod Kept
pub mod Relay
pub mod Safety
mod Tests
use go_ozon_marketplace.Prelude.{
  ℕ, zero, suc, ◌+◌, Bool, true, false, ◌&&◌, ◌||◌, List, [], ◌∷◌, Option, none, some, ◌==◌, leb,
  take, if◌then◌else◌,
}
use go_ozon_marketplace.Prelude.Effect.{Error, other, Result, ok, err, Action, ◌>>◌}
use go_ozon_marketplace.Database.{Fault, answered, refused, lost, next_fault}

-- domain.OutboxEvent, a row of `outbox`; aggregate and event types are numbered, times are in
-- milliseconds, a payload is its bytes.
pub record OutboxEvent : Type 0 where
  pub id : ℕ
  pub aggregate_type : ℕ
  pub aggregate_id : ℕ
  pub event_type : ℕ
  pub payload : List ℕ
  pub created_at : ℕ
  pub processed_at : Option ℕ
  pub retry_count : ℕ
  pub last_error : Option Error
  pub next_retry_at : ℕ

-- A row of `outbox_dlq`
pub record DlqRow : Type 0 where
  pub id : ℕ
  pub aggregate_type : ℕ
  pub aggregate_id : ℕ
  pub event_type : ℕ
  pub payload : List ℕ
  pub created_at : ℕ
  pub failed_at : ℕ
  pub last_error : Error
  pub retry_count : ℕ

abbrev pub Tables : Type 0
Tables = List OutboxEvent × List DlqRow

-- The repository's transaction: none, one that is open on its view of the tables, or one in which a
-- statement has failed, so that PostgreSQL refuses the statements to come and the commit.
pub data Tx : Type 0 where
  idle aborted : Tx
  open_tx : Tables → Tx

-- The committed tables, the transaction, and the faults of the calls to come.
abbrev pub Repo : Type 0
Repo = Tables × (Tx × List Fault)

abbrev pub begin_with : Tables → List Fault → Fault → Result (Unit {0}) × Repo
begin_with t fs answered = (ok tt, (t, (open_tx t, fs)))
begin_with t fs (refused e) = (err e, (t, (idle, fs)))
begin_with t fs (lost e) = (err e, (t, (idle, fs)))

-- Begin
unfoldable pub begin : Action Repo (Unit {0})
begin (t, (idle, fs)) = begin_with t (next_fault fs).1 (next_fault fs).0
begin (t, (aborted, fs)) = (ok tt, (t, (aborted, fs)))
begin (t, (open_tx v, fs)) = (ok tt, (t, (open_tx v, fs)))

abbrev pub commit_with : Tables → Tables → List Fault → Fault → Result (Unit {0}) × Repo
commit_with t v fs answered = (ok tt, (v, (idle, fs)))
commit_with t v fs (refused e) = (err e, (t, (idle, fs)))
commit_with t v fs (lost e) = (err e, (v, (idle, fs)))

-- Commit
unfoldable pub commit : Action Repo (Unit {0})
commit (t, (idle, fs)) = (err other, (t, (idle, fs)))
commit (t, (aborted, fs)) = (err other, (t, (idle, fs)))
commit (t, (open_tx v, fs)) = commit_with t v (next_fault fs).1 (next_fault fs).0

-- Rollback
unfoldable pub rollback : Repo → Repo
rollback (t, (_, fs)) = (t, (idle, fs))

module _ {A : Type 0} where
  -- A statement outside of a transaction commits by itself.
  abbrev pub exec_idle : (Tables → A × Tables) → Tables → List Fault → Fault → Result A × Repo
  exec_idle f t fs answered = let (a, t') = f t in (ok a, (t', (idle, fs)))
  exec_idle f t fs (refused e) = (err e, (t, (idle, fs)))
  exec_idle f t fs (lost e) = let (_, t') = f t in (err e, (t', (idle, fs)))

  abbrev pub exec_open :
      (Tables → A × Tables) → Tables → Tables → List Fault → Fault → Result A × Repo
  exec_open f t v fs answered = let (a, v') = f v in (ok a, (t, (open_tx v', fs)))
  exec_open f t v fs (refused e) = (err e, (t, (aborted, fs)))
  exec_open f t v fs (lost e) = (err e, (t, (aborted, fs)))

  -- `r.db.Exec` and `r.db.Query` of one statement
  unfoldable pub exec : (Tables → A × Tables) → Action Repo A
  exec f (t, (idle, fs)) = exec_idle f t (next_fault fs).1 (next_fault fs).0
  exec f (t, (aborted, fs)) = (err other, (t, (aborted, fs)))
  exec f (t, (open_tx v, fs)) = exec_open f t v (next_fault fs).1 (next_fault fs).0

-- `processed_at IS NULL`
abbrev pub is_unprocessed : Option ℕ → Bool
is_unprocessed none = true
is_unprocessed (some _) = false

-- The WHERE of GetUnprocessed; `now` is the database's NOW().
abbrev pub is_due : ℕ → OutboxEvent → Bool
is_due now e = is_unprocessed e.processed_at && leb e.next_retry_at now

unfoldable pub due : ℕ → List OutboxEvent → List OutboxEvent
due now [] = []
due now (e ∷ es) = if is_due now e then e ∷ due now es else due now es

-- `ORDER BY created_at`
unfoldable pub insert_by_age : OutboxEvent → List OutboxEvent → List OutboxEvent
insert_by_age e [] = e ∷ []
insert_by_age e (x ∷ xs) =
    if leb e.created_at x.created_at then e ∷ x ∷ xs else x ∷ insert_by_age e xs

unfoldable pub by_age : List OutboxEvent → List OutboxEvent
by_age [] = []
by_age (e ∷ es) = insert_by_age e (by_age es)

unfoldable pub oldest_due : ℕ → ℕ → List OutboxEvent → List OutboxEvent
oldest_due now limit rows = take limit (by_age (due now rows))

-- GetUnprocessed; only one relay polls, so no row is locked by another.
unfoldable pub get_unprocessed : ℕ → ℕ → Action Repo (List OutboxEvent)
get_unprocessed now limit = exec (λ (rows, dlq). (oldest_due now limit rows, (rows, dlq)))

-- `id = ANY($1)`
abbrev pub has_id : ℕ → List ℕ → Bool
has_id n [] = false
has_id n (m ∷ ms) = (m == n) || has_id n ms

unfoldable pub mark : ℕ → List ℕ → List OutboxEvent → List OutboxEvent
mark now ids [] = []
mark now ids (e ∷ es) =
    (if has_id e.id ids then record e { processed_at = some now } else e) ∷ mark now ids es

-- BatchMarkProcessed
unfoldable pub batch_mark_processed : ℕ → List ℕ → Action Repo (Unit {0})
batch_mark_processed now ids = exec (λ (rows, dlq). (tt, (mark now ids rows, dlq)))

-- MarkProcessed
unfoldable pub mark_processed : ℕ → ℕ → Action Repo (Unit {0})
mark_processed now id = exec (λ (rows, dlq). (tt, (mark now (id ∷ []) rows, dlq)))

unfoldable pub set_retry : ℕ → Error → ℕ → List OutboxEvent → List OutboxEvent
set_retry id error at [] = []
set_retry id error at (e ∷ es) =
    (if e.id == id
      then record e { retry_count = e.retry_count + 1; last_error = some error; next_retry_at = at }
      else e)
    ∷ set_retry id error at es

-- IncrementRetryAndSetError
unfoldable pub increment_retry_and_set_error : ℕ → Error → ℕ → Action Repo (Unit {0})
increment_retry_and_set_error id error at =
    exec (λ (rows, dlq). (tt, (set_retry id error at rows, dlq)))

abbrev pub dlq_row : OutboxEvent → ℕ → Error → DlqRow
dlq_row e failed_at error = record {
  id = e.id;
  aggregate_type = e.aggregate_type;
  aggregate_id = e.aggregate_id;
  event_type = e.event_type;
  payload = e.payload;
  created_at = e.created_at;
  failed_at = failed_at;
  last_error = error;
  retry_count = e.retry_count + 1;
}

abbrev pub has_dlq_row : ℕ → List DlqRow → Bool
has_dlq_row id [] = false
has_dlq_row id (d ∷ ds) = (d.id == id) || has_dlq_row id ds

-- `ON CONFLICT (id) DO NOTHING`
unfoldable pub add_dlq_row : DlqRow → List DlqRow → List DlqRow
add_dlq_row d ds = if has_dlq_row d.id ds then ds else d ∷ ds

-- The first statement of MoveToDLQ
unfoldable pub insert_dlq : DlqRow → Action Repo (Unit {0})
insert_dlq d = exec (λ (rows, dlq). (tt, (rows, add_dlq_row d dlq)))

unfoldable pub without : ℕ → List OutboxEvent → List OutboxEvent
without id [] = []
without id (e ∷ es) = if e.id == id then without id es else e ∷ without id es

-- The second statement of MoveToDLQ
unfoldable pub delete_event : ℕ → Action Repo (Unit {0})
delete_event id = exec (λ (rows, dlq). (tt, (without id rows, dlq)))

-- MoveToDLQ
unfoldable pub move_to_dlq : OutboxEvent → ℕ → Error → Action Repo (Unit {0})
move_to_dlq e failed_at error = insert_dlq (dlq_row e failed_at error) >> delete_event e.id
