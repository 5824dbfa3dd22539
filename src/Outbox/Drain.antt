-- ===== src/Outbox/Drain.antt =====
-- The relay of order-service drains the outbox: what `poll` does where every call is answered.
use mathlib.Core.Path.{subst}
use go_ozon_marketplace.Prelude.{
  ℕ, zero, suc, ◌*◌, ◌-◌, ◌≤◌, ◌≡◌, refl, sym, ◌∙◌, inl, inr, true, List, [], ◌∷◌, ◌++◌, map, leb,
  take, length, All, arith, Bool-cases, append-nil, append_assoc, if◌then◌else◌,
}
use go_ozon_marketplace.Outbox.{
  OutboxEvent, DlqRow, Tables, idle, open_tx, Repo, begin, commit, exec, get_unprocessed, has_id,
  mark, batch_mark_processed, is_unprocessed, due, insert_by_age, by_age, oldest_due,
}
use go_ozon_marketplace.Outbox.Relay.{
  Message, message, batch_limit, send_message, publish, commit_or_rollback, finish,
  publish_and_finish, poll, polls,
}

abbrev pub ids_of : List OutboxEvent → List ℕ
ids_of events = map (λ e. e.id) events

publish-answered :
    (now : ℕ) (events : List OutboxEvent) (repo : Repo) (sent : List Message)
    → publish now events (repo, (sent, []))
      ≡ (ids_of events, (repo, (sent ++ map message events, [])))
unfolding publish send_message
publish-answered now [] repo sent = rw (append-nil sent) refl
publish-answered now (e ∷ events) repo sent =
    rw
      (
        publish-answered now events repo (sent ++ message e ∷ []),
        append_assoc sent (message e ∷ []) (map message events),
      )
      refl

mark-nil : (now : ℕ) (rows : List OutboxEvent) → mark now [] rows ≡ rows
unfolding mark
mark-nil now [] = refl
mark-nil now (e ∷ rows) = rw (mark-nil now rows) refl

finish-answered :
    (now : ℕ) (ids : List ℕ) (t : Tables) (rows : List OutboxEvent) (dlq : List DlqRow)
    → finish now ids (t, (open_tx (rows, dlq), [])) ≡ ((mark now ids rows, dlq), (idle, []))
unfolding finish commit_or_rollback commit batch_mark_processed exec
finish-answered now [] t rows dlq = rw (mark-nil now rows) refl
finish-answered now (id ∷ ids) t rows dlq = refl

-- One poll in which no call fails: the oldest due events are sent in their order, and are marked.
poll-answered :
    (now : ℕ) (rows : List OutboxEvent) (dlq : List DlqRow) (sent : List Message)
    → let batch = oldest_due now batch_limit rows in
      poll now (((rows, dlq), (idle, [])), (sent, []))
      ≡ (((mark now (ids_of batch) rows, dlq), (idle, [])), (sent ++ map message batch, []))
unfolding poll begin get_unprocessed exec publish_and_finish
poll-answered now rows dlq sent =
    let batch = oldest_due now batch_limit rows in
    rw
      (
        publish-answered now batch ((rows, dlq), (open_tx (rows, dlq), [])) sent,
        finish-answered now (ids_of batch) (rows, dlq) rows dlq,
      )
      refl

-- The rows that are not processed.
abbrev pub pending : List OutboxEvent → List OutboxEvent
pending [] = []
pending (e ∷ rows) = if is_unprocessed e.processed_at then e ∷ pending rows else pending rows

-- Every row may be sent from this time on.
abbrev pub AllDue : ℕ → List OutboxEvent → Type 0
AllDue at rows = All (λ e. e.next_retry_at ≤ at) rows

due-pending :
    (at now : ℕ) (rows : List OutboxEvent) → AllDue at rows → at ≤ now → due now rows ≡ pending rows
unfolding due
due-pending at now [] h l = refl
due-pending at now (e ∷ rows) (h, hs) l =
    let soon : leb e.next_retry_at now ≡ true = ground arith in
    elim (Bool-cases (is_unprocessed e.processed_at)) [
      | inl b ↦ rw (b, soon, due-pending at now rows hs l) refl
      | inr b ↦ rw (b, due-pending at now rows hs l) refl
    ]

mark-AllDue :
    (at now : ℕ) (ids : List ℕ) (rows : List OutboxEvent)
    → AllDue at rows
    → AllDue at (mark now ids rows)
unfolding mark
mark-AllDue at now ids [] h = tt
mark-AllDue at now ids (e ∷ rows) (h, hs) = elim (Bool-cases (has_id e.id ids)) [
  | inl b ↦ rw b (h, mark-AllDue at now ids rows hs)
  | inr b ↦ rw b (h, mark-AllDue at now ids rows hs)
]

-- The events whose ids are not among these.
rest_of : List ℕ → List OutboxEvent → List OutboxEvent
rest_of ids [] = []
rest_of ids (e ∷ es) = if has_id e.id ids then rest_of ids es else e ∷ rest_of ids es

pending-mark :
    (now : ℕ) (ids : List ℕ) (rows : List OutboxEvent)
    → pending (mark now ids rows) ≡ rest_of ids (pending rows)
unfolding mark rest_of
pending-mark now ids [] = refl
pending-mark now ids (e ∷ rows) = elim (Bool-cases (has_id e.id ids)) [
  | inl b ↦ elim (Bool-cases (is_unprocessed e.processed_at)) [
    | inl d ↦ rw (b, d) (rw (b, pending-mark now ids rows) refl)
    | inr d ↦ rw (b, d, pending-mark now ids rows) refl
  ]
  | inr b ↦ elim (Bool-cases (is_unprocessed e.processed_at)) [
    | inl d ↦ rw (b, d) (rw (b, pending-mark now ids rows) refl)
    | inr d ↦ rw (b, d, pending-mark now ids rows) refl
  ]
]

length-rest_of-insert :
    (ids : List ℕ) (e : OutboxEvent) (xs : List OutboxEvent)
    → length (rest_of ids (insert_by_age e xs)) ≡ length (rest_of ids (e ∷ xs))
unfolding insert_by_age rest_of
length-rest_of-insert ids e [] = refl
length-rest_of-insert ids e (x ∷ xs) = ground (arith, length-rest_of-insert ids e xs)

length-rest_of-by_age :
    (ids : List ℕ) (xs : List OutboxEvent)
    → length (rest_of ids (by_age xs)) ≡ length (rest_of ids xs)
unfolding by_age rest_of
length-rest_of-by_age ids [] = refl
length-rest_of-by_age ids (x ∷ xs) =
    length-rest_of-insert ids x (by_age xs) ∙ ground (arith, length-rest_of-by_age ids xs)

length-insert_by_age :
    (e : OutboxEvent) (xs : List OutboxEvent) → length (insert_by_age e xs) ≡ suc (length xs)
unfolding insert_by_age
length-insert_by_age e [] = refl
length-insert_by_age e (x ∷ xs) = ground (arith, length-insert_by_age e xs)

length-by_age : (xs : List OutboxEvent) → length (by_age xs) ≡ length xs
unfolding by_age
length-by_age [] = refl
length-by_age (x ∷ xs) = omega (arith, length-insert_by_age x (by_age xs), length-by_age xs)

abbrev AllHave : List ℕ → List OutboxEvent → Type 0
AllHave ids es = All (λ e. has_id e.id ids ≡ true) es

AllHave-more :
    (id : ℕ) (ids : List ℕ) (es : List OutboxEvent) → AllHave ids es → AllHave (id ∷ ids) es
AllHave-more id ids [] h = tt
AllHave-more id ids (e ∷ es) (h, hs) = (ground (arith, h), AllHave-more id ids es hs)

AllHave-own : (es : List OutboxEvent) → AllHave (ids_of es) es
AllHave-own [] = tt
AllHave-own (e ∷ es) = (ground arith, AllHave-more e.id (ids_of es) es (AllHave-own es))

length-rest_of-le :
    (n : ℕ) (ids : List ℕ) (xs : List OutboxEvent)
    → AllHave ids (take n xs)
    → length (rest_of ids xs) ≤ length xs - n
unfolding rest_of
length-rest_of-le zero ids [] h = omega arith
length-rest_of-le zero ids (x ∷ xs) h = ground (arith, length-rest_of-le zero ids xs tt)
length-rest_of-le (suc n) ids [] h = omega arith
length-rest_of-le (suc n) ids (x ∷ xs) (h, hs) = rw h (omega (arith, length-rest_of-le n ids xs hs))

-- A poll leaves so many rows fewer.
poll_leaves :
    (at now : ℕ) (rows : List OutboxEvent)
    → AllDue at rows
    → at ≤ now
    → length (pending (mark now (ids_of (oldest_due now batch_limit rows)) rows))
      ≤ length (pending rows) - batch_limit
unfolding oldest_due
poll_leaves at now rows h l =
    let batch = take batch_limit (by_age (pending rows)) in
    rw (due-pending at now rows h l) (
      rw (pending-mark now (ids_of batch) rows) (
        omega (
          arith,
          length-rest_of-by_age (ids_of batch) (pending rows),
          length-by_age (pending rows),
          length-rest_of-le batch_limit (ids_of batch) (by_age (pending rows)) (AllHave-own batch),
        )))

-- Where every call of the database and of the broker is answered, and every row of the outbox is due:
-- as many polls as there are batches of a hundred unprocessed rows leave no row unprocessed, and the
-- dead letter table as it was.
pub polls-drain :
    (rows : List OutboxEvent) (dlq : List DlqRow) (sent : List Message) (at : ℕ) (times : List ℕ)
    → AllDue at rows
    → All (λ now. at ≤ now) times
    → length (pending rows) ≤ batch_limit * length times
    → let w = polls times (((rows, dlq), (idle, [])), (sent, [])) in
      (length (pending w.0.0.0) ≡ 0) × (w.0.0.1 ≡ dlq)
unfolding polls
polls-drain rows dlq sent at [] h hs n = (omega arith, refl)
polls-drain rows dlq sent at (now ∷ times) h (l, ls) n =
    let batch = oldest_due now batch_limit rows in
    subst (λ w. (length (pending (polls times w).0.0.0) ≡ 0) × ((polls times w).0.0.1 ≡ dlq))
      (sym (poll-answered now rows dlq sent))
      (polls-drain (mark now (ids_of batch) rows) dlq (sent ++ map message batch) at times
        (mark-AllDue at now (ids_of batch) rows h) ls
        (omega (arith, poll_leaves at now rows h l, n)))
