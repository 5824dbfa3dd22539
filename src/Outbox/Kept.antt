-- ===== src/Outbox/Kept.antt =====
-- The events that the statements of the outbox repository keep.
use mathlib.Core.Path.{subst}
use go_ozon_marketplace.Prelude.{ℕ, ◌≡◌, sym, ◌∙◌, inl, inr, true, List, map}
use go_ozon_marketplace.Prelude.Effect.{Error}
use go_ozon_marketplace.Outbox.{
  OutboxEvent, DlqRow, Tables, Repo, mark, batch_mark_processed, set_retry, has_id,
  increment_retry_and_set_error, add_dlq_row, insert_dlq, dlq_row, without, delete_event,
  move_to_dlq, get_unprocessed,
}
use go_ozon_marketplace.Outbox.Relay.{Message}
use go_ozon_marketplace.Outbox.Contents.{
  In, Content, content, dlq_content, content_message, Has, SentAll, contents-mark,
  contents-set_retry, SentAll-mark, SentAll-set_retry, SentAll-without, In-without, without-In,
  add_dlq_row-In, add_dlq_row-keeps, add_dlq_row-adds, AllIn, oldest_due-AllIn,
}
use go_ozon_marketplace.Outbox.Delivery.{
  Holds, After, exec-Holds, exec-After, bind-After, After-any,
}

-- An id belongs to one event, as the primary keys of the two tables and `uuid.New` have it.
abbrev pub Keyed : Tables → Type 0
Keyed t = (c d : Content) → Has c t → Has d t → c.0 ≡ d.0 → c ≡ d

-- The same events as before, and those that are processed have been sent.
abbrev pub Kept : Tables → List Message → Tables → Type 0
Kept before sent (rows, dlq) =
    ((c : Content) → Has c before → Has c (rows, dlq))
    × ((c : Content) → Has c (rows, dlq) → Has c before)
    × SentAll rows sent

-- The dead letter table has a row with the id.
abbrev HasDlq : ℕ → Tables → Type 0
HasDlq id (_, dlq) = (c : Content) × (In c (map dlq_content dlq)) × (c.0 ≡ id)

-- Events with these ids have been sent.
abbrev pub IdsSent : Tables → List Message → List ℕ → Type 0
IdsSent before sent ids =
    (c : Content) → Has c before → has_id c.0 ids ≡ true → In (content_message c) sent

module _ (before : Tables) (sent : List Message) where
  same_contents :
      (rows rows' : List OutboxEvent) (dlq : List DlqRow)
      → map content rows' ≡ map content rows
      → SentAll rows' sent
      → Kept before sent (rows, dlq)
      → Kept before sent (rows', dlq)
  same_contents rows rows' dlq same s (from, to, _) = rw same (from, to, s)

  mark-Kept :
      (now : ℕ) (ids : List ℕ)
      → IdsSent before sent ids
      → (t : Tables) → Kept before sent t
      → Kept before sent (mark now ids t.0, t.1)
  mark-Kept now ids known (rows, dlq) (from, to, s) =
      same_contents rows (mark now ids rows) dlq (contents-mark now ids rows)
        (SentAll-mark now ids rows sent (λ c p. known c (to c (inl p))) s) (from, to, s)

  pub batch_mark_processed-Holds :
      (now : ℕ) (ids : List ℕ)
      → IdsSent before sent ids
      → (repo : Repo) → Holds (Kept before sent) (Kept before sent) repo
      → Holds (Kept before sent) (Kept before sent) (batch_mark_processed now ids repo).1
  unfolding batch_mark_processed
  batch_mark_processed-Holds now ids known repo h =
      exec-Holds (Kept before sent) _ (mark-Kept now ids known) repo h

  set_retry-Kept :
      (id : ℕ) (error : Error) (at : ℕ) (t : Tables)
      → Kept before sent t
      → Kept before sent (set_retry id error at t.0, t.1)
  set_retry-Kept id error at (rows, dlq) (from, to, s) =
      same_contents rows (set_retry id error at rows) dlq (contents-set_retry id error at rows)
        (SentAll-set_retry id error at rows sent s) (from, to, s)

  pub increment_retry_and_set_error-Holds :
      (id : ℕ) (error : Error) (at : ℕ) (repo : Repo)
      → Holds (Kept before sent) (Kept before sent) repo
      → Holds
          (Kept before sent)
          (Kept before sent)
          (increment_retry_and_set_error id error at repo).1
  unfolding increment_retry_and_set_error
  increment_retry_and_set_error-Holds id error at repo h =
      exec-Holds (Kept before sent) _ (set_retry-Kept id error at) repo h

  pub get_unprocessed-After :
      (now limit : ℕ) (repo : Repo)
      → Holds (Kept before sent) (Kept before sent) repo
      → After
          (Kept before sent)
          (λ events t. Kept before sent t × AllIn events t.0)
          (get_unprocessed now limit repo)
  unfolding get_unprocessed
  get_unprocessed-After now limit repo h =
      exec-After (Kept before sent) (Kept before sent)
        (λ events t. Kept before sent t × AllIn events t.0) _
        (λ (rows, dlq) k _. (k, oldest_due-AllIn now limit rows)) (λ _ _ k. k.0) (λ _ k. k) repo h

  module _ (keyed : Keyed before) (e : OutboxEvent) (mine : Has (content e) before) where
    insert-Kept :
        (at : ℕ) (error : Error) (t : Tables)
        → Kept before sent t
        → Kept before sent (t.0, add_dlq_row (dlq_row e at error) t.1)
    insert-Kept at error (rows, dlq) (from, to, s) = (
      (λ c h. elim (from c h) [
        | inl p ↦ inl p
        | inr p ↦ inr (add_dlq_row-keeps (dlq_row e at error) c dlq p)
      ]),
      (λ c h. elim h [
        | inl p ↦ to c (inl p)
        | inr p ↦ elim (add_dlq_row-adds (dlq_row e at error) c dlq p) [
          | inl q ↦ to c (inr q)
          | inr q ↦ subst (λ x. Has x before) q mine
        ]
      ]),
      s,
    )

    delete-Kept :
        (t : Tables) → Kept before sent t → HasDlq e.id t → Kept before sent (without e.id t.0, t.1)
    delete-Kept (rows, dlq) (from, to, s) (d, in_dlq, same) = (
      (λ c h. elim (from c h) [
        | inr p ↦ inr p
        | inl p ↦ elim (without-In e.id c rows p) [
          | inl q ↦ inl q
          | inr q ↦ inr (
              subst (λ x. In x (map dlq_content dlq))
                (keyed d c (to d (inr in_dlq)) h (same ∙ sym q)) in_dlq)
        ]
      ]),
      (λ c h. elim h [ inl p ↦ to c (inl (In-without e.id c rows p)) | inr p ↦ to c (inr p) ]),
      SentAll-without e.id rows sent s,
    )

    abbrev Moved : Tables → Type 0
    Moved t = Kept before sent t × HasDlq e.id t

    insert_dlq-After :
        (at : ℕ) (error : Error) (repo : Repo)
        → Holds (Kept before sent) (Kept before sent) repo
        → After (Kept before sent) (λ _ t. Moved t) (insert_dlq (dlq_row e at error) repo)
    unfolding insert_dlq
    insert_dlq-After at error repo h =
        exec-After (Kept before sent) (Kept before sent) (λ _ t. Moved t) _
          (λ t k _. (insert-Kept at error t k, add_dlq_row-In (dlq_row e at error) t.1))
          (λ _ _ m. m.0) (λ _ k. k) repo h

    delete_event-Holds :
        (repo : Repo)
        → Holds (Kept before sent) Moved repo
        → After (Kept before sent) (λ _ t. Kept before sent t) (delete_event e.id repo)
    unfolding delete_event
    delete_event-Holds repo h =
        exec-After (Kept before sent) Moved (λ _ t. Kept before sent t) _
          (λ t k m. delete-Kept t k m.1) (λ _ _ k. k) (λ _ m. m.0) repo h

    pub move_to_dlq-Holds :
        (at : ℕ) (error : Error) (repo : Repo)
        → Holds (Kept before sent) (Kept before sent) repo
        → Holds (Kept before sent) (Kept before sent) (move_to_dlq e at error repo).1
    unfolding move_to_dlq
    move_to_dlq-Holds at error repo h =
        After-any (Kept before sent) (λ _ t. Kept before sent t) (move_to_dlq e at error repo)
          (λ _ _ k. k)
          (bind-After (Kept before sent) (λ _ t. Moved t) (λ _ t. Kept before sent t)
            (insert_dlq (dlq_row e at error)) (λ _. delete_event e.id) repo
            (insert_dlq-After at error repo h) (λ _ r k. delete_event-Holds r k))
