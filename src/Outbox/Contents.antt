-- ===== src/Outbox/Contents.antt =====
-- The events that the outbox tables hold, apart from the columns of their delivery, and what the
-- statements of Outbox.antt do with them.
use go_ozon_marketplace.Prelude.{
  ℕ, zero, suc, ◌≡◌, refl, sym, ◌∙◌, ap, ◌⊎◌, inl, inr, true, false, List, [], ◌∷◌, ◌++◌, map, ◌==◌,
  ==_iff, leb, take, Bool-cases, All,
}
use go_ozon_marketplace.Prelude.Effect.{Error}
use go_ozon_marketplace.Outbox.{
  OutboxEvent, DlqRow, Tables, is_unprocessed, is_due, due, insert_by_age, by_age, oldest_due,
  has_id, mark, set_retry, without, has_dlq_row, add_dlq_row,
}
use go_ozon_marketplace.Outbox.Relay.{Message, message}

abbrev pub In : {A : Type 0} → A → List A → Type 0
In a [] = ⊥
In a (x ∷ xs) = (x ≡ a) ⊎ In a xs

-- Id, aggregate type, aggregate id, event type, payload and time of creation.
abbrev pub Content : Type 0
Content = ℕ × ℕ × ℕ × ℕ × List ℕ × ℕ

abbrev pub content : OutboxEvent → Content
content e = (e.id, e.aggregate_type, e.aggregate_id, e.event_type, e.payload, e.created_at)

abbrev pub dlq_content : DlqRow → Content
dlq_content d = (d.id, d.aggregate_type, d.aggregate_id, d.event_type, d.payload, d.created_at)

-- What the relay sends for an event.
abbrev pub content_message : Content → Message
content_message (_, _, aggregate_id, _, payload, _) = (aggregate_id, payload)

-- An event is in the outbox, or in the dead letter table.
abbrev pub Has : Content → Tables → Type 0
Has c (rows, dlq) = In c (map content rows) ⊎ In c (map dlq_content dlq)

-- The rows that are processed have been sent.
abbrev pub SentAll : List OutboxEvent → List Message → Type 0
SentAll rows sent = All (λ e. is_unprocessed e.processed_at ≡ false → In (message e) sent) rows

pub In-append : {A : Type 0} (a : A) (xs ys : List A) → In a xs → In a (xs ++ ys)
In-append a [] ys h = elim h [ ]
In-append a (x ∷ xs) ys (inl h) = inl h
In-append a (x ∷ xs) ys (inr h) = inr (In-append a xs ys h)

pub In-last : {A : Type 0} (a : A) (xs : List A) → In a (xs ++ a ∷ [])
In-last a [] = inl refl
In-last a (x ∷ xs) = inr (In-last a xs)

pub SentAll-append :
    (rows : List OutboxEvent) (sent more : List Message)
    → SentAll rows sent
    → SentAll rows (sent ++ more)
SentAll-append [] sent more h = tt
SentAll-append (e ∷ rows) sent more (h, hs) =
    ((λ p. In-append (message e) sent more (h p)), SentAll-append rows sent more hs)

pub contents-mark :
    (now : ℕ) (ids : List ℕ) (rows : List OutboxEvent)
    → map content (mark now ids rows) ≡ map content rows
unfolding mark
contents-mark now ids [] = refl
contents-mark now ids (e ∷ rows) = elim (Bool-cases (has_id e.id ids)) [
  | inl h ↦ rw (h, contents-mark now ids rows)
  | inr h ↦ rw (h, contents-mark now ids rows)
]

pub contents-set_retry :
    (id : ℕ) (error : Error) (at : ℕ) (rows : List OutboxEvent)
    → map content (set_retry id error at rows) ≡ map content rows
unfolding set_retry
contents-set_retry id error at [] = refl
contents-set_retry id error at (e ∷ rows) = elim (Bool-cases (e.id == id)) [
  | inl h ↦ rw (h, contents-set_retry id error at rows)
  | inr h ↦ rw (h, contents-set_retry id error at rows)
]

pub SentAll-set_retry :
    (id : ℕ) (error : Error) (at : ℕ) (rows : List OutboxEvent) (sent : List Message)
    → SentAll rows sent
    → SentAll (set_retry id error at rows) sent
unfolding set_retry
SentAll-set_retry id error at [] sent h = tt
SentAll-set_retry id error at (e ∷ rows) sent (h, hs) = elim (Bool-cases (e.id == id)) [
  | inl b ↦ rw b (h, SentAll-set_retry id error at rows sent hs)
  | inr b ↦ rw b (h, SentAll-set_retry id error at rows sent hs)
]

-- Rows may be marked whose events have been sent.
pub SentAll-mark :
    (now : ℕ) (ids : List ℕ) (rows : List OutboxEvent) (sent : List Message)
    → ((c : Content)
        → In c (map content rows)
        → has_id c.0 ids ≡ true
        → In (content_message c) sent)
    → SentAll rows sent
    → SentAll (mark now ids rows) sent
unfolding mark
SentAll-mark now ids [] sent known h = tt
SentAll-mark now ids (e ∷ rows) sent known (h, hs) =
    let rest = SentAll-mark now ids rows sent (λ c p. known c (inr p)) hs in
    elim (Bool-cases (has_id e.id ids)) [
      | inl b ↦ rw b ((λ _. known (content e) (inl refl) b), rest)
      | inr b ↦ rw b (h, rest)
    ]

pub SentAll-without :
    (id : ℕ) (rows : List OutboxEvent) (sent : List Message)
    → SentAll rows sent
    → SentAll (without id rows) sent
unfolding without
SentAll-without id [] sent h = tt
SentAll-without id (e ∷ rows) sent (h, hs) = elim (Bool-cases (e.id == id)) [
  | inl b ↦ rw b (SentAll-without id rows sent hs)
  | inr b ↦ rw b (h, SentAll-without id rows sent hs)
]

pub In-without :
    (id : ℕ) (c : Content) (rows : List OutboxEvent)
    → In c (map content (without id rows))
    → In c (map content rows)
unfolding without
In-without id c [] = λ h. h
In-without id c (e ∷ rows) = elim (Bool-cases (e.id == id)) [
  | inl b ↦ rw b (λ h. inr (In-without id c rows h))
  | inr b ↦ rw b (λ h. elim h [ inl p ↦ inl p | inr p ↦ inr (In-without id c rows p) ])
]

-- A delete leaves the events with another id.
pub without-In :
    (id : ℕ) (c : Content) (rows : List OutboxEvent)
    → In c (map content rows)
    → In c (map content (without id rows)) ⊎ (c.0 ≡ id)
unfolding without
without-In id c [] h = elim h [ ]
without-In id c (e ∷ rows) (inl p) = elim (Bool-cases (e.id == id)) [
  | inl b ↦ inr (ap (λ x. x.0) (sym p) ∙ (==_iff e.id id).0 b)
  | inr b ↦ rw b (inl (inl p))
]
without-In id c (e ∷ rows) (inr p) = elim (without-In id c rows p) [
  | inr q ↦ inr q
  | inl q ↦ elim (Bool-cases (e.id == id)) [ inl b ↦ rw b (inl q) | inr b ↦ rw b (inl (inr q)) ]
]

has_dlq_row-In :
    (id : ℕ) (ds : List DlqRow)
    → has_dlq_row id ds ≡ true
    → (c : Content) × (In c (map dlq_content ds)) × (c.0 ≡ id)
has_dlq_row-In id [] h = absurd cc
has_dlq_row-In id (d ∷ ds) h = elim (Bool-cases (d.id == id)) [
  | inl b ↦ (dlq_content d, inl refl, (==_iff d.id id).0 b)
  | inr b ↦ let (c, p, q) = has_dlq_row-In id ds (rw b at h) in (c, inr p, q)
]

-- After MoveToDLQ's first statement the table has a row with the event's id.
pub add_dlq_row-In :
    (d : DlqRow) (ds : List DlqRow)
    → (c : Content) × (In c (map dlq_content (add_dlq_row d ds))) × (c.0 ≡ d.id)
unfolding add_dlq_row
add_dlq_row-In d ds = elim (Bool-cases (has_dlq_row d.id ds)) [
  | inl b ↦ rw b (has_dlq_row-In d.id ds b)
  | inr b ↦ rw b (dlq_content d, inl refl, refl)
]

pub add_dlq_row-keeps :
    (d : DlqRow) (c : Content) (ds : List DlqRow)
    → In c (map dlq_content ds)
    → In c (map dlq_content (add_dlq_row d ds))
unfolding add_dlq_row
add_dlq_row-keeps d c ds h = elim (Bool-cases (has_dlq_row d.id ds)) [
  | inl b ↦ rw b h
  | inr b ↦ rw b (inr h)
]

pub add_dlq_row-adds :
    (d : DlqRow) (c : Content) (ds : List DlqRow)
    → In c (map dlq_content (add_dlq_row d ds))
    → In c (map dlq_content ds) ⊎ (dlq_content d ≡ c)
unfolding add_dlq_row
add_dlq_row-adds d c ds = elim (Bool-cases (has_dlq_row d.id ds)) [
  | inl b ↦ rw b (λ h. inl h)
  | inr b ↦ rw b (λ h. elim h [ inl p ↦ inr p | inr p ↦ inl p ])
]

-- Every one of these events is one of those rows.
abbrev pub AllIn : List OutboxEvent → List OutboxEvent → Type 0
AllIn events rows = All (λ e. In (content e) (map content rows)) events

abbrev AllFrom : List OutboxEvent → List OutboxEvent → Type 0
AllFrom events rows = All (λ e. In e rows) events

weaken : (x : OutboxEvent) (es rows : List OutboxEvent) → AllIn es rows → AllIn es (x ∷ rows)
weaken x [] rows h = tt
weaken x (e ∷ es) rows (h, hs) = (inr h, weaken x es rows hs)

due-AllIn : (now : ℕ) (rows : List OutboxEvent) → AllIn (due now rows) rows
unfolding due
due-AllIn now [] = tt
due-AllIn now (e ∷ rows) =
    let rest = weaken e (due now rows) rows (due-AllIn now rows) in
    elim (Bool-cases (is_due now e)) [ inl b ↦ rw b (inl refl, rest) | inr b ↦ rw b rest ]

insert-AllIn :
    (e : OutboxEvent) (xs rows : List OutboxEvent)
    → In (content e) (map content rows)
    → AllIn xs rows
    → AllIn (insert_by_age e xs) rows
unfolding insert_by_age
insert-AllIn e [] rows h hs = (h, tt)
insert-AllIn e (x ∷ xs) rows h (k, ks) = elim (Bool-cases (leb e.created_at x.created_at)) [
  | inl b ↦ rw b (h, (k, ks))
  | inr b ↦ rw b (k, insert-AllIn e xs rows h ks)
]

by_age-AllIn : (xs rows : List OutboxEvent) → AllIn xs rows → AllIn (by_age xs) rows
unfolding by_age
by_age-AllIn [] rows h = tt
by_age-AllIn (x ∷ xs) rows (h, hs) = insert-AllIn x (by_age xs) rows h (by_age-AllIn xs rows hs)

take-AllIn : (n : ℕ) (xs rows : List OutboxEvent) → AllIn xs rows → AllIn (take n xs) rows
take-AllIn zero xs rows h = tt
take-AllIn (suc n) [] rows h = tt
take-AllIn (suc n) (x ∷ xs) rows (h, hs) = (h, take-AllIn n xs rows hs)

pub oldest_due-AllIn :
    (now limit : ℕ) (rows : List OutboxEvent) → AllIn (oldest_due now limit rows) rows
unfolding oldest_due
oldest_due-AllIn now limit rows =
    take-AllIn limit (by_age (due now rows)) rows
      (by_age-AllIn (due now rows) rows (due-AllIn now rows))
