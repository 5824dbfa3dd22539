-- ===== src/Errors/Crossing.antt =====
-- An error that crosses from one service to another as a gRPC status.
use mathlib.Core.Path.{subst}
use go_ozon_marketplace.Prelude.{
  ◌≡◌, refl, inl, inr, Option, none, some, Bool-cases, String, Option-cases,
}
use go_ozon_marketplace.Prelude.Effect.{Error}
use go_ozon_marketplace.Errors.{
  Kind, Code, code_internal, Entry, entry_for, GoError, sentinel, wrapped, app, app_over, status,
  root, kind_text, is_empty_text, sentinel_code, entry_by_code, registered_code, to_status,
  kind_from_grpc, from_status, parse_kind,
}

-- Sent on once more as a status, the error has the code again.
abbrev Stable : Code → Type 0
Stable code = to_status (from_status code) ≡ code

sentinel_code-Stable : (e : Error) → Stable (sentinel_code e)
unfolding to_status from_status entry_for kind_from_grpc sentinel_code
sentinel_code-Stable Error.not_found = refl
sentinel_code-Stable Error.already_exists = refl
sentinel_code-Stable Error.invalid_argument = refl
sentinel_code-Stable Error.invalid_credentials = refl
sentinel_code-Stable Error.permission_denied = refl
sentinel_code-Stable Error.conflict = refl
sentinel_code-Stable Error.insufficient_stock = refl
sentinel_code-Stable Error.failed_precondition = refl
sentinel_code-Stable Error.unauthenticated = refl
sentinel_code-Stable Error.unavailable = refl
sentinel_code-Stable Error.deadline_exceeded = refl
sentinel_code-Stable Error.other = refl

-- What adapters do with a kind: the code, the HTTP status, and whether to try again.
abbrev pub SameTransport : Entry → Option Entry → Type 0
SameTransport x none = ⊥
SameTransport x (some y) =
    (y.grpc_code ≡ x.grpc_code) × (y.http_status ≡ x.http_status) × (y.retryable ≡ x.retryable)

abbrev Crosses : Option Entry → Type 0
Crosses none = Unit
Crosses (some x) = SameTransport x (entry_for (kind_from_grpc x.grpc_code))

entry_for-Crosses : (kind : Kind) → Crosses (entry_for kind)
unfolding entry_for kind_from_grpc
entry_for-Crosses Kind.kind_not_found = (refl, refl, refl)
entry_for-Crosses Kind.kind_already_exists = (refl, refl, refl)
entry_for-Crosses Kind.kind_invalid_argument = (refl, refl, refl)
entry_for-Crosses Kind.kind_invalid_credentials = (refl, refl, refl)
entry_for-Crosses Kind.kind_permission_denied = (refl, refl, refl)
entry_for-Crosses Kind.kind_conflict = (refl, refl, refl)
entry_for-Crosses Kind.kind_insufficient_stock = (refl, refl, refl)
entry_for-Crosses Kind.kind_failed_precondition = (refl, refl, refl)
entry_for-Crosses Kind.kind_unauthenticated = (refl, refl, refl)
entry_for-Crosses Kind.kind_unavailable = (refl, refl, refl)
entry_for-Crosses Kind.kind_deadline_exceeded = (refl, refl, refl)
entry_for-Crosses Kind.kind_internal = (refl, refl, refl)
entry_for-Crosses (Kind.unregistered s) = tt

-- An error of a registered kind that reaches another service as a status has there a kind with the
-- same gRPC code, the same HTTP status and the same answer to whether to try again.
entry_for-crossing :
    (kind : Kind) (x : Entry)
    → entry_for kind ≡ some x
    → SameTransport x (entry_for (kind_from_grpc x.grpc_code))
entry_for-crossing kind x h = subst Crosses h (entry_for-Crosses kind)

entry-Stable :
    (kind : Kind) (code : Code) → Stable code → Stable (registered_code (entry_for kind) code)
unfolding to_status from_status entry_for kind_from_grpc
entry-Stable Kind.kind_not_found code h = refl
entry-Stable Kind.kind_already_exists code h = refl
entry-Stable Kind.kind_invalid_argument code h = refl
entry-Stable Kind.kind_invalid_credentials code h = refl
entry-Stable Kind.kind_permission_denied code h = refl
entry-Stable Kind.kind_conflict code h = refl
entry-Stable Kind.kind_insufficient_stock code h = refl
entry-Stable Kind.kind_failed_precondition code h = refl
entry-Stable Kind.kind_unauthenticated code h = refl
entry-Stable Kind.kind_unavailable code h = refl
entry-Stable Kind.kind_deadline_exceeded code h = refl
entry-Stable Kind.kind_internal code h = refl
entry-Stable (Kind.unregistered s) code h = h

app-Stable :
    (text : String) (kind : Kind) (code : Code)
    → Stable code
    → Stable (registered_code (entry_by_code text (entry_for kind)) code)
app-Stable text kind code h = elim (Option-cases (entry_for kind)) [
  | inr (x, e) ↦ rw e (subst (λ o. Stable (registered_code o code)) e (entry-Stable kind code h))
  | inl e ↦ rw e (elim (Bool-cases (is_empty_text text)) [
    | inl b ↦ rw b h
    | inr b ↦ rw b (entry-Stable (parse_kind text) code h)
  ])
]

-- However often an error is passed on from service to service as a status, its code is that of the
-- first status.
pub to_status-crossing : (e : GoError) → to_status (from_status (to_status e)) ≡ to_status e
unfolding to_status
to_status-crossing (sentinel e) = sentinel_code-Stable e
to_status-crossing (wrapped e) = sentinel_code-Stable (root e)
to_status-crossing (app text kind) =
    app-Stable text kind code_internal (sentinel_code-Stable Error.other)
to_status-crossing (app_over text kind e) =
    app-Stable text kind (sentinel_code (root e)) (sentinel_code-Stable (root e))
to_status-crossing (status _) = sentinel_code-Stable Error.other

-- What the service that receives the status of an error knows: the status has the code of the entry,
-- and the error made of it is of a kind with the same code, HTTP status and answer to whether to try
-- again.
abbrev pub Arrives : Entry → GoError → Type 0
Arrives x e =
    (to_status e ≡ x.grpc_code)
    × ((k : Kind) × (from_status (to_status e) ≡ app (kind_text k) k)
        × SameTransport x (entry_for k))

registered-Arrives :
    (kind : Kind) (x : Entry) (e : GoError)
    → entry_for kind ≡ some x
    → to_status e ≡ x.grpc_code
    → Arrives x e
unfolding from_status
registered-Arrives kind x e h code =
    (code, (kind_from_grpc x.grpc_code, rw code refl, entry_for-crossing kind x h))

-- An AppError of a registered kind, over no error or over any, that nothing wraps: ToStatus gives it the
-- gRPC code of its kind, and FromStatus makes of that, in the service that receives it, an AppError of
-- a kind with the same gRPC code, the same HTTP status and the same answer to whether to try again.
pub from_status-crossing :
    (text : String) (kind : Kind) (x : Entry) (inner : GoError)
    → entry_for kind ≡ some x
    → Arrives x (app text kind) × Arrives x (app_over text kind inner)
unfolding to_status
from_status-crossing text kind x inner h = (
  registered-Arrives kind x (app text kind) h (rw h refl),
  registered-Arrives kind x (app_over text kind inner) h (rw h refl),
)
