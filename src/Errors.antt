-- ===== src/Errors.antt =====
-- pkg/errors: the kinds of kind.go, the registry of registry.go, the errors of domain.go and
-- builder.go, and the way to gRPC statuses and back of grpc.go. The texts of errors are left out.
pub mod Crossing
mod Tests
use text.Mathlib.Text.{◌==◌ as text_eq}
use go_ozon_marketplace.Prelude.{
  ℕ, Bool, true, false, ◌||◌, List, [], ◌∷◌, Option, none, some, String, if◌then◌else◌,
}
use go_ozon_marketplace.Prelude.Effect.{
  Error, not_found, already_exists, invalid_argument, invalid_credentials, permission_denied,
  conflict, insufficient_stock, failed_precondition, unauthenticated, unavailable,
  deadline_exceeded, other,
}

-- A string of type `Kind`: one of the constants, or another string.
pub data Kind : Type 0 where
  kind_not_found kind_already_exists kind_invalid_argument kind_invalid_credentials : Kind
  kind_permission_denied kind_conflict kind_insufficient_stock kind_failed_precondition : Kind
  kind_unauthenticated kind_unavailable kind_deadline_exceeded kind_internal : Kind
  unregistered : String → Kind

-- google.golang.org/grpc/codes, those that the repository uses.
pub data Code : Type 0 where
  code_ok code_not_found code_already_exists code_invalid_argument code_unauthenticated : Code
  code_permission_denied code_failed_precondition code_unavailable code_deadline_exceeded : Code
  code_internal code_resource_exhausted code_unimplemented : Code

pub record Entry : Type 0 where
  pub grpc_code : Code
  pub http_status : ℕ
  pub public_key : String
  pub retryable : Bool

abbrev entry : Code → ℕ → String → Bool → Entry
entry code http key retry = record {
  grpc_code = code;
  http_status = http;
  public_key = key;
  retryable = retry;
}

-- EntryFor, over `registry`
unfoldable pub entry_for : Kind → Option Entry
entry_for kind_not_found = some (entry code_not_found 404 "NOT_FOUND" false)
entry_for kind_already_exists = some (entry code_already_exists 409 "ALREADY_EXISTS" false)
entry_for kind_invalid_argument = some (entry code_invalid_argument 400 "INVALID_ARGUMENT" false)
entry_for kind_invalid_credentials =
    some (entry code_unauthenticated 401 "INVALID_CREDENTIALS" false)
entry_for kind_permission_denied = some (entry code_permission_denied 403 "PERMISSION_DENIED" false)
entry_for kind_conflict = some (entry code_failed_precondition 409 "CONFLICT" false)
entry_for kind_insufficient_stock =
    some (entry code_failed_precondition 409 "INSUFFICIENT_STOCK" false)
entry_for kind_failed_precondition =
    some (entry code_failed_precondition 409 "FAILED_PRECONDITION" false)
entry_for kind_unauthenticated = some (entry code_unauthenticated 401 "UNAUTHENTICATED" false)
entry_for kind_unavailable = some (entry code_unavailable 503 "UNAVAILABLE" true)
entry_for kind_deadline_exceeded = some (entry code_deadline_exceeded 504 "DEADLINE_EXCEEDED" true)
entry_for kind_internal = some (entry code_internal 500 "INTERNAL" false)
entry_for (unregistered _) = none

-- The string of a kind
unfoldable pub kind_text : Kind → String
kind_text kind_not_found = "not_found"
kind_text kind_already_exists = "already_exists"
kind_text kind_invalid_argument = "invalid_argument"
kind_text kind_invalid_credentials = "invalid_credentials"
kind_text kind_permission_denied = "permission_denied"
kind_text kind_conflict = "conflict"
kind_text kind_insufficient_stock = "insufficient_stock"
kind_text kind_failed_precondition = "failed_precondition"
kind_text kind_unauthenticated = "unauthenticated"
kind_text kind_unavailable = "unavailable"
kind_text kind_deadline_exceeded = "deadline_exceeded"
kind_text kind_internal = "internal"
kind_text (unregistered s) = s

-- Kinds
unfoldable pub kinds : List Kind
kinds =
    kind_not_found ∷ kind_already_exists ∷ kind_invalid_argument ∷ kind_invalid_credentials
    ∷ kind_permission_denied ∷ kind_conflict ∷ kind_insufficient_stock ∷ kind_failed_precondition
    ∷ kind_unauthenticated ∷ kind_unavailable ∷ kind_deadline_exceeded ∷ kind_internal ∷ []

unfoldable pub find_kind : String → List Kind → Kind
unfolding kind_text
find_kind s [] = kind_internal
find_kind s (k ∷ ks) = if text_eq (kind_text k) s then k else find_kind s ks

-- ParseKind
unfoldable pub parse_kind : String → Kind
unfolding find_kind kinds
parse_kind s = find_kind s kinds

-- Go's errors, as far as this package tells them apart: a sentinel of domain.go (`other` for an error
-- of another package), one that `fmt.Errorf` wraps with `%w`, an AppError with its code and kind that
-- wraps nothing or an error, and a gRPC status.
pub data GoError : Type 0 where
  sentinel : Error → GoError
  wrapped : GoError → GoError
  app : String → Kind → GoError
  app_over : String → Kind → GoError → GoError
  status : Code → GoError

-- E
unfoldable pub new_kind_error : Kind → GoError
unfolding kind_text
new_kind_error kind = app (kind_text kind) kind

-- New
unfoldable pub new_error : String → GoError
new_error code = app code (parse_kind code)

-- Wrap
unfoldable pub wrap_error : GoError → String → GoError
wrap_error e code = app_over code (parse_kind code) e

-- The sentinel that `errors.Is` finds along `Unwrap`
unfoldable pub root : GoError → Error
root (sentinel e) = e
root (wrapped e) = root e
root (app _ _) = other
root (app_over _ _ e) = root e
root (status _) = other

-- The switch of ToStatus over the sentinels
unfoldable pub sentinel_code : Error → Code
sentinel_code not_found = code_not_found
sentinel_code already_exists = code_already_exists
sentinel_code invalid_argument = code_invalid_argument
sentinel_code invalid_credentials = code_unauthenticated
sentinel_code permission_denied = code_permission_denied
sentinel_code conflict = code_failed_precondition
sentinel_code insufficient_stock = code_failed_precondition
sentinel_code failed_precondition = code_failed_precondition
sentinel_code unauthenticated = code_unauthenticated
sentinel_code unavailable = code_unavailable
sentinel_code deadline_exceeded = code_deadline_exceeded
sentinel_code other = code_internal

abbrev is_empty_text : String → Bool
is_empty_text s = text_eq s ""

-- The entry by the kind, else by the code.
abbrev pub entry_by_code : String → Option Entry → Option Entry
entry_by_code code (some x) = some x
entry_by_code code none = if is_empty_text code then none else entry_for (parse_kind code)

abbrev pub registered_code : Option Entry → Code → Code
registered_code (some x) code = x.grpc_code
registered_code none code = code

-- ToStatus: the code of the status. Only an AppError that nothing wraps is looked up in the registry.
unfoldable pub to_status : GoError → Code
unfolding sentinel_code root
to_status (sentinel e) = sentinel_code e
to_status (wrapped e) = sentinel_code (root e)
to_status (app code kind) = registered_code (entry_by_code code (entry_for kind)) code_internal
to_status (app_over code kind e) =
    registered_code (entry_by_code code (entry_for kind)) (sentinel_code (root e))
to_status (status _) = code_internal

-- kindFromGRPC
unfoldable pub kind_from_grpc : Code → Kind
kind_from_grpc code_not_found = kind_not_found
kind_from_grpc code_already_exists = kind_already_exists
kind_from_grpc code_invalid_argument = kind_invalid_argument
kind_from_grpc code_unauthenticated = kind_unauthenticated
kind_from_grpc code_permission_denied = kind_permission_denied
kind_from_grpc code_failed_precondition = kind_failed_precondition
kind_from_grpc code_unavailable = kind_unavailable
kind_from_grpc code_deadline_exceeded = kind_deadline_exceeded
kind_from_grpc _ = kind_internal

-- FromStatus of a status
unfoldable pub from_status : Code → GoError
unfolding kind_text
from_status code = let kind = kind_from_grpc code in app (kind_text kind) kind
