-- ===== src/Grpc.antt =====
-- The transport: who calls, as pkg/middleware/auth.go and pkg/auth/identity.go read it from the
-- context, and what a gRPC handler answers. The interceptors that fill the context are left out.
use text.Mathlib.Text.{◌==◌ as text_eq}
use go_ozon_marketplace.Prelude.{
  Bool, true, false, List, [], ◌∷◌, Option, none, some, String, if◌then◌else◌,
}
use go_ozon_marketplace.Prelude.Effect.{Result, ok, err}
use go_ozon_marketplace.Errors.{Code, code_permission_denied, sentinel, to_status}

-- auth.Role, a string: one of the constants, or another one.
pub data Role : Type 0 where
  user admin service : Role
  unknown : String → Role

-- auth.Identity
pub record Identity : Type 0 where
  pub user_id : String
  pub role : Role

-- The values of the context under `auth_identity`, `user_id` and `role`.
pub record Context : Type 0 where
  pub identity : Option Identity
  pub user_id_value : Option String
  pub role_value : Option Role

-- GetUserID
unfoldable pub get_user_id : Context → Option String
get_user_id ctx = elim ctx.identity [ some id ↦ some id.user_id | none ↦ ctx.user_id_value ]

-- GetRole, where `none` is `false`
unfoldable pub find_role : Context → Option Role
find_role ctx = elim ctx.identity [ some id ↦ some id.role | none ↦ ctx.role_value ]

abbrev pub or_user : Option Role → Role
or_user none = user
or_user (some r) = r

-- `role, _ := GetRole(ctx)`
unfoldable pub get_role : Context → Role
unfolding find_role
get_role ctx = or_user (find_role ctx)

unfoldable pub same_role : Role → Role → Bool
same_role user user = true
same_role admin admin = true
same_role service service = true
same_role (unknown r) (unknown s) = text_eq r s
same_role _ _ = false

abbrev pub is_allowed : List Role → Role → Bool
is_allowed [] r = false
is_allowed (a ∷ rest) r = if same_role r a then true else is_allowed rest r

abbrev pub check_role : List Role → Option Role → Option Code
check_role allowed none = some code_permission_denied
check_role allowed (some r) = if is_allowed allowed r then none else some code_permission_denied

-- RequireRole: `none` where the role is allowed.
unfoldable pub require_role : Context → List Role → Option Code
require_role ctx allowed = check_role allowed (find_role ctx)

-- What a handler answers.
pub data Reply (A : Type 0) : Type 0 where
  reply : A → Reply A
  status : Code → Reply A

-- The answer to a result, whose errors become statuses by ToStatus.
abbrev pub to_reply : {A B : Type 0} → (A → B) → Result A → Reply B
to_reply f (ok a) = reply (f a)
to_reply f (err e) = status (to_status (sentinel e))
