-- ===== src/User/Accounts.antt =====
-- Register, Login and GetUser of services/user-service/internal/usecase/usecase.go, with the statements
-- of internal/repository/postgres/user_postgres.go. A normalised email and a key of the limiter are
-- numbers, as they are only compared. bcrypt, the signing of tokens and the texts of emails are a
-- library's: parameters.
pub mod Login
mod Tests
use text.Mathlib.Text.{◌==◌ as text_eq}
use go_ozon_marketplace.Prelude.{
  ℕ, ◌+◌, Bool, true, false, ◌||◌, List, [], ◌∷◌, Option, none, some, String, ◌==◌, if◌then◌else◌,
}
use go_ozon_marketplace.Prelude.Effect.{
  Error, not_found, already_exists, failed_precondition, invalid_credentials, Result, ok, err,
  Action,
}
use go_ozon_marketplace.Database.{Db, statement, row_or_not_found}
use go_ozon_marketplace.User.RateLimit.{MemoryRateLimiter, allow}

pub record User : Type 0 where
  pub id : ℕ
  pub email : ℕ
  pub password_hash : String
  pub name : String
  pub role : String
  pub created_at : ℕ

abbrev pub find_user : ℕ → List User → Option User
find_user id [] = none
find_user id (u ∷ us) = if u.id == id then some u else find_user id us

abbrev pub find_email : ℕ → List User → Option User
find_email email [] = none
find_email email (u ∷ us) = if u.email == email then some u else find_email email us

abbrev pub is_free : Option User → Option User → Bool
is_free none none = true
is_free _ _ = false

-- UserPostgres.Create: an id or an email that is taken violates a key.
unfoldable pub create : User → Action (Db (List User)) (Unit {0})
create u = statement (λ us.
    if is_free (find_email u.email us) (find_user u.id us)
    then (ok tt, u ∷ us)
    else (err already_exists, us))

-- GetByID
unfoldable pub get_by_id : ℕ → Action (Db (List User)) User
get_by_id id = statement (λ us. (row_or_not_found (find_user id us), us))

-- GetByEmail
unfoldable pub get_by_email : ℕ → Action (Db (List User)) User
get_by_email email = statement (λ us. (row_or_not_found (find_email email us), us))

pub record Service : Type 0 where
  pub db : Db (List User)
  pub limiter : MemoryRateLimiter

-- CustomClaims; the issuer, the audience and the id of the token are left out. Times in nanoseconds.
pub record Claims : Type 0 where
  pub subject : ℕ
  pub role : String
  pub issued_at : ℕ
  pub expires_at : ℕ

-- normalizeEmail, the keys of the limiter for an email, bcrypt and the signature.
pub record Crypto : Type 0 where
  pub normalize_email : String → ℕ
  pub register_key : ℕ → ℕ
  pub login_key : ℕ → ℕ
  pub hash_password : String → Result String
  pub verify_password : String → String → Bool
  pub sign : Claims → Result String

abbrev pub a_day : ℕ
a_day = 86400000000000

abbrev pub limited :
    {A : Type 0} → Action Service A → Service → Bool × MemoryRateLimiter → Result A × Service
limited act s (false, l) = (err failed_precondition, record s { limiter = l })
limited act s (true, l) = act (record s { limiter = l })

module _ (crypto : Crypto) where
  -- The claims of issueToken
  unfoldable pub claims : ℕ → User → Claims
  claims now u = record {
    subject = u.id;
    role = if text_eq u.role "" then "user" else u.role;
    issued_at = now;
    expires_at = now + a_day;
  }

  abbrev pub new_user : ℕ → ℕ → ℕ → String → String → User
  new_user id now email name hash = record {
    id = id;
    email = email;
    password_hash = hash;
    name = name;
    role = "user";
    created_at = now;
  }

  abbrev pub registered : User → Service → Result (Unit {0}) × Db (List User) → Result ℕ × Service
  registered u s (ok _, db) = (ok u.id, record s { db = db })
  registered u s (err e, db) = (err e, record s { db = db })

  abbrev pub store_user : ℕ → ℕ → ℕ → String → Result String → Action Service ℕ
  store_user id now email name (err e) s = (err e, s)
  store_user id now email name (ok hash) s =
      let u = new_user id now email name hash in registered u s (create u s.db)

  -- Register; `id` is what uuid.New gives.
  unfoldable pub register : ℕ → ℕ → String → String → String → Action Service ℕ
  register id now email password name s =
      let e = crypto.normalize_email email in
      limited (store_user id now e name (crypto.hash_password password)) s
        (allow now (crypto.register_key e) s.limiter)

  abbrev pub lookup_error : Error → Error
  lookup_error not_found = invalid_credentials
  lookup_error e = e

  abbrev pub looked_up :
      ℕ → String → Service → Result User × Db (List User) → Result String × Service
  looked_up now password s (err e, db) = (err (lookup_error e), record s { db = db })
  looked_up now password s (ok u, db) =
      if crypto.verify_password u.password_hash password
      then (crypto.sign (claims now u), record s { db = db })
      else (err invalid_credentials, record s { db = db })

  -- Login
  unfoldable pub login : ℕ → String → String → Action Service String
  login now email password s =
      let e = crypto.normalize_email email in
      limited (λ s'. looked_up now password s' (get_by_email e s'.db)) s
        (allow now (crypto.login_key e) s.limiter)

  -- GetUser
  unfoldable pub get_user : ℕ → Action Service User
  get_user id s = let (r, db) = get_by_id id s.db in (r, record s { db = db })
