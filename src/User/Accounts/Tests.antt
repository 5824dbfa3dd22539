-- ===== src/User/Accounts/Tests.antt =====
-- A user who registers, and signs in with another spelling of the email.
use go_ozon_marketplace.Prelude.{ℕ, suc, ◌+◌, ◌≡◌, refl, sym, ap, [], String, ◌==◌, ==_iff}
use go_ozon_marketplace.Prelude.Effect.{invalid_credentials, ok, err}
use go_ozon_marketplace.Database.{statement}
use go_ozon_marketplace.User.RateLimit.{allow, new_limiter}
use go_ozon_marketplace.User.Accounts.{Service, Crypto, create, get_by_email, register, login}
use go_ozon_marketplace.User.Accounts.Login.{login-register}

abbrev size : String → ℕ
size String.[] = 0
size (String.◌∷◌ c s) = suc (size s)

-- Emails and passwords are told apart by their lengths; a hash is the password.
abbrev by_size : Crypto
by_size = record {
  normalize_email = size;
  register_key = λ e. e + e;
  login_key = λ e. suc (e + e);
  hash_password = λ p. ok p;
  verify_password = λ h p. size h == size p;
  sign = λ c. ok c.role;
}

abbrev nobody : Service
nobody = record { db = ([], []); limiter = new_limiter 3 0 }

login-register_example :
    (login by_size 200 "ANN" "secret" (register by_size 7 100 "ann" "secret" "Ann" nobody).1).0
    ≡ ok "user"
unfolding register create statement allow new_limiter
login-register_example =
    login-register by_size 7 100 "ann" "secret" "Ann" nobody 200 "ANN"
      (λ p h e. (==_iff (size h) (size p)).1 (ap (λ s. size s) (sym (cc e)))) refl refl refl refl

wrong_password :
    (login by_size 200 "ANN" "guess" (register by_size 7 100 "ann" "secret" "Ann" nobody).1).0
    ≡ err invalid_credentials
unfolding register login create get_by_email statement allow new_limiter
wrong_password = refl
