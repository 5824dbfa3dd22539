-- ===== src/User/Accounts/Login.antt =====
-- What Register and Login of services/user-service/internal/usecase/usecase.go promise together.
use mathlib.Core.Path.{subst}
use go_ozon_marketplace.Prelude.{
  ℕ, ◌+◌, ◌≡◌, refl, sym, inl, inr, Bool, true, false, List, some, String, Bool-cases, ==_iff,
}
use go_ozon_marketplace.Prelude.Effect.{Result, ok, err}
use go_ozon_marketplace.Database.{Db, Fault, answered, next_fault, statement}
use go_ozon_marketplace.Database.Laws.{OnOk, statement-OnOk}
use go_ozon_marketplace.User.RateLimit.{MemoryRateLimiter, allow}
use go_ozon_marketplace.User.Accounts.{
  User, Service, Crypto, a_day, find_user, find_email, is_free, create, get_by_email, limited,
  claims, new_user, registered, store_user, register, login,
}

-- The user with this email is the new one.
create-Stores :
    (u : User) (us : List User) (fs : List Fault)
    → OnOk (λ _ us'. find_email u.email us' ≡ some u) (create u (us, fs))
unfolding create
create-Stores u us fs =
    statement-OnOk _ _ us fs
      (elim (Bool-cases (is_free (find_email u.email us) (find_user u.id us))) [
        | inl a ↦ rw (a, (==_iff u.email u.email).1 refl) refl
        | inr a ↦ rw a tt
      ])

module _ (crypto : Crypto) (id now : ℕ) (email password name : String) where
  abbrev address : ℕ
  address = crypto.normalize_email email

  abbrev Registers : Result ℕ × Service → Type 0
  Registers (err _, _) = Unit
  Registers (ok _, s) =
      (hash : String) × (crypto.hash_password password ≡ ok hash)
      × (find_email address s.db.0 ≡ some (new_user crypto id now address name hash))

  registered-Registers :
      (hash : String) (s : Service) (r : Result (Unit {0}) × Db (List User))
      → crypto.hash_password password ≡ ok hash
      → OnOk (λ _ us'. find_email address us' ≡ some (new_user crypto id now address name hash)) r
      → Registers (registered crypto (new_user crypto id now address name hash) s r)
  registered-Registers hash s (ok _, db) h found = (hash, h, found)
  registered-Registers hash s (err e, db) h found = tt

  store_user-Registers :
      (r : Result String) (s : Service)
      → crypto.hash_password password ≡ r
      → Registers (store_user crypto id now address name r s)
  store_user-Registers (err e) s h = tt
  store_user-Registers (ok hash) s h =
      let u = new_user crypto id now address name hash in
      registered-Registers hash s (create u s.db) h (create-Stores u s.db.0 s.db.1)

  register-Registers : (s : Service) → Registers (register crypto id now email password name s)
  unfolding register
  register-Registers s = by_limit (allow now (crypto.register_key address) s.limiter)
    where
      by_limit :
          (a : Bool × MemoryRateLimiter)
          → Registers
              (limited (store_user crypto id now address name (crypto.hash_password password)) s a)
      by_limit (true, l) =
          store_user-Registers (crypto.hash_password password) (record s { limiter = l }) refl
      by_limit (false, l) = tt

  known :
      (r : Result ℕ × Service) {i : ℕ}
      → Registers r
      → r.0 ≡ ok i
      → (hash : String) × (crypto.hash_password password ≡ ok hash)
        × (find_email address r.1.db.0 ≡ some (new_user crypto id now address name hash))
  known (ok _, s) h e = h
  known (err _, s) h e = absurd cc

  -- Where Register has succeeded, Login with the same password and a spelling of the email that is normalised to the
  -- same text signs a token for the new user, in the role of a user and for a day, if the limiter
  -- allows the call and the database answers it; a password is verified by the hash made of it.
  pub login-register :
      (s : Service) (later : ℕ) (spelling : String) {i : ℕ}
      → ((p h : String) → crypto.hash_password p ≡ ok h → crypto.verify_password h p ≡ true)
      → let r = register crypto id now email password name s in
        r.0 ≡ ok i
        → crypto.normalize_email spelling ≡ crypto.normalize_email email
        → (allow later (crypto.login_key (crypto.normalize_email spelling)) r.1.limiter).0 ≡ true
        → (next_fault r.1.db.1).0 ≡ answered
        → (login crypto later spelling password r.1).0
          ≡ crypto.sign (record {
            subject = id;
            role = "user";
            issued_at = later;
            expires_at = later + a_day;
          })
  unfolding login get_by_email statement claims
  login-register s later spelling verifies done same allowed up =
      let r = register crypto id now email password name s in
      let (hash, hashed, found) = known r (register-Registers s) done in
      let seen : find_email (crypto.normalize_email spelling) r.1.db.0
          ≡ some (new_user crypto id now address name hash) =
        subst (λ e. find_email e r.1.db.0 ≡ some (new_user crypto id now address name hash))
          (sym same) found in
      rw (allowed, up, seen, verifies password hash hashed) refl
