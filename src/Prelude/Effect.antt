-- ===== src/Prelude/Effect.antt =====
-- Go's error values and calls that change a state and may return an error: the sentinel errors of
-- pkg/errors/domain.go, a result, and a state monad over any state. The texts of errors are left
-- out; an error that wraps a sentinel by `%w` is that sentinel.
use mathlib.Core.Path.{◌≡◌, refl}
use mathlib.Core.Logic.{◌⊎◌, inl, inr}

pub data Error : Type 0 where
  not_found already_exists invalid_argument invalid_credentials permission_denied : Error
  conflict insufficient_stock failed_precondition unauthenticated unavailable : Error
  deadline_exceeded other : Error

pub data Result {ℓ} (A : Type ℓ) : Type ℓ where
  ok : A → Result A
  err : Error → Result A

-- A call: it returns a result and the state that it left, also where it failed.
abbrev pub Action : Type 0 → Type 0 → Type 0
Action S A = S → Result A × S

abbrev pub pure : {S A : Type 0} → A → Action S A
pure a s = (ok a, s)

abbrev pub fail : {S A : Type 0} → Error → Action S A
fail e s = (err e, s)

infixl 5 ◌>>=◌ ◌>>◌
abbrev pub ◌>>=◌ : {S A B : Type 0} → Action S A → (A → Action S B) → Action S B
◌>>=◌ m f s = let (r, s') = m s in elim r [ ok a ↦ f a s' | err e ↦ (err e, s') ]

abbrev pub ◌>>◌ : {S A B : Type 0} → Action S A → Action S B → Action S B
m >> k = m >>= λ _. k

pub Result-cases {ℓ} :
    {A : Type ℓ} (r : Result A) → ((a : A) × (r ≡ ok a)) ⊎ ((e : Error) × (r ≡ err e))
Result-cases (ok a) = inl (a, refl)
Result-cases (err e) = inr (e, refl)
