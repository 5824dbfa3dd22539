-- ===== src/Database/Laws.antt =====
-- What a call of pkg/txmanager/txmanager.go leaves in the tables.
use mathlib.Core.Path.{subst}
use go_ozon_marketplace.Prelude.{◌≡◌, refl, sym, ◌⊎◌, inl, inr, List, []}
use go_ozon_marketplace.Prelude.Effect.{Result, ok, err, Action, ◌>>=◌}
use go_ozon_marketplace.Database.{
  Fault, answered, refused, lost, Db, next_fault, statement, run_tx, answer_with, commit_with,
  end_tx, begin_with,
}

-- What is known of the result and the tables of a call that succeeds.
abbrev pub OnOk : {T A : Type 0} → (A → T → Type 0) → Result A × Db T → Type 0
OnOk Q (ok a, (t, _)) = Q a t
OnOk Q (err _, _) = Unit

-- A transaction has done all of its work, or none.
abbrev pub AllOrNothing : {T A : Type 0} → (A → T → Type 0) → T → Result A × Db T → Type 0
AllOrNothing Q before (ok a, (t, _)) = Q a t
AllOrNothing {T} {A} Q before (err _, (t, _)) = (t ≡ before) ⊎ ((a : A) × Q a t)

bound :
    {T A B : Type 0} (Q : A → T → Type 0) (R : B → T → Type 0) (r : Result A × Db T)
    (f : A → Action (Db T) B)
    → OnOk Q r
    → ((a : A) (t : T) (fs : List Fault) → Q a t → OnOk R (f a (t, fs)))
    → OnOk R (elim r.0 [ ok a ↦ f a r.1 | err e ↦ (err e, r.1) ])
bound Q R (ok a, (t, fs)) f q h = h a t fs q
bound Q R (err e, (t, fs)) f q h = tt

-- Two calls, one after the other.
pub bind-OnOk :
    {T A B : Type 0} (Q : A → T → Type 0) (R : B → T → Type 0) (m : Action (Db T) A)
    (f : A → Action (Db T) B) (s : Db T)
    → OnOk Q (m s)
    → ((a : A) (t : T) (fs : List Fault) → Q a t → OnOk R (f a (t, fs)))
    → OnOk R ((m >>= f) s)
bind-OnOk Q R m f s q h = bound Q R (m s) f q h

answered-OnOk :
    {T A : Type 0} (Q : A → T → Type 0) (f : T → Result A × T) (t : T) (fs : List Fault) (x : Fault)
    → OnOk Q ((f t).0, ((f t).1, fs))
    → OnOk Q (answer_with f t fs x)
answered-OnOk Q f t fs answered h = h
answered-OnOk Q f t fs (refused e) h = tt
answered-OnOk Q f t fs (lost e) h = tt

any_faults :
    {T A : Type 0} (Q : A → T → Type 0) (r : Result A) (t : T) (gs : List Fault)
    → OnOk Q (r, (t, []))
    → OnOk Q (r, (t, gs))
any_faults Q (ok a) t gs h = h
any_faults Q (err e) t gs h = tt

pub statement-OnOk :
    {T A : Type 0} (Q : A → T → Type 0) (f : T → Result A × T) (t : T) (fs : List Fault)
    → OnOk Q ((f t).0, ((f t).1, []))
    → OnOk Q (statement f (t, fs))
unfolding statement
statement-OnOk Q f t fs h =
    answered-OnOk Q f t _ (next_fault fs).0 (any_faults Q (f t).0 (f t).1 _ h)

committed :
    {T A : Type 0} (Q : A → T → Type 0) (a : A) (before t : T) (fs : List Fault) (x : Fault)
    → Q a t
    → AllOrNothing Q before (commit_with a before t fs x)
committed Q a before t fs answered q = q
committed Q a before t fs (refused e) q = inl refl
committed Q a before t fs (lost e) q = inr (a, q)

ended :
    {T A : Type 0} (Q : A → T → Type 0) (before : T) (r : Result A × Db T)
    → OnOk Q r
    → AllOrNothing Q before (end_tx before r)
ended Q before (ok a, (t, fs)) q = committed Q a before t _ (next_fault fs).0 q
ended Q before (err e, (t, fs)) q = inl refl

begun :
    {T A : Type 0} (Q : A → T → Type 0) (body : Action (Db T) A) (t : T) (fs : List Fault)
    (x : Fault)
    → OnOk Q (body (t, fs))
    → AllOrNothing Q t (begin_with body t fs x)
begun Q body t fs answered q = ended Q t (body (t, fs)) q
begun Q body t fs (refused e) q = inl refl
begun Q body t fs (lost e) q = inl refl

-- Whichever calls fail, a transaction leaves the tables as they were, or as its body leaves them
-- when it succeeds; and if the transaction reports success it is the latter.
pub run_tx-AllOrNothing :
    {T A : Type 0} (Q : A → T → Type 0) (body : Action (Db T) A) (t : T) (fs : List Fault)
    → ((gs : List Fault) → OnOk Q (body (t, gs)))
    → AllOrNothing Q t (run_tx body (t, fs))
unfolding run_tx
run_tx-AllOrNothing Q body t fs h = begun Q body t _ (next_fault fs).0 (h (next_fault fs).1)

-- A fact about the tables that holds before, and after the body succeeds, holds after the call.
pub AllOrNothing-keeps :
    {T A : Type 0} (Q : A → T → Type 0) (P : T → Type 0) (before : T) (r : Result A × Db T)
    → AllOrNothing Q before r
    → P before
    → ((a : A) (t : T) → Q a t → P t)
    → P r.1.0
AllOrNothing-keeps Q P before (ok a, (t, fs)) q p k = k a t q
AllOrNothing-keeps Q P before (err e, (t, fs)) (inl same) p k = subst P (sym same) p
AllOrNothing-keeps Q P before (err e, (t, fs)) (inr (a, q)) p k = k a t q

pub map-OnOk :
    {T A : Type 0} (Q R : A → T → Type 0) (r : Result A × Db T)
    → ((a : A) (t : T) → Q a t → R a t)
    → OnOk Q r
    → OnOk R r
map-OnOk Q R (ok a, (t, fs)) k h = k a t h
map-OnOk Q R (err e, (t, fs)) k h = tt

answered-reads :
    {T A : Type 0} (f : T → Result A × T) (t : T) (fs : List Fault) (x : Fault)
    → (f t).1 ≡ t
    → (answer_with f t fs x).1.0 ≡ t
answered-reads f t fs answered h = h
answered-reads f t fs (refused e) h = refl
answered-reads f t fs (lost e) h = h

-- A statement that only reads leaves the tables as they are, also where it fails.
pub statement-reads :
    {T A : Type 0} (f : T → Result A × T) (t : T) (fs : List Fault)
    → (f t).1 ≡ t
    → (statement f (t, fs)).1.0 ≡ t
unfolding statement
statement-reads f t fs h = answered-reads f t _ (next_fault fs).0 h

answered-state :
    {T A : Type 0} (f : T → Result A × T) (t : T) (fs : List Fault) (x : Fault)
    → ((answer_with f t fs x).1.0 ≡ t) ⊎ ((answer_with f t fs x).1.0 ≡ (f t).1)
answered-state f t fs answered = inr refl
answered-state f t fs (refused e) = inl refl
answered-state f t fs (lost e) = inr refl

-- A statement takes effect or does not.
pub statement-state :
    {T A : Type 0} (f : T → Result A × T) (t : T) (fs : List Fault)
    → ((statement f (t, fs)).1.0 ≡ t) ⊎ ((statement f (t, fs)).1.0 ≡ (f t).1)
unfolding statement
statement-state f t fs = answered-state f t _ (next_fault fs).0
