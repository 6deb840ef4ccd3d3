-- ===== src/Effect.antt =====
-- Services of the backend as actions on a store: every handler returns its result or the HTTP
-- exception that it throws, together with the store as the database holds it then.
use coin_acceptor_backend.Prelude.{
  Bool, true, false, String, Option, none, some, ◌≡◌, refl, if◌then◌else◌, ◌⊎◌, inl, inr, ap, List,
  [], ◌∷◌, All, Bool-cases,
}

-- The exception classes of @nestjs/common that the services throw, with their messages.
pub data Error : Type 0 where
  bad_request unauthorized forbidden not_found conflict service_unavailable : String → Error
  -- a constraint that the database refuses a write by
  database : String → Error

pub data Result {ℓ} (A : Type ℓ) : Type ℓ where
  ok : A → Result A
  err : Error → Result A

abbrev pub Action : Type 0 → Type 0 → Type 0
Action S A = S → Result A × S

module _ {S A : Type 0} where
  abbrev pub pure : A → Action S A
  pure a s = (ok a, s)

  abbrev pub throw : Error → Action S A
  throw e s = (err e, s)

  abbrev pub gets : (S → A) → Action S A
  gets f s = (ok (f s), s)

  abbrev pub lift : Result A → Action S A
  lift r s = (r, s)

  -- `if (!row) throw e`
  abbrev pub or_throw : Option A → Error → Action S A
  or_throw none e = throw e
  or_throw (some a) _ = pure a

  -- `prisma.$transaction`: an exception inside rolls the writes back.
  abbrev pub settle : S → Result A × S → Result A × S
  settle before (ok a, after) = (ok a, after)
  settle before (err e, after) = (err e, before)

  abbrev pub transaction : Action S A → Action S A
  transaction m s = settle s (m s)

infixl 5 ◌>>=◌ ◌>>◌
abbrev pub ◌>>=◌ : {S A B : Type 0} → Action S A → (A → Action S B) → Action S B
◌>>=◌ m f s = elim (m s).0 [ ok a ↦ f a (m s).1 | err e ↦ (err e, (m s).1) ]

abbrev pub ◌>>◌ : {S A B : Type 0} → Action S A → Action S B → Action S B
m >> k = m >>= λ _. k

module _ {S : Type 0} where
  abbrev pub modify : (S → S) → Action S (Unit {0})
  modify f s = (ok tt, f s)

  abbrev pub throw_if : Bool → Error → Action S (Unit {0})
  throw_if b e s = (if b then err e else ok tt, s)

-- The same chains where a check has no store to read: a validator returns or throws.
abbrev pub check : Bool → Error → Result (Unit {0})
check true e = ok tt
check false e = err e

-- A sequence of guards, each with the exception that it throws; the first that fails does.
pub record Guard : Type 0 where
  pub passes : Bool
  pub otherwise : Error

abbrev pub demand : Bool → Error → Guard
demand b e = record { passes = b; otherwise = e }

abbrev pub guards : List Guard → Result (Unit {0})
guards [] = ok tt
guards (g ∷ gs) = elim g.passes [ true ↦ guards gs | false ↦ err g.otherwise ]

pub guards-All : (gs : List Guard) → guards gs ≡ ok tt → All (λ g. g.passes ≡ true) gs
guards-All [] h = tt
guards-All (g ∷ gs) h = elim (Bool-cases g.passes) [
  | inl y ↦ (y, guards-All gs (rw y at h))
  | inr n ↦ absurd (refused g.otherwise (err g.otherwise) refl (rw n at h))
]
  where
    refused : (e : Error) (r : Result (Unit {0})) → r ≡ err e → r ≡ ok tt → ⊥
    refused e r a b = cc

abbrev pub then_result {ℓ κ} : {A : Type ℓ} {B : Type κ} → Result A → (A → Result B) → Result B
then_result (ok a) f = f a
then_result (err e) f = err e

-- Whether a call returned, as opposed to throwing.
abbrev pub IsOk {ℓ} : {A : Type ℓ} → Result A → Type 0
IsOk (ok _) = Unit
IsOk (err _) = ⊥

pub ok-or-err : (r : Result (Unit {0})) → (r ≡ ok tt) ⊎ ((e : Error) × (r ≡ err e))
ok-or-err (ok tt) = inl refl
ok-or-err (err e) = inr (e, refl)

-- A chain whose first step returns goes on from the state that it leaves.
pub bind_return :
    {S A B : Type 0} (m : Action S A) (k : A → Action S B) (s : S) (a : A) (t : S)
    → m s ≡ (ok a, t)
    → (m >>= k) s ≡ k a t
bind_return {S} {A} {B} m k s a t e =
    ap
      (λ (r : Result A × S). elim r.0 as (λ _. Result B × S) [
        | ok x ↦ k x r.1
        | err x ↦ (err x, r.1)
      ])
      e

-- A property of the store that a call keeps: where the row that it needs is missing, the store is
-- as it was.
pub or_throw_keeps {κ} :
    {S A B : Type 0} (P : S → Type κ) (o : Option A) (e : Error) (k : A → Action S B) (s : S)
    → P s
    → ((a : A) → o ≡ some a → P (k a s).1)
    → P ((or_throw o e >>= k) s).1
or_throw_keeps P none e k s h f = h
or_throw_keeps P (some a) e k s h f = f a refl

pub lift_keeps {κ} :
    {S A B : Type 0} (P : S → Type κ) (r : Result A) (k : A → Action S B) (s : S)
    → P s
    → ((a : A) → r ≡ ok a → P (k a s).1)
    → P ((lift r >>= k) s).1
lift_keeps P (err e) k s h f = h
lift_keeps P (ok a) k s h f = f a refl

pub settle_keeps {κ} :
    {S A : Type 0} (P : S → Type κ) (s : S) (r : Result A × S) → P s → P r.1 → P (settle s r).1
settle_keeps P s (ok a, t) h k = k
settle_keeps P s (err e, t) h k = h

-- A chain whose first step throws throws.
pub bind_throws :
    {S A B : Type 0} (m : Action S A) (k : A → Action S B) (s : S)
    → ¬ IsOk (m s).0
    → ¬ IsOk ((m >>= k) s).0
bind_throws {S} {A} {B} m k s = by_result (m s)
  where
    by_result :
        (r : Result A × S)
        → ¬ IsOk r.0
        → ¬ IsOk (elim r.0 as (λ _. Result B × S) [ ok a ↦ k a r.1 | err e ↦ (err e, r.1) ]).0
    by_result (ok a, t) h = λ _. h tt
    by_result (err e, t) h = λ x. x

pub bind_error :
    {S A B : Type 0} (m : Action S A) (k : A → Action S B) (s : S) (e : Error) (t : S)
    → m s ≡ (err e, t)
    → (m >>= k) s ≡ (err e, t)
bind_error {S} {A} {B} m k s e t h =
    ap
      (λ (r : Result A × S). elim r.0 as (λ _. Result B × S) [
        | ok x ↦ k x r.1
        | err x ↦ (err x, r.1)
      ])
      h
