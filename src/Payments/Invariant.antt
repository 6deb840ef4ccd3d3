-- ===== src/Payments/Invariant.antt =====
-- The invariant of the payment tables: ids are unique, every row is one that the database's
-- state trigger accepts, a coin payment has received what its coins credit, and QR transactions
-- belong to QR payments.
pub mod Webhooks
pub mod Coins
pub mod Others
pub mod Creation
use coin_acceptor_backend.Prelude.{
  ℕ, ◌+◌, Bool, true, false, Option, none, some, List, [], ◌∷◌, ◌≡◌, refl, ◌==◌, ==_refl, find,
  find_sound, All, if◌then◌else◌, arith, inl, inr, Option-cases, Bool-cases, subst, sym, ◌∙◌, any,
}
use coin_acceptor_backend.Effect.{
  Error, database, Result, ok, err, Action, transaction, settle, or_throw, lift, pure, throw_if,
  ◌>>=◌, ◌>>◌,
}
use coin_acceptor_backend.Table.{
  update_where, insert, Unique, Unique-find, Unique-update_where, All-update_where, All-map,
}
use coin_acceptor_backend.Store.{Payment, Method, coin, qr, QrTransaction, CoinInsertion, Store}
use coin_acceptor_backend.Store.Write.{payment_state_allowed, has_id, update_payment}

-- What the coins of a payment add up to.
abbrev pub credited : ℕ → List CoinInsertion → ℕ
credited i [] = 0
credited i (c ∷ cs) = (if c.payment_id == i then c.credited_amount_minor else 0) + credited i cs

pub credited-insert :
    (i : ℕ) (c : CoinInsertion) (cs : List CoinInsertion)
    → credited i (insert c cs)
      ≡ credited i cs + (if c.payment_id == i then c.credited_amount_minor else 0)
credited-insert i c [] = omega arith
credited-insert i c (d ∷ cs) = omega (arith, credited-insert i c cs)

abbrev pub IsBalanced : List CoinInsertion → Payment → Type 0
IsBalanced cs p = p.payment_method ≡ coin → p.received_amount_minor ≡ credited p.id cs

abbrev pub IsGood : List CoinInsertion → Payment → Type 0
IsGood cs p = (payment_state_allowed p ≡ true) × IsBalanced cs p

abbrev pub IsForQr : List Payment → QrTransaction → Type 0
IsForQr ps q =
    (any (has_id q.payment_id) ps ≡ true)
    × All (λ p. (p.id == q.payment_id) ≡ true → p.payment_method ≡ qr) ps

-- The foreign key of a coin.
abbrev pub IsOwned : List Payment → CoinInsertion → Type 0
IsOwned ps c = any (has_id c.payment_id) ps ≡ true

pub record IsSound (s : Store) : Type 0 where
  pub unique : Unique (λ p. p.id) s.payments
  pub good : All (IsGood s.coins) s.payments
  pub for_qr : All (IsForQr s.payments) s.qrs
  pub owned : All (IsOwned s.payments) s.coins

-- A change of a payment that leaves its identity alone.
pub record KeepsIdentity (f : Payment → Payment) : Type 0 where
  pub same_id : (p : Payment) → (f p).id ≡ p.id
  pub same_method : (p : Payment) → (f p).payment_method ≡ p.payment_method

pub any_id-update_where :
    (f : Payment → Payment) (t : Payment → Bool) (ps : List Payment) (i : ℕ)
    → KeepsIdentity f
    → any (has_id i) (update_where t f ps) ≡ any (has_id i) ps
any_id-update_where f t [] i k = refl
any_id-update_where f t (p ∷ ps) i k = elim (Bool-cases (t p)) [
  | inl y ↦ rw (y, k.same_id p, any_id-update_where f t ps i k) refl
  | inr n ↦ rw (n, any_id-update_where f t ps i k) refl
]

pub IsOwned-update_where :
    (f : Payment → Payment) (t : Payment → Bool) (ps : List Payment) (cs : List CoinInsertion)
    → KeepsIdentity f
    → All (IsOwned ps) cs
    → All (IsOwned (update_where t f ps)) cs
IsOwned-update_where f t ps cs k =
    All-map _ _ cs (λ c there. any_id-update_where f t ps c.payment_id k ∙ there)

pub IsForQr-update_where :
    (f : Payment → Payment) (t : Payment → Bool) (ps : List Payment) (q : QrTransaction)
    → KeepsIdentity f
    → IsForQr ps q
    → IsForQr (update_where t f ps) q
IsForQr-update_where f t ps q k (there, h) =
    (any_id-update_where f t ps q.payment_id k ∙ there, methods ps h)
  where
    methods :
        (ps : List Payment)
        → All (λ p. (p.id == q.payment_id) ≡ true → p.payment_method ≡ qr) ps
        → All (λ p. (p.id == q.payment_id) ≡ true → p.payment_method ≡ qr) (update_where t f ps)
    methods [] h = tt
    methods (p ∷ ps) (h, hs) = elim (Bool-cases (t p)) [
      | inl y ↦ rw y (rw (k.same_id p, k.same_method p) h, methods ps hs)
      | inr n ↦ rw n (h, methods ps hs)
    ]

pub IsForQr-qrs :
    (g : QrTransaction → QrTransaction) (t : QrTransaction → Bool) (ps : List Payment)
    (qs : List QrTransaction)
    → ((q : QrTransaction) → (g q).payment_id ≡ q.payment_id)
    → All (IsForQr ps) qs
    → All (IsForQr ps) (update_where t g qs)
IsForQr-qrs g t ps [] k h = tt
IsForQr-qrs g t ps (q ∷ qs) k (h, hs) = elim (Bool-cases (t q)) [
  | inl y ↦ rw (y, k q) (h, IsForQr-qrs g t ps qs k hs)
  | inr n ↦ rw n (h, IsForQr-qrs g t ps qs k hs)
]

-- Where a call returns, the store is sound; where it throws, a transaction takes it back.
abbrev pub IsSoundOk : {A : Type 0} → Result A × Store → Type 0
IsSoundOk (ok _, s) = IsSound s
IsSoundOk (err _, s) = Unit

pub transaction-IsSound :
    {A : Type 0} (m : Action Store A) (s : Store)
    → IsSound s
    → IsSoundOk (m s)
    → IsSound (transaction m s).1
transaction-IsSound {A} m s h k = by_result (m s) k
  where
    by_result : (r : Result A × Store) → IsSoundOk r → IsSound (settle s r).1
    by_result (ok a, t) v = v
    by_result (err x, t) v = h

-- Chains of calls: a check first, an update with a result after it, a row that must be there.
module _ {A B : Type 0} where
  pub lift-IsSoundOk :
      (r : Result A) (k : A → Action Store B) (s : Store)
      → ((a : A) → r ≡ ok a → IsSoundOk (k a s))
      → IsSoundOk ((lift r >>= k) s)
  lift-IsSoundOk (ok a) k s h = h a refl
  lift-IsSoundOk (err e) k s h = tt

  pub pure-IsSoundOk :
      (m : Action Store A) (b : A → B) (s : Store)
      → IsSoundOk (m s)
      → IsSoundOk ((m >>= λ a. pure (b a)) s)
  pure-IsSoundOk m b s h = by_result (m s) h
    where
      by_result :
          (r : Result A × Store)
          → IsSoundOk r
          → IsSoundOk
              (elim r.0 as (λ _. Result B × Store) [ ok a ↦ pure (b a) r.1 | err e ↦ (err e, r.1) ])
      by_result (ok a, t) v = v
      by_result (err x, t) v = tt

  pub or_throw-IsSoundOk :
      (o : Option A) (e : Error) (k : A → Action Store B) (s : Store)
      → ((a : A) → o ≡ some a → IsSoundOk (k a s))
      → IsSoundOk ((or_throw o e >>= k) s)
  or_throw-IsSoundOk none e k s h = tt
  or_throw-IsSoundOk (some a) e k s h = h a refl

pub bind-IsSound :
    {A B : Type 0} (m : Action Store A) (k : A → Action Store B) (s : Store)
    → IsSound (m s).1
    → ((a : A) (t : Store) → IsSound t → IsSound (k a t).1)
    → IsSound ((m >>= k) s).1
bind-IsSound {A} {B} m k s h f = by_result (m s) h
  where
    by_result :
        (r : Result A × Store)
        → IsSound r.1
        → IsSound (elim r.0 as (λ _. Result B × Store) [ ok a ↦ k a r.1 | err e ↦ (err e, r.1) ]).1
    by_result (ok a, t) v = f a t v
    by_result (err e, t) v = v

pub bind-IsSoundOk :
    {A B : Type 0} (m : Action Store A) (k : A → Action Store B) (s : Store)
    → IsSoundOk (m s)
    → ((a : A) (t : Store) → IsSound t → IsSoundOk (k a t))
    → IsSoundOk ((m >>= k) s)
bind-IsSoundOk {A} {B} m k s h f = by_result (m s) h
  where
    by_result :
        (r : Result A × Store)
        → IsSoundOk r
        → IsSoundOk (elim r.0 as (λ _. Result B × Store) [ ok a ↦ k a r.1 | err e ↦ (err e, r.1) ])
    by_result (ok a, t) v = f a t v
    by_result (err e, t) v = tt

pub update_payment_missing :
    (i : ℕ) (f : Payment → Payment) (s : Store)
    → find (has_id i) s.payments ≡ none
    → update_payment i f s ≡ (err (database "P2025"), s)
unfolding update_payment
update_payment_missing i f s e = rw (e, or_throw)

pub throw_if-IsSoundOk :
    {A : Type 0} (b : Bool) (e : Error) (k : Action Store A) (s : Store)
    → (b ≡ false → IsSoundOk (k s))
    → IsSoundOk ((throw_if b e >> k) s)
throw_if-IsSoundOk true e k s h = tt
throw_if-IsSoundOk false e k s h = h refl

-- The update of one payment: it may have been unsound before, and is sound with what was written.
pub update_payment-IsSound :
    (i : ℕ) (f : Payment → Payment) (s : Store) (p : Payment)
    → find (has_id i) s.payments ≡ some p
    → KeepsIdentity f
    → Unique (λ x. x.id) s.payments
    → All (λ x. (x.id == p.id) ≡ false → IsGood s.coins x) s.payments
    → All (IsForQr s.payments) s.qrs
    → All (IsOwned s.payments) s.coins
    → IsBalanced s.coins (f p)
    → IsSoundOk (update_payment i f s)
unfolding update_payment
update_payment-IsSound i f s p e k u g q o b =
    rw (e, or_throw)
      (elim (Bool-cases (payment_state_allowed (f p))) [
        | inl fine ↦ rw fine (record {
          unique = Unique-update_where (λ x. x.id) (has_id i) f s.payments k.same_id u;
          good =
              All-update_where (λ x. (x.id == p.id) ≡ false → IsGood s.coins x)
                (λ x. (x.id == p.id) ≡ true → x ≡ p) (IsGood s.coins) (has_id i) f s.payments
                (λ x y one _. rw (one (at_row x y)) (fine, b)) (λ x n _ other. other (off_row x n))
                (Unique-find (λ x. x.id) (has_id i) s.payments p e u) g;
          for_qr = All-map _ _ s.qrs (λ r h. IsForQr-update_where f (has_id i) s.payments r k h) q;
          owned = IsOwned-update_where f (has_id i) s.payments s.coins k o;
        })
        | inr bad ↦ rw bad tt
      ])
  where
    p_at_i : (p.id == i) ≡ true
    p_at_i = find_sound (has_id i) s.payments p e

    at_row : (x : Payment) → (x.id == i) ≡ true → (x.id == p.id) ≡ true
    at_row x y = ground (arith, p_at_i)

    off_row : (x : Payment) → (x.id == i) ≡ false → (x.id == p.id) ≡ false
    off_row x n = ground (arith, p_at_i)
