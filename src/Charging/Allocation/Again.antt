-- ===== src/Charging/Allocation/Again.antt =====
-- A payment that has a session keeps it: what the webhook, the coin handler and the expiry job ask
-- for again is found, and the payment tables are left alone.
use coin_acceptor_backend.Prelude.{
  ℕ, Bool, true, false, Option, none, some, List, [], ◌∷◌, ==_refl, find, any, ◌≡◌, refl, arith,
  Bool-cases, inl, inr, ap, ◌∙◌, subst,
}
use coin_acceptor_backend.Effect.{Result, ok, err, settle}
use coin_acceptor_backend.Table.{insert, update_where, find-insert_new, find-update_where}
use coin_acceptor_backend.Store.{Payment, ChargingSession, SessionPayment, Store}
use coin_acceptor_backend.Payments.Invariant.{IsSound}
use coin_acceptor_backend.Charging.Allocation.{
  Fresh, Slot, clashes, session_row, link_row, link_allowed, is_link, session_id_is, refresh_totals,
  allocate, allocate_or_alert, alert_no_slot, existing_or_new, ensure_found, ensure_inside,
  ensure_for_payment_reference, has_reference, is_due, is_open_for, linked_session, session_of,
  free_slot,
}
use coin_acceptor_backend.Charging.Allocation.Invariant.{with_totals}

-- The payment tables are the same.
pub record SamePayments (s t : Store) : Type 0 where
  pub payments : t.payments ≡ s.payments
  pub qrs : t.qrs ≡ s.qrs
  pub coins : t.coins ≡ s.coins

-- What a call leaves for payment `p`: the same payment tables, and the returned session linked.
pub record Leaves (s : Store) (i : ℕ) (o : Option ChargingSession) (t : Store) : Type 0 where
  pub same : SamePayments s t
  pub linked :
      (x : ChargingSession)
      → o ≡ some x
      → (y : ChargingSession) × ((linked_session t i ≡ some y) × (y.id ≡ x.id))

abbrev Outcome : Store → ℕ → Result (Option ChargingSession) × Store → Type 0
Outcome s i (ok o, t) = Leaves s i o t
Outcome s i (err e, t) = SamePayments s t

same_payments : (s : Store) → SamePayments s s
same_payments s = record { payments = refl; qrs = refl; coins = refl }

any-find :
    {A : Type 0} (q r : A → Bool) (xs : List A)
    → ((x : A) → q x ≡ true → r x ≡ true)
    → any r xs ≡ false
    → find q xs ≡ none
any-find q r [] h n = refl
any-find q r (x ∷ xs) h n = ground (arith, h x, any-find q r xs h)

module _ (p : Payment) (fresh : Fresh) (slot : Slot) (s : Store) where
  allocate-Outcome : Outcome s p.id (allocate p fresh slot s)
  unfolding allocate session_row link_row link_allowed refresh_totals linked_session
  allocate-Outcome = elim (Bool-cases (any (clashes (session_row p slot fresh)) s.sessions)) [
    | inl y ↦ rw y (record { payments = refl; qrs = refl; coins = refl })
    | inr n ↦ elim (Bool-cases (link_allowed p s)) [
      | inl y ↦
          rw (n, y)
            (record {
              same = record { payments = refl; qrs = refl; coins = refl };
              linked = λ z e. (f x, (found n y, ground arith));
            })
      | inr m ↦ rw (n, m) (record { payments = refl; qrs = refl; coins = refl })
    ]
  ]
    where
      x : ChargingSession
      x = session_row p slot fresh

      l : SessionPayment
      l = link_row p x

      f : ChargingSession → ChargingSession
      f = with_totals l (insert l s.links)

      unlinked : link_allowed p s ≡ true → any (is_link p.id) s.links ≡ false
      unlinked y = ground arith

      found :
          any (clashes x) s.sessions ≡ false
          → link_allowed p s ≡ true
          → linked_session
              (record s {
                sessions = update_where (session_id_is x.id) f (insert x s.sessions);
                links = insert l s.links;
              })
              p.id
            ≡ some (f x)
      found n y =
          ap (session_of (update_where (session_id_is x.id) f (insert x s.sessions))) (
            find-insert_new (is_link p.id) l s.links
              (any-find (is_link p.id) (is_link p.id) s.links (λ z e. e) (unlinked y))
              (==_refl p.id))
          ∙ find-update_where (session_id_is x.id) (session_id_is x.id) f (insert x s.sessions)
              (λ z. refl) x
              (find-insert_new (session_id_is x.id) x s.sessions
                (any-find (session_id_is x.id) (clashes x) s.sessions (λ z e. ground arith) n)
                (==_refl x.id))
          ∙ rw (==_refl x.id) refl

new-Outcome :
    (p : Payment) (fresh : Fresh) (o : Option Slot) (s : Store)
    → Outcome s p.id (allocate_or_alert p fresh o s)
unfolding alert_no_slot
new-Outcome p fresh none s = elim (Bool-cases (any (is_open_for p.device_id) s.alerts)) [
  | inl y ↦ rw y (record { same = same_payments s; linked = λ x e. absurd (cc) })
  | inr n ↦ rw n (record {
    same = record { payments = refl; qrs = refl; coins = refl };
    linked = λ x e. absurd (cc);
  })
]
new-Outcome p fresh (some slot) s = allocate-Outcome p fresh slot s

existing-Outcome :
    (p : Payment) (fresh : Fresh) (o : Option ChargingSession) (s : Store)
    → linked_session s p.id ≡ o
    → Outcome s p.id (existing_or_new p fresh o s)
existing-Outcome p fresh (some x) s e = record {
  same = same_payments s;
  linked = λ z h. (x, (e, ground arith));
}
existing-Outcome p fresh none s e = new-Outcome p fresh (free_slot s fresh p.device_id) s

-- Asked for the same payment again, from a store that still has its payments.
again :
    (fresh : Fresh) (p : Payment) (reference : ℕ) (x : ChargingSession) (s t : Store)
    → find (has_reference reference) s.payments ≡ some p
    → is_due p ≡ true
    → Leaves s p.id (some x) t
    → (y : ChargingSession) × (ensure_for_payment_reference fresh reference t ≡ (ok (some y), t))
      × (y.id ≡ x.id)
unfolding ensure_for_payment_reference ensure_inside
again fresh p reference x s t e due left =
    let (y, (linked, same)) = left.linked x refl in
    (y, rw (ap (find (has_reference reference)) left.same.payments ∙ e, due, linked) refl, same)

-- What a settled call returns holds of what it leaves.
abbrev Kept : Store → Fresh → ℕ → Result (Option ChargingSession) × Store → Type 0
Kept s fresh r (ok (some x), t) =
    (y : ChargingSession) × (ensure_for_payment_reference fresh r t ≡ (ok (some y), t))
    × (y.id ≡ x.id)
Kept s fresh r (ok none, t) = Unit
Kept s fresh r (err e, t) = Unit

settle-Kept :
    (later : Fresh) (p : Payment) (reference : ℕ) (s : Store)
    (r : Result (Option ChargingSession) × Store)
    → find (has_reference reference) s.payments ≡ some p
    → is_due p ≡ true
    → Outcome s p.id r
    → Kept s later reference (settle s r)
settle-Kept later p reference s (ok (some x), t) e due left =
    again later p reference x s t e due left
settle-Kept later p reference s (ok none, t) e due left = tt
settle-Kept later p reference s (err x, t) e due left = tt

found-Kept :
    (fresh later : Fresh) (reference : ℕ) (o : Option Payment) (s : Store)
    → find (has_reference reference) s.payments ≡ o
    → Kept s later reference (settle s (ensure_found fresh o s))
found-Kept fresh later reference none s e = tt
found-Kept fresh later reference (some p) s e = elim (Bool-cases (is_due p)) [
  | inl y ↦ rw y (
      settle-Kept later p reference s (existing_or_new p fresh (linked_session s p.id) s) e y
        (existing-Outcome p fresh (linked_session s p.id) s refl))
  | inr n ↦ rw n tt
]

-- A payment that was given a session is given a session with the same id when the allocation is
-- called again, at whatever time and with whatever new ids, and the second call leaves the store
-- as it is.
pub ensure_for_payment_reference_again :
    (fresh later : Fresh) (reference : ℕ) (x : ChargingSession) (s t : Store)
    → ensure_for_payment_reference fresh reference s ≡ (ok (some x), t)
    → (y : ChargingSession) × (ensure_for_payment_reference later reference t ≡ (ok (some y), t))
      × (y.id ≡ x.id)
unfolding ensure_for_payment_reference ensure_inside
ensure_for_payment_reference_again fresh later reference x s t e =
    subst (Kept s later reference) e
      (found-Kept fresh later reference (find (has_reference reference) s.payments) s refl)

settle-SamePayments :
    (i : ℕ) (s : Store) (r : Result (Option ChargingSession) × Store)
    → Outcome s i r
    → SamePayments s (settle s r).1
settle-SamePayments i s (ok o, t) left = left.same
settle-SamePayments i s (err e, t) left = same_payments s

found-SamePayments :
    (fresh : Fresh) (o : Option Payment) (s : Store)
    → SamePayments s (settle s (ensure_found fresh o s)).1
found-SamePayments fresh none s = same_payments s
found-SamePayments fresh (some p) s = elim (Bool-cases (is_due p)) [
  | inl y ↦ rw y (
      settle-SamePayments p.id s (existing_or_new p fresh (linked_session s p.id) s)
        (existing-Outcome p fresh (linked_session s p.id) s refl))
  | inr n ↦ rw n (same_payments s)
]

pub ensure-IsSound :
    (fresh : Fresh) (reference : ℕ) (s : Store)
    → IsSound s
    → IsSound (ensure_for_payment_reference fresh reference s).1
unfolding ensure_for_payment_reference ensure_inside
ensure-IsSound fresh reference s h =
    let same = found-SamePayments fresh (find (has_reference reference) s.payments) s in
    record {
      unique = rw same.payments h.unique;
      good = rw (same.payments, same.coins) h.good;
      for_qr = rw (same.payments, same.qrs) h.for_qr;
      owned = rw (same.payments, same.coins) h.owned;
    }
