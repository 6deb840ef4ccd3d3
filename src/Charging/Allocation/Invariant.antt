-- ===== src/Charging/Allocation/Invariant.antt =====
-- What the allocation of sessions keeps: one running session per locker and port, one link per
-- payment, and sessions worth what their links add up to.
use coin_acceptor_backend.Prelude.{
  ℕ, ◌+◌, Bool, true, false, ◌&&◌, ◌||◌, Option, none, some, List, [], ◌∷◌, ◌==◌, find, any, All,
  ◌≡◌, refl, arith, Bool-cases, inl, inr,
}
use coin_acceptor_backend.Effect.{Result, ok, err, settle}
use coin_acceptor_backend.Table.{insert, update_where, Unique, All-insert, All-map}
use coin_acceptor_backend.Store.{Payment, ChargingSession, SessionPayment, AuditEntry, Store}
use coin_acceptor_backend.Charging.Allocation.{
  Fresh, Slot, is_running, clashes, session_row, link_row, link_allowed, is_link, total_duration,
  total_amount, session_id_is, refresh_totals, reserve, allocate, allocate_or_alert, alert_no_slot,
  existing_or_new, ensure_found, ensure_inside, ensure_for_payment_reference, has_reference, is_due,
  is_open_for, linked_session, free_slot,
}

-- Whether two sessions may not stand beside one another.
abbrev pub meets : ChargingSession → ChargingSession → Bool
meets x y =
    x.id == y.id
    || x.session_reference == y.session_reference
    || (is_running x.status
        && is_running y.status
        && (x.locker_id == y.locker_id || x.charging_port_id == y.charging_port_id))

abbrev pub Apart : List ChargingSession → Type 0
Apart [] = Unit
Apart (x ∷ xs) = All (λ y. meets x y ≡ false) xs × Apart xs

abbrev pub IsPaidBy : List SessionPayment → ChargingSession → Type 0
IsPaidBy ls x =
    (x.total_paid_minor ≡ total_amount x.id ls)
    × (x.purchased_duration_seconds ≡ total_duration x.id ls)

pub record IsAllocated (s : Store) : Type 0 where
  pub apart : Apart s.sessions
  pub once : Unique (λ l. l.payment_id) s.links
  pub paid : All (IsPaidBy s.links) s.sessions

-- A new row that no row clashes with.
Apart-insert :
    (x : ChargingSession) (xs : List ChargingSession)
    → is_running x.status ≡ true
    → any (clashes x) xs ≡ false
    → Apart xs
    → Apart (insert x xs)
Apart-insert x [] r n a = (tt, tt)
Apart-insert x (y ∷ ys) r n (h, a) =
    (All-insert _ x ys (ground arith) h, Apart-insert x ys r (ground arith) a)

-- A change that keeps what sessions clash by.
abbrev SameSlot : (ChargingSession → ChargingSession) → Type 0
SameSlot f =
    (x : ChargingSession)
    → ((f x).id ≡ x.id)
      × ((f x).session_reference ≡ x.session_reference)
      × ((f x).status ≡ x.status)
      × ((f x).locker_id ≡ x.locker_id)
      × ((f x).charging_port_id ≡ x.charging_port_id)

meets-update_where :
    (t : ChargingSession → Bool) (f : ChargingSession → ChargingSession) (x : ChargingSession)
    (ys : List ChargingSession)
    → SameSlot f
    → All (λ y. meets x y ≡ false) ys
    → (All (λ y. meets x y ≡ false) (update_where t f ys))
      × (All (λ y. meets (f x) y ≡ false) (update_where t f ys))
meets-update_where t f x [] k a = (tt, tt)
meets-update_where t f x (y ∷ ys) k (h, a) =
    let (i, r, st, l, p) = k x in
    let (j, r', st', l', p') = k y in
    let rest = meets-update_where t f x ys k a in
    elim (Bool-cases (t y)) [
      | inl y_here ↦
          rw y_here (
            (rw (j, r', st', l', p') h, rest.0),
            (rw (i, r, st, l, p, j, r', st', l', p') h, rest.1),
          )
      | inr n ↦ rw n ((h, rest.0), (rw (i, r, st, l, p) h, rest.1))
    ]

Apart-update_where :
    (t : ChargingSession → Bool) (f : ChargingSession → ChargingSession) (xs : List ChargingSession)
    → SameSlot f
    → Apart xs
    → Apart (update_where t f xs)
Apart-update_where t f [] k a = tt
Apart-update_where t f (x ∷ xs) k (h, a) =
    let both = meets-update_where t f x xs k h in
    elim (Bool-cases (t x)) [
      | inl y_here ↦ rw y_here (both.1, Apart-update_where t f xs k a)
      | inr n ↦ rw n (both.0, Apart-update_where t f xs k a)
    ]

Unique-insert :
    (l : SessionPayment) (ls : List SessionPayment)
    → any (is_link l.payment_id) ls ≡ false
    → Unique (λ x. x.payment_id) ls
    → Unique (λ x. x.payment_id) (insert l ls)
Unique-insert l [] n u = (tt, tt)
Unique-insert l (x ∷ xs) n (h, u) =
    (All-insert _ l xs (ground arith) h, Unique-insert l xs (ground arith) u)

-- A link adds to its own session's sums only.
total-insert :
    (i : ℕ) (l : SessionPayment) (ls : List SessionPayment)
    → (l.charging_session_id == i) ≡ false
    → (total_amount i (insert l ls) ≡ total_amount i ls)
      × (total_duration i (insert l ls) ≡ total_duration i ls)
total-insert i l [] n = rw n (refl, refl)
total-insert i l (x ∷ xs) n = let rest = total-insert i l xs n in (rw rest.0 refl, rw rest.1 refl)

abbrev pub with_totals : SessionPayment → List SessionPayment → ChargingSession → ChargingSession
with_totals l links x = record x {
  purchased_duration_seconds = total_duration l.charging_session_id links;
  remaining_seconds = x.remaining_seconds + l.duration_seconds_added;
  total_paid_minor = total_amount l.charging_session_id links;
}

paid-refresh :
    (l : SessionPayment) (ls : List SessionPayment) (xs : List ChargingSession)
    → All (λ x. session_id_is l.charging_session_id x ≡ false → IsPaidBy ls x) xs
    → All
        (IsPaidBy (insert l ls))
        (update_where (session_id_is l.charging_session_id) (with_totals l (insert l ls)) xs)
paid-refresh l ls [] a = tt
paid-refresh l ls (x ∷ xs) (h, a) = elim (Bool-cases (x.id == l.charging_session_id)) [
  | inl y ↦
      let same : x.id ≡ l.charging_session_id = ground arith in
      rw y ((rw same refl, rw same refl), paid-refresh l ls xs a)
  | inr n ↦
      let other : (l.charging_session_id == x.id) ≡ false = ground arith in
      let keep = total-insert x.id l ls other in
      rw n ((rw keep.0 (h n).0, rw keep.1 (h n).1), paid-refresh l ls xs a)
]

-- What a call leaves behind: rows as allocated where it returns.
abbrev Outcome : {A : Type 0} → Result A × Store → Type 0
Outcome (ok a, t) = IsAllocated t
Outcome (err e, t) = Unit

settle-Outcome :
    {A : Type 0} (s : Store) (r : Result A × Store)
    → IsAllocated s
    → Outcome r
    → IsAllocated (settle s r).1
settle-Outcome s (ok a, t) h v = v
settle-Outcome s (err e, t) h v = h

-- The sessions other than a new one keep their sums.
fresh-paid :
    (x : ChargingSession) (ls : List SessionPayment) (xs : List ChargingSession)
    → All (IsPaidBy ls) xs
    → All (λ y. session_id_is x.id y ≡ false → IsPaidBy ls y) (insert x xs)
fresh-paid x ls xs a =
    All-insert _ x xs (λ n. absurd (irrefl n)) (All-map (IsPaidBy ls) _ xs (λ y h n. h) a)
  where
    irrefl : session_id_is x.id x ≡ false → ⊥
    irrefl n = ground arith

allocate-Outcome :
    (p : Payment) (fresh : Fresh) (slot : Slot) (s : Store)
    → IsAllocated s
    → Outcome (allocate p fresh slot s)
unfolding allocate session_row link_row link_allowed refresh_totals
allocate-Outcome p fresh slot s h =
    elim (Bool-cases (any (clashes (session_row p slot fresh)) s.sessions)) [
      | inl y ↦ rw y tt
      | inr n ↦ elim (Bool-cases (link_allowed p s)) [
        | inl y ↦ rw (n, y) (allocated _ n y)
        | inr m ↦ rw (n, m) tt
      ]
    ]
  where
    x : ChargingSession
    x = session_row p slot fresh

    l : SessionPayment
    l = link_row p x

    free : link_allowed p s ≡ true → any (is_link p.id) s.links ≡ false
    free y = ground arith

    allocated :
        (audits : List AuditEntry)
        → any (clashes x) s.sessions ≡ false
        → link_allowed p s ≡ true
        → IsAllocated (record s {
          lockers = (reserve slot.locker fresh.now s).lockers;
          sessions =
              update_where
                (session_id_is l.charging_session_id)
                (with_totals l (insert l s.links))
                (insert x s.sessions);
          links = insert l s.links;
          audits = audits;
        })
    allocated audits n y = record {
      apart =
          Apart-update_where _ _ _ (λ z. (refl, refl, refl, refl, refl))
            (Apart-insert x s.sessions refl n h.apart);
      once = Unique-insert l s.links (free y) h.once;
      paid = paid-refresh l s.links (insert x s.sessions) (fresh-paid x s.links s.sessions h.paid);
    }

alert-IsAllocated : (p : Payment) (s : Store) → IsAllocated s → IsAllocated (alert_no_slot p s)
unfolding alert_no_slot
alert-IsAllocated p s h = elim (Bool-cases (any (is_open_for p.device_id) s.alerts)) [
  | inl y ↦ rw y h
  | inr n ↦ rw n (record { apart = h.apart; once = h.once; paid = h.paid })
]

new-Outcome :
    (p : Payment) (fresh : Fresh) (o : Option Slot) (s : Store)
    → IsAllocated s
    → Outcome (allocate_or_alert p fresh o s)
new-Outcome p fresh none s h = alert-IsAllocated p s h
new-Outcome p fresh (some slot) s h = allocate-Outcome p fresh slot s h

existing-Outcome :
    (p : Payment) (fresh : Fresh) (o : Option ChargingSession) (s : Store)
    → IsAllocated s
    → Outcome (existing_or_new p fresh o s)
existing-Outcome p fresh (some x) s h = h
existing-Outcome p fresh none s h = new-Outcome p fresh (free_slot s fresh p.device_id) s h

found-Outcome :
    (fresh : Fresh) (o : Option Payment) (s : Store)
    → IsAllocated s
    → Outcome (ensure_found fresh o s)
found-Outcome fresh none s h = h
found-Outcome fresh (some p) s h = elim (Bool-cases (is_due p)) [
  | inl y ↦ rw y (existing-Outcome p fresh (linked_session s p.id) s h)
  | inr n ↦ rw n h
]

-- The allocation of a session for a payment, however it ends, keeps the sessions apart: two
-- running sessions never share a locker or a port, no payment is linked twice, and each session's
-- paid amount and duration are the sums over its links.
pub ensure_for_payment_reference-IsAllocated :
    (fresh : Fresh) (reference : ℕ) (s : Store)
    → IsAllocated s
    → IsAllocated (ensure_for_payment_reference fresh reference s).1
unfolding ensure_for_payment_reference ensure_inside
ensure_for_payment_reference-IsAllocated fresh reference s h =
    settle-Outcome s _ h (found-Outcome fresh (find (has_reference reference) s.payments) s h)
