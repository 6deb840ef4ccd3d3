-- ===== src/Payments/Invariant/Creation.antt =====
-- New payments and QR transactions keep the payment tables sound, and so does a payment that fails.
use coin_acceptor_backend.Prelude.{
  ℕ, Bool, true, false, some, List, [], ◌∷◌, ◌==◌, ==_iff, any, find, find_sound, All, ◌≡◌, refl,
  arith, Bool-cases, Option-cases, inl, inr, sym, ap, ◌∙◌, subst,
}
use coin_acceptor_backend.Effect.{database, or_throw_keeps}
use coin_acceptor_backend.Table.{insert, Unique, Unique-find, All-insert, All-map, All-find}
use coin_acceptor_backend.Store.{Payment, Method, coin, qr, QrTransaction, CoinInsertion, Store}
use coin_acceptor_backend.Store.Write.{
  payment_state_allowed, has_id, update_payment, update_payment_found,
}
use coin_acceptor_backend.Payments.Coins.{same_method}
use coin_acceptor_backend.Payments.Initiation.{
  Package, package_has_id, snapshot_allowed, with_snapshot, payment_clashes, create_from,
  create_payment, agrees, qr_clashes, create_qr_for, create_qr, fail_data,
}
use coin_acceptor_backend.Payments.Invariant.{
  credited, IsGood, IsForQr, IsOwned, IsSound, IsSoundOk, update_payment-IsSound,
  update_payment_missing,
}

-- What a new coin payment has received.
abbrev pub IsUnpaid : Payment → Type 0
IsUnpaid row = row.payment_method ≡ coin → row.received_amount_minor ≡ 0

any-insert :
    (i : ℕ) (p : Payment) (ps : List Payment)
    → any (has_id i) ps ≡ true
    → any (has_id i) (insert p ps) ≡ true
any-insert i p [] h = ground arith
any-insert i p (x ∷ xs) h = ground (arith, any-insert i p xs)

fresh_id :
    (new : Payment) (ps : List Payment)
    → any (payment_clashes new) ps ≡ false
    → any (has_id new.id) ps ≡ false
fresh_id new [] h = refl
fresh_id new (x ∷ xs) h = ground (arith, fresh_id new xs)

fresh-Unique :
    (new : Payment) (ps : List Payment)
    → any (payment_clashes new) ps ≡ false
    → Unique (λ p. p.id) ps
    → Unique (λ p. p.id) (insert new ps)
fresh-Unique new [] n u = (tt, tt)
fresh-Unique new (x ∷ xs) n (h, u) =
    (All-insert _ new xs (ground arith) h, fresh-Unique new xs (ground arith) u)

other_id :
    (i j : ℕ) (ps : List Payment)
    → any (has_id i) ps ≡ false
    → any (has_id j) ps ≡ true
    → (i == j) ≡ true
    → ⊥
other_id i j ps a b e =
    clash (any (has_id j) ps) (subst (λ k. any (has_id k) ps ≡ false) ((==_iff i j).0 e) a) b
  where
    clash : (b : Bool) → b ≡ false → b ≡ true → ⊥
    clash b u v = cc

credited_none :
    (i : ℕ) (ps : List Payment) (cs : List CoinInsertion)
    → any (has_id i) ps ≡ false
    → All (IsOwned ps) cs
    → credited i cs ≡ 0
credited_none i ps [] n a = refl
credited_none i ps (c ∷ cs) n (h, a) = elim (Bool-cases (c.payment_id == i)) [
  | inl y ↦ absurd (other_id i c.payment_id ps n h (ground arith))
  | inr m ↦ rw m (omega (arith, credited_none i ps cs n a))
]

added-IsSound :
    (new : Payment) (s : Store)
    → payment_state_allowed new ≡ true
    → any (payment_clashes new) s.payments ≡ false
    → IsUnpaid new
    → IsSound s
    → IsSound (record s { payments = insert new s.payments })
added-IsSound new s fine n unpaid h =
    let unused = fresh_id new s.payments n in
    record {
      unique = fresh-Unique new s.payments n h.unique;
      good =
          All-insert (IsGood s.coins) new s.payments
            (fine, λ m. unpaid m ∙ sym (credited_none new.id s.payments s.coins unused h.owned))
            h.good;
      for_qr =
          All-map _ _ s.qrs
            (λ q held. (
              any-insert q.payment_id new s.payments held.0,
              All-insert _ new s.payments
                  (λ y. absurd (other_id new.id q.payment_id s.payments unused held.0 y)) held.1,
            ))
            h.for_qr;
      owned = All-map _ _ s.coins (λ c. any-insert c.payment_id new s.payments) h.owned;
    }

pub create_payment-IsSound :
    (packages : List Package) (row : Payment) (s : Store)
    → IsUnpaid row
    → IsSound s
    → IsSound (create_payment packages row s).1
unfolding create_payment
create_payment-IsSound packages row s unpaid h =
    or_throw_keeps IsSound (find (package_has_id row.charging_package_id) packages)
      (database "populate_payment_package_snapshot") (create_from row) s h
      λ p e. elim (Bool-cases (snapshot_allowed row p)) [
        | inl y ↦ elim (Bool-cases (payment_state_allowed (with_snapshot row p))) [
          | inl fine ↦ elim (Bool-cases (any (payment_clashes (with_snapshot row p)) s.payments)) [
            | inl taken ↦ rw (y, fine, taken) h
            | inr n ↦ rw (y, fine, n) (added-IsSound (with_snapshot row p) s fine n unpaid h)
          ]
          | inr bad ↦ rw (y, bad) h
        ]
        | inr n ↦ rw n h
      ]

qr_method : (m : Method) → same_method m qr ≡ true → m ≡ qr
qr_method m h = ground arith

create_qr_for-IsSound :
    (q : QrTransaction) (p : Payment) (s : Store)
    → find (has_id q.payment_id) s.payments ≡ some p
    → IsSound s
    → IsSound (create_qr_for q p s).1
create_qr_for-IsSound q p s e h = elim (Bool-cases (agrees q p)) [
  | inl y ↦ elim (Bool-cases (any (qr_clashes q) s.qrs)) [
    | inl taken ↦ rw (y, taken) h
    | inr n ↦
        rw (y, n)
          (record {
            unique = h.unique;
            good = h.good;
            for_qr = All-insert (IsForQr s.payments) q s.qrs (there, methods y) h.for_qr;
            owned = h.owned;
          })
  ]
  | inr n ↦ rw n h
]
  where
    there : any (has_id q.payment_id) s.payments ≡ true
    there = held s.payments e
      where
        held :
            (ps : List Payment)
            → find (has_id q.payment_id) ps ≡ some p
            → any (has_id q.payment_id) ps ≡ true
        held [] e = ground arith
        held (x ∷ xs) e = ground (arith, held xs)

    methods :
        agrees q p ≡ true
        → All (λ x. (x.id == q.payment_id) ≡ true → x.payment_method ≡ qr) s.payments
    methods y =
        All-map _ _ s.payments
          (λ x same at.
            ap (λ z. z.payment_method)
              (same (ground (arith, find_sound (has_id q.payment_id) s.payments p e)))
            ∙ qr_method p.payment_method (ground arith))
          (Unique-find (λ x. x.id) (has_id q.payment_id) s.payments p e h.unique)

pub create_qr-IsSound : (q : QrTransaction) (s : Store) → IsSound s → IsSound (create_qr q s).1
unfolding create_qr
create_qr-IsSound q s h =
    or_throw_keeps IsSound (find (has_id q.payment_id) s.payments) (database "P2003")
      (create_qr_for q) s h (λ p e. create_qr_for-IsSound q p s e h)

pub fail_payment-IsSound :
    (i now : ℕ) (s : Store) → IsSound s → IsSound (update_payment i (fail_data now) s).1
unfolding fail_data update_payment
fail_payment-IsSound i now s h = elim (Option-cases (find (has_id i) s.payments)) [
  | inl m ↦ subst (λ r. IsSound r.1) (sym (update_payment_missing i (fail_data now) s m)) h
  | inr (p, e) ↦ written p e
]
  where
    written :
        (p : Payment)
        → find (has_id i) s.payments ≡ some p
        → IsSound (update_payment i (fail_data now) s).1
    written p e =
        let run = update_payment_found i (fail_data now) s p e refl in
        subst (λ r. IsSound r.1) (sym run)
          (subst IsSoundOk run (
            update_payment-IsSound i (fail_data now) s p e
              (record { same_id = λ x. refl; same_method = λ x. refl }) h.unique
              (All-map _ _ s.payments (λ x good n. good) h.good) h.for_qr h.owned
              (All-find (IsGood s.coins) (has_id i) s.payments p e h.good).1))
