-- ===== src/Table/Counts.antt =====
-- How many rows pass a test, after an insertion or an update.
use coin_acceptor_backend.Prelude.{
  ℕ, ◌+◌, ◌≤◌, All, Bool, true, false, List, [], ◌∷◌, ◌==◌, if◌then◌else◌, ◌≡◌, refl, arith,
  Bool-cases, inl, inr, subst, ==_iff,
}
use coin_acceptor_backend.Table.{insert, update_where, count_where, Unique}

pub each {κ} : {A : Type 0} (P : A → Type κ) (xs : List A) → ((x : A) → P x) → All P xs
each P [] h = tt
each P (x ∷ xs) h = (h x, each P xs h)

module _ {A : Type 0} (p : A → Bool) where
  pub count_where-insert :
      (x : A) (xs : List A)
      → count_where p (insert x xs) ≡ count_where p xs + (if p x then 1 else 0)
  count_where-insert x [] = ground arith
  count_where-insert x (y ∷ ys) = ground (arith, count_where-insert x ys)

  -- Where a change keeps the rows that count, at least as many count after it.
  pub count_where-update_where :
      (q : A → Bool) (t : A → Bool) (f : A → A) (xs : List A)
      → All (λ x. q x ≡ true → p (if t x then f x else x) ≡ true) xs
      → count_where q xs ≤ count_where p (update_where t f xs)
  count_where-update_where q t f [] a = omega arith
  count_where-update_where q t f (x ∷ xs) (h, a) = elim (Bool-cases (q x)) [
    | inl y ↦ rw (h y) (ground (arith, count_where-update_where q t f xs a))
    | inr n ↦ ground (arith, count_where-update_where q t f xs a)
  ]

  untouched :
      (key : A → ℕ) (i : ℕ) (f : A → A) (xs : List A)
      → All (λ y. (key y == i) ≡ false) xs
      → count_where p (update_where (λ y. key y == i) f xs) ≡ count_where p xs
  untouched key i f [] a = refl
  untouched key i f (x ∷ xs) (n, a) = rw n (ground (arith, untouched key i f xs a))

  -- A change of the one row with a key makes at most that row count no more.
  pub count_where-one :
      (key : A → ℕ) (i : ℕ) (f : A → A) (xs : List A)
      → Unique key xs
      → count_where p xs ≤ count_where p (update_where (λ y. key y == i) f xs) + 1
  count_where-one key i f [] u = omega arith
  count_where-one key i f (x ∷ xs) (h, u) = elim (Bool-cases (key x == i)) [
    | inl y ↦
        let same : key x ≡ i = (==_iff (key x) i).0 y in
        rw y (
          ground
            (arith, untouched key i f xs (subst (λ j. All (λ z. (key z == j) ≡ false) xs) same h)))
    | inr n ↦ rw n (ground (arith, count_where-one key i f xs u))
  ]
