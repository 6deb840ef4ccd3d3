-- ===== src/Table.antt =====
-- Database tables as lists of rows, and the Prisma queries that the services make on them:
-- `findFirst` and `findUnique` are `find`, `update` and `updateMany` change the rows that a test
-- selects, `create` adds a row at the end.
pub mod Order
pub mod Counts
use coin_acceptor_backend.Prelude.{
  ℕ, ◌+◌, List, [], ◌∷◌, Bool, true, false, none, some, ◌≡◌, refl, length, find, filter, All,
  if◌then◌else◌, arith, Bool-cases, inl, inr, subst, ◌==◌, ==_refl,
}

module _ {A : Type 0} where
  abbrev pub update_where : (A → Bool) → (A → A) → List A → List A
  update_where p f [] = []
  update_where p f (x ∷ xs) = (if p x then f x else x) ∷ update_where p f xs

  abbrev pub insert : A → List A → List A
  insert x [] = x ∷ []
  insert x (y ∷ xs) = y ∷ insert x xs

  abbrev pub count_where : (A → Bool) → List A → ℕ
  count_where p xs = length (filter p xs)

  -- An update keeps every row's place.
  pub length-update_where :
      (p : A → Bool) (f : A → A) (xs : List A) → length (update_where p f xs) ≡ length xs
  length-update_where p f [] = refl
  length-update_where p f (x ∷ xs) = omega (arith, length-update_where p f xs)

  pub length-insert : (x : A) (xs : List A) → length (insert x xs) ≡ length xs + 1
  length-insert x [] = omega arith
  length-insert x (y ∷ xs) = omega (arith, length-insert x xs)

  -- Where the change leaves the searched test alone, an update changes the row in place.
  pub find-update_where :
      (q p : A → Bool) (f : A → A) (xs : List A)
      → ((x : A) → q (f x) ≡ q x)
      → (x : A) → find q xs ≡ some x
      → find q (update_where p f xs) ≡ some (if p x then f x else x)
  find-update_where q p f [] h x e = ground arith
  find-update_where q p f (y ∷ xs) h x e = ground (arith, h y, find-update_where q p f xs h x)

  pub find-update_where-none :
      (q p : A → Bool) (f : A → A) (xs : List A)
      → ((x : A) → q (f x) ≡ q x)
      → find q xs ≡ none
      → find q (update_where p f xs) ≡ none
  find-update_where-none q p f [] h e = refl
  find-update_where-none q p f (y ∷ xs) h e = ground (arith, h y, find-update_where-none q p f xs h)

  pub find-insert :
      (q : A → Bool) (x : A) (xs : List A) (y : A)
      → find q xs ≡ some y
      → find q (insert x xs) ≡ some y
  find-insert q x [] y e = ground arith
  find-insert q x (z ∷ xs) y e = ground (arith, find-insert q x xs y)

  pub find-insert_new :
      (q : A → Bool) (x : A) (xs : List A)
      → find q xs ≡ none
      → q x ≡ true
      → find q (insert x xs) ≡ some x
  find-insert_new q x [] e h = ground arith
  find-insert_new q x (z ∷ xs) e h = ground (arith, find-insert_new q x xs)

  -- What holds of the rows after an update, from what held of them and a fact `R` about each.
  pub All-update_where {κ ι τ} :
      (P : A → Type κ) (R : A → Type ι) (Q : A → Type τ) (p : A → Bool) (f : A → A) (xs : List A)
      → ((x : A) → p x ≡ true → R x → P x → Q (f x))
      → ((x : A) → p x ≡ false → R x → P x → Q x)
      → All R xs
      → All P xs
      → All Q (update_where p f xs)
  All-update_where P R Q p f [] h k r a = tt
  All-update_where P R Q p f (x ∷ xs) h k (rx, r) (px, a) = elim (Bool-cases (p x)) [
    | inl y ↦ rw y (h x y rx px, All-update_where P R Q p f xs h k r a)
    | inr n ↦ rw n (k x n rx px, All-update_where P R Q p f xs h k r a)
  ]

  pub All-insert {κ} : (P : A → Type κ) (x : A) (xs : List A) → P x → All P xs → All P (insert x xs)
  All-insert P x [] p a = (p, tt)
  All-insert P x (y ∷ xs) p (q, a) = (q, All-insert P x xs p a)

  pub All-find {κ} :
      (P : A → Type κ) (q : A → Bool) (xs : List A) (x : A) → find q xs ≡ some x → All P xs → P x
  All-find P q [] x e a = absurd (cc)
  All-find P q (y ∷ xs) x e (py, a) = elim (Bool-cases (q y)) [
    | inl h ↦ subst P (ground arith) py
    | inr h ↦ All-find P q xs x (ground arith) a
  ]

  pub All-map {κ ι} :
      (P : A → Type κ) (Q : A → Type ι) (xs : List A) → ((x : A) → P x → Q x) → All P xs → All Q xs
  All-map P Q [] h a = tt
  All-map P Q (x ∷ xs) h (px, a) = (h x px, All-map P Q xs h a)

  -- A unique column, such as a primary key.
  abbrev pub Unique : (A → ℕ) → List A → Type 0
  Unique key [] = Unit
  Unique key (x ∷ xs) = All (λ y. (key y == key x) ≡ false) xs × Unique key xs

  pub Unique-find :
      (key : A → ℕ) (q : A → Bool) (xs : List A) (p : A)
      → find q xs ≡ some p
      → Unique key xs
      → All (λ x. (key x == key p) ≡ true → x ≡ p) xs
  Unique-find key q [] p e u = tt
  Unique-find key q (y ∷ xs) p e (h, u) = elim (Bool-cases (q y)) [
    | inl yes_y ↦
        let same : y ≡ p = ground arith in
        (λ _. same, All-map _ _ xs (λ x n t. absurd (apart x (rw same at n) t)) h)
    | inr no_y ↦
        let later : find q xs ≡ some p = ground arith in
        (λ t. absurd (apart' (All-find _ q xs p later h) t), Unique-find key q xs p later u)
  ]
    where
      apart : (x : A) → (key x == key p) ≡ false → (key x == key p) ≡ true → ⊥
      apart x n t = cc

      apart' : (key p == key y) ≡ false → (key y == key p) ≡ true → ⊥
      apart' n t = ground arith

  pub All-keys :
      (key : A → ℕ) (p : A → Bool) (f : A → A) (k : ℕ) (xs : List A)
      → ((x : A) → key (f x) ≡ key x)
      → All (λ y. (key y == k) ≡ false) xs
      → All (λ y. (key y == k) ≡ false) (update_where p f xs)
  All-keys key p f k [] h a = tt
  All-keys key p f k (x ∷ xs) h (n, a) = elim (Bool-cases (p x)) [
    | inl y ↦ rw y (rw (h x) n, All-keys key p f k xs h a)
    | inr m ↦ rw m (n, All-keys key p f k xs h a)
  ]

  pub Unique-update_where :
      (key : A → ℕ) (p : A → Bool) (f : A → A) (xs : List A)
      → ((x : A) → key (f x) ≡ key x)
      → Unique key xs
      → Unique key (update_where p f xs)
  Unique-update_where key p f [] h u = tt
  Unique-update_where key p f (x ∷ xs) h (n, u) = elim (Bool-cases (p x)) [
    | inl y ↦ rw (y, h x) (All-keys key p f (key x) xs h n, Unique-update_where key p f xs h u)
    | inr m ↦ rw m (All-keys key p f (key x) xs h n, Unique-update_where key p f xs h u)
  ]

  -- The row that a query finds is the one that its key finds.
  pub Unique-find_self :
      (key : A → ℕ) (q : A → Bool) (xs : List A) (p : A)
      → find q xs ≡ some p
      → Unique key xs
      → find (λ x. key x == key p) xs ≡ some p
  Unique-find_self key q [] p e u = absurd (cc)
  Unique-find_self key q (y ∷ xs) p e (h, u) = elim (Bool-cases (q y)) [
    | inl yes_y ↦ let same : y ≡ p = ground arith in rw (same, ==_refl (key p))
    | inr no_y ↦
        let later : find q xs ≡ some p = ground arith in
        let apart : (key p == key y) ≡ false = All-find _ q xs p later h in
        ground (arith, Unique-find_self key q xs p later u)
  ]

  pub All-unit : (xs : List A) → All (λ _. Unit {0}) xs
  All-unit [] = tt
  All-unit (x ∷ xs) = (tt, All-unit xs)
