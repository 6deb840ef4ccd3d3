-- ===== src/Table/Order.antt =====
-- `ORDER BY`: rows sorted by a test that says which of two comes first.
use coin_acceptor_backend.Prelude.{
  Bool, List, [], ◌∷◌, All, if◌then◌else◌, Bool-cases, inl, inr, Option, none, some, ◌≡◌, subst,
  arith,
}

module _ {A : Type 0} (before : A → A → Bool) where
  unfoldable pub put_row : A → List A → List A
  put_row x [] = x ∷ []
  put_row x (y ∷ ys) = let rest = put_row x ys in if before x y then x ∷ y ∷ ys else y ∷ rest

  unfoldable pub order_by : List A → List A
  unfolding put_row
  order_by [] = []
  order_by (x ∷ xs) = put_row x (order_by xs)

  module _ {κ} (P : A → Type κ) where
    put_row-All : (x : A) (ys : List A) → P x → All P ys → All P (put_row x ys)
    unfolding put_row
    put_row-All x [] p a = (p, tt)
    put_row-All x (y ∷ ys) p (q, a) = elim (Bool-cases (before x y)) [
      | inl h ↦ rw h (p, (q, a))
      | inr h ↦ rw h (q, put_row-All x ys p a)
    ]

    -- Sorting keeps what holds of every row.
    pub order_by-All : (xs : List A) → All P xs → All P (order_by xs)
    unfolding order_by
    order_by-All [] a = tt
    order_by-All (x ∷ xs) (p, a) = put_row-All x (order_by xs) p (order_by-All xs a)

-- The first of the rows, `LIMIT 1`.
abbrev pub head_row : {A : Type 0} → List A → Option A
head_row [] = none
head_row (x ∷ xs) = some x

pub head_row-All {κ} :
    {A : Type 0} (P : A → Type κ) (xs : List A) (x : A) → All P xs → head_row xs ≡ some x → P x
head_row-All P [] x a e = absurd (cc)
head_row-All P (y ∷ ys) x (p, a) e = subst P (ground arith) p
