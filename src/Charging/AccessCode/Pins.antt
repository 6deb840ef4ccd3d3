-- ===== src/Charging/AccessCode/Pins.antt =====
-- The pins that are generated, as four digits.
use coin_acceptor_backend.Prelude.{
  ℕ, ◌+◌, ◌*◌, ◌/◌, ◌%◌, ◌≤◌, ◌<◌, true, List, [], ◌∷◌, take, zero, suc, ◌≡◌, refl, Bool-cases, inl,
  inr, ◌⊎◌, arith, All,
}
use coin_acceptor_backend.Charging.AccessCode.{strong_enough, pin_of, first_strong, generate}

-- A pin that is four digits, is not one digit four times and does not run up or down by one.
pub record IsPin (pin : List ℕ) (a b c d : ℕ) : Type 0 where
  pub written : pin ≡ a ∷ b ∷ c ∷ d ∷ []
  pub digits : (a ≤ 9) × (b ≤ 9) × (c ≤ 9) × (d ≤ 9)
  pub varied : ¬ ((b ≡ a) × (c ≡ b) × (d ≡ c))
  pub no_rise : ¬ ((b ≡ a + 1) × (c ≡ b + 1) × (d ≡ c + 1))
  pub no_fall : ¬ ((a ≡ b + 1) × (b ≡ c + 1) × (c ≡ d + 1))

-- The number that four digits write.
abbrev pub value : ℕ → ℕ → ℕ → ℕ → ℕ
value a b c d = a * 1000 + b * 100 + c * 10 + d

-- One of the numbers, or the constant.
abbrev pub Drawn : ℕ → List ℕ → Type 0
Drawn n [] = n ≡ 4839
Drawn n (m ∷ ms) = (n ≡ m) ⊎ Drawn n ms

abbrev pub Pin : List ℕ → List ℕ → Type 0
Pin pin numbers =
    (a : ℕ) × (b : ℕ) × (c : ℕ) × (d : ℕ) × IsPin pin a b c d × Drawn (value a b c d) numbers

strong_enough-IsPin :
    (a b c d : ℕ) → strong_enough (a ∷ b ∷ c ∷ d ∷ []) ≡ true → IsPin (a ∷ b ∷ c ∷ d ∷ []) a b c d
unfolding strong_enough
strong_enough-IsPin a b c d h = record {
  written = refl;
  digits = (ground arith, ground arith, ground arith, ground arith);
  varied = λ e. ground arith;
  no_rise = λ e. ground arith;
  no_fall = λ e. ground arith;
}

digits_value : (n : ℕ) → n < 10000 → value (n / 1000) (n / 100 % 10) (n / 10 % 10) (n % 10) ≡ n
digits_value n h = omega arith

first_strong-Pin : (ns : List ℕ) → All (λ n. n < 10000) ns → Pin (first_strong ns) ns
unfolding first_strong pin_of
first_strong-Pin [] below = (4, 8, 3, 9, strong_enough-IsPin 4 8 3 9 refl, refl)
first_strong-Pin (n ∷ ns) (h, below) = elim (Bool-cases (strong_enough (pin_of n))) [
  | inl y ↦ rw y (
    n / 1000,
    n / 100 % 10,
    n / 10 % 10,
    n % 10,
    strong_enough-IsPin (n / 1000) (n / 100 % 10) (n / 10 % 10) (n % 10) y,
    inl (digits_value n h),
  )
  | inr f ↦
      let (a, b, c, d, pin, drawn) = first_strong-Pin ns below in rw f (a, b, c, d, pin, inr drawn)
]

take-below : (k : ℕ) (ns : List ℕ) → All (λ n. n < 10000) ns → All (λ n. n < 10000) (take k ns)
take-below zero ns h = tt
take-below (suc k) [] h = tt
take-below (suc k) (n ∷ ns) (h, hs) = (h, take-below k ns hs)

-- Whatever random numbers below 10000 come, the generated pin is four digits that are not all
-- equal and neither rise nor fall by one throughout, and they write one of the first twenty
-- numbers or 4839.
pub generate-Pin :
    (numbers : List ℕ) → All (λ n. n < 10000) numbers → Pin (generate numbers) (take 20 numbers)
unfolding generate
generate-Pin numbers h = first_strong-Pin (take 20 numbers) (take-below 20 numbers h)
