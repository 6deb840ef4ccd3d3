-- ===== src/Charging/AccessCode.antt =====
-- access-code-generation.service.ts. A pin is the list of its digits; the random numbers that
-- `randomInt(0, 10_000)` gives are an argument.
pub mod Pins
use coin_acceptor_backend.Prelude.{
  ℕ, ◌+◌, ◌/◌, ◌%◌, Bool, true, not, ◌&&◌, List, [], ◌∷◌, ◌==◌, leb, all, length, take,
  if◌then◌else◌, ◌≡◌, refl, Bool-cases, inl, inr,
}

-- Whether a relation holds between each digit and the one before it.
abbrev pub each_next : (ℕ → ℕ → Bool) → List ℕ → Bool
each_next r [] = true
each_next r (d ∷ []) = true
each_next r (d ∷ e ∷ ds) = r d e && each_next r (e ∷ ds)

-- `/^\d{4}$/`, `/^(\d)\1{3}$/`, and the two runs.
unfoldable pub strong_enough : List ℕ → Bool
strong_enough pin =
    length pin == 4
    && all (λ d. leb d 9) pin
    && not (each_next (λ d e. e == d) pin)
    && not (each_next (λ d e. e == d + 1) pin)
    && not (each_next (λ d e. e + 1 == d) pin)

-- `n.toString().padStart(4, '0')` for a number below 10000.
unfoldable pub pin_of : ℕ → List ℕ
pin_of n = n / 1000 ∷ n / 100 % 10 ∷ n / 10 % 10 ∷ n % 10 ∷ []

abbrev pub fallback : List ℕ
fallback = 4 ∷ 8 ∷ 3 ∷ 9 ∷ []

-- The loop over the attempts.
unfoldable pub first_strong : List ℕ → List ℕ
unfolding strong_enough pin_of
first_strong [] = fallback
first_strong (n ∷ ns) =
    let rest = first_strong ns in if strong_enough (pin_of n) then pin_of n else rest

-- `generate`, which tries 20 numbers at most.
unfoldable pub generate : List ℕ → List ℕ
unfolding first_strong
generate numbers = first_strong (take 20 numbers)
