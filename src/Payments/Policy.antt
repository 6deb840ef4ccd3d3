-- ===== src/Payments/Policy.antt =====
-- apps/payments/services/payment-status.policy.ts
pub mod Lifecycle
use coin_acceptor_backend.Prelude.{
  ℕ, Bool, true, false, not, ◌&&◌, ◌||◌, Option, none, some, String, List, [], ◌∷◌, ltb, is_some,
  ◌==◌, if◌then◌else◌, ◌≡◌, refl,
}
use coin_acceptor_backend.Effect.{Error, conflict, Result, ok, err}
use coin_acceptor_backend.Store.{
  PaymentStatus, pending, processing, confirmed, failed, expired, cancelled, refunded,
}

-- Strict equality of two status words, by the place of a word in the list of them.
abbrev status_rank : PaymentStatus → ℕ
status_rank pending = 0
status_rank processing = 1
status_rank confirmed = 2
status_rank failed = 3
status_rank expired = 4
status_rank cancelled = 5
status_rank refunded = 6

abbrev pub same_status : PaymentStatus → PaymentStatus → Bool
same_status a b = status_rank a == status_rank b

abbrev pub one_of : PaymentStatus → List PaymentStatus → Bool
one_of a [] = false
one_of a (b ∷ bs) = same_status b a || one_of a bs

abbrev terminal : List PaymentStatus
terminal = failed ∷ expired ∷ cancelled ∷ refunded ∷ []

-- The `allowed` table; a word without a row has no successor.
abbrev allowed : PaymentStatus → List PaymentStatus
allowed pending = processing ∷ confirmed ∷ failed ∷ expired ∷ cancelled ∷ []
allowed processing = confirmed ∷ failed ∷ expired ∷ cancelled ∷ []
allowed confirmed = refunded ∷ []
allowed _ = []

unfoldable pub assert_transition : PaymentStatus → PaymentStatus → Result (Unit {0})
assert_transition from to =
    if same_status from to
    then ok tt
    else if one_of from terminal || (same_status from confirmed && not (same_status to refunded))
    then err (conflict "Payment is already terminal.")
    else if not (one_of to (allowed from))
    then err (conflict "Payment status transition is not allowed.")
    else ok tt

unfoldable pub assert_confirm : ℕ → ℕ → Option ℕ → Result (Unit {0})
assert_confirm received expected confirmed_at =
    if ltb received expected || not (is_some confirmed_at)
    then err (conflict "Confirmed payments require sufficient money.")
    else ok tt

unfoldable pub is_terminal : PaymentStatus → Bool
is_terminal status = one_of status terminal || same_status status confirmed
