-- ===== src/Payments/Policy/Lifecycle.antt =====
-- The status policy against the transition diagram of docs/payments.md.
use coin_acceptor_backend.Prelude.{ℕ, ◌<◌, ◌≡◌, refl, ◌↔◌, ◌⊎◌, inl, inr, arith}
use coin_acceptor_backend.Effect.{ok}
use coin_acceptor_backend.Store.{
  PaymentStatus, pending, processing, confirmed, failed, expired, cancelled, refunded,
}
use coin_acceptor_backend.Payments.Policy.{assert_transition}

-- The arrows of the diagram.
infix 40 ◌⟶◌
pub data ◌⟶◌ : PaymentStatus → PaymentStatus → Type 0 where
  pending_processing : pending ⟶ processing
  pending_confirmed : pending ⟶ confirmed
  pending_failed : pending ⟶ failed
  pending_expired : pending ⟶ expired
  pending_cancelled : pending ⟶ cancelled
  processing_confirmed : processing ⟶ confirmed
  processing_failed : processing ⟶ failed
  processing_expired : processing ⟶ expired
  processing_cancelled : processing ⟶ cancelled
  confirmed_refunded : confirmed ⟶ refunded

ruleset arrows = (
  pending_processing, pending_confirmed, pending_failed, pending_expired, pending_cancelled,
  processing_confirmed, processing_failed, processing_expired, processing_cancelled,
  confirmed_refunded,
)

-- The policy lets a status stay as it is, or follow an arrow of the diagram.
pub assert_transition_sound :
    (a b : PaymentStatus) → assert_transition a b ≡ ok tt → (a ≡ b) ⊎ (a ⟶ b)
unfolding assert_transition
assert_transition_sound a b h = grind (arith, arrows)

pub assert_transition_complete : {a b : PaymentStatus} → a ⟶ b → assert_transition a b ≡ ok tt
unfolding assert_transition
assert_transition_complete pending_processing = refl
assert_transition_complete _ = refl

pub assert_transition-same : (a : PaymentStatus) → assert_transition a a ≡ ok tt
unfolding assert_transition
assert_transition-same a = ground arith

-- The status policy of payments accepts a change exactly when it is an arrow of the transition
-- diagram, or no change at all.
pub assert_transition_iff :
    (a b : PaymentStatus) → (assert_transition a b ≡ ok tt) ↔ ((a ≡ b) ⊎ (a ⟶ b))
assert_transition_iff a b = (assert_transition_sound a b, back)
  where
    back : ((a ≡ b) ⊎ (a ⟶ b)) → assert_transition a b ≡ ok tt
    back (inl e) = rw e (assert_transition-same b)
    back (inr s) = assert_transition_complete s

-- How far a payment has come; every arrow leads on.
abbrev pub stage : PaymentStatus → ℕ
stage pending = 0
stage processing = 1
stage confirmed = 2
stage refunded = 3
stage failed = 3
stage expired = 3
stage cancelled = 3

pub ⟶-stage : {a b : PaymentStatus} → a ⟶ b → stage a < stage b
⟶-stage pending_processing = omega arith
⟶-stage _ = omega arith

-- Accepted changes, one after the other.
pub data Reaches (a : PaymentStatus) : PaymentStatus → Type 0 where
  stay : Reaches a a
  onward : {b c : PaymentStatus} → Reaches a b → assert_transition b c ≡ ok tt → Reaches a c

pub final_stays : (a b : PaymentStatus) → stage a ≡ 3 → assert_transition a b ≡ ok tt → a ≡ b
unfolding assert_transition
final_stays a b h e = ground arith

-- Changes that the policy accepts, one after the other, never lead a failed, expired, cancelled or
-- refunded payment to another status.
pub final_absorbs : {a b : PaymentStatus} → Reaches a b → stage a ≡ 3 → a ≡ b
final_absorbs stay h = refl
final_absorbs {a} (onward {b} {c} r e) h =
    let same = final_absorbs r h in rw same (final_stays b c (rw same at h) e)

-- From confirmed, changes that the policy accepts lead to confirmed or refunded only.
pub confirmed_keeps :
    {a b : PaymentStatus} → Reaches a b → a ≡ confirmed → (b ≡ confirmed) ⊎ (b ≡ refunded)
unfolding assert_transition
confirmed_keeps stay h = inl h
confirmed_keeps (onward {b} {c} r e) h = ground (arith, confirmed_keeps r h)
