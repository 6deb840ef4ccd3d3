-- ===== src/Commands/Policy/Laws.antt =====
-- The transition policy against the status rules of docs/device-commands.md.
use coin_acceptor_backend.Prelude.{◌≡◌, refl, ◌↔◌, true, arith}
use coin_acceptor_backend.Effect.{ok}
use coin_acceptor_backend.Commands.{CommandStatus, AckResult}
use coin_acceptor_backend.Commands.Policy.{as_status, assert_can_acknowledge, is_duplicate_ack}

-- The moves of a command that a device's acknowledgement may make.
pub data Acks : CommandStatus → AckResult → Type 0 where
  sent_any : (r : AckResult) → Acks CommandStatus.sent r
  acknowledged_completed : Acks CommandStatus.acknowledged AckResult.completed
  acknowledged_failed : Acks CommandStatus.acknowledged AckResult.failed

-- The policy lets a command be acknowledged exactly along its diagram: with any result once it is
-- sent, and with completed or failed once it is acknowledged.
pub assert_can_acknowledge_iff :
    (c : CommandStatus) (r : AckResult) → (assert_can_acknowledge c r ≡ ok tt) ↔ Acks c r
unfolding assert_can_acknowledge
assert_can_acknowledge_iff c r = (there c r, back c r)
  where
    there : (c : CommandStatus) (r : AckResult) → assert_can_acknowledge c r ≡ ok tt → Acks c r
    there CommandStatus.sent r h = sent_any r
    there CommandStatus.acknowledged AckResult.completed h = acknowledged_completed
    there CommandStatus.acknowledged AckResult.failed h = acknowledged_failed
    there CommandStatus.acknowledged AckResult.acknowledged h = absurd (cc)
    there CommandStatus.queued r h = absurd (cc)
    there CommandStatus.completed r h = absurd (cc)
    there CommandStatus.failed r h = absurd (cc)
    there CommandStatus.expired r h = absurd (cc)
    there CommandStatus.cancelled r h = absurd (cc)

    back : (c : CommandStatus) (r : AckResult) → Acks c r → assert_can_acknowledge c r ≡ ok tt
    back c r (sent_any _) = refl
    back c r acknowledged_completed = refl
    back c r acknowledged_failed = refl

-- What counts as a repetition is the status that the result would give.
pub is_duplicate_ack_iff :
    (c : CommandStatus) (r : AckResult) → (is_duplicate_ack c r ≡ true) ↔ (c ≡ as_status r)
unfolding is_duplicate_ack
is_duplicate_ack_iff c r = (there c r, back c r)
  where
    there : (c : CommandStatus) (r : AckResult) → is_duplicate_ack c r ≡ true → c ≡ as_status r
    there c r h = ground arith

    back : (c : CommandStatus) (r : AckResult) → c ≡ as_status r → is_duplicate_ack c r ≡ true
    back c r h = ground arith
