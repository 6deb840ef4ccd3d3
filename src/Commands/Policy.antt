-- ===== src/Commands/Policy.antt =====
-- command-transition.policy.ts, command-requirements.policy.ts and command-idempotency.service.ts.
pub mod Laws
use coin_acceptor_backend.Prelude.{
  ℕ, Bool, true, false, not, ◌&&◌, ◌||◌, Option, none, some, get_or, String, List, ◌==◌, ◌=s◌, ltb,
  leb, codes, is_blank, if◌then◌else◌,
}
use coin_acceptor_backend.Effect.{bad_request, conflict, Result, ok, err}
use coin_acceptor_backend.Json.{Json, Fields, obj}
use coin_acceptor_backend.Commands.{
  CommandStatus, queued, sent, expired, cancelled, AckResult, Command,
}

abbrev pub as_status : AckResult → CommandStatus
as_status AckResult.acknowledged = CommandStatus.acknowledged
as_status AckResult.completed = CommandStatus.completed
as_status AckResult.failed = CommandStatus.failed

abbrev is_terminal : CommandStatus → Bool
is_terminal CommandStatus.completed = true
is_terminal CommandStatus.failed = true
is_terminal expired = true
is_terminal cancelled = true
is_terminal _ = false

unfoldable pub assert_can_cancel : CommandStatus → Result (Unit {0})
assert_can_cancel queued = ok tt
assert_can_cancel _ = err (conflict "Only queued commands can be cancelled.")

abbrev is_sent : CommandStatus → Bool
is_sent sent = true
is_sent _ = false

abbrev is_acknowledged : CommandStatus → Bool
is_acknowledged CommandStatus.acknowledged = true
is_acknowledged _ = false

abbrev is_ack : AckResult → Bool
is_ack AckResult.acknowledged = true
is_ack _ = false

unfoldable pub assert_can_acknowledge : CommandStatus → AckResult → Result (Unit {0})
assert_can_acknowledge status result =
    if is_sent status
    then ok tt
    else if is_acknowledged status && not (is_ack result)
    then ok tt
    else if is_terminal status
    then err (conflict "Command is already terminal.")
    else err (conflict "Command has not been sent.")

abbrev pub same_result : CommandStatus → AckResult → Bool
same_result CommandStatus.acknowledged AckResult.acknowledged = true
same_result CommandStatus.completed AckResult.completed = true
same_result CommandStatus.failed AckResult.failed = true
same_result _ _ = false

unfoldable pub is_duplicate_ack : CommandStatus → AckResult → Bool
is_duplicate_ack status result =
    (is_acknowledged status && is_ack result) || same_result status result

-- A request for a command: CreateDeviceCommandDto, its texts for times read by `new Date`.
pub record CreateCommand : Type 0 where
  pub command_type : String
  pub payload : Fields
  pub idempotency_key : Option ℕ
  pub available_at : Option ℕ
  pub expires_at : Option ℕ
  pub reason : Option String

unfoldable pub extra_permission : String → Option String
extra_permission type =
    if type =s "locker.emergency_open"
    then some "lockers.emergency_open"
    else if type =s "device.restart"
    then some "devices.restart"
    else if type =s "device.sync_configuration"
    then some "devices.configure"
    else none

-- `reason?.trim()` is empty, or there is no reason.
abbrev pub lacks_reason : Option String → Bool
lacks_reason none = true
lacks_reason (some r) = is_blank (codes r)

unfoldable pub assert_reason : String → Option String → Result (Unit {0})
assert_reason type reason =
    if type =s "locker.emergency_open" && lacks_reason reason
    then err (bad_request "Emergency open requires a reason.")
    else ok tt

abbrev expires_by : Option ℕ → ℕ → Bool
expires_by none t = false
expires_by (some e) t = leb e t

unfoldable pub assert_times : CreateCommand → ℕ → Result (Unit {0})
assert_times dto requested_at =
    if ltb (get_or dto.available_at requested_at) requested_at
    then err (bad_request "availableAt cannot be before requestedAt.")
    else if expires_by dto.expires_at requested_at
    then err (bad_request "expiresAt must be later than requestedAt.")
    else ok tt

abbrev same_time : Option ℕ → Option ℕ → Bool
same_time none none = true
same_time (some a) (some b) = a == b
same_time _ _ = false

-- `JSON.stringify` is a parameter: the code compares what it prints.
unfoldable pub matches : (Json → String) → Command → CreateCommand → Bool
matches stringify command dto =
    command.command_type =s dto.command_type
    && (stringify command.payload =s stringify (obj dto.payload))
    && (command.available_at == get_or dto.available_at command.requested_at)
    && same_time command.expires_at dto.expires_at
