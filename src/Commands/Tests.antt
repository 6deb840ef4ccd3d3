-- ===== src/Commands/Tests.antt =====
-- The theorems on commands at a concrete device.
use coin_acceptor_backend.Prelude.{
  ℕ, Bool, true, false, ◌&&◌, none, some, List, [], ◌∷◌, ◌≡◌, refl, ◌↔◌, pos, All, find, ◌==◌,
}
use coin_acceptor_backend.Effect.{bad_request, Result, ok, err}
use coin_acceptor_backend.Json.{int, num, null, str, Fields, end, field}
use coin_acceptor_backend.Json.Sensitive.{assert_no_keys, normalize_key}
use coin_acceptor_backend.Store.{
  Locker, Availability, DoorStatus, LockStatus, ChargingPort, PortStatus, PowerState,
}
use coin_acceptor_backend.Commands.{
  Command, CommandStatus, AckResult, Lifecycle, Device, CommandStore,
}
use coin_acceptor_backend.Commands.Policy.{CreateCommand, assert_can_acknowledge, assert_times}
use coin_acceptor_backend.Commands.Policy.Laws.{Acks, assert_can_acknowledge_iff}
use coin_acceptor_backend.Commands.Contract.{validate_command}
use coin_acceptor_backend.Commands.Contract.Secrets.{IsSealed, validate_command-IsSealed}
use coin_acceptor_backend.Commands.Service.{
  Actor, Environment, require_device, require_extra_permission, create, insert_command,
}
use coin_acceptor_backend.Commands.Service.Laws.{
  IsAllowed, first, stored, create_twice, create_retry_late,
}
use coin_acceptor_backend.Commands.Delivery.{deliver, is_eligible, is_among, poll}
use coin_acceptor_backend.Commands.Delivery.Laws.{deliver_once}
use coin_acceptor_backend.Commands.Delivery.Polls.{Served, poll-Served}
use coin_acceptor_backend.Commands.Acknowledge.{
  AckEvent, Ack, ack_data, already_applied, ack_transaction,
}
use coin_acceptor_backend.Commands.Acknowledge.Laws.{acked_row, written, ack_transaction_moves}

abbrev device : Device
device = record { id = 2; station_id = 1; lifecycle_status = Lifecycle.active }

abbrev idle : CommandStore
idle = record { devices = device ∷ []; commands = []; audits = [] }

abbrev allowed : Actor
allowed = record { id = 6; require_station = λ p i. ok tt; has_permission = λ p i. true }

abbrev at_time : ℕ → ℕ → Environment
at_time now i = record {
  now = now;
  fresh_id = i;
  fresh_key = i;
  jsonb = λ v. v;
  stringify = λ v. "{}";
}

abbrev anything : CreateCommand → Result (Unit {0})
anything dto = ok tt

abbrev sync : CreateCommand
sync = record {
  command_type = "locker.open";
  payload = end;
  idempotency_key = some 40;
  available_at = none;
  expires_at = none;
  reason = none;
}

abbrev queued_store : CommandStore
queued_store =
    stored anything 2 40 sync allowed (at_time 1000 11) (at_time 2000 12) idle device device

first_allowed : IsAllowed anything 2 sync allowed (at_time 1000 11) idle device
unfolding require_device require_extra_permission assert_times
first_allowed = record { device = refl; station = refl; extra = refl; times = refl; payload = refl }

again_allowed : IsAllowed anything 2 sync allowed (at_time 2000 12) queued_store device
unfolding require_device require_extra_permission assert_times insert_command
again_allowed = record { device = refl; station = refl; extra = refl; times = refl; payload = refl }

create_twice_example :
    (create anything 2 sync allowed (at_time 1000 11) idle ≡ (
      ok (first anything 2 40 sync allowed (at_time 1000 11) (at_time 2000 12) idle device device),
      queued_store,
    ))
    × (create anything 2 sync allowed (at_time 2000 12) queued_store ≡ (
      ok (first anything 2 40 sync allowed (at_time 1000 11) (at_time 2000 12) idle device device),
      queued_store,
    ))
create_twice_example =
    create_twice anything 2 40 sync allowed (at_time 1000 11) (at_time 2000 12) idle device device
      refl refl refl first_allowed again_allowed

abbrev dated : CreateCommand
dated = record sync { available_at = some 1500 }

abbrev dated_store : CommandStore
dated_store =
    stored anything 2 40 dated allowed (at_time 1000 11) (at_time 2000 12) idle device device

device_found : require_device 2 dated_store ≡ (ok device, dated_store)
unfolding require_device insert_command
device_found = refl

no_extra : require_extra_permission "locker.open" none allowed device ≡ ok tt
unfolding require_extra_permission
no_extra = refl

dated_allowed : IsAllowed anything 2 dated allowed (at_time 1000 11) idle device
unfolding require_device require_extra_permission assert_times
dated_allowed = record { device = refl; station = refl; extra = refl; times = refl; payload = refl }

create_retry_late_example :
    (create anything 2 dated allowed (at_time 1000 11) idle ≡ (
      ok (first anything 2 40 dated allowed (at_time 1000 11) (at_time 2000 12) idle device device),
      dated_store,
    ))
    × (find (λ c. c.idempotency_key == 40) dated_store.commands
        ≡ some (
            first anything 2 40 dated allowed
              (at_time 1000 11)
              (at_time 2000 12)
              idle
              device
              device))
    × (create anything 2 dated allowed (at_time 2000 12) dated_store
        ≡ (err (bad_request "availableAt cannot be before requestedAt."), dated_store))
create_retry_late_example =
    create_retry_late anything 2 40 dated allowed (at_time 1000 11) (at_time 2000 12) idle device
      device 1500 refl refl dated_allowed device_found refl no_extra refl refl

abbrev command_of : ℕ → CommandStatus → Command
command_of i status = record {
  id = i;
  station_id = 1;
  device_id = 2;
  command_type = "locker.open";
  payload = null;
  status = status;
  idempotency_key = i;
  requested_by_user_id = none;
  requested_at = 1000;
  available_at = 1000;
  sent_at = none;
  acknowledged_at = none;
  completed_at = none;
  expires_at = none;
  failure_code = none;
  failure_reason = none;
  device_response = none;
  acknowledgement_event_id = none;
}

abbrev rows : List Command
rows = command_of 1 CommandStatus.queued ∷ command_of 2 CommandStatus.sent ∷ []

abbrev unlocked : ℕ → Bool
unlocked i = false

abbrev in_queue : CommandStore
in_queue = record idle { commands = rows }

poll-Served_example :
    Served 10 2 2000 2001 unlocked in_queue (poll 10 2 2000 2001 unlocked in_queue).0
poll-Served_example = poll-Served 10 2 2000 2001 unlocked in_queue

deliver_once_example :
    All
      (λ c. is_eligible 2 9000 unlocked c && is_among rows c.id ≡ false)
      (deliver rows 2 2001 rows)
deliver_once_example = deliver_once rows 2 2001 9000 unlocked rows

assert_can_acknowledge_iff_example :
    (assert_can_acknowledge CommandStatus.sent AckResult.completed ≡ ok tt)
    ↔ Acks CommandStatus.sent AckResult.completed
assert_can_acknowledge_iff_example =
    assert_can_acknowledge_iff CommandStatus.sent AckResult.completed

abbrev done : Ack
done = record { command_id = 2; result = AckResult.completed; response = end }

abbrev event : AckEvent
event = record { id = 5; device_id = 2; received_at = 3000 }

abbrev sent_row : Command
sent_row = command_of 2 CommandStatus.sent

is_new : already_applied done event sent_row ≡ false
unfolding already_applied
is_new = refl

may_complete : assert_can_acknowledge CommandStatus.sent AckResult.completed ≡ ok tt
unfolding assert_can_acknowledge
may_complete = refl

ack_transaction_moves_example :
    Acks CommandStatus.sent AckResult.completed
    × (ack_transaction done event in_queue ≡ (ok tt, written done event in_queue sent_row))
    × (acked_row done event (written done event in_queue sent_row)
        ≡ some (ack_data AckResult.completed end event sent_row))
    × ((ack_data AckResult.completed end event sent_row).status ≡ CommandStatus.completed)
    × (ack_transaction done event (written done event in_queue sent_row)
        ≡ (ok tt, written done event in_queue sent_row))
ack_transaction_moves_example =
    ack_transaction_moves done event in_queue sent_row refl is_new may_complete

abbrev locker : Locker
locker = record {
  id = 1;
  device_id = 2;
  locker_number = 1;
  availability_status = Availability.available;
  door_status = DoorStatus.closed;
  lock_status = LockStatus.locked;
  last_status_changed_at = none;
  maintenance_reason = none;
}

abbrev port : ChargingPort
port = record {
  id = 1;
  locker_id = 1;
  device_id = 2;
  port_number = 1;
  status = PortStatus.available;
  power_state = PowerState.off;
  last_status_changed_at = none;
  maintenance_reason = none;
}

abbrev prepare : Fields
prepare = field "sessionReference" (str "S-1") (
    field "accessCodeVerifier" (str "v") (
      field "durationSeconds" (num (int (pos 40)))
        (field "portNumber" (num (int (pos 1))) (field "lockerNumber" (num (int (pos 1))) end))))

accepted : validate_command (λ t. 0) (locker ∷ []) (port ∷ []) "charging.prepare" 2 prepare ≡ ok tt
unfolding validate_command assert_no_keys normalize_key
accepted = refl

validate_command-IsSealed_example : IsSealed prepare
validate_command-IsSealed_example =
    validate_command-IsSealed (λ t. 0) (locker ∷ []) (port ∷ []) 2 prepare accepted
