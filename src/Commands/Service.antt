-- ===== src/Commands/Service.antt =====
-- device-commands.service.ts: creating and cancelling commands. The checks of the actor's scope
-- and permissions are parameters (AccessControl has them), and so is what the database makes of
-- a JSONB value.
pub mod Laws
use Prim.Native.String.{◌++◌ as append}
use coin_acceptor_backend.Prelude.{
  ℕ, Bool, true, false, not, ◌&&◌, Option, none, some, get_or, String, List, ◌==◌, ◌=s◌, find,
  if◌then◌else◌,
}
use coin_acceptor_backend.Effect.{
  Error, forbidden, not_found, conflict, Result, ok, err, Action, ◌>>=◌, ◌>>◌, pure, gets, modify,
  throw, throw_if, lift, or_throw, then_result,
}
use coin_acceptor_backend.Table.{insert, update_where}
use coin_acceptor_backend.Json.{Json, obj}
use coin_acceptor_backend.Store.{AuditEntry}
use coin_acceptor_backend.Commands.{
  Command, CommandStatus, Lifecycle, Device, CommandStore, command_has_id,
}
use coin_acceptor_backend.Commands.Policy.{
  CreateCommand, extra_permission, assert_reason, assert_times, assert_can_cancel, matches,
}

-- The acting user, as the other services answer for it.
pub record Actor : Type 0 where
  pub id : ℕ
  -- `scope.requireStation(actor, permission, station)`
  pub require_station : String → ℕ → Result (Unit {0})
  -- `permissions.hasPermission(actor, permission, station)`
  pub has_permission : String → ℕ → Bool

-- What stands outside: the generated id and key, the store's reading of JSONB, `JSON.stringify`.
pub record Environment : Type 0 where
  pub now : ℕ
  pub fresh_id : ℕ
  pub fresh_key : ℕ
  pub jsonb : Json → Json
  pub stringify : Json → String

abbrev pub audit_command : AuditEntry → CommandStore → CommandStore
audit_command a s = record s { audits = insert a s.audits }

abbrev is_decommissioned : Lifecycle → Bool
is_decommissioned Lifecycle.decommissioned = true
is_decommissioned _ = false

-- `requireDevice`
unfoldable pub require_device : ℕ → Action CommandStore Device
require_device i = do
  d ← or_throw (← gets (λ s. find (λ d. d.id == i) s.devices)) (not_found "Device not found.")
  throw_if (is_decommissioned d.lifecycle_status) (conflict "Device is decommissioned.")
  pure d

abbrev extra_by : Option String → String → Option String → Actor → Device → Result (Unit {0})
extra_by none type reason actor d = ok tt
extra_by (some permission) type reason actor d = then_result (assert_reason type reason) λ _.
    if actor.has_permission permission d.station_id
    then ok tt
    else err (forbidden "Missing command-specific permission.")

-- `requireExtraPermission`
unfoldable pub require_extra_permission :
    String → Option String → Actor → Device → Result (Unit {0})
unfolding extra_permission assert_reason
require_extra_permission type reason actor d = extra_by (extra_permission type) type reason actor d

unfoldable pub new_command : Device → CreateCommand → Actor → Environment → ℕ → Command
new_command d dto actor env key = record {
  id = env.fresh_id;
  station_id = d.station_id;
  device_id = d.id;
  command_type = dto.command_type;
  payload = env.jsonb (obj dto.payload);
  status = CommandStatus.queued;
  idempotency_key = key;
  requested_by_user_id = some actor.id;
  requested_at = env.now;
  available_at = get_or dto.available_at env.now;
  sent_at = none;
  acknowledged_at = none;
  completed_at = none;
  expires_at = dto.expires_at;
  failure_code = none;
  failure_reason = none;
  device_response = none;
  acknowledgement_event_id = none;
}

abbrev entry : String → ℕ → ℕ → Option String → AuditEntry
entry action i station reason = record {
  action = action;
  entity_id = some i;
  station_id = some station;
  reason = reason;
}

-- The second entry for an emergency opening.
abbrev audit_emergency : Device → CreateCommand → ℕ → CommandStore → CommandStore
audit_emergency d dto i s =
    if dto.command_type =s "locker.emergency_open"
    then audit_command (entry "lockers.emergency_open.commanded" i d.station_id dto.reason) s
    else s

-- `insert`
unfoldable pub insert_command :
    Device → CreateCommand → Actor → Environment → ℕ → Action CommandStore Command
unfolding new_command
insert_command d dto actor env key = do
  let created = new_command d dto actor env key
  modify (λ s. record s { commands = insert created s.commands })
  modify (
      audit_command (
        entry (append "device_commands." (append dto.command_type ".requested")) env.fresh_id
          d.station_id dto.reason))
  modify (audit_emergency d dto env.fresh_id)
  pure created

abbrev reuse_or_insert :
    Option Command → Device → CreateCommand → Actor → Environment → ℕ → Action CommandStore Command
reuse_or_insert none d dto actor env key = insert_command d dto actor env key
reuse_or_insert (some existing) d dto actor env key =
    if matches env.stringify existing dto
    then pure existing
    else throw (conflict "Idempotency key conflicts with another command.")

-- `create`; `validate` is the payload validation of Commands.Contract for the device.
unfoldable pub create :
    (CreateCommand → Result (Unit {0}))
    → ℕ
    → CreateCommand
    → Actor
    → Environment
    → Action CommandStore Command
unfolding require_device require_extra_permission assert_times insert_command matches
create validate device_id dto actor env = do
  d ← require_device device_id
  lift (actor.require_station "device_commands.create" d.station_id)
  lift (require_extra_permission dto.command_type dto.reason actor d)
  lift (assert_times dto env.now)
  lift (validate dto)
  let key = get_or dto.idempotency_key env.fresh_key
  existing ← gets (λ s. find (λ c. c.idempotency_key == key) s.commands)
  reuse_or_insert existing d dto actor env key

unfoldable pub cancel_command_row : String → Command → Command
cancel_command_row reason c = record c {
  status = CommandStatus.cancelled;
  failure_reason = some reason;
}

-- `cancel`, up to its write: the row that was read.
unfoldable pub cancel_check : ℕ → Actor → Action CommandStore Command
unfolding assert_can_cancel
cancel_check i actor = do
  c ←
      or_throw (← gets (λ s. find (command_has_id i) s.commands))
        (not_found "Device command not found.")
  lift (actor.require_station "device_commands.cancel" c.station_id)
  lift (assert_can_cancel c.status)
  pure c

-- The write and its audit entry, for the row that was read.
unfoldable pub cancel_write : Command → String → CommandStore → CommandStore
unfolding cancel_command_row
cancel_write c reason s =
    audit_command (entry "device_commands.cancelled" c.id c.station_id (some reason)) (record s {
      commands = update_where (command_has_id c.id) (cancel_command_row reason) s.commands;
    })

unfoldable pub cancel : ℕ → String → Actor → Action CommandStore Command
unfolding cancel_check cancel_write
cancel i reason actor = do
  c ← cancel_check i actor
  modify (cancel_write c reason)
  pure (cancel_command_row reason c)
