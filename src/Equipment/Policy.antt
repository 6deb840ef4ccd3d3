-- ===== src/Equipment/Policy.antt =====
-- station-status.policy.ts, device-lifecycle.policy.ts, locker-availability.policy.ts and
-- charging-port-status.policy.ts. The statuses are those that the request DTOs admit.
use coin_acceptor_backend.Prelude.{
  ℕ, Bool, true, false, not, ◌&&◌, Option, none, some, String, ltb, if◌then◌else◌,
}
use coin_acceptor_backend.Effect.{bad_request, conflict, Result, ok, err}
use coin_acceptor_backend.Store.{
  Locker, Availability, DoorStatus, LockStatus, ChargingPort, PortStatus, PowerState,
}
use coin_acceptor_backend.Commands.{Lifecycle}
use coin_acceptor_backend.Commands.Policy.{lacks_reason}

-- The columns of `devices` that a status change reads and writes.
pub record DeviceRow : Type 0 where
  pub lifecycle_status : Lifecycle
  pub activated_at : Option ℕ
  pub maintenance_started_at : Option ℕ
  pub decommissioned_at : Option ℕ

unfoldable pub same_lifecycle : Lifecycle → Lifecycle → Bool
same_lifecycle Lifecycle.pending Lifecycle.pending = true
same_lifecycle Lifecycle.active Lifecycle.active = true
same_lifecycle Lifecycle.maintenance Lifecycle.maintenance = true
same_lifecycle Lifecycle.disabled Lifecycle.disabled = true
same_lifecycle Lifecycle.decommissioned Lifecycle.decommissioned = true
same_lifecycle _ _ = false

-- The table of transitions.
unfoldable pub may_become : Lifecycle → Lifecycle → Bool
may_become Lifecycle.pending Lifecycle.active = true
may_become Lifecycle.pending Lifecycle.disabled = true
may_become Lifecycle.active Lifecycle.maintenance = true
may_become Lifecycle.active Lifecycle.disabled = true
may_become Lifecycle.active Lifecycle.decommissioned = true
may_become Lifecycle.maintenance Lifecycle.active = true
may_become Lifecycle.maintenance Lifecycle.disabled = true
may_become Lifecycle.maintenance Lifecycle.decommissioned = true
may_become Lifecycle.disabled Lifecycle.active = true
may_become Lifecycle.disabled Lifecycle.decommissioned = true
may_become _ _ = false

-- The statuses that need a reason.
abbrev pub needs_reason : Lifecycle → Bool
needs_reason Lifecycle.maintenance = true
needs_reason Lifecycle.disabled = true
needs_reason Lifecycle.decommissioned = true
needs_reason _ = false

abbrev pub is_decommissioned : Lifecycle → Bool
is_decommissioned Lifecycle.decommissioned = true
is_decommissioned _ = false

-- `DeviceLifecyclePolicy.validate`
unfoldable pub validate_lifecycle : Lifecycle → Lifecycle → Option String → ℕ → Result (Unit {0})
unfolding may_become same_lifecycle
validate_lifecycle current next reason sessions =
    if not (may_become current next) && not (same_lifecycle current next)
    then err (conflict "Invalid lifecycle status transition.")
    else if needs_reason next && lacks_reason reason
    then err (bad_request "A reason is required.")
    else if is_decommissioned next && ltb 0 sessions
    then err (conflict "Device has an active charging session.")
    else ok tt

abbrev first_time : Option ℕ → ℕ → Option ℕ
first_time none now = some now
first_time (some t) now = some t

-- Leaving maintenance clears its start.
abbrev after_leaving : Lifecycle → Option ℕ → Option ℕ
after_leaving Lifecycle.maintenance started = none
after_leaving _ started = started

-- `transitionData`, written over the row; of its spreads that name a column the last decides.
unfoldable pub transition_data : Lifecycle → ℕ → DeviceRow → DeviceRow
transition_data Lifecycle.active now d = record d {
  lifecycle_status = Lifecycle.active;
  activated_at = first_time d.activated_at now;
  maintenance_started_at = none;
}
transition_data Lifecycle.maintenance now d = record d {
  lifecycle_status = Lifecycle.maintenance;
  maintenance_started_at = some now;
}
transition_data Lifecycle.decommissioned now d = record d {
  lifecycle_status = Lifecycle.decommissioned;
  maintenance_started_at = after_leaving d.lifecycle_status d.maintenance_started_at;
  decommissioned_at = some now;
}
transition_data Lifecycle.disabled now d = record d {
  lifecycle_status = Lifecycle.disabled;
  maintenance_started_at = after_leaving d.lifecycle_status d.maintenance_started_at;
}
transition_data Lifecycle.pending now d = record d {
  lifecycle_status = Lifecycle.pending;
  maintenance_started_at = after_leaving d.lifecycle_status d.maintenance_started_at;
}

pub data StationStatus : Type 0 where
  active maintenance inactive decommissioned : StationStatus

abbrev station_needs_reason : StationStatus → Bool
station_needs_reason StationStatus.active = false
station_needs_reason _ = true

abbrev pub station_closed : StationStatus → Bool
station_closed StationStatus.decommissioned = true
station_closed _ = false

-- `StationStatusPolicy.validate`; `devices` counts those that are not decommissioned.
unfoldable pub validate_station :
    StationStatus → StationStatus → Option String → ℕ → Result (Unit {0})
validate_station current next reason devices =
    if station_needs_reason next && lacks_reason reason
    then err (bad_request "A reason is required.")
    else if station_closed current && not (station_closed next)
    then err (conflict "Decommissioned stations cannot be reactivated.")
    else if station_closed next && ltb 0 devices
    then err (conflict "Station has devices that are not decommissioned.")
    else ok tt

abbrev pub locker_needs_reason : Availability → Bool
locker_needs_reason Availability.maintenance = true
locker_needs_reason Availability.disabled = true
locker_needs_reason _ = false

abbrev pub is_available : Availability → Bool
is_available Availability.available = true
is_available _ = false

abbrev pub is_open : DoorStatus → Bool
is_open DoorStatus.open_door = true
is_open _ = false

abbrev pub lock_faulted : LockStatus → Bool
lock_faulted LockStatus.fault = true
lock_faulted _ = false

-- `LockerAvailabilityPolicy.validate` and `data`
unfoldable pub validate_locker : Locker → Availability → Option String → ℕ → Result (Unit {0})
validate_locker l next reason sessions =
    if locker_needs_reason next && lacks_reason reason
    then err (bad_request "A reason is required.")
    else if ltb 0 sessions
    then err (conflict "Locker has an active charging session.")
    else if is_available next && is_open l.door_status
    then err (conflict "Open lockers cannot be marked available.")
    else if is_available next && lock_faulted l.lock_status
    then err (conflict "Faulted locks cannot be marked available.")
    else ok tt

abbrev kept_reason : Option String → Option String → Option String
kept_reason none old = old
kept_reason (some r) old = some r

unfoldable pub locker_data : Availability → Option String → ℕ → Locker → Locker
locker_data next reason now l = record l {
  availability_status = next;
  last_status_changed_at = some now;
  maintenance_reason = if is_available next then none else kept_reason reason l.maintenance_reason;
}

abbrev pub port_needs_reason : PortStatus → Bool
port_needs_reason PortStatus.maintenance = true
port_needs_reason PortStatus.disabled = true
port_needs_reason _ = false

abbrev pub port_available : PortStatus → Bool
port_available PortStatus.available = true
port_available _ = false

abbrev pub is_live : PowerState → Bool
is_live PowerState.on = true
is_live PowerState.fault = true
is_live _ = false

-- `ChargingPortStatusPolicy.validate` and `data`
unfoldable pub validate_port : ChargingPort → PortStatus → Option String → ℕ → Result (Unit {0})
validate_port p next reason sessions =
    if port_needs_reason next && lacks_reason reason
    then err (bad_request "A reason is required.")
    else if port_needs_reason next && ltb 0 sessions
    then err (conflict "Port has an active charging session.")
    else if port_available next && is_live p.power_state
    then err (conflict "Port power state prevents availability.")
    else ok tt

unfoldable pub port_data : PortStatus → Option String → ℕ → ChargingPort → ChargingPort
port_data next reason now p = record p {
  status = next;
  last_status_changed_at = some now;
  maintenance_reason =
      if port_available next then none else kept_reason reason p.maintenance_reason;
}
