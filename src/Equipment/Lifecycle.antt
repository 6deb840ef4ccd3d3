-- ===== src/Equipment/Lifecycle.antt =====
-- What the status policies keep true of devices, lockers and ports.
use coin_acceptor_backend.Prelude.{ℕ, Bool, true, false, ◌&&◌, Option, is_some, String, ◌≡◌, arith}
use coin_acceptor_backend.Effect.{ok}
use coin_acceptor_backend.Store.{Locker, Availability, ChargingPort, PortStatus}
use coin_acceptor_backend.Commands.{Lifecycle}
use coin_acceptor_backend.Commands.Policy.{lacks_reason}
use coin_acceptor_backend.Equipment.Policy.{
  DeviceRow, same_lifecycle, may_become, validate_lifecycle, transition_data, is_decommissioned,
  validate_locker, locker_data, locker_needs_reason, is_available, is_open, lock_faulted,
  validate_port, port_data, port_needs_reason, port_available, is_live,
}

abbrev in_maintenance : Lifecycle → Bool
in_maintenance Lifecycle.maintenance = true
in_maintenance _ = false

abbrev has_started : Lifecycle → Option ℕ → Bool
has_started Lifecycle.active activated = is_some activated
has_started _ activated = true

-- The times of a device agree with its status.
pub record IsDated (d : DeviceRow) : Type 0 where
  pub maintained : is_some d.maintenance_started_at ≡ in_maintenance d.lifecycle_status
  pub ended : is_some d.decommissioned_at ≡ is_decommissioned d.lifecycle_status
  pub started : has_started d.lifecycle_status d.activated_at ≡ true

-- An accepted change of a device's lifecycle keeps its times in step with its status: the start of
-- maintenance is set exactly in maintenance, the end exactly once decommissioned, and an active
-- device has been activated.
pub transition_data-IsDated :
    (d : DeviceRow) (next : Lifecycle) (reason : Option String) (sessions now : ℕ)
    → validate_lifecycle d.lifecycle_status next reason sessions ≡ ok tt
    → IsDated d
    → IsDated (transition_data next now d)
unfolding transition_data validate_lifecycle may_become same_lifecycle
transition_data-IsDated d next reason sessions now v h = record {
  maintained = m h.maintained;
  ended = e v h.ended;
  started = st h.started;
}
  where
    m :
        is_some d.maintenance_started_at ≡ in_maintenance d.lifecycle_status
        → is_some (transition_data next now d).maintenance_started_at
          ≡ in_maintenance (transition_data next now d).lifecycle_status
    m k = ground arith

    e :
        validate_lifecycle d.lifecycle_status next reason sessions ≡ ok tt
        → is_some d.decommissioned_at ≡ is_decommissioned d.lifecycle_status
        → is_some (transition_data next now d).decommissioned_at
          ≡ is_decommissioned (transition_data next now d).lifecycle_status
    e w k = ground arith

    st :
        has_started d.lifecycle_status d.activated_at ≡ true
        → has_started
            (transition_data next now d).lifecycle_status
            (transition_data next now d).activated_at
          ≡ true
    st k = ground arith

-- A decommissioned device or station stays so.
pub decommissioned_final :
    (next : Lifecycle) (reason : Option String) (sessions : ℕ)
    → validate_lifecycle Lifecycle.decommissioned next reason sessions ≡ ok tt
    → next ≡ Lifecycle.decommissioned
unfolding validate_lifecycle may_become same_lifecycle
decommissioned_final next reason sessions v = ground arith

-- What the status of a locker and of a port promises to the services that allocate them.
pub record IsOffered (l : Locker) : Type 0 where
  pub closed : is_available l.availability_status && is_open l.door_status ≡ false
  pub locks : is_available l.availability_status && lock_faulted l.lock_status ≡ false
  pub explained :
      locker_needs_reason l.availability_status && lacks_reason l.maintenance_reason ≡ false

-- After an accepted change of a locker's availability, it is available only with its door not open
-- and its lock not faulted, and maintenance or disabled only with a reason.
pub validate_locker-IsOffered :
    (l : Locker) (next : Availability) (reason : Option String) (sessions now : ℕ)
    → validate_locker l next reason sessions ≡ ok tt
    → IsOffered (locker_data next reason now l)
unfolding validate_locker locker_data
validate_locker-IsOffered l next reason sessions now v = record {
  closed = ground arith;
  locks = ground arith;
  explained = ground arith;
}

pub record IsPowered (p : ChargingPort) : Type 0 where
  pub idle : port_available p.status && is_live p.power_state ≡ false
  pub explained : port_needs_reason p.status && lacks_reason p.maintenance_reason ≡ false

-- After an accepted change of a port's status, it is available only with its power neither on nor
-- faulted, and maintenance or disabled only with a reason.
pub validate_port-IsPowered :
    (p : ChargingPort) (next : PortStatus) (reason : Option String) (sessions now : ℕ)
    → validate_port p next reason sessions ≡ ok tt
    → IsPowered (port_data next reason now p)
unfolding validate_port port_data
validate_port-IsPowered p next reason sessions now v = record {
  idle = ground arith;
  explained = ground arith;
}
