-- ===== src/Ingestion/Handlers/Places.antt =====
-- locker-event.handler.ts and charging-port-event.handler.ts.
use coin_acceptor_backend.Prelude.{
  ℕ, pos, Bool, true, false, not, ◌&&◌, ◌||◌, Option, none, some, is_some, get_or, or_else, String,
  List, [], ◌∷◌, ◌==◌, ◌=s◌, find, any, if◌then◌else◌, ltb,
}
use coin_acceptor_backend.Effect.{
  bad_request, not_found, database, Result, Action, ◌>>=◌, ◌>>◌, gets, modify, throw, throw_if,
  lift, or_throw, then_result,
}
use coin_acceptor_backend.Table.{update_where}
use coin_acceptor_backend.Json.{Num, int}
use coin_acceptor_backend.Ingestion.Events.{Event}
use coin_acceptor_backend.Ingestion.Handlers.{
  string_at, number_at, assert_in, power_sources, payload_of, FieldDevice, FieldLocker, FieldPort,
  FieldStore, update_device,
}

abbrev one_of : String → List String → Bool
one_of t ts = any (λ x. x =s t) ts

abbrev pub is_locker_event : String → String → Bool
is_locker_event category type =
    (category =s "locker")
    && one_of type (
        "locker.status" ∷ "locker.door_opened" ∷ "locker.door_closed" ∷ "locker.locked"
        ∷ "locker.unlocked" ∷ "locker.sensor_fault" ∷ [])

-- A column compared with a number of the payload.
abbrev is_number : Num → ℕ → Bool
is_number (int (pos m)) n = n == m
is_number _ n = false

abbrev locker_is : ℕ → String → FieldLocker → Bool
locker_is device i l = (l.id =s i) && l.device_id == device

abbrev locker_numbered : ℕ → Num → FieldLocker → Bool
locker_numbered device n l = l.device_id == device && is_number n l.locker_number

-- `findLocker`
abbrev pub find_locker : ℕ → Option String → Option Num → Action FieldStore FieldLocker
find_locker device (some i) _ = do
  l ← gets (λ s. find (locker_is device i) s.lockers)
  or_throw l (not_found "Locker not found.")
find_locker device none none = throw (bad_request "Locker identity is required.")
find_locker device none (some n) = do
  l ← gets (λ s. find (locker_numbered device n) s.lockers)
  or_throw l (database "P2025")

unfoldable pub door_from_event : Event → Option String
unfolding string_at
door_from_event e =
    if e.event_type =s "locker.door_opened"
    then some "open"
    else if e.event_type =s "locker.door_closed"
    then some "closed"
    else string_at "doorStatus" (payload_of e)

unfoldable pub lock_from_event : Event → Option String
unfolding string_at
lock_from_event e =
    if e.event_type =s "locker.locked"
    then some "locked"
    else if e.event_type =s "locker.unlocked"
    then some "unlocked"
    else string_at "lockStatus" (payload_of e)

unfoldable pub sensor_from_event : Event → Option String
unfolding string_at
sensor_from_event e =
    if e.event_type =s "locker.sensor_fault"
    then some "fault"
    else string_at "sensorStatus" (payload_of e)

-- The checks of `lockerStatuses`, and the columns that it gives.
unfoldable pub locker_statuses : Event → Result (Unit {0})
unfolding assert_in door_from_event lock_from_event sensor_from_event
locker_statuses e =
    then_result (assert_in (door_from_event e) ("open" ∷ "closed" ∷ "unknown" ∷ [])) (λ _.
      then_result (assert_in (lock_from_event e) ("locked" ∷ "unlocked" ∷ "unknown" ∷ "fault" ∷ []))
        (λ _. assert_in (sensor_from_event e) ("normal" ∷ "fault" ∷ "unknown" ∷ [])))

unfoldable pub locker_event_data : Event → FieldLocker → FieldLocker
unfolding door_from_event lock_from_event sensor_from_event
locker_event_data e l = record l {
  door_status = get_or (door_from_event e) l.door_status;
  lock_status = get_or (lock_from_event e) l.lock_status;
  sensor_status = get_or (sensor_from_event e) l.sensor_status;
  last_seen_at = some e.received_at;
  last_status_changed_at = some e.received_at;
}

unfoldable pub handle_locker : Event → Action FieldStore (Unit {0})
unfolding string_at number_at locker_statuses locker_event_data
handle_locker e = do
  l ←
      find_locker e.device_id (string_at "lockerId" (payload_of e))
        (number_at "lockerNumber" (payload_of e))
  lift (locker_statuses e)
  modify
      (λ s. record s { lockers = update_where (λ x. x.id =s l.id) (locker_event_data e) s.lockers })

abbrev pub is_port_event : String → String → Bool
is_port_event category type =
    (category =s "power")
    && one_of type (
        "power.source_changed" ∷ "port.status" ∷ "port.power_on" ∷ "port.power_off" ∷ "port.fault"
        ∷ [])

-- A filter that is left out where the payload has no such value; 0 counts as none.
abbrev maybe_text : Option String → String → Bool
maybe_text none t = true
maybe_text (some v) t = t =s v

abbrev is_zero : Num → Bool
is_zero (int (pos ℕ.zero)) = true
is_zero _ = false

abbrev maybe_number : Option Num → ℕ → Bool
maybe_number none n = true
maybe_number (some v) n = is_zero v || is_number v n

unfoldable pub port_matches : Event → FieldPort → Bool
unfolding string_at number_at
port_matches e p =
    p.device_id == e.device_id
    && maybe_text (string_at "portId" (payload_of e)) p.id
    && maybe_number (number_at "portNumber" (payload_of e)) p.port_number
    && maybe_text (string_at "hardwareChannel" (payload_of e)) p.hardware_channel

abbrev has_port_identity : Event → Bool
has_port_identity e =
    is_some (string_at "portId" (payload_of e))
    || is_some (number_at "portNumber" (payload_of e))
    || is_some (string_at "hardwareChannel" (payload_of e))

unfoldable pub port_status : Event → Option String
unfolding string_at
port_status e =
    or_else (string_at "status" (payload_of e))
      (if e.event_type =s "port.fault" then some "fault" else none)

unfoldable pub power_from_event : Event → Option String
power_from_event e =
    if e.event_type =s "port.power_on"
    then some "on"
    else if e.event_type =s "port.power_off"
    then some "off"
    else if e.event_type =s "port.fault"
    then some "fault"
    else none

unfoldable pub port_power : Event → Option String
unfolding string_at power_from_event
port_power e = or_else (string_at "powerState" (payload_of e)) (power_from_event e)

abbrev says_available : Option String → Bool
says_available none = false
says_available (some t) = t =s "available"

-- `portData`
unfoldable pub port_event_data : Event → FieldPort → FieldPort
unfolding port_status port_power
port_event_data e p = record p {
  status = get_or (port_status e) p.status;
  power_state = get_or (port_power e) p.power_state;
  last_status_changed_at = some e.received_at;
}

abbrev pub update_port : Event → FieldPort → Action FieldStore (Unit {0})
update_port e p = do
  lift (
      assert_in (port_status e)
        ("available" ∷ "in_use" ∷ "maintenance" ∷ "disabled" ∷ "fault" ∷ []))
  lift (assert_in (port_power e) ("on" ∷ "off" ∷ "fault" ∷ "unknown" ∷ []))
  throw_if (says_available (port_status e) && ltb 0 p.active_sessions)
      (bad_request "Port has an active charging session.")
  modify (λ s. record s { ports = update_where (λ x. x.id =s p.id) (port_event_data e) s.ports })

unfoldable pub power_source_data : Event → FieldDevice → FieldDevice
unfolding string_at
power_source_data e d = record d {
  current_power_source = get_or (string_at "powerSource" (payload_of e)) d.current_power_source;
  operational_status = get_or (string_at "operationalStatus" (payload_of e)) d.operational_status;
}

abbrev update_power_source : Event → Action FieldStore (Unit {0})
update_power_source e =
    lift (assert_in (string_at "powerSource" (payload_of e)) power_sources)
    >> update_device e.device_id (power_source_data e)

abbrev update_found_port : Event → Action FieldStore (Unit {0})
update_found_port e = do
  throw_if (not (has_port_identity e)) (bad_request "Port identity is required.")
  p ← or_throw (← gets (λ s. find (port_matches e) s.ports)) (database "P2025")
  update_port e p

unfoldable pub handle_port : Event → Action FieldStore (Unit {0})
unfolding assert_in port_matches port_event_data power_source_data
handle_port e =
    if e.event_type =s "power.source_changed" then update_power_source e else update_found_port e
