-- ===== src/Ingestion/Handlers.antt =====
-- The handlers of device events that write to devices, lockers and ports: handler-utils.ts,
-- heartbeat-event.handler.ts, telemetry-event.handler.ts, locker-event.handler.ts and
-- charging-port-event.handler.ts. Status columns are the texts that devices report.
pub mod Places
pub mod Readings
use coin_acceptor_backend.Prelude.{
  ℕ, ℤ, pos, negsuc, Bool, true, false, not, ◌&&◌, ◌||◌, Option, none, some, is_some, get_or,
  or_else, String, List, [], ◌∷◌, ◌==◌, ◌=s◌, find, any, codes, is_blank, if◌then◌else◌, ltb,
}
use coin_acceptor_backend.Effect.{
  Error, bad_request, not_found, database, Result, ok, err, Action, ◌>>=◌, ◌>>◌, pure, gets, modify,
  throw, throw_if, lift, or_throw, check, then_result,
}
use coin_acceptor_backend.Table.{insert, update_where, count_where}
use coin_acceptor_backend.Json.{
  Json, Num, int, frac, str, num, bool, obj, arr, null, Fields, end, get, is_integer, num_lt,
  num_gt,
}
use coin_acceptor_backend.Ingestion.Events.{Event, Handler}

-- `stringValue`, `numberValue`, `booleanValue` and `objectValue`. A JSON number is finite.
unfoldable pub string_at : String → Fields → Option String
unfolding get
string_at key payload = text_of (get key payload)
  where
    text_of : Option Json → Option String
    text_of (some (str t)) = if is_blank (codes t) then none else some t
    text_of _ = none

unfoldable pub number_at : String → Fields → Option Num
unfolding get
number_at key payload = number_of (get key payload)
  where
    number_of : Option Json → Option Num
    number_of (some (num n)) = some n
    number_of _ = none

unfoldable pub boolean_at : String → Fields → Option Bool
unfolding get
boolean_at key payload = boolean_of (get key payload)
  where
    boolean_of : Option Json → Option Bool
    boolean_of (some (bool b)) = some b
    boolean_of _ = none

unfoldable pub object_at : String → Fields → Result Fields
unfolding get
object_at key payload = object_of (get key payload)
  where
    object_of : Option Json → Result Fields
    object_of none = ok end
    object_of (some (obj fs)) = ok fs
    object_of (some _) = err (bad_request "must be an object.")

-- `assertIn`
unfoldable pub assert_in : Option String → List String → Result (Unit {0})
assert_in none allowed = ok tt
assert_in (some v) allowed =
    check (any (λ x. x =s v) allowed) (bad_request "Payload contains an invalid status value.")

abbrev pub power_sources : List String
power_sources = "grid" ∷ "backup_battery" ∷ "none" ∷ "unknown" ∷ []

abbrev pub operational_statuses : List String
operational_statuses =
    "idle" ∷ "in_use" ∷ "partially_available" ∷ "fault" ∷ "maintenance" ∷ "offline" ∷ []

pub record FieldDevice : Type 0 where
  pub id : ℕ
  pub is_decommissioned : Bool
  pub connectivity_status : String
  pub operational_status : String
  pub current_power_source : String
  pub firmware_version : Option String
  pub last_seen_at : Option ℕ

pub record FieldLocker : Type 0 where
  pub id : String
  pub device_id : ℕ
  pub locker_number : ℕ
  pub door_status : String
  pub lock_status : String
  pub sensor_status : String
  pub last_seen_at : Option ℕ
  pub last_status_changed_at : Option ℕ

pub record FieldPort : Type 0 where
  pub id : String
  pub device_id : ℕ
  pub port_number : ℕ
  pub hardware_channel : String
  pub status : String
  pub power_state : String
  pub active_sessions : ℕ
  pub last_status_changed_at : Option ℕ

pub record Telemetry : Type 0 where
  pub device_event_id : ℕ
  pub station_id : ℕ
  pub device_id : ℕ
  pub observed_at : ℕ
  pub power_source : String
  pub grid_available : Option Bool
  pub input_voltage : Option Num
  pub output_voltage : Option Num
  pub output_current_ma : Option Num
  pub output_power_watts : Option Num
  pub battery_voltage : Option Num
  pub battery_percentage : Option Num
  pub temperature_celsius : Option Num
  pub connectivity_signal_dbm : Option Num
  pub active_session_count : Option Num
  pub available_locker_count : Option Num
  pub fault_code : Option String
  pub metrics : Fields

pub record FieldStore : Type 0 where
  pub devices : List FieldDevice
  pub lockers : List FieldLocker
  pub ports : List FieldPort
  pub telemetry : List Telemetry

abbrev pub payload_of : Event → Fields
payload_of e = elim e.payload [
  | null ↦ end
  | bool _ ↦ end
  | num _ ↦ end
  | str _ ↦ end
  | arr _ ↦ end
  | obj fs ↦ fs
]

abbrev device_is : ℕ → FieldDevice → Bool
device_is i d = d.id == i

abbrev pub update_device : ℕ → (FieldDevice → FieldDevice) → Action FieldStore (Unit {0})
update_device i f = do
  d ← gets (λ s. find (device_is i) s.devices)
  or_throw d (database "P2025")
  modify (λ s. record s { devices = update_where (device_is i) f s.devices })

-- A column that is `undefined` in the data is left as it is.
unfoldable pub heartbeat_data : Event → FieldDevice → FieldDevice
unfolding string_at
heartbeat_data e d =
    if d.is_decommissioned
    then record d {
      last_seen_at = some e.received_at;
      firmware_version = or_else e.firmware_version d.firmware_version;
    }
    else record d {
      last_seen_at = some e.received_at;
      firmware_version = or_else e.firmware_version d.firmware_version;
      connectivity_status = "online";
      operational_status =
          get_or (string_at "operationalStatus" (payload_of e)) d.operational_status;
      current_power_source = get_or (string_at "powerSource" (payload_of e)) d.current_power_source;
    }

unfoldable pub handle_heartbeat : Event → Action FieldStore (Unit {0})
unfolding assert_in heartbeat_data string_at
handle_heartbeat e = do
  lift (assert_in (string_at "operationalStatus" (payload_of e)) operational_statuses)
  lift (assert_in (string_at "powerSource" (payload_of e)) power_sources)
  update_device e.device_id (heartbeat_data e)

abbrev pub is_heartbeat : String → String → Bool
is_heartbeat category type = (category =s "heartbeat") && (type =s "device.heartbeat")
