-- ===== src/Ingestion/Handlers/Readings.antt =====
-- telemetry-event.handler.ts.
use coin_acceptor_backend.Prelude.{
  ℕ, ℤ, pos, negsuc, Bool, false, not, ◌&&◌, Option, none, some, is_some, get_or, String, ◌==◌,
  ◌=s◌, any, if◌then◌else◌,
}
use coin_acceptor_backend.Effect.{
  bad_request, database, Result, ok, err, Action, ◌>>=◌, ◌>>◌, pure, gets, modify, throw_if, lift,
  check, then_result,
}
use coin_acceptor_backend.Table.{insert}
use coin_acceptor_backend.Json.{Num, Fields, is_integer, num_lt, num_gt}
use coin_acceptor_backend.Ingestion.Events.{Event}
use coin_acceptor_backend.Ingestion.Handlers.{
  string_at, number_at, boolean_at, object_at, power_sources, payload_of, FieldDevice, Telemetry,
  FieldStore, update_device,
}

-- `range`, and `nonnegative`, which has no upper bound.
abbrev within : Option ℤ → Option ℤ → Num → Bool
within low high n =
    not (elim low [ none ↦ false | some b ↦ num_lt n b ])
    && not (elim high [ none ↦ false | some b ↦ num_gt n b ])

abbrev checked : String → Option ℤ → Option ℤ → Option Num → Result (Option Num)
checked key low high none = ok none
checked key low high (some n) = if within low high n then ok (some n) else err (bad_request key)

abbrev whole : String → Option Num → Result (Option Num)
whole key none = ok none
whole key (some n) = if is_integer n then ok (some n) else err (bad_request key)

unfoldable pub nonnegative : Fields → String → Result (Option Num)
unfolding number_at
nonnegative payload key = checked key (some (pos 0)) none (number_at key payload)

unfoldable pub nonnegative_int : Fields → String → Result (Option Num)
unfolding nonnegative
nonnegative_int payload key = then_result (nonnegative payload key) (whole key)

unfoldable pub range : Fields → String → ℤ → ℤ → Result (Option Num)
unfolding number_at
range payload key low high = checked key (some low) (some high) (number_at key payload)

unfoldable pub range_int : Fields → String → ℤ → ℤ → Result (Option Num)
unfolding range
range_int payload key low high = then_result (range payload key low high) (whole key)

abbrev known_source : String → Result (Unit {0})
known_source t = check (any (λ x. x =s t) power_sources) (bad_request "Invalid powerSource.")

abbrev observed : (String → Option ℕ) → Event → Option String → ℕ
observed parse_date e none = e.occurred_at
observed parse_date e (some t) = get_or (parse_date t) 0

-- `telemetryData`; a time that cannot be read is refused by the database.
unfoldable pub telemetry_data : (String → Option ℕ) → Event → Action FieldStore Telemetry
unfolding nonnegative nonnegative_int range range_int string_at boolean_at object_at
telemetry_data parse_date e = do
  let payload = payload_of e
  let source = get_or (string_at "powerSource" payload) "unknown"
  lift (known_source source)
  input_voltage ← lift (nonnegative payload "inputVoltage")
  output_voltage ← lift (nonnegative payload "outputVoltage")
  output_current ← lift (nonnegative_int payload "outputCurrentMa")
  output_power ← lift (nonnegative payload "outputPowerWatts")
  battery_voltage ← lift (nonnegative payload "batteryVoltage")
  battery ← lift (range payload "batteryPercentage" (pos 0) (pos 100))
  temperature ← lift (range payload "temperatureCelsius" (negsuc 99) (pos 200))
  signal ← lift (range_int payload "connectivitySignalDbm" (negsuc 199) (pos 0))
  sessions ← lift (nonnegative_int payload "activeSessionCount")
  lockers ← lift (nonnegative_int payload "availableLockerCount")
  metrics ← lift (object_at "metrics" payload)
  pure (record {
    device_event_id = e.id;
    station_id = e.station_id;
    device_id = e.device_id;
    observed_at = observed parse_date e (string_at "observedAt" payload);
    power_source = source;
    grid_available = boolean_at "gridAvailable" payload;
    input_voltage = input_voltage;
    output_voltage = output_voltage;
    output_current_ma = output_current;
    output_power_watts = output_power;
    battery_voltage = battery_voltage;
    battery_percentage = battery;
    temperature_celsius = temperature;
    connectivity_signal_dbm = signal;
    active_session_count = sessions;
    available_locker_count = lockers;
    fault_code = string_at "faultCode" payload;
    metrics = metrics;
  })

abbrev unreadable_time : (String → Option ℕ) → Option String → Bool
unreadable_time parse_date none = false
unreadable_time parse_date (some t) = not (is_some (parse_date t))

abbrev seen : Event → Telemetry → FieldDevice → FieldDevice
seen e row d = record d {
  last_seen_at = some e.received_at;
  connectivity_status = "online";
  current_power_source = row.power_source;
}

-- Each event has one row of telemetry.
unfoldable pub handle_telemetry : (String → Option ℕ) → Event → Action FieldStore (Unit {0})
unfolding telemetry_data
handle_telemetry parse_date e = do
  row ← telemetry_data parse_date e
  throw_if (unreadable_time parse_date (string_at "observedAt" (payload_of e)))
      (database "invalid date")
  taken ← gets (λ s. any (λ x. x.device_event_id == e.id) s.telemetry)
  throw_if taken (database "P2002")
  modify (λ s. record s { telemetry = insert row s.telemetry })
  update_device e.device_id (seen e row)

abbrev pub is_telemetry : String → String → Bool
is_telemetry category type = category =s "telemetry"
