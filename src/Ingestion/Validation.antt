-- ===== src/Ingestion/Validation.antt =====
-- device-event-validator.service.ts and hardware-event-contract.validator.ts.
use coin_acceptor_backend.Prelude.{
  ℕ, ◌+◌, ◌*◌, Bool, false, Option, some, is_some, String, ◌=s◌, ltb, if◌then◌else◌,
}
use Prim.Native.String.{◌++◌ as append}
use coin_acceptor_backend.Effect.{bad_request, Result, ok, err, check}
use coin_acceptor_backend.Json.{Json, Fields, str, obj, get}
use coin_acceptor_backend.Json.Sensitive.{event_assert_safe}
use coin_acceptor_backend.Commands.Contract.{◌&>◌, require_string, require_positive_int}
use coin_acceptor_backend.Ingestion.Events.{EventRequest}

abbrev readable : (String → Option ℕ) → Option Json → Bool
readable parse_date (some (str t)) = is_some (parse_date t)
readable parse_date _ = false

unfoldable pub require_iso_string : (String → Option ℕ) → Option Json → String → Result (Unit {0})
require_iso_string parse_date value name =
    check (readable parse_date value) (bad_request (append name " must be an ISO-8601 timestamp."))

abbrev coin_contract : (String → Option ℕ) → Fields → Result (Unit {0})
coin_contract parse_date payload =
    require_string (get "paymentReference" payload) "paymentReference"
    &> require_positive_int (get "pulseCount" payload) "pulseCount"
    &> require_iso_string parse_date (get "insertedAt" payload) "insertedAt"

abbrev ack_contract : Fields → Result (Unit {0})
ack_contract payload =
    require_string (get "commandId" payload) "commandId"
    &> require_string (get "result" payload) "result"

unfoldable pub validate_hardware_event : (String → Option ℕ) → String → Fields → Result (Unit {0})
unfolding require_string require_positive_int require_iso_string get
validate_hardware_event parse_date type payload =
    if type =s "payment.coin_inserted"
    then coin_contract parse_date payload
    else if type =s "command.acknowledged"
    then ack_contract payload
    else ok tt

abbrev with_object : (String → Option ℕ) → EventRequest → Result (Unit {0})
with_object parse_date dto = by_payload dto.payload
  where
    by_payload : Json → Result (Unit {0})
    by_payload (obj fs) =
        event_assert_safe (obj fs) &> validate_hardware_event parse_date dto.event_type fs
    by_payload _ = err (bad_request "payload must be an object.")

-- `validate`, for an `occurredAt` that has been read as a time.
unfoldable pub validate_event : (String → Option ℕ) → ℕ → ℕ → EventRequest → Result (Unit {0})
unfolding validate_hardware_event event_assert_safe
validate_event parse_date max_future_seconds now dto =
    if ltb (now + max_future_seconds * 1000) dto.occurred_at
    then err (bad_request "occurredAt is too far in the future.")
    else with_object parse_date dto
