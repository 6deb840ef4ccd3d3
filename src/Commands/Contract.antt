-- ===== src/Commands/Contract.antt =====
-- hardware-command-contract.validator.ts and command-payload-validator-registry.ts.
pub mod Secrets
use coin_acceptor_backend.Prelude.{
  ℕ, Bool, true, false, not, ◌&&◌, ◌||◌, Option, none, some, is_some, String, List, [], ◌∷◌, ◌==◌,
  ◌=s◌, find, any, if◌then◌else◌, pos, ℤ,
}
use Prim.Native.String.{◌++◌ as append}
use text.Mathlib.Text.{starts_with}
use coin_acceptor_backend.Effect.{Error, bad_request, Result, ok, err, check, then_result}
use coin_acceptor_backend.Json.{
  Json, Fields, obj, num, int, Num, get, has_text, positive_int, string_value,
}
use coin_acceptor_backend.Json.Sensitive.{command_assert_safe}
use coin_acceptor_backend.Store.{Locker, ChargingPort}

-- Checks in a row: the first refusal counts.
infixl 5 ◌&>◌
abbrev pub ◌&>◌ : Result (Unit {0}) → Result (Unit {0}) → Result (Unit {0})
a &> b = then_result a (λ _. b)

unfoldable pub require_string : Option Json → String → Result (Unit {0})
require_string value name = check (has_text value) (bad_request (append name " is required."))

unfoldable pub require_positive_int : Option Json → String → Result (Unit {0})
require_positive_int value name =
    check (is_some (positive_int value)) (bad_request (append name " must be a positive integer."))

unfoldable pub require_locker_identity : Fields → Result (Unit {0})
unfolding require_positive_int get
require_locker_identity payload =
    if has_text (get "lockerId" payload)
    then ok tt
    else require_positive_int (get "lockerNumber" payload) "lockerNumber"

unfoldable pub reject_plaintext_access_code : Fields → Result (Unit {0})
unfolding get
reject_plaintext_access_code payload =
    if is_some (get "accessCode" payload)
      || is_some (get "pin" payload)
      || is_some (get "lockerPin" payload)
    then err (bad_request "charging.prepare must not contain plaintext PIN.")
    else ok tt

unfoldable pub validate_contract : String → Fields → Result (Unit {0})
unfolding require_string require_positive_int require_locker_identity reject_plaintext_access_code
    get
validate_contract type payload =
    if type =s "charging.prepare"
    then reject_plaintext_access_code payload
      &> require_string (get "sessionReference" payload) "sessionReference"
      &> require_string (get "accessCodeVerifier" payload) "accessCodeVerifier"
      &> require_positive_int (get "durationSeconds" payload) "durationSeconds"
      &> require_positive_int (get "portNumber" payload) "portNumber"
      &> require_locker_identity payload
    else if type =s "charging.start"
    then require_string (get "sessionReference" payload) "sessionReference"
      &> require_positive_int (get "durationSeconds" payload) "durationSeconds"
      &> require_positive_int (get "portNumber" payload) "portNumber"
      &> require_locker_identity payload
    else if type =s "charging.stop"
    then (if has_text (get "sessionReference" payload)
        then ok tt
        else (require_positive_int (get "portNumber" payload) "portNumber"
            &> require_locker_identity payload))
    else if type =s "locker.open"
    then require_locker_identity payload
    else ok tt

-- `Number.isInteger(value) ? Number(value) : undefined`
abbrev pub number_value : Option Json → Option ℤ
number_value (some (num (int n))) = some n
number_value _ = none

abbrev is_number : ℤ → ℕ → Bool
is_number (pos n) m = n == m
is_number (ℤ.negsuc n) m = false

-- The identity of a row that a text names; a text that is no id names no row.
module _ (row_id : String → ℕ) (lockers : List Locker) (ports : List ChargingPort) where
  abbrev locker_matches : ℕ → Fields → Option (Locker → Bool)
  locker_matches device_id payload = elim (string_value (get "lockerId" payload)) [
    | some i ↦ some (λ l. l.id == row_id i && l.device_id == device_id)
    | none ↦ elim (number_value (get "lockerNumber" payload)) [
      | none ↦ none
      | some n ↦ some (λ l. l.device_id == device_id && is_number n l.locker_number)
    ]
  ]

  unfoldable pub require_locker : ℕ → Fields → Result (Unit {0})
  unfolding get
  require_locker device_id payload = elim (locker_matches device_id payload) [
    | none ↦ err (bad_request "Locker identity is required.")
    | some test ↦ check (any test lockers) (bad_request "Locker does not belong to device.")
  ]

  unfoldable pub require_port : ℕ → Fields → Result (Unit {0})
  unfolding get
  require_port device_id payload = elim (string_value (get "portId" payload)) [
    | none ↦ err (bad_request "Port identity is required.")
    | some i ↦
        check (any (λ p. p.id == row_id i && p.device_id == device_id) ports)
          (bad_request "Port does not belong to device.")
  ]

  -- `lockers: { locker_number }`: the locker of the port has that number.
  abbrev in_locker : ℤ → ChargingPort → Bool
  in_locker n p = any (λ l. l.id == p.locker_id && is_number n l.locker_number) lockers

  abbrev port_by_numbers : ℕ → Option ℤ → Option ℤ → Result (Unit {0})
  port_by_numbers device_id (some l) (some n) =
      check
        (any (λ p. p.device_id == device_id && is_number n p.port_number && in_locker l p) ports)
        (bad_request "Port does not belong to device.")
  port_by_numbers device_id _ _ = err (bad_request "Locker and port identity are required.")

  unfoldable pub require_charging_port : ℕ → Fields → Result (Unit {0})
  unfolding get require_port
  require_charging_port device_id payload = elim (string_value (get "portId" payload)) [
    | some i ↦ require_port device_id payload
    | none ↦
        port_by_numbers device_id (number_value (get "lockerNumber" payload))
          (number_value (get "portNumber" payload))
  ]

  -- `CommandPayloadValidatorRegistry.validate`
  unfoldable pub validate_command : String → ℕ → Fields → Result (Unit {0})
  unfolding command_assert_safe validate_contract require_locker require_charging_port require_port
  validate_command type device_id payload =
      command_assert_safe (obj payload)
      &> validate_contract type payload
      &> (if starts_with type "locker." then require_locker device_id payload else ok tt)
      &> (if starts_with type "charging." then require_charging_port device_id payload else ok tt)
      &> (if starts_with type "port." then require_port device_id payload else ok tt)
