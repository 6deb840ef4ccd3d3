-- ===== src/Commands/Contract/Secrets.antt =====
-- Commands carry no secrets in the clear.
use coin_acceptor_backend.Prelude.{
  ℕ, ◌≤◌, has, true, false, Option, is_some, String, List, ◌≡◌, refl, arith,
}
use coin_acceptor_backend.Effect.{bad_request, Result, ok, err}
use coin_acceptor_backend.Json.{Json, Fields, obj, get, has_text}
use coin_acceptor_backend.Json.Sensitive.{
  command_assert_safe, assert_no_forbidden_json_keys, forbidden_keys, normalize_key,
}
use coin_acceptor_backend.Json.Sensitive.Depth.{InJson, assert_no_keys_accepts}
use coin_acceptor_backend.Store.{Locker, ChargingPort}
use coin_acceptor_backend.Commands.Contract.{
  ◌&>◌, validate_contract, validate_command, reject_plaintext_access_code, require_string,
  require_positive_int, positive_int,
}

-- A sequence of checks that returns has passed the first.
passed_first : (a b : Result (Unit {0})) → a &> b ≡ ok tt → a ≡ ok tt
passed_first (ok tt) b h = refl
passed_first (err e) b h = absurd (cc)

passed_rest : (a b : Result (Unit {0})) → a &> b ≡ ok tt → b ≡ ok tt
passed_rest (ok tt) b h = h
passed_rest (err e) b h = absurd (cc)

-- What an accepted `charging.prepare` holds: a verifier of the access code, a session reference, a
-- positive duration and port; none of the three names `accessCode`, `pin` and `lockerPin` at its
-- top; and, as deep as the walk goes, no key that normalises to a forbidden one.
pub record IsSealed (payload : Fields) : Type 0 where
  pub code : is_some (get "accessCode" payload) ≡ false
  pub pin : is_some (get "pin" payload) ≡ false
  pub locker_pin : is_some (get "lockerPin" payload) ≡ false
  pub verifier : has_text (get "accessCodeVerifier" payload) ≡ true
  pub reference : has_text (get "sessionReference" payload) ≡ true
  pub duration : is_some (positive_int (get "durationSeconds" payload)) ≡ true
  pub port_number : is_some (positive_int (get "portNumber" payload)) ≡ true
  pub secrets :
      (k : String) (d : ℕ)
      → InJson k d (obj payload)
      → d ≤ 8
      → has forbidden_keys (normalize_key k) ≡ false

string_present :
    (v : Option Json) (name : String) → require_string v name ≡ ok tt → has_text v ≡ true
unfolding require_string
string_present v name h = ground arith

int_present :
    (v : Option Json) (name : String)
    → require_positive_int v name ≡ ok tt
    → is_some (positive_int v) ≡ true
unfolding require_positive_int
int_present v name h = ground arith

walk_passed :
    (v : Json)
    → command_assert_safe v ≡ ok tt
    → (k : String) (d : ℕ) → InJson k d v
    → d ≤ 8
    → has forbidden_keys (normalize_key k) ≡ false
unfolding command_assert_safe assert_no_forbidden_json_keys
walk_passed v h k d =
    assert_no_keys_accepts forbidden_keys (bad_request "JSON payload contains forbidden fields.") v
      k d (ground arith)

contract-IsSealed :
    (payload : Fields)
    → validate_contract "charging.prepare" payload ≡ ok tt
    → command_assert_safe (obj payload) ≡ ok tt
    → IsSealed payload
unfolding validate_contract reject_plaintext_access_code require_string
contract-IsSealed payload h safe = record {
  code = ground (arith, plain);
  pin = ground (arith, plain);
  locker_pin = ground (arith, plain);
  verifier = string_present (get "accessCodeVerifier" payload) "accessCodeVerifier" verified;
  reference = string_present (get "sessionReference" payload) "sessionReference" referenced;
  duration =
      int_present (get "durationSeconds" payload) "durationSeconds" (passed_rest three _ fourth);
  port_number = int_present (get "portNumber" payload) "portNumber" (passed_rest four _ fifth);
  secrets = walk_passed (obj payload) safe;
}
  where
    two : Result (Unit {0})
    two =
        reject_plaintext_access_code payload
        &> require_string (get "sessionReference" payload) "sessionReference"

    three : Result (Unit {0})
    three = two &> require_string (get "accessCodeVerifier" payload) "accessCodeVerifier"

    four : Result (Unit {0})
    four = three &> require_positive_int (get "durationSeconds" payload) "durationSeconds"

    five : Result (Unit {0})
    five = four &> require_positive_int (get "portNumber" payload) "portNumber"

    fifth : five ≡ ok tt
    fifth = passed_first five _ h

    fourth : four ≡ ok tt
    fourth = passed_first four _ fifth

    third : three ≡ ok tt
    third = passed_first three _ fourth

    second : two ≡ ok tt
    second = passed_first two _ third

    verified : require_string (get "accessCodeVerifier" payload) "accessCodeVerifier" ≡ ok tt
    verified = passed_rest two _ third

    referenced : require_string (get "sessionReference" payload) "sessionReference" ≡ ok tt
    referenced = passed_rest (reject_plaintext_access_code payload) _ second

    plain : reject_plaintext_access_code payload ≡ ok tt
    plain = passed_first (reject_plaintext_access_code payload) _ second

-- A `charging.prepare` command that passes the validators holds a verifier of the access code, a
-- session reference, a positive duration and a positive port number; it has none of the three keys
-- `accessCode`, `pin` and `lockerPin` at its top level, in just that spelling, and no key that
-- normalises to one of the walk's forbidden keys in an object with at most eight arrays and
-- objects around it.
pub validate_command-IsSealed :
    (row_id : String → ℕ) (lockers : List Locker) (ports : List ChargingPort) (device_id : ℕ)
    (payload : Fields)
    → validate_command row_id lockers ports "charging.prepare" device_id payload ≡ ok tt
    → IsSealed payload
unfolding validate_command
validate_command-IsSealed row_id lockers ports device_id payload h =
    contract-IsSealed payload (passed_rest (command_assert_safe (obj payload)) _ checked)
      (passed_first (command_assert_safe (obj payload)) _ checked)
  where
    checked :
        command_assert_safe (obj payload) &> validate_contract "charging.prepare" payload ≡ ok tt
    checked = passed_first _ _ (passed_first _ _ (passed_first _ _ h))
