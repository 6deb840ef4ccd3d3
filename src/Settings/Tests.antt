-- ===== src/Settings/Tests.antt =====
-- Settings at a concrete pulse mapping.
use coin_acceptor_backend.Prelude.{ℕ, pos, true, none, some, List, [], ◌∷◌, ◌≡◌, refl}
use coin_acceptor_backend.Effect.{ok}
use coin_acceptor_backend.Json.{Json, int, num, str, arr, obj, nil, cons, end, field}
use coin_acceptor_backend.Settings.Resolution.{Setting, Scope, resolve_setting}
use coin_acceptor_backend.Settings.Resolution.Precedence.{Nearest, resolve_setting-Nearest}
use coin_acceptor_backend.Settings.Pulses.{Texts, validate_mapping, denomination_for}
use coin_acceptor_backend.Settings.Pulses.Laws.{
  Holds, IsMapping, validate_mapping-IsMapping, Credited, denomination_for-Credited,
}

-- Texts in upper case already, and one digit for every index.
abbrev shouting : Texts
shouting = record { upper = λ t. t; print = λ n. "0" }

abbrev coin_entry : ℕ → ℕ → ℕ → Json
coin_entry pulses amount seconds = obj (
    field "pulseCount" (num (int (pos pulses))) (
      field "amountMinor" (num (int (pos amount)))
        (field "durationSeconds" (num (int (pos seconds))) end)))

abbrev mapping : Json
mapping = obj (
    field "currency" (str "TZS") (
      field "settleWindowMs" (num (int (pos 500)))
        (field "entries" (arr (cons (coin_entry 4 50 20) (cons (coin_entry 8 100 40) nil))) end)))

abbrev for_all : Setting
for_all = record {
  setting_key = "coin.pulse_mapping";
  is_active = true;
  scope_type = Scope.global_scope;
  device_id = none;
  station_id = none;
  updated_at = 10;
  value_json = mapping;
}

abbrev for_station : Setting
for_station = record for_all { scope_type = Scope.station_scope; station_id = some 1 }

abbrev settings : List Setting
settings = for_all ∷ for_station ∷ []

-- The mapping of the station is the one in force.
resolved : resolve_setting settings "coin.pulse_mapping" 1 2 ≡ some for_station
unfolding resolve_setting
resolved = refl

-- Eight pulses are 100.
hundred : denomination_for shouting settings 1 2 8 ≡ ok (some 100)
unfolding denomination_for
hundred = refl

resolve_setting-Nearest_example :
    Nearest settings "coin.pulse_mapping" 1 2 (resolve_setting settings "coin.pulse_mapping" 1 2)
resolve_setting-Nearest_example = resolve_setting-Nearest settings "coin.pulse_mapping" 1 2

validate_mapping-IsMapping_example : Holds IsMapping (validate_mapping shouting mapping)
validate_mapping-IsMapping_example = validate_mapping-IsMapping shouting mapping

denomination_for-Credited_example : Holds Credited (denomination_for shouting settings 1 2 8)
denomination_for-Credited_example = denomination_for-Credited shouting settings 1 2 8
