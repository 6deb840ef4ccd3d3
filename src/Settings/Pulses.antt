-- ===== src/Settings/Pulses.antt =====
-- coin-pulse-mapping.validator.ts and payments' coin-pulse-mapping.service.ts.
pub mod Counts
pub mod Laws
use Prim.Native.String.{◌++◌ as append}
use coin_acceptor_backend.Prelude.{
  ℕ, Bool, true, false, not, ◌&&◌, ◌||◌, Option, none, some, String, List, [], ◌∷◌, ◌==◌, ◌=s◌, ltb,
  leb, find, filter, length, map, if◌then◌else◌, ℤ, pos, suc, ◌+◌,
}
use coin_acceptor_backend.Effect.{bad_request, Result, ok, err, then_result}
use coin_acceptor_backend.Json.{
  Json, Num, int, num, str, arr, obj, Fields, Elems, get, elems, has_text, object_fields,
}
use coin_acceptor_backend.Settings.Resolution.{Setting, resolve_setting}

pub record Entry : Type 0 where
  pub pulse_count : ℕ
  pub amount_minor : ℕ
  pub duration_seconds : ℕ

pub record Mapping : Type 0 where
  pub currency : String
  pub settle_window_ms : ℕ
  pub entries : List Entry

-- `String.prototype.toUpperCase`, and the text of a number.
pub record Texts : Type 0 where
  pub upper : String → String
  pub print : ℕ → String

abbrev pub max_safe_integer : ℕ
max_safe_integer = 9007199254740991

-- `positiveInt`, between its bounds.
unfoldable pub int_between : String → ℕ → ℕ → Option Json → Result ℕ
int_between field low high (some (num (int (pos n)))) =
    if ltb n low || ltb high n
    then err (bad_request (append field " must be a valid integer."))
    else ok n
int_between field low high _ = err (bad_request (append field " must be a valid integer."))

unfoldable pub string_of : String → Option Json → Result String
string_of field (some (str s)) =
    if has_text (some (str s))
    then ok s
    else err (bad_request (append field " must be a non-empty string."))
string_of field _ = err (bad_request (append field " must be a non-empty string."))

unfoldable pub array_of : String → Option Json → Result (List Json)
array_of field (some (arr (Elems.cons v vs))) = ok (v ∷ elems vs)
array_of field _ = err (bad_request (append field " must be a non-empty array."))

unfoldable pub object_of : Option Json → Result Fields
object_of (some (obj fs)) = ok fs
object_of _ = err (bad_request "Coin pulse mapping must be an object.")

abbrev pub entry_field : Texts → ℕ → String → String
entry_field t index name = append "entries[" (append (t.print index) (append "]." name))

unfoldable pub parse_entry : Texts → ℕ → Json → Result Entry
unfolding object_of int_between get
parse_entry t index value = then_result (object_of (some value)) λ e.
    then_result
      (int_between (entry_field t index "pulseCount") 1 max_safe_integer (get "pulseCount" e))
      λ p.
        then_result
          (int_between (entry_field t index "amountMinor") 1 max_safe_integer (get "amountMinor" e))
          λ a.
            then_result
              (int_between (entry_field t index "durationSeconds") 1 max_safe_integer
                (get "durationSeconds" e))
              λ d. ok (record { pulse_count = p; amount_minor = a; duration_seconds = d })

unfoldable pub parse_entries : Texts → ℕ → List Json → Result (List Entry)
unfolding parse_entry
parse_entries t index [] = ok []
parse_entries t index (v ∷ vs) =
    then_result (parse_entry t index v)
      λ e. then_result (parse_entries t (suc index) vs) λ es. ok (e ∷ es)

-- `[...new Set(counts)]`
unfoldable pub distinct : List ℕ → List ℕ
distinct [] = []
distinct (n ∷ ns) = n ∷ filter (λ m. not (m == n)) (distinct ns)

abbrev pub counts : List Entry → List ℕ
counts es = map (λ e. e.pulse_count) es

unfoldable pub unique_entries : String → ℕ → List Entry → Result Mapping
unfolding distinct
unique_entries currency window es =
    if length (distinct (counts es)) == length es
    then ok (record { currency = currency; settle_window_ms = window; entries = es })
    else err (bad_request "pulseCount entries must be unique.")

-- The rest of `validate`, after its two scalar fields.
unfoldable pub mapping_entries : Texts → Fields → String → ℕ → Result Mapping
unfolding array_of parse_entries unique_entries get
mapping_entries t m currency window =
    if currency =s t.upper currency
    then then_result (array_of "entries" (get "entries" m))
        (λ vs. then_result (parse_entries t 0 vs) (unique_entries currency window))
    else err (bad_request "currency must be uppercase.")

-- `validate`
unfoldable pub validate_mapping : Texts → Json → Result Mapping
unfolding object_of string_of int_between mapping_entries get
validate_mapping t value = then_result (object_of (some value)) λ m.
    then_result (string_of "currency" (get "currency" m)) λ currency.
      then_result (int_between "settleWindowMs" 100 5000 (get "settleWindowMs" m))
        (mapping_entries t m currency)

unfoldable pub entry_for : ℕ → Mapping → Option Entry
entry_for pulses m = find (λ e. e.pulse_count == pulses) m.entries

-- `resolve`: the entry of the mapping, which the code returns with the mapping's other columns.
unfoldable pub resolve : Texts → Json → ℕ → Result (Option Entry)
unfolding validate_mapping entry_for
resolve t value pulses = then_result (validate_mapping t value) λ m. ok (entry_for pulses m)

abbrev pub amount_of : Option Entry → Option ℕ
amount_of none = none
amount_of (some e) = some e.amount_minor

abbrev pub setting_of : Texts → ℕ → Option Setting → Result (Option Entry)
setting_of t pulses none = err (bad_request "No active coin pulse mapping is configured.")
setting_of t pulses (some x) = resolve t x.value_json pulses

-- `denominationFor`
unfoldable pub denomination_for : Texts → List Setting → ℕ → ℕ → ℕ → Result (Option ℕ)
unfolding resolve resolve_setting
denomination_for t settings station device pulses =
    then_result (setting_of t pulses (resolve_setting settings "coin.pulse_mapping" station device))
      λ e. ok (amount_of e)
