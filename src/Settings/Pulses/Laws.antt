-- ===== src/Settings/Pulses/Laws.antt =====
-- What an accepted pulse mapping promises.
use coin_acceptor_backend.Prelude.{
  ℕ, ◌≤◌, Option, none, some, String, List, [], ◌∷◌, ◌==◌, ◌=s◌, find, length, ℤ, pos, suc, ◌≡◌,
  All, arith, Bool-cases, inl, inr, ==_iff, Option-cases,
}
use coin_acceptor_backend.Effect.{Result, ok, err, then_result}
use coin_acceptor_backend.Json.{Json, Fields, num, null, bool, str, arr, obj, frac, get, int}
use coin_acceptor_backend.Table.{All-find}
use coin_acceptor_backend.Settings.Pulses.Counts.{counts-Found}
use coin_acceptor_backend.Settings.Resolution.{Setting, resolve_setting}
use coin_acceptor_backend.Settings.Pulses.{
  Entry, Mapping, Texts, max_safe_integer, int_between, string_of, array_of, object_of, entry_field,
  parse_entry, parse_entries, distinct, counts, unique_entries, mapping_entries, validate_mapping,
  entry_for, resolve, setting_of, amount_of, denomination_for,
}

-- What holds of a result that is returned.
abbrev pub Holds {κ} : {A : Type 0} → (A → Type κ) → Result A → Type κ
Holds P (ok a) = P a
Holds P (err e) = Unit

then_result-Holds {ι κ} :
    {A B : Type 0} (P : A → Type ι) (Q : B → Type κ) (r : Result A) (f : A → Result B)
    → Holds P r
    → ((a : A) → P a → Holds Q (f a))
    → Holds Q (then_result r f)
then_result-Holds P Q (ok a) f h k = k a h
then_result-Holds P Q (err e) f h k = tt

any_result : {A : Type 0} (r : Result A) → Holds (λ _. Unit {0}) r
any_result (ok a) = tt
any_result (err e) = tt

abbrev pub Between : ℕ → ℕ → ℕ → Type 0
Between low high n = (low ≤ n) × (n ≤ high)

int_between-Between :
    (field : String) (low high : ℕ) (v : Option Json)
    → Holds (Between low high) (int_between field low high v)
unfolding int_between
int_between-Between field low high (some (num (int (pos n)))) = ground arith
int_between-Between field low high (some (num (int (ℤ.negsuc n)))) = tt
int_between-Between field low high (some (num (frac n))) = tt
int_between-Between field low high (some null) = tt
int_between-Between field low high (some (bool b)) = tt
int_between-Between field low high (some (str b)) = tt
int_between-Between field low high (some (arr b)) = tt
int_between-Between field low high (some (obj b)) = tt
int_between-Between field low high none = tt

-- Counts, amounts and durations are positive integers that JavaScript holds exactly.
pub record IsEntry (e : Entry) : Type 0 where
  pub pulses : Between 1 max_safe_integer e.pulse_count
  pub amount : Between 1 max_safe_integer e.amount_minor
  pub duration : Between 1 max_safe_integer e.duration_seconds

parse_entry-IsEntry : (t : Texts) (index : ℕ) (v : Json) → Holds IsEntry (parse_entry t index v)
unfolding parse_entry
parse_entry-IsEntry t index v =
    then_result-Holds (λ _. Unit {0}) IsEntry (object_of (some v)) _
      (any_result (object_of (some v)))
      λ e _.
        then_result-Holds wide IsEntry (number "pulseCount" e)
          (λ p.
            then_result (number "amountMinor" e)
              λ a. then_result (number "durationSeconds" e) λ d. ok (entry p a d))
          (int_between-Between _ 1 max_safe_integer (get "pulseCount" e))
          λ p hp.
            then_result-Holds wide IsEntry (number "amountMinor" e)
              (λ a. then_result (number "durationSeconds" e) λ d. ok (entry p a d))
              (int_between-Between _ 1 max_safe_integer (get "amountMinor" e))
              λ a ha.
                then_result-Holds wide IsEntry (number "durationSeconds" e) (λ d. ok (entry p a d))
                  (int_between-Between _ 1 max_safe_integer (get "durationSeconds" e))
                  λ d hd. record { pulses = hp; amount = ha; duration = hd }
  where
    wide : ℕ → Type 0
    wide = Between 1 max_safe_integer

    number : String → Fields → Result ℕ
    number name e = int_between (entry_field t index name) 1 max_safe_integer (get name e)

    entry : ℕ → ℕ → ℕ → Entry
    entry p a d = record { pulse_count = p; amount_minor = a; duration_seconds = d }

parse_entries-All :
    (t : Texts) (index : ℕ) (vs : List Json) → Holds (All IsEntry) (parse_entries t index vs)
unfolding parse_entries
parse_entries-All t index [] = tt
parse_entries-All t index (v ∷ vs) =
    then_result-Holds IsEntry (All IsEntry) (parse_entry t index v) _
      (parse_entry-IsEntry t index v)
      λ e he.
        then_result-Holds (All IsEntry) (All IsEntry) (parse_entries t (suc index) vs) _
          (parse_entries-All t (suc index) vs) λ es hes. (he, hes)

-- What the validator checks of a mapping.
pub record IsMapping (m : Mapping) : Type 0 where
  pub window : Between 100 5000 m.settle_window_ms
  pub all_positive : All IsEntry m.entries
  pub resolvable : All (λ e. entry_for e.pulse_count m ≡ some e) m.entries

unique_entries-IsMapping :
    (currency : String) (window : ℕ) (es : List Entry)
    → Between 100 5000 window
    → All IsEntry es
    → Holds IsMapping (unique_entries currency window es)
unfolding unique_entries entry_for
unique_entries-IsMapping currency window es w a =
    elim (Bool-cases (length (distinct (counts es)) == length es)) [
      | inl y ↦
          rw y
            record { window = w; all_positive = a; resolvable = counts-Found es ((==_iff _ _).0 y) }
      | inr n ↦ rw n tt
    ]

mapping_entries-IsMapping :
    (t : Texts) (m : Fields) (currency : String) (window : ℕ)
    → Between 100 5000 window
    → Holds IsMapping (mapping_entries t m currency window)
unfolding mapping_entries
mapping_entries-IsMapping t m currency window w = elim (Bool-cases (currency =s t.upper currency)) [
  | inl y ↦ rw y (
      then_result-Holds (λ _. Unit {0}) IsMapping (array_of "entries" (get "entries" m))
        (λ vs. then_result (parse_entries t 0 vs) (unique_entries currency window))
        (any_result (array_of "entries" (get "entries" m)))
        λ vs _.
          then_result-Holds (All IsEntry) IsMapping (parse_entries t 0 vs)
            (unique_entries currency window) (parse_entries-All t 0 vs)
            λ es a. unique_entries-IsMapping currency window es w a)
  | inr n ↦ rw n tt
]

-- A pulse mapping that the validator returns has a settle window between 100 and 5000 ms and only
-- entries whose counts, amounts and durations are positive integers that JavaScript holds exactly,
-- and resolving the pulse count of any of its entries gives that entry.
pub validate_mapping-IsMapping :
    (t : Texts) (value : Json) → Holds IsMapping (validate_mapping t value)
unfolding validate_mapping
validate_mapping-IsMapping t value =
    then_result-Holds (λ _. Unit {0}) IsMapping (object_of (some value)) _
      (any_result (object_of (some value)))
      λ m _.
        then_result-Holds (λ _. Unit {0}) IsMapping (string_of "currency" (get "currency" m))
          (λ currency. then_result (settle m) (mapping_entries t m currency))
          (any_result (string_of "currency" (get "currency" m)))
          λ currency _.
            then_result-Holds (Between 100 5000) IsMapping (settle m) (mapping_entries t m currency)
              (int_between-Between "settleWindowMs" 100 5000 (get "settleWindowMs" m))
              λ window w. mapping_entries-IsMapping t m currency window w
  where
    settle : Fields → Result ℕ
    settle m = int_between "settleWindowMs" 100 5000 (get "settleWindowMs" m)

abbrev pub Credited : Option ℕ → Type 0
Credited none = Unit
Credited (some n) = Between 1 max_safe_integer n

abbrev EntryOr : Option Entry → Type 0
EntryOr none = Unit
EntryOr (some e) = IsEntry e

entry_for-EntryOr :
    (pulses : ℕ) (m : Mapping) → All IsEntry m.entries → EntryOr (entry_for pulses m)
unfolding entry_for
entry_for-EntryOr pulses m a = elim (Option-cases (find (λ e. e.pulse_count == pulses) m.entries)) [
  | inl n ↦ rw n tt
  | inr (e, f) ↦ rw f (All-find IsEntry (λ x. x.pulse_count == pulses) m.entries e f a)
]

resolve-EntryOr : (t : Texts) (value : Json) (pulses : ℕ) → Holds EntryOr (resolve t value pulses)
unfolding resolve
resolve-EntryOr t value pulses =
    then_result-Holds IsMapping EntryOr (validate_mapping t value) (λ m. ok (entry_for pulses m))
      (validate_mapping-IsMapping t value) λ m v. entry_for-EntryOr pulses m v.all_positive

amount_of-Credited : (o : Option Entry) → EntryOr o → Credited (amount_of o)
amount_of-Credited none h = tt
amount_of-Credited (some e) h = h.amount

setting_of-EntryOr :
    (t : Texts) (pulses : ℕ) (o : Option Setting) → Holds EntryOr (setting_of t pulses o)
setting_of-EntryOr t pulses none = tt
setting_of-EntryOr t pulses (some x) = resolve-EntryOr t x.value_json pulses

-- Whatever the settings are, the amount that a pulse count is worth, where it is worth one, is at
-- least 1 and at most the largest safe integer, so no coin is accepted for nothing.
pub denomination_for-Credited :
    (t : Texts) (settings : List Setting) (station device pulses : ℕ)
    → Holds Credited (denomination_for t settings station device pulses)
unfolding denomination_for
denomination_for-Credited t settings station device pulses =
    then_result-Holds EntryOr Credited
      (setting_of t pulses (resolve_setting settings "coin.pulse_mapping" station device))
      (λ e. ok (amount_of e))
      (setting_of-EntryOr t pulses (resolve_setting settings "coin.pulse_mapping" station device))
      amount_of-Credited
