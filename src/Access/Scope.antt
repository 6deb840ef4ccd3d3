-- ===== src/Access/Scope.antt =====
-- station-scope.service.ts and permissions.guard.ts: which stations a user may see, and whether a
-- request passes.
use coin_acceptor_backend.Prelude.{
  ℕ, Bool, true, false, not, ◌&&◌, ◌||◌, Option, none, some, is_some, String, List, [], ◌∷◌, ◌==◌,
  ◌=s◌, any, filter, if◌then◌else◌, ◌≡◌, refl, arith, Bool-cases, inl, inr, sym, ◌∙◌, ◌↔◌,
}
use coin_acceptor_backend.Effect.{Error, forbidden, Result, ok, err, check}
use coin_acceptor_backend.Access.{
  Assignment, AccessStore, valid_for, in_scope, active_scope, role_active, grants, permission_where,
  has_permission, has_any_scope_permission,
}
use coin_acceptor_backend.Access.Grants.{count_where-any}

-- `assignmentWhere`
unfoldable pub assignment_where : AccessStore → ℕ → String → ℕ → Assignment → Bool
assignment_where s user code now a =
    valid_for user now a
    && role_active s.roles a.role_id
    && grants s.role_permissions a.role_id code

abbrev stations_of : List Assignment → List ℕ
stations_of [] = []
stations_of (a ∷ rows) = elim a.station_id [
  | none ↦ stations_of rows
  | some i ↦ i ∷ stations_of rows
]

abbrev is_global : Assignment → Bool
is_global a = not (is_some a.station_id)

abbrev distinct_ids : List ℕ → List ℕ
distinct_ids [] = []
distinct_ids (i ∷ rest) = i ∷ filter (λ j. not (j == i)) (distinct_ids rest)

-- `none` stands for every station; a `Set` keeps the first of each id.
unfoldable pub authorized_station_ids : AccessStore → ℕ → String → ℕ → Option (List ℕ)
unfolding assignment_where
authorized_station_ids s user code now =
    let rows = filter (assignment_where s user code now) s.assignments in
    if any is_global rows then none else some (distinct_ids (stations_of rows))

abbrev covers : Option (List ℕ) → ℕ → Bool
covers none i = true
covers (some ids) i = any (λ j. j == i) ids

unfoldable pub require_station : AccessStore → ℕ → String → ℕ → ℕ → Result (Unit {0})
unfolding authorized_station_ids
require_station s user code station now =
    check (covers (authorized_station_ids s user code now) station)
      (forbidden "Station is outside your scope.")

unfoldable pub require_global : AccessStore → ℕ → String → ℕ → Result (Unit {0})
unfolding authorized_station_ids
require_global s user code now =
    check (not (is_some (authorized_station_ids s user code now)))
      (forbidden "Global station authority is required.")

-- `stationWhere`, `deviceWhere` and `paymentWhere`: the rows of the stations in the user's scope.
abbrev pub visible : {A : Type 0} → (A → ℕ) → Option (List ℕ) → List A → List A
visible station_of ids rows = filter (λ x. covers ids (station_of x)) rows

-- `allowsDeferredStationScope`
abbrev deferred_codes : List String
deferred_codes =
    "stations.read" ∷ "stations.update" ∷ "stations.deactivate" ∷ "devices.read" ∷ "devices.update"
    ∷ "devices.configure" ∷ "devices.restart" ∷ "devices.disable" ∷ "device_commands.read"
    ∷ "device_commands.create" ∷ "device_commands.cancel" ∷ "device_credentials.read"
    ∷ "device_credentials.create" ∷ "device_credentials.rotate" ∷ "device_credentials.revoke"
    ∷ "device_credentials.force_revoke" ∷ "device_events.read" ∷ "device_telemetry.read"
    ∷ "lockers.read" ∷ "lockers.configure" ∷ "charging_ports.read" ∷ "charging_ports.configure"
    ∷ "payments.read" ∷ "payments.refund" ∷ []

abbrev allows_deferred_scope : String → Bool
allows_deferred_scope code = any (λ c. c =s code) deferred_codes

-- `canActivate`
abbrev code_passes : AccessStore → ℕ → Option ℕ → ℕ → String → Bool
code_passes s user station now code =
    has_permission s user code station now
    || (not (is_some station)
        && allows_deferred_scope code
        && has_any_scope_permission s user code now)

unfoldable pub can_activate : AccessStore → ℕ → List String → Option ℕ → ℕ → Result Bool
can_activate s user [] station now = ok true
can_activate s user (code ∷ rest) station now =
    let later = can_activate s user rest station now in
    if code_passes s user station now code
    then later
    else err (forbidden "Missing required permission.")

-- The rows whose station is `i`.
abbrev at_station : ℕ → Assignment → Bool
at_station i a = in_scope (some i) a.station_id && not (is_global a)

any-filter-not :
    (i j : ℕ) (ids : List ℕ)
    → (j == i) ≡ false
    → any (λ k. k == i) (filter (λ k. not (k == j)) ids) ≡ any (λ k. k == i) ids
any-filter-not i j [] n = refl
any-filter-not i j (k ∷ ks) n = ground (arith, any-filter-not i j ks n)

distinct_ids-any :
    (i : ℕ) (ids : List ℕ) → any (λ j. j == i) (distinct_ids ids) ≡ any (λ j. j == i) ids
distinct_ids-any i [] = refl
distinct_ids-any i (j ∷ js) = elim (Bool-cases (j == i)) [
  | inl y ↦ rw y refl
  | inr n ↦ rw n (any-filter-not i j (distinct_ids js) n ∙ distinct_ids-any i js)
]

check-true : (b : Bool) (e : Error) → check b e ≡ ok tt → b ≡ true
check-true true e h = refl
check-true false e h = absurd (cc)

module _ (s : AccessStore) (user : ℕ) (code : String) (i now : ℕ) where
  abbrev Agree : List Assignment → Type 0
  Agree xs =
      any (permission_where s user code (some i) now) xs
      ≡ any is_global (filter (assignment_where s user code now) xs)
        || any (λ j. j == i) (stations_of (filter (assignment_where s user code now) xs))

  split_row :
      (x : Assignment) (xs : List Assignment) (st : Option ℕ)
      → x.station_id ≡ st
      → Agree xs
      → Agree (x ∷ xs)
  unfolding permission_where active_scope assignment_where
  split_row x xs none e h = ground arith
  split_row x xs (some j) e h = ground arith

  -- A row lets the user see station `i` exactly when it is among the rows of the scope.
  split_rows : (xs : List Assignment) → Agree xs
  split_rows [] = ground arith
  split_rows (x ∷ xs) = split_row x xs x.station_id refl (split_rows xs)

  -- The scope of stations that a user may see with a permission lets a station through exactly
  -- when the user's permission check for that station says yes.
  pub require_station_iff :
      (require_station s user code i now ≡ ok tt) ↔ (has_permission s user code (some i) now ≡ true)
  unfolding require_station authorized_station_ids has_permission
  require_station_iff = (λ h. sym agree ∙ passed h, λ h. rw (agree ∙ h) refl)
    where
      agree :
          covers (authorized_station_ids s user code now) i
          ≡ has_permission s user code (some i) now
      agree =
          elim (Bool-cases
            (any is_global (filter (assignment_where s user code now) s.assignments))) [
              | inl y ↦ rw y (sym (rw y at rows))
              | inr n ↦ rw n (distinct_ids-any i _ ∙ sym (rw n at rows))
            ]
        where
          rows :
              has_permission s user code (some i) now
              ≡ any is_global (filter (assignment_where s user code now) s.assignments)
                || any
                    (λ j. j == i)
                    (stations_of (filter (assignment_where s user code now) s.assignments))
          rows =
              count_where-any (permission_where s user code (some i) now) s.assignments
              ∙ split_rows s.assignments

      passed :
          require_station s user code i now ≡ ok tt
          → covers (authorized_station_ids s user code now) i ≡ true
      passed h = check-true (covers (authorized_station_ids s user code now) i) _ h
