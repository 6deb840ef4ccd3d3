-- ===== src/Access/Roles.antt =====
-- roles.service.ts: roles, their status and their permissions. Names and descriptions, which no
-- decision reads, are left out.
use coin_acceptor_backend.Prelude.{
  ℕ, Bool, true, false, not, ◌&&◌, ◌||◌, Option, none, some, String, List, [], ◌∷◌, ◌++◌, ◌==◌,
  ◌=s◌, find, filter, any, map, length, codes, is_blank,
}
use coin_acceptor_backend.Effect.{
  bad_request, forbidden, conflict, not_found, Action, ◌>>=◌, ◌>>◌, pure, gets, modify, throw_if,
  or_throw,
}
use coin_acceptor_backend.Table.{insert, update_where}
use coin_acceptor_backend.Store.{AuditEntry}
use coin_acceptor_backend.Access.{Role, RolePermission, is_role}
use coin_acceptor_backend.Access.Assignments.{AdminStore, Permission, record_audit}

abbrev pub require_role : ℕ → Action AdminStore Role
require_role i = do
  r ← gets (λ s. find (is_role i) s.access.roles)
  or_throw r (not_found "Role not found.")

abbrev pub set_roles : (List Role → List Role) → AdminStore → AdminStore
set_roles f s = record s { access = record s.access { roles = f s.access.roles } }

abbrev role_entry : String → ℕ → Option String → AuditEntry
role_entry action i reason = record {
  action = action;
  entity_id = some i;
  station_id = none;
  reason = reason;
}

abbrev pub has_role_code : String → Role → Bool
has_role_code code r = r.code =s code

abbrev pub new_role : ℕ → String → Role
new_role i code = record { id = i; code = code; is_system_role = false; is_active = true }

-- The unique keys: the generated id, and the code, which the client chooses.
abbrev pub role_taken : ℕ → String → List Role → Bool
role_taken i code roles = any (λ r. is_role i r || has_role_code code r) roles

unfoldable pub create_role : String → ℕ → Action AdminStore Role
create_role code new_id = do
  taken ← gets (λ s. role_taken new_id code s.access.roles)
  throw_if taken (conflict "Role code already exists.")
  modify (set_roles (insert (new_role new_id code)))
  modify (record_audit (role_entry "roles.created" new_id none))
  pure (new_role new_id code)

abbrev pub no_reason : Option String → Bool
no_reason none = true
no_reason (some r) = is_blank (codes r)

abbrev pub set_status : String → Role → Role
set_status status r = record r { is_active = status =s "active" }

abbrev pub update_status_of : ℕ → String → Option String → Role → Action AdminStore Role
update_status_of i status reason before = do
  throw_if (before.is_system_role && not (status =s "active"))
      (forbidden "System roles cannot be deactivated.")
  throw_if ((status =s "inactive") && no_reason reason) (bad_request "A reason is required.")
  modify (set_roles (update_where (is_role i) (set_status status)))
  modify (record_audit (role_entry "roles.status_changed" i reason))
  pure (set_status status before)

unfoldable pub update_role_status : ℕ → String → Option String → Action AdminStore Role
update_role_status i status reason = do
  before ← require_role i
  update_status_of i status reason before

abbrev has_permission_id : ℕ → Permission → Bool
has_permission_id i p = p.id == i

-- `new Set(ids)` has as many elements as the list exactly when no id comes twice.
abbrev pub repeats : List ℕ → Bool
repeats [] = false
repeats (i ∷ is) = any (λ j. j == i) is || repeats is

abbrev pub among : List ℕ → Permission → Bool
among is p = any (λ i. p.id == i) is

-- The rows of `createMany`, with the codes that their permissions have.
abbrev pub mappings_of : ℕ → List Permission → List RolePermission
mappings_of i ps = map (λ p. record { role_id = i; code = p.code }) ps

abbrev pub replace_mappings : ℕ → List Permission → List RolePermission → List RolePermission
replace_mappings i ps old = filter (λ m. not (m.role_id == i)) old ++ mappings_of i ps

abbrev pub sync_of : ℕ → List ℕ → Role → Action AdminStore (List RolePermission)
sync_of i ids role = do
  throw_if (repeats ids) (conflict "Duplicate permission IDs are not allowed.")
  known ← gets (λ s. filter (among ids) s.permissions)
  throw_if (not (length known == length ids)) (bad_request "Unknown permission ID.")
  modify (λ s. record s {
    access = record s.access {
      role_permissions = replace_mappings i known s.access.role_permissions;
    };
  })
  modify (record_audit (role_entry "roles.permissions_synced" i none))
  gets (λ s. filter (λ m. m.role_id == role.id) s.access.role_permissions)

unfoldable pub sync_permissions : ℕ → List ℕ → Action AdminStore (List RolePermission)
sync_permissions i ids = do role ← require_role i; sync_of i ids role
