-- ===== src/Access.antt =====
-- permission.service.ts: the queries over role assignments. A row of `Assignment` comes with the
-- columns of its role and its user that the queries read.
pub mod Grants
pub mod Assignments
pub mod Roles
pub mod Accounts
pub mod Administration
pub mod Scope
pub mod Tests
use coin_acceptor_backend.Prelude.{
  ℕ, ◌≤◌, Bool, true, false, not, ◌&&◌, ◌||◌, Option, none, some, is_some, String, List, [], ◌∷◌,
  ◌==◌, ◌=s◌, ltb, leb, find, filter, any, all, length, map, if◌then◌else◌,
}
use coin_acceptor_backend.Table.{count_where}

pub record Role : Type 0 where
  pub id : ℕ
  pub code : String
  pub is_system_role : Bool
  pub is_active : Bool

pub record Assignment : Type 0 where
  pub id : ℕ
  pub user_id : ℕ
  pub user_is_active : Bool
  pub role_id : ℕ
  pub station_id : Option ℕ
  pub revoked_at : Option ℕ
  pub expires_at : Option ℕ

pub record RolePermission : Type 0 where
  pub role_id : ℕ
  pub code : String

pub record AccessStore : Type 0 where
  pub roles : List Role
  pub assignments : List Assignment
  pub role_permissions : List RolePermission

-- `OR: [{ expires_at: null }, { expires_at: { gt: now } }]`
abbrev unexpired : Option ℕ → ℕ → Bool
unexpired none now = true
unexpired (some t) now = ltb now t

-- The scope clause: a global assignment, or one for the station that is asked about.
abbrev pub in_scope : Option ℕ → Option ℕ → Bool
in_scope none none = true
in_scope none (some j) = false
in_scope (some i) none = true
in_scope (some i) (some j) = j == i

abbrev pub valid_for : ℕ → ℕ → Assignment → Bool
valid_for user now a =
    a.user_id == user
    && not (is_some a.revoked_at)
    && a.user_is_active
    && unexpired a.expires_at now

-- `activeAssignmentScope`, but for the status of the role.
unfoldable pub active_scope : ℕ → Option ℕ → ℕ → Assignment → Bool
active_scope user station now a = valid_for user now a && in_scope station a.station_id

abbrev pub is_role : ℕ → Role → Bool
is_role i r = r.id == i

abbrev pub role_active : List Role → ℕ → Bool
role_active roles i = any (λ r. is_role i r && r.is_active) roles

abbrev pub grants : List RolePermission → ℕ → String → Bool
grants rps i code = any (λ m. m.role_id == i && (m.code =s code)) rps

-- `permissionWhere`: the scope, and an active role with the permission.
unfoldable pub permission_where : AccessStore → ℕ → String → Option ℕ → ℕ → Assignment → Bool
unfolding active_scope
permission_where s user code station now a =
    active_scope user station now a
    && role_active s.roles a.role_id
    && grants s.role_permissions a.role_id code

unfoldable pub has_permission : AccessStore → ℕ → String → Option ℕ → ℕ → Bool
unfolding permission_where
has_permission s user code station now =
    ltb 0 (count_where (permission_where s user code station now) s.assignments)

-- `anyScopePermissionWhere`
unfoldable pub has_any_scope_permission : AccessStore → ℕ → String → ℕ → Bool
has_any_scope_permission s user code now = ltb 0 (
    count_where
      (λ a.
        valid_for user now a
        && role_active s.roles a.role_id
        && grants s.role_permissions a.role_id code)
      s.assignments)

-- The mappings of `getPermissionCodes`: their role is active and assigned in the scope.
abbrev pub mapped : AccessStore → ℕ → Option ℕ → ℕ → RolePermission → Bool
mapped s user station now m =
    role_active s.roles m.role_id
    && any (λ a. a.role_id == m.role_id && active_scope user station now a) s.assignments

abbrev pub includes : String → List String → Bool
includes c cs = any (λ x. x =s c) cs

-- `[...new Set(codes)]`: the first of each code.
unfoldable pub distinct : List String → List String
distinct [] = []
distinct (c ∷ cs) = c ∷ filter (λ x. not (x =s c)) (distinct cs)

unfoldable pub permission_codes : AccessStore → ℕ → Option ℕ → ℕ → List String
unfolding active_scope distinct
permission_codes s user station now =
    distinct (map (λ m. m.code) (filter (mapped s user station now) s.role_permissions))

unfoldable pub can_grant_role : AccessStore → ℕ → ℕ → Option ℕ → ℕ → Bool
unfolding permission_codes
can_grant_role s actor role station now =
    all (λ m. includes m.code (permission_codes s actor station now))
      (filter (λ m. m.role_id == role) s.role_permissions)

abbrev pub super_admin_role : List Role → ℕ → Bool
super_admin_role roles i = any (λ r. is_role i r && (r.code =s "super_admin") && r.is_active) roles

abbrev pub for_user : Option ℕ → Assignment → Bool
for_user none a = true
for_user (some u) a = a.user_id == u

-- `activeGlobalSuperAdminCount`
abbrev pub is_super_admin : AccessStore → Option ℕ → ℕ → Assignment → Bool
is_super_admin s user now a =
    for_user user a
    && (not (is_some a.station_id)
        && not (is_some a.revoked_at)
        && unexpired a.expires_at now
        && super_admin_role s.roles a.role_id
        && a.user_is_active)

unfoldable pub super_admin_count : AccessStore → Option ℕ → ℕ → ℕ
super_admin_count s user now = count_where (is_super_admin s user now) s.assignments

unfoldable pub is_last_super_admin_user : AccessStore → ℕ → ℕ → Bool
unfolding super_admin_count
is_last_super_admin_user s user now =
    let mine = super_admin_count s (some user) now in
    not (mine == 0) && leb (super_admin_count s none now) mine

abbrev pub has_code : String → List Role → ℕ → Bool
has_code code roles i = any (λ r. is_role i r && (r.code =s code)) roles

abbrev pub last_assignment : AccessStore → ℕ → Option Assignment → Bool
last_assignment s now none = false
last_assignment s now (some a) =
    has_code "super_admin" s.roles a.role_id
    && not (is_some a.station_id)
    && not (is_some a.revoked_at)
    && a.user_is_active
    && leb (super_admin_count s none now) 1

unfoldable pub is_last_super_admin_assignment : AccessStore → ℕ → ℕ → Bool
unfolding super_admin_count
is_last_super_admin_assignment s i now = last_assignment s now (find (λ a. a.id == i) s.assignments)
