-- ===== src/Access/Assignments.antt =====
-- role-assignments.service.ts: roles are given to users and taken back.
pub mod Escalation
use coin_acceptor_backend.Prelude.{
  ℕ, Bool, true, false, not, ◌&&◌, ◌||◌, Option, none, some, is_some, String, List, [], ◌∷◌, ◌==◌,
  ◌=s◌, leb, ltb, find, any, codes, is_blank, if◌then◌else◌,
}
use coin_acceptor_backend.Effect.{
  Error, bad_request, forbidden, conflict, not_found, database, Result, Action, Guard, demand,
  guards, ◌>>=◌, ◌>>◌, pure, gets, modify, throw_if, or_throw, lift, transaction,
}
use coin_acceptor_backend.Table.{insert, update_where}
use coin_acceptor_backend.Store.{AuditEntry}
use coin_acceptor_backend.Auth.{User, AuthStore, user_has_id}
use coin_acceptor_backend.Access.{
  Role, Assignment, AccessStore, is_role, has_permission, can_grant_role,
  is_last_super_admin_assignment,
}

pub record Permission : Type 0 where
  pub id : ℕ
  pub code : String

pub record StationRow : Type 0 where
  pub id : ℕ
  pub is_decommissioned : Bool

pub record AdminStore : Type 0 where
  pub access : AccessStore
  pub auth : AuthStore
  pub permissions : List Permission
  pub stations : List StationRow
  pub audits : List AuditEntry

-- `CreateRoleAssignmentDto`
pub record GrantRequest : Type 0 where
  pub role_id : ℕ
  pub station_id : Option ℕ
  pub expires_at : Option ℕ

abbrev pub record_audit : AuditEntry → AdminStore → AdminStore
record_audit a s = record s { audits = insert a s.audits }

abbrev pub has_assignment_id : ℕ → Assignment → Bool
has_assignment_id i a = a.id == i

abbrev pub user_active : List User → ℕ → Bool
user_active users i = any (λ u. user_has_id i u && u.is_active) users

abbrev is_live_user : Option User → Bool
is_live_user none = false
is_live_user (some u) = u.is_active

abbrev is_live_role : Option Role → Bool
is_live_role none = false
is_live_role (some r) = r.is_active

abbrev station_has_id : ℕ → StationRow → Bool
station_has_id i x = x.id == i

abbrev is_open_station : Option StationRow → Bool
is_open_station none = false
is_open_station (some x) = not x.is_decommissioned

abbrev station_assignable : List StationRow → Option ℕ → Bool
station_assignable xs none = true
station_assignable xs (some i) = is_open_station (find (station_has_id i) xs)

-- `validateActorScope`; the message depends on whether a station is named.
abbrev out_of_scope : Option ℕ → Error
out_of_scope none = forbidden "Global assignment requires global authority."
out_of_scope (some i) = forbidden "Cannot assign outside your station."

abbrev pub assignable_guards : AdminStore → ℕ → GrantRequest → ℕ → ℕ → List Guard
assignable_guards s user dto actor now =
    demand (is_live_user (find (user_has_id user) s.auth.users)) (bad_request "User is not active.")
    ∷ demand (is_live_role (find (is_role dto.role_id) s.access.roles))
        (bad_request "Role is not active.")
    ∷ demand (station_assignable s.stations dto.station_id)
        (bad_request "Station is not assignable.")
    ∷ demand (has_permission s.access actor "roles.manage" dto.station_id now)
        (out_of_scope dto.station_id)
    ∷ demand (can_grant_role s.access actor dto.role_id dto.station_id now)
        (forbidden "Cannot grant permissions you do not possess.")
    ∷ []

unfoldable pub validate_assignable : AdminStore → ℕ → GrantRequest → ℕ → ℕ → Result (Unit {0})
validate_assignable s user dto actor now = guards (assignable_guards s user dto actor now)

abbrev pub is_past : Option ℕ → ℕ → Bool
is_past none now = false
is_past (some t) now = leb t now

abbrev same_station : Option ℕ → Option ℕ → Bool
same_station none none = true
same_station (some i) (some j) = i == j
same_station _ _ = false

abbrev still_valid : Option ℕ → ℕ → Bool
still_valid none now = true
still_valid (some t) now = ltb now t

-- `findEquivalentActiveAssignment`
unfoldable pub equivalent : ℕ → GrantRequest → ℕ → Assignment → Bool
equivalent user dto now a =
    a.user_id == user
    && a.role_id == dto.role_id
    && same_station a.station_id dto.station_id
    && not (is_some a.revoked_at)
    && still_valid a.expires_at now

unfoldable pub assignment_row : AdminStore → ℕ → GrantRequest → ℕ → Assignment
assignment_row s user dto new_id = record {
  id = new_id;
  user_id = user;
  user_is_active = user_active s.auth.users user;
  role_id = dto.role_id;
  station_id = dto.station_id;
  revoked_at = none;
  expires_at = dto.expires_at;
}

abbrev entry : String → Option ℕ → Option ℕ → Option String → AuditEntry
entry action i station reason = record {
  action = action;
  entity_id = i;
  station_id = station;
  reason = reason;
}

abbrev pub add_assignment : Assignment → AdminStore → AdminStore
add_assignment a s = record s {
  access = record s.access { assignments = insert a s.access.assignments };
}

-- The unique keys: the id, and one assignment of a role, expired or not, that is not revoked.
abbrev pub assignment_clashes : ℕ → GrantRequest → ℕ → Assignment → Bool
assignment_clashes user dto new_id a =
    a.id == new_id
    || (a.user_id == user
        && a.role_id == dto.role_id
        && same_station a.station_id dto.station_id
        && not (is_some a.revoked_at))

-- The transaction of `create`.
unfoldable pub create_inside : ℕ → GrantRequest → ℕ → ℕ → Action AdminStore Assignment
unfolding equivalent assignment_row
create_inside user dto new_id now = do
  existing ← gets (λ s. any (equivalent user dto now) s.access.assignments)
  throw_if existing (conflict "Active assignment exists.")
  taken ← gets (λ s. any (assignment_clashes user dto new_id) s.access.assignments)
  throw_if taken (database "P2002")
  a ← gets (λ s. assignment_row s user dto new_id)
  modify (add_assignment a)
  modify (record_audit (entry "role_assignments.created" (some a.id) dto.station_id none))
  pure a

unfoldable pub create_assignment : ℕ → GrantRequest → ℕ → ℕ → ℕ → Action AdminStore Assignment
unfolding validate_assignable create_inside
create_assignment user dto actor new_id now = do
  throw_if (is_past dto.expires_at now) (bad_request "expiresAt must be in the future.")
  r ← gets (λ s. validate_assignable s user dto actor now)
  lift r
  transaction (create_inside user dto new_id now)

abbrev pub of_user : ℕ → ℕ → Assignment → Bool
of_user user i a = a.id == i && a.user_id == user

abbrev pub revoke_row : ℕ → Assignment → Assignment
revoke_row now a = record a { revoked_at = some now }

abbrev pub revoke_at : ℕ → ℕ → AdminStore → AdminStore
revoke_at i now s = record s {
  access = record s.access {
    assignments = update_where (has_assignment_id i) (revoke_row now) s.access.assignments;
  };
}

abbrev pub revoke_found : ℕ → String → Assignment → Action AdminStore Assignment
revoke_found now reason a s = if is_some a.revoked_at then (Result.ok a, s) else (
  Result.ok (revoke_row now a),
  record_audit (entry "role_assignments.revoked" (some a.id) a.station_id (some reason))
      (revoke_at a.id now s),
)

-- What `revoke` checks before its transaction.
abbrev pub revoke_guards : ℕ → String → ℕ → AdminStore → List Guard
revoke_guards i reason now s =
    demand (not (is_blank (codes reason))) (bad_request "Reason is required.")
    ∷ demand (not (is_last_super_admin_assignment s.access i now))
        (forbidden "Cannot revoke the last global super admin.")
    ∷ []

unfoldable pub revoke_check : ℕ → String → ℕ → Action AdminStore (Unit {0})
revoke_check i reason now s = (guards (revoke_guards i reason now s), s)

-- Its transaction.
unfoldable pub revoke_commit : ℕ → ℕ → String → ℕ → Action AdminStore Assignment
revoke_commit user i reason now = do
  a ←
      or_throw (← gets (λ s. find (of_user user i) s.access.assignments))
        (not_found "Role assignment not found.")
  revoke_found now reason a

-- `revoke`, with nothing in between.
unfoldable pub revoke_assignment : ℕ → ℕ → String → ℕ → Action AdminStore Assignment
unfolding revoke_check revoke_commit
revoke_assignment user i reason now = revoke_check i reason now >> revoke_commit user i reason now
