-- ===== src/Access/Tests.antt =====
-- Permission checks at a concrete set of assignments.
use coin_acceptor_backend.Prelude.{true, false, none, some, [], ◌∷◌, ◌≡◌, refl, ◌↔◌}
use coin_acceptor_backend.Access.{
  AccessStore, has_permission, permission_codes, includes, can_grant_role,
}
use coin_acceptor_backend.Access.Grants.{has_permission-includes}
use coin_acceptor_backend.Prelude.{ℕ, ◌⊎◌, arith}
use coin_acceptor_backend.Effect.{ok}
use coin_acceptor_backend.Auth.{User}
use coin_acceptor_backend.Access.Assignments.{
  AdminStore, GrantRequest, create_assignment, revoke_assignment,
}
use coin_acceptor_backend.Access.Assignments.Escalation.{create_assignment_within}
use coin_acceptor_backend.Access.Administration.{IsGoverned}
use coin_acceptor_backend.Access.Administration.Steps.{here, next, revoking, Reach-IsGoverned}
use coin_acceptor_backend.Access.Scope.{require_station, require_station_iff}

abbrev operators : AccessStore
operators = record {
  roles =
      (record { id = 1; code = "super_admin"; is_system_role = true; is_active = true })
      ∷ (record { id = 2; code = "operator"; is_system_role = false; is_active = true })
      ∷ [];
  assignments =
      (record {
        id = 7;
        user_id = 1;
        user_is_active = true;
        role_id = 1;
        station_id = none;
        revoked_at = none;
        expires_at = none;
      })
      ∷ (record {
        id = 8;
        user_id = 2;
        user_is_active = true;
        role_id = 2;
        station_id = some 5;
        revoked_at = none;
        expires_at = none;
      })
      ∷ [];
  role_permissions =
      (record { role_id = 1; code = "lockers.update" })
      ∷ (record { role_id = 1; code = "roles.manage" })
      ∷ (record { role_id = 2; code = "lockers.update" })
      ∷ [];
}

has_permission-includes_example :
    has_permission operators 2 "lockers.update" (some 5) 100
    ≡ includes "lockers.update" (permission_codes operators 2 (some 5) 100)
has_permission-includes_example = has_permission-includes operators 2 "lockers.update" (some 5) 100

may_grant : can_grant_role operators 1 2 (some 5) 100 ≡ true
unfolding can_grant_role
may_grant = refl

abbrev person : ℕ → User
person i = record {
  id = i;
  email = "a";
  password_hash = "h";
  must_change_password = false;
  last_login_at = none;
  is_active = true;
  failed_login_attempts = 0;
  locked_until = none;
}

abbrev office : AdminStore
office = record {
  access = operators;
  auth = record { users = person 1 ∷ person 2 ∷ []; sessions = []; lock_audits = []; audits = [] };
  permissions = [];
  stations = (record { id = 5; is_decommissioned = false }) ∷ [];
  audits = [];
}

-- The super admin makes the operator an operator everywhere.
abbrev everywhere : GrantRequest
everywhere = record { role_id = 2; station_id = none; expires_at = none }

abbrev later_office : AdminStore
later_office = (create_assignment 2 everywhere 1 9 100 office).1

granted : has_permission later_office.access 2 "lockers.update" (some 6) 100 ≡ true
unfolding create_assignment has_permission can_grant_role
granted = refl

create_assignment_within_example :
    (has_permission operators 2 "lockers.update" (some 6) 100 ≡ true)
    ⊎ (has_permission operators 1 "lockers.update" (some 6) 100 ≡ true)
create_assignment_within_example =
    create_assignment_within 2 everywhere 1 9 100 office 2 "lockers.update" (some 6) granted

governed : IsGoverned 100 operators
governed = record {
  somebody = omega arith;
  protected = (λ _. refl, (λ e. e, tt));
  role_ids = ((refl, tt), (tt, tt));
  assignment_ids = ((refl, tt), (tt, tt));
}

-- The last super admin stays, whoever tries to revoke the assignment.
abbrev after_attempt : AdminStore
after_attempt = (revoke_assignment 1 7 "left" 100 office).1

Reach-IsGoverned_example : IsGoverned 100 after_attempt.access
Reach-IsGoverned_example =
    Reach-IsGoverned {now = 100} {s = office} {t = after_attempt} governed
      (next here (revoking 1 7 "left"))

require_station_iff_example :
    (require_station operators 2 "lockers.update" 5 100 ≡ ok tt)
    ↔ (has_permission operators 2 "lockers.update" (some 5) 100 ≡ true)
require_station_iff_example = require_station_iff operators 2 "lockers.update" 5 100
