-- ===== src/Access/Accounts.antt =====
-- users.service.ts: accounts are created, restricted and given temporary passwords. Names and phone
-- numbers are left out. Hashing is a parameter, like the lower case of an address.
use coin_acceptor_backend.Prelude.{
  List, [], ◌∷◌, ℕ, Bool, true, not, ◌&&◌, ◌||◌, Option, none, some, get_or, String, ◌==◌, ◌=s◌,
  find, any, if◌then◌else◌,
}
use Prim.Native.String.{◌++◌ as append}
use coin_acceptor_backend.Effect.{
  Guard, demand, guards, bad_request, forbidden, conflict, not_found, Action, ◌>>=◌, ◌>>◌, pure,
  gets, modify, throw_if, or_throw,
}
use coin_acceptor_backend.Table.{insert, update_where}
use coin_acceptor_backend.Store.{AuditEntry}
use coin_acceptor_backend.Auth.{User, AuthStore, Passwords, user_has_id, revoke_user_sessions}
use coin_acceptor_backend.Access.{Assignment, is_last_super_admin_user}
use coin_acceptor_backend.Access.Assignments.{AdminStore, record_audit}
use coin_acceptor_backend.Access.Roles.{no_reason}

abbrev pub require_user : ℕ → Action AdminStore User
require_user i = do
  u ← gets (λ s. find (user_has_id i) s.auth.users)
  or_throw u (not_found "User not found.")

abbrev user_entry : String → ℕ → Option String → AuditEntry
user_entry action i reason = record {
  action = action;
  entity_id = some i;
  station_id = none;
  reason = reason;
}

unfoldable pub new_user : Passwords → (String → String) → ℕ → String → String → Option Bool → User
new_user passwords lower i email password must_change = record {
  id = i;
  email = lower email;
  password_hash = passwords.hash password;
  must_change_password = get_or must_change true;
  last_login_at = none;
  is_active = true;
  failed_login_attempts = 0;
  locked_until = none;
}

abbrev pub add_user : User → AdminStore → AdminStore
add_user u s = record s { auth = record s.auth { users = insert u s.auth.users } }

abbrev pub same_account : User → User → Bool
same_account u x = x.id == u.id || (x.email =s u.email)

unfoldable pub create_user : User → Action AdminStore User
create_user u = do
  taken ← gets (λ s. any (same_account u) s.auth.users)
  throw_if taken (conflict "Email already exists.")
  modify (add_user u)
  modify (record_audit (user_entry "users.created" u.id none))
  pure u

abbrev pub set_user_status : Bool → User → User
set_user_status active u = record u { is_active = active; locked_until = none }

abbrev pub set_holder : Bool → Assignment → Assignment
set_holder active a = record a { user_is_active = active }

abbrev pub holds : ℕ → Assignment → Bool
holds i a = a.user_id == i

-- The status of a user is a column of the assignments' join too.
abbrev pub write_status : ℕ → Bool → AdminStore → AdminStore
write_status i active s = record s {
  auth = record s.auth {
    users = update_where (user_has_id i) (set_user_status active) s.auth.users;
  };
  access = record s.access {
    assignments = update_where (holds i) (set_holder active) s.access.assignments;
  };
}

abbrev pub on_sessions : (AuthStore → AuthStore) → AdminStore → AdminStore
on_sessions f s = record s { auth = f s.auth }

-- What `updateStatus` checks before it writes.
abbrev pub status_guards : ℕ → String → Option String → ℕ → ℕ → AdminStore → List Guard
status_guards i status reason actor now s =
    demand (not (i == actor && not (status =s "active")))
      (forbidden "You cannot restrict your own account.")
    ∷ demand (not (not (status =s "active") && no_reason reason))
        (bad_request "A reason is required.")
    ∷ demand (not (not (status =s "active") && is_last_super_admin_user s.access i now))
        (forbidden "Cannot restrict the last global super admin.")
    ∷ []

abbrev pub check_status_of : ℕ → String → Option String → ℕ → ℕ → Action AdminStore (Unit {0})
check_status_of i status reason actor now s =
    (guards (status_guards i status reason actor now s), s)

-- Its writes.
abbrev pub commit_status_of : ℕ → String → Option String → ℕ → User → Action AdminStore User
commit_status_of i status reason now before = do
  let active = status =s "active"
  modify (write_status i active)
  modify (λ s.
      if active then s else on_sessions (revoke_user_sessions i (append "user_" status) now) s)
  modify (record_audit (user_entry "users.status_changed" i reason))
  pure (set_user_status active before)

abbrev pub update_status_of : ℕ → String → Option String → ℕ → ℕ → User → Action AdminStore User
update_status_of i status reason actor now before =
    check_status_of i status reason actor now >> commit_status_of i status reason now before

-- `updateStatus`, with nothing in between.
unfoldable pub update_user_status : ℕ → String → Option String → ℕ → ℕ → Action AdminStore User
update_user_status i status reason actor now = do
  before ← require_user i
  update_status_of i status reason actor now before

abbrev pub set_password : String → Bool → User → User
set_password hash must_change u = record u {
  password_hash = hash;
  must_change_password = must_change;
}

abbrev pub write_password : ℕ → String → Bool → AuthStore → AuthStore
write_password i hash must_change s = record s {
  users = update_where (user_has_id i) (set_password hash must_change) s.users;
}

abbrev pub set_password_of : Passwords → ℕ → String → ℕ → User → Action AdminStore (Unit {0})
set_password_of passwords i password now before = do
  modify (on_sessions (write_password before.id (passwords.hash password) true))
  modify (on_sessions (revoke_user_sessions i "temporary_password_set" now))
  modify (record_audit (user_entry "users.temporary_password_set" i none))

unfoldable pub set_temporary_password : Passwords → ℕ → String → ℕ → Action AdminStore (Unit {0})
set_temporary_password passwords i password now = do
  before ← require_user i
  set_password_of passwords i password now before
