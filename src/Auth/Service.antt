-- ===== src/Auth/Service.antt =====
-- auth.service.ts, token.service.ts, password.service.ts, auth-ttl.service.ts and the guard of the
-- access token. Signing and verifying tokens, random ids and hashing are parameters.
pub mod Ended
use coin_acceptor_backend.Prelude.{
  is_space, is_blank, ℕ, ◌+◌, ◌*◌, ◌-◌, Bool, true, false, not, ◌&&◌, ◌||◌, Option, none, some,
  is_some, String, List, [], ◌∷◌, ◌==◌, ◌=s◌, ltb, leb, find, filter, any, codes, codes_eq,
  is_digit, if◌then◌else◌,
}
use Prim.Native.String.{◌++◌ as append}
use coin_acceptor_backend.Effect.{
  Error, unauthorized, bad_request, forbidden, database, Result, ok, err, Action, ◌>>=◌, ◌>>◌, pure,
  gets, modify, throw, throw_if, or_throw, lift, check, then_result,
}
use coin_acceptor_backend.Table.{insert, update_where}
use coin_acceptor_backend.Auth.{
  User, Session, AuthStore, RefreshPayload, Rotation, Passwords, user_has_id, session_has_id,
  is_locked, create_session, revoke_session, revoke_user_sessions, revoke_own_session,
  rotate_session, register_failed_login,
}

-- A claim of a token with its kind, as `verifyAsync` returns it.
pub record Signed : Type 0 where
  pub is_refresh : Bool
  pub payload : RefreshPayload

pub record TokenKeys : Type 0 where
  pub sign_refresh : RefreshPayload → String
  pub sign_access : ℕ → ℕ → String
  pub verify_refresh : String → Result Signed
  pub verify_access : String → Result Signed

pub record AuthConfig : Type 0 where
  pub max_attempts : ℕ
  pub lock_minutes : ℕ
  pub min_password_length : ℕ
  pub refresh_ttl : List ℕ
  pub size : String → ℕ
  pub print : ℕ → String

-- `verifyRefresh` and `verifyAccess`: a token of the other kind is refused.
unfoldable pub verify_refresh_token : TokenKeys → String → Result RefreshPayload
verify_refresh_token keys token =
    then_result (keys.verify_refresh token)
      λ t. if t.is_refresh then ok t.payload else err (unauthorized "Unauthorized")

unfoldable pub verify_access_token : TokenKeys → String → Result RefreshPayload
verify_access_token keys token =
    then_result (keys.verify_access token)
      λ t. if t.is_refresh then err (unauthorized "Unauthorized") else ok t.payload

-- `toMilliseconds`: digits and one unit.
abbrev unit_of : ℕ → Option ℕ
unit_of c =
    if c == b's'
    then some 1000
    else if c == b'm'
    then some 60000
    else if c == b'h'
    then some 3600000
    else if c == b'd'
    then some 86400000
    else none

abbrev times : ℕ → Option ℕ → Option ℕ
times n none = none
times n (some u) = some (n * u)

abbrev read_ttl : ℕ → Bool → List ℕ → Option ℕ
read_ttl n seen [] = none
read_ttl n seen (c ∷ []) = if seen then times n (unit_of c) else none
read_ttl n seen (c ∷ d ∷ cs) =
    let rest = read_ttl (n * 10 + (c - b'0')) true (d ∷ cs) in if is_digit c then rest else none

abbrev trim_start : List ℕ → List ℕ
trim_start [] = []
trim_start (c ∷ cs) = let rest = trim_start cs in if is_space c then rest else c ∷ cs

abbrev trim_end : List ℕ → List ℕ
trim_end [] = []
trim_end (c ∷ cs) = let rest = trim_end cs in if is_blank (c ∷ cs) then [] else c ∷ rest

unfoldable pub to_milliseconds : List ℕ → Option ℕ
to_milliseconds ttl = read_ttl 0 false (trim_end (trim_start ttl))

abbrev pub expires_at : AuthConfig → ℕ → Result ℕ
expires_at c now = elim (to_milliseconds c.refresh_ttl) [
  | none ↦ err (database "Invalid TTL value.")
  | some t ↦ ok (now + t)
]

-- `validateNewPassword`
unfoldable pub validate_new_password : AuthConfig → String → String → Result (Unit {0})
validate_new_password c new confirm =
    if ltb (c.size new) c.min_password_length
    then err (
        bad_request (
          append "Password must be at least "
            (append (c.print c.min_password_length) " characters.")))
    else check (new =s confirm) (bad_request "Password confirmation does not match.")

abbrev note : String → ℕ → AuthStore → AuthStore
note action i s = record s { audits = insert (action, i) s.audits }

abbrev invalid_credentials : Error
invalid_credentials = unauthorized "Invalid email or password."

abbrev pub has_email : String → User → Bool
has_email email u = u.email =s email

pub record Tokens : Type 0 where
  pub session_id : ℕ
  pub access_token : String
  pub refresh_token : String

-- The random ids of a new session.
pub record NewSession : Type 0 where
  pub session_id : ℕ
  pub family_id : ℕ

abbrev login_data : ℕ → User → User
login_data now u = record u {
  failed_login_attempts = 0;
  locked_until = none;
  last_login_at = some now;
}

abbrev session_row : Passwords → ℕ → NewSession → String → ℕ → Session
session_row passwords user new token expires = record {
  id = new.session_id;
  user_id = user;
  token_family_id = new.family_id;
  rotated_from_session_id = none;
  refresh_token_hash = passwords.hash token;
  expires_at = expires;
  last_used_at = none;
  revoked_at = none;
  revoke_reason = none;
}

-- `createAuthSession`
unfoldable pub create_auth_session :
    Passwords → TokenKeys → AuthConfig → NewSession → ℕ → ℕ → Action AuthStore Tokens
unfolding create_session to_milliseconds
create_auth_session passwords keys c new user now = do
  let token =
      keys.sign_refresh
        (record { sub = user; session_id = new.session_id; token_family_id = new.family_id })
  expires ← lift (expires_at c now)
  x ← create_session (session_row passwords user new token expires)
  pure (record {
    session_id = x.id;
    access_token = keys.sign_access user x.id;
    refresh_token = token;
  })

abbrev refuse : AuthConfig → ℕ → ℕ → Action AuthStore Tokens
refuse c i now =
    register_failed_login c.max_attempts c.lock_minutes i now >> throw invalid_credentials

abbrev enter : Passwords → TokenKeys → AuthConfig → NewSession → ℕ → ℕ → Action AuthStore Tokens
enter passwords keys c new i now = do
  modify (λ s. record s { users = update_where (user_has_id i) (login_data now) s.users })
  t ← create_auth_session passwords keys c new i now
  modify (note "auth.login" t.session_id)
  pure t

abbrev pub login_found :
    Passwords → TokenKeys → AuthConfig → NewSession → String → ℕ → User → Action AuthStore Tokens
login_found passwords keys c new password now u =
    if not u.is_active || is_locked u.locked_until now
    then refuse c u.id now
    else if not (passwords.verify u.password_hash password)
    then refuse c u.id now
    else enter passwords keys c new u.id now

-- `login`, for an address in lower case.
unfoldable pub login :
    Passwords → TokenKeys → AuthConfig → NewSession → String → String → ℕ → Action AuthStore Tokens
unfolding register_failed_login is_locked create_auth_session
login passwords keys c new email password now = do
  u ← or_throw (← gets (λ s. find (has_email email) s.users)) invalid_credentials
  login_found passwords keys c new password now u

abbrev rotation : TokenKeys → RefreshPayload → String → ℕ → ℕ → Rotation
rotation keys payload old new_id expires = record {
  payload = payload;
  old_refresh_token = old;
  new_refresh_token = keys.sign_refresh (record {
    sub = payload.sub;
    session_id = new_id;
    token_family_id = payload.token_family_id;
  });
  new_session_id = new_id;
  expires_at = expires;
}

abbrev is_reuse : Error → Bool
is_reuse (unauthorized m) = m =s "Refresh token reuse detected."
is_reuse _ = false

-- The audit entry of a reuse is written outside of what is rolled back.
abbrev after_rotation :
    TokenKeys → RefreshPayload → Rotation → Result Session × AuthStore → Result Tokens × AuthStore
after_rotation keys payload r (ok x, s) = (
  ok (record {
    session_id = x.id;
    access_token = keys.sign_access payload.sub x.id;
    refresh_token = r.new_refresh_token;
  }),
  s,
)
after_rotation keys payload r (err e, s) =
    (err e, if is_reuse e then note "auth.refresh_reuse_detected" payload.session_id s else s)

abbrev rotate_for : Passwords → TokenKeys → RefreshPayload → ℕ → Rotation → Action AuthStore Tokens
rotate_for passwords keys payload now r s =
    after_rotation keys payload r (rotate_session passwords r now s)

unfoldable pub refresh :
    Passwords → TokenKeys → AuthConfig → String → ℕ → ℕ → Action AuthStore Tokens
unfolding verify_refresh_token rotate_session to_milliseconds
refresh passwords keys c token new_id now = do
  payload ← lift (verify_refresh_token keys token)
  expires ← lift (expires_at c now)
  rotate_for passwords keys payload now (rotation keys payload token new_id expires)

-- `logout` never fails: a token that does not verify is ignored.
abbrev end_session : ℕ → Result RefreshPayload → AuthStore → AuthStore
end_session now (ok payload) s =
    note "auth.logout" payload.session_id (revoke_session payload.session_id "logout" now s)
end_session now (err e) s = s

unfoldable pub logout : TokenKeys → Option String → ℕ → AuthStore → AuthStore
unfolding verify_refresh_token revoke_session
logout keys none now s = s
logout keys (some token) now s = end_session now (verify_refresh_token keys token) s

unfoldable pub logout_all : ℕ → ℕ → AuthStore → AuthStore
unfolding revoke_user_sessions
logout_all user now s = note "auth.logout_all" user (revoke_user_sessions user "logout_all" now s)

abbrev pub password_data : String → User → User
password_data hash u = record u { password_hash = hash; must_change_password = false }

abbrev pub finish_change : ℕ → String → ℕ → AuthStore → AuthStore
finish_change user hash now s = note "auth.password_changed" user (
    revoke_user_sessions user "password_changed" now
      (record s { users = update_where (user_has_id user) (password_data hash) s.users }))

abbrev pub change_found : Passwords → ℕ → String → String → ℕ → User → Action AuthStore (Unit {0})
change_found passwords user current new now u = do
  throw_if (not (passwords.verify u.password_hash current))
      (unauthorized "Current password is incorrect.")
  throw_if (passwords.verify u.password_hash new) (bad_request "New password must be different.")
  modify (finish_change user (passwords.hash new) now)

unfoldable pub change_password :
    Passwords → AuthConfig → ℕ → String → String → String → ℕ → Action AuthStore (Unit {0})
unfolding validate_new_password revoke_user_sessions
change_password passwords c user current new confirm now = do
  lift (validate_new_password c new confirm)
  u ← or_throw (← gets (λ s. find (user_has_id user) s.users)) (database "P2025")
  change_found passwords user current new now u

unfoldable pub list_user_sessions : ℕ → AuthStore → List Session
list_user_sessions user s = filter (λ x. x.user_id == user) s.sessions

abbrev note_revoked : ℕ → Bool → AuthStore → AuthStore
note_revoked i true s = note "auth.session_revoked" i s
note_revoked i false s = s

unfoldable pub revoke_my_session : ℕ → ℕ → ℕ → Action AuthStore (Unit {0})
unfolding revoke_own_session
revoke_my_session user i now = do
  revoked ← revoke_own_session user i now
  modify (note_revoked i revoked)

-- `JwtAccessStrategy.validate`: the session of an access token, and its user.
abbrev accept_user : ℕ → Option User → Result User
accept_user now none = err (unauthorized "Unauthorized")
accept_user now (some u) =
    if not u.is_active || is_locked u.locked_until now
    then err (unauthorized "Unauthorized")
    else ok u

abbrev pub accept_session : RefreshPayload → ℕ → AuthStore → Option Session → Result User
accept_session payload now s none = err (unauthorized "Unauthorized")
accept_session payload now s (some x) =
    if not (x.user_id == payload.sub) || is_some x.revoked_at || leb x.expires_at now
    then err (unauthorized "Unauthorized")
    else accept_user now (find (user_has_id x.user_id) s.users)

unfoldable pub validate_access : RefreshPayload → ℕ → AuthStore → Result User
unfolding is_locked
validate_access payload now s =
    accept_session payload now s (find (session_has_id payload.session_id) s.sessions)

-- jwt-auth.guard.ts: what an account that must change its password may still call.
abbrev ends_with : List ℕ → List ℕ → Bool
ends_with suffix [] = codes_eq [] suffix
ends_with suffix (c ∷ cs) = codes_eq (c ∷ cs) suffix || ends_with suffix cs

unfoldable pub allowed_while_change_required : String → List ℕ → Bool
allowed_while_change_required method path =
    ((method =s "GET") && ends_with (codes "/auth/me") path)
    || ((method =s "PATCH") && ends_with (codes "/auth/change-password") path)
    || ((method =s "POST") && ends_with (codes "/auth/logout") path)

unfoldable pub block_password_change_required : Bool → String → List ℕ → Result (Unit {0})
unfolding allowed_while_change_required
block_password_change_required must_change method path =
    check (not must_change || allowed_while_change_required method path)
      (forbidden "Password change required.")
