-- ===== src/Auth.antt =====
-- Accounts and refresh sessions: auth-session.service.ts and auth-account.service.ts. Hashing and
-- verification of tokens are parameters.
pub mod Reuse
pub mod Lockout
pub mod Service
pub mod Tests
use coin_acceptor_backend.Prelude.{
  ℕ, ◌+◌, ◌*◌, Bool, true, false, not, ◌&&◌, ◌||◌, Option, none, some, is_some, get_or, String,
  List, ◌==◌, ◌=s◌, ltb, leb, find, if◌then◌else◌,
}
use coin_acceptor_backend.Effect.{
  Error, unauthorized, database, Result, ok, err, Action, ◌>>=◌, ◌>>◌, pure, gets, modify, throw,
  throw_if, or_throw, transaction,
}
use coin_acceptor_backend.Table.{insert, update_where, count_where}

pub record User : Type 0 where
  pub id : ℕ
  pub email : String
  pub password_hash : String
  pub must_change_password : Bool
  pub last_login_at : Option ℕ
  pub is_active : Bool
  pub failed_login_attempts : ℕ
  pub locked_until : Option ℕ

pub record Session : Type 0 where
  pub id : ℕ
  pub user_id : ℕ
  pub token_family_id : ℕ
  pub rotated_from_session_id : Option ℕ
  pub refresh_token_hash : String
  pub expires_at : ℕ
  pub last_used_at : Option ℕ
  pub revoked_at : Option ℕ
  pub revoke_reason : Option String

pub record AuthStore : Type 0 where
  pub users : List User
  pub sessions : List Session
  -- the users of the audit entries `auth.account_locked`
  pub lock_audits : List ℕ
  -- the other audit entries: their action and what they are about
  pub audits : List (String × ℕ)

-- The claims of a refresh token.
pub record RefreshPayload : Type 0 where
  pub sub : ℕ
  pub session_id : ℕ
  pub token_family_id : ℕ

pub record Rotation : Type 0 where
  pub payload : RefreshPayload
  pub old_refresh_token : String
  pub new_refresh_token : String
  pub new_session_id : ℕ
  pub expires_at : ℕ

-- Argon2, by its two operations.
pub record Passwords : Type 0 where
  pub hash : String → String
  pub verify : String → String → Bool

abbrev pub session_has_id : ℕ → Session → Bool
session_has_id i x = x.id == i

abbrev pub user_has_id : ℕ → User → Bool
user_has_id i u = u.id == i

unfoldable pub is_locked : Option ℕ → ℕ → Bool
is_locked none now = false
is_locked (some t) now = ltb now t

abbrev pub is_live : Session → Bool
is_live x = not (is_some x.revoked_at)

abbrev pub set_revoked : String → ℕ → Session → Session
set_revoked reason now x = record x { revoked_at = some now; revoke_reason = some reason }

-- `updateMany({ where: { ..., revoked_at: null }, data: { revoked_at, revoke_reason } })`
unfoldable pub revoke_where : (Session → Bool) → String → ℕ → AuthStore → AuthStore
revoke_where test reason now s = record s {
  sessions = update_where (λ x. test x && is_live x) (set_revoked reason now) s.sessions;
}

unfoldable pub revoke_session : ℕ → String → ℕ → AuthStore → AuthStore
unfolding revoke_where
revoke_session i reason now s = revoke_where (session_has_id i) reason now s

unfoldable pub revoke_user_sessions : ℕ → String → ℕ → AuthStore → AuthStore
unfolding revoke_where
revoke_user_sessions u reason now s = revoke_where (λ x. x.user_id == u) reason now s

abbrev pub own_live : ℕ → ℕ → Session → Bool
own_live u i x = x.id == i && x.user_id == u

unfoldable pub revoke_own_session : ℕ → ℕ → ℕ → Action AuthStore Bool
unfolding revoke_where
revoke_own_session u i now s = (
  ok (ltb 0 (count_where (λ x. own_live u i x && is_live x) s.sessions)),
  revoke_where (own_live u i) "user_revoked" now s,
)

abbrev pub of_family : ℕ → Session → Bool
of_family f x = x.token_family_id == f

unfoldable pub revoke_family : ℕ → String → ℕ → AuthStore → AuthStore
unfolding revoke_where
revoke_family f reason now s = revoke_where (of_family f) reason now s

-- `auth_sessions.create`, whose primary key refuses an id that is taken.
unfoldable pub create_session : Session → Action AuthStore Session
create_session x = do
  taken ← gets (λ s. is_some (find (session_has_id x.id) s.sessions))
  throw_if taken (database "P2002")
  modify (λ s. record s { sessions = insert x s.sessions })
  pure x

abbrev pub successor : Passwords → Rotation → Session → Session
successor passwords input old = record {
  id = input.new_session_id;
  user_id = old.user_id;
  token_family_id = old.token_family_id;
  rotated_from_session_id = some old.id;
  refresh_token_hash = passwords.hash input.new_refresh_token;
  expires_at = input.expires_at;
  last_used_at = none;
  revoked_at = none;
  revoke_reason = none;
}

abbrev pub retire : ℕ → Session → Session
retire now x = record x {
  revoked_at = some now;
  revoke_reason = some "rotated";
  last_used_at = some now;
}

-- The transaction of `rotateSession`.
unfoldable pub replace_session : Passwords → Rotation → Session → ℕ → Action AuthStore Session
unfolding create_session
replace_session passwords input old now = do
  modify (λ s. record s { sessions = update_where (session_has_id old.id) (retire now) s.sessions })
  create_session (successor passwords input old)

abbrev pub was_rotated : Option String → Bool
was_rotated none = false
was_rotated (some r) = r =s "rotated"

-- `handleRevokedRefresh`
unfoldable pub handle_revoked : Session → ℕ → Action AuthStore Session
unfolding revoke_family
handle_revoked old now s =
    if was_rotated old.revoke_reason
    then (
      err (unauthorized "Refresh token reuse detected."),
      revoke_family old.token_family_id "refresh_reuse_detected" now s,
    )
    else (err (unauthorized "Unauthorized"), s)

abbrev pub refused : Rotation → Session → User → ℕ → Bool
refused input old u now =
    not (old.user_id == input.payload.sub)
    || not (old.token_family_id == input.payload.token_family_id)
    || not u.is_active
    || is_locked u.locked_until now

-- `rotateSession`, up to its transaction, for the row that it has found, with its user: the row,
-- where it is to be rotated.
unfoldable pub check_found : Passwords → Rotation → ℕ → Session → User → Action AuthStore Session
unfolding handle_revoked is_locked
check_found passwords input now old u =
    if refused input old u now
    then throw (unauthorized "Unauthorized")
    else if is_some old.revoked_at
    then handle_revoked old now
    else if leb old.expires_at now
        || not (passwords.verify old.refresh_token_hash input.old_refresh_token)
    then throw (unauthorized "Unauthorized")
    else pure old

abbrev pub check_row : Passwords → Rotation → ℕ → Session → Action AuthStore Session
check_row passwords input now old = do
  u ← or_throw (← gets (λ s. find (user_has_id old.user_id) s.users)) (unauthorized "Unauthorized")
  check_found passwords input now old u

unfoldable pub rotate_check : Passwords → Rotation → ℕ → Action AuthStore Session
unfolding check_found
rotate_check passwords input now = do
  old ←
      or_throw (← gets (λ s. find (session_has_id input.payload.session_id) s.sessions))
        (unauthorized "Unauthorized")
  check_row passwords input now old

-- The transaction, for the row that the check has read.
unfoldable pub rotate_commit : Passwords → Rotation → Session → ℕ → Action AuthStore Session
unfolding replace_session
rotate_commit passwords input old now = transaction (replace_session passwords input old now)

-- `rotateSession`, with nothing in between.
unfoldable pub rotate_session : Passwords → Rotation → ℕ → Action AuthStore Session
unfolding rotate_check rotate_commit
rotate_session passwords input now =
    rotate_check passwords input now >>= λ old. rotate_commit passwords input old now

-- `registerFailedLogin`: the increment, and the lock from `max_attempts` failures on.
unfoldable pub register_failed_login : ℕ → ℕ → ℕ → ℕ → Action AuthStore (Unit {0})
register_failed_login max_attempts lock_minutes i now = do
  u ← or_throw (← gets (λ s. find (user_has_id i) s.users)) (database "P2025")
  let attempts = u.failed_login_attempts + 1
  modify (λ s. record s {
    users =
        update_where (user_has_id i)
          (λ x. record x { failed_login_attempts = x.failed_login_attempts + 1 }) s.users;
  })
  if ltb attempts max_attempts
      then pure tt
      else modify (λ s. record s {
        users =
            update_where (user_has_id i)
              (λ x. record x { locked_until = some (now + lock_minutes * 60000) }) s.users;
        lock_audits = insert i s.lock_audits;
      })
