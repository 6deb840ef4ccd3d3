-- ===== src/Auth/Tests.antt =====
-- Refresh tokens and the lockout at concrete accounts.
use coin_acceptor_backend.Prelude.{
  ℕ, true, false, none, some, String, [], ◌∷◌, ◌≡◌, refl, find, ◌=s◌,
}
use coin_acceptor_backend.Effect.{unauthorized, ok, err, IsOk}
use coin_acceptor_backend.Auth.{
  User, Session, AuthStore, RefreshPayload, Rotation, Passwords, user_has_id, is_locked, refused,
  rotate_session, rotate_commit, successor, register_failed_login,
}
use coin_acceptor_backend.Auth.Reuse.{IsEnded, rotate_session_once, rotate_session_reused}
use coin_acceptor_backend.Auth.Lockout.{failed_once, register_failed_login_locks}
use coin_acceptor_backend.Prelude.{codes}
use coin_acceptor_backend.Auth.Service.{
  AuthConfig, to_milliseconds, validate_new_password, change_password, validate_access,
}
use coin_acceptor_backend.Auth.Service.Ended.{change_password_ends}

abbrev account : User
account = record {
  id = 1;
  email = "a";
  password_hash = "p";
  must_change_password = false;
  last_login_at = none;
  is_active = true;
  failed_login_attempts = 4;
  locked_until = none;
}

abbrev login : Session
login = record {
  id = 10;
  user_id = 1;
  token_family_id = 5;
  rotated_from_session_id = none;
  refresh_token_hash = "a";
  expires_at = 9000;
  last_used_at = none;
  revoked_at = none;
  revoke_reason = none;
}

abbrev signed_in : AuthStore
signed_in = record { users = account ∷ []; sessions = login ∷ []; lock_audits = []; audits = [] }

-- Tokens that are their own hashes.
abbrev plain : Passwords
plain = record { hash = λ t. t; verify = λ h t. h =s t }

abbrev claims : RefreshPayload
claims = record { sub = 1; session_id = 10; token_family_id = 5 }

abbrev refresh : String → ℕ → Rotation
refresh token i = record {
  payload = claims;
  old_refresh_token = "a";
  new_refresh_token = token;
  new_session_id = i;
  expires_at = 9900;
}

abbrev rotated : Session
rotated = record {
  id = 11;
  user_id = 1;
  token_family_id = 5;
  rotated_from_session_id = some 10;
  refresh_token_hash = "b";
  expires_at = 9900;
  last_used_at = none;
  revoked_at = none;
  revoke_reason = none;
}

abbrev spent : Session
spent = record login {
  revoked_at = some 2000;
  revoke_reason = some "rotated";
  last_used_at = some 2000;
}

abbrev after_refresh : AuthStore
after_refresh = record signed_in { sessions = spent ∷ rotated ∷ [] }

refreshed : rotate_session plain (refresh "b" 11) 2000 signed_in ≡ (ok rotated, after_refresh)
unfolding rotate_session
refreshed = refl

committed : rotate_commit plain (refresh "b" 11) login 2000 signed_in ≡ (ok rotated, after_refresh)
unfolding rotate_commit
committed = refl

rotate_session_once_example :
    (¬ IsOk (rotate_session plain (refresh "c" 12) 3000 after_refresh).0)
    × ((rotate_commit plain (refresh "c" 12) login 3000 after_refresh).0
        ≡ ok (successor plain (refresh "c" 12) login))
rotate_session_once_example =
    rotate_session_once plain (refresh "b" 11) (refresh "c" 12) login login rotated 2000 3000
      signed_in after_refresh refl committed refl refl

not_refused : refused (refresh "c" 12) spent account 3000 ≡ false
unfolding is_locked
not_refused = refl

rotate_session_reused_example :
    ((rotate_session plain (refresh "c" 12) 3000 after_refresh).0
      ≡ err (unauthorized "Refresh token reuse detected."))
    × IsEnded 5 (rotate_session plain (refresh "c" 12) 3000 after_refresh).1
rotate_session_reused_example =
    rotate_session_reused plain (refresh "c" 12) 3000 after_refresh spent account refl refl
      not_refused refl refl

register_failed_login_locks_example :
    find (user_has_id 1) (register_failed_login 5 15 1 2000 signed_in).1.users
    ≡ some (failed_once 5 15 1 2000 signed_in account)
register_failed_login_locks_example = register_failed_login_locks 5 15 1 2000 signed_in account refl

abbrev settings : AuthConfig
settings = record {
  max_attempts = 5;
  lock_minutes = 15;
  min_password_length = 1;
  refresh_ttl = codes "30d";
  size = λ _. 12;
  print = λ _. "12";
}

thirty_days : to_milliseconds (codes "30d") ≡ some 2592000000
unfolding to_milliseconds
thirty_days = refl

abbrev after_change : AuthStore
after_change = (change_password plain settings 1 "p" "q" "q" 2000 signed_in).1

changed : change_password plain settings 1 "p" "q" "q" 2000 signed_in ≡ (ok tt, after_change)
unfolding change_password validate_new_password
changed = refl

change_password_ends_example :
    (¬ IsOk (validate_access claims 3000 after_change))
    × (¬ IsOk (rotate_session plain (refresh "b" 11) 3000 after_change).0)
change_password_ends_example =
    change_password_ends plain settings 1 "p" "q" "q" 2000 3000 signed_in after_change claims
      (refresh "b" 11) changed refl refl
