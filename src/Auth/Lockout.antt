-- ===== src/Auth/Lockout.antt =====
-- Failed logins count up and lock the account.
use coin_acceptor_backend.Prelude.{
  ℕ, ◌+◌, ◌*◌, ◌<◌, true, false, some, List, ◌≡◌, refl, ltb, leb, find, find_sound, arith,
  Bool-cases, inl, inr, ◌∙◌, if◌then◌else◌,
}
use coin_acceptor_backend.Effect.{or_throw}
use coin_acceptor_backend.Table.{update_where, find-update_where}
use coin_acceptor_backend.Auth.{User, AuthStore, user_has_id, is_locked, register_failed_login}

module _ (max_attempts lock_minutes i now : ℕ) (s : AuthStore) (u : User) where
  -- The account after one more failed login: one more failure is counted, and the account is
  -- locked for the configured time exactly when the count has reached the limit.
  abbrev pub failed_once : User
  failed_once = record u {
    failed_login_attempts = u.failed_login_attempts + 1;
    locked_until =
        if ltb (u.failed_login_attempts + 1) max_attempts
        then u.locked_until
        else some (now + lock_minutes * 60000);
  }

  -- A failed login of an account that exists adds one to its failures and, exactly when the count
  -- reaches the limit, locks it from now on for the configured minutes.
  pub register_failed_login_locks :
      find (user_has_id i) s.users ≡ some u
      → find (user_has_id i) (register_failed_login max_attempts lock_minutes i now s).1.users
        ≡ some failed_once
  unfolding register_failed_login
  register_failed_login_locks e =
      rw (e, or_throw)
        (elim (Bool-cases (ltb (u.failed_login_attempts + 1) max_attempts)) [
          | inl y ↦ rw y counted
          | inr n ↦ rw n (
              find-update_where (user_has_id i) (user_has_id i) lock once (λ x. refl) u' counted
              ∙ rw at refl)
        ])
    where
      count : User → User
      count x = record x { failed_login_attempts = x.failed_login_attempts + 1 }

      lock : User → User
      lock x = record x { locked_until = some (now + lock_minutes * 60000) }

      u' : User
      u' = count u

      once : List User
      once = update_where (user_has_id i) count s.users

      at : user_has_id i u ≡ true
      at = find_sound (user_has_id i) s.users u e

      counted : find (user_has_id i) once ≡ some u'
      counted =
          find-update_where (user_has_id i) (user_has_id i) count s.users (λ x. refl) u e
          ∙ rw at refl

  -- So an account that was open is locked by that failure exactly when its count reaches the limit.
  pub register_failed_login_closes :
      0 < lock_minutes
      → is_locked u.locked_until now ≡ false
      → is_locked failed_once.locked_until now ≡ leb max_attempts (u.failed_login_attempts + 1)
  unfolding is_locked
  register_failed_login_closes pos open_now =
      elim (Bool-cases (ltb (u.failed_login_attempts + 1) max_attempts)) [
        | inl y ↦ rw y ground arith
        | inr n ↦ rw n ground arith
      ]
