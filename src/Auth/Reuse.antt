-- ===== src/Auth/Reuse.antt =====
-- A refresh token rotates once, and its reuse ends the family.
use coin_acceptor_backend.Prelude.{
  ℕ, true, false, ◌&&◌, Option, none, some, is_some, String, List, ◌≡◌, refl, find, find_sound, All,
  arith, Bool-cases, Option-cases, ◌⊎◌, inl, inr, subst, ap, sym, ◌∙◌,
}
use coin_acceptor_backend.Effect.{
  unauthorized, Result, ok, err, IsOk, or_throw, settle, ◌>>=◌, bind_throws, bind_error,
}
use coin_acceptor_backend.Table.{
  update_where, find-update_where, find-update_where-none, find-insert, All-update_where, All-unit,
}
use coin_acceptor_backend.Auth.{
  User, Session, AuthStore, Rotation, Passwords, session_has_id, user_has_id, is_live, of_family,
  set_revoked, revoke_where, revoke_family, create_session, replace_session, successor, retire,
  was_rotated, handle_revoked, refused, check_found, check_row, rotate_check, rotate_commit,
  rotate_session,
}

abbrev pub IsEnded : ℕ → AuthStore → Type 0
IsEnded f s = All (λ x. of_family f x && is_live x ≡ false) s.sessions

pub revoke_family-IsEnded :
    (f : ℕ) (reason : String) (now : ℕ) (s : AuthStore) → IsEnded f (revoke_family f reason now s)
unfolding revoke_family revoke_where
revoke_family-IsEnded f reason now s =
    All-update_where (λ _. Unit {0}) (λ _. Unit {0}) (λ x. of_family f x && is_live x ≡ false)
      (λ x. of_family f x && is_live x) (set_revoked reason now) s.sessions
      (λ x h _ _. ground arith) (λ x h _ _. ground arith) (All-unit s.sessions)
      (All-unit s.sessions)

module _ (passwords : Passwords) (input : Rotation) (now : ℕ) (s : AuthStore) (old : Session)
    (u : User) where
  rotate_check_found :
      find (session_has_id input.payload.session_id) s.sessions ≡ some old
      → find (user_has_id old.user_id) s.users ≡ some u
      → rotate_check passwords input now s ≡ check_found passwords input now old u s
  unfolding rotate_check
  rotate_check_found e v =
      ap
        (λ (o : Option Session).
          (or_throw o (unauthorized "Unauthorized") >>= check_row passwords input now) s)
        e
      ∙ ap
          (λ (o : Option User).
            (or_throw o (unauthorized "Unauthorized") >>= check_found passwords input now old) s)
          v

  -- Presenting the refresh token of a session that was rotated already, by an active and unlocked
  -- user with matching claims, is refused as reuse and leaves no live session in the token's
  -- family.
  pub rotate_session_reused :
      find (session_has_id input.payload.session_id) s.sessions ≡ some old
      → find (user_has_id old.user_id) s.users ≡ some u
      → refused input old u now ≡ false
      → is_some old.revoked_at ≡ true
      → was_rotated old.revoke_reason ≡ true
      → ((rotate_session passwords input now s).0
          ≡ err (unauthorized "Refresh token reuse detected."))
        × IsEnded old.token_family_id (rotate_session passwords input now s).1
  unfolding rotate_session check_found handle_revoked
  rotate_session_reused e v r d w = (
    ap (λ q. q.0) run,
    subst (IsEnded old.token_family_id) (sym (ap (λ q. q.1) run))
        (revoke_family-IsEnded old.token_family_id "refresh_reuse_detected" now s),
  )
    where
      ended : AuthStore
      ended = revoke_family old.token_family_id "refresh_reuse_detected" now s

      found :
          check_found passwords input now old u s
          ≡ (err (unauthorized "Refresh token reuse detected."), ended)
      found = rw (r, d, w) refl

      run :
          rotate_session passwords input now s
          ≡ (err (unauthorized "Refresh token reuse detected."), ended)
      run =
          bind_error (rotate_check passwords input now) (λ x. rotate_commit passwords input x now) s
            (unauthorized "Refresh token reuse detected.") ended (rotate_check_found e v ∙ found)

-- The row of a token after a rotation that succeeded: it is revoked.
abbrev Spent : ℕ → Result Session × AuthStore → Type 0
Spent i (ok x, t) =
    (old : Session) × (find (session_has_id i) t.sessions ≡ some old)
    × (is_some old.revoked_at ≡ true)
Spent i (err e, t) = Unit

replace_session-Spent :
    (passwords : Passwords) (input : Rotation) (now : ℕ) (s : AuthStore) (old row : Session)
    → find (session_has_id old.id) s.sessions ≡ some row
    → Spent old.id (replace_session passwords input old now s)
unfolding replace_session create_session
replace_session-Spent passwords input now s old row e =
    elim (Bool-cases (is_some (find (session_has_id input.new_session_id) gone))) [
      | inl y ↦ rw y tt
      | inr n ↦
          rw n
            (retire now row, find-insert (session_has_id old.id) _ gone (retire now row) kept, refl)
    ]
  where
    gone : List Session
    gone = update_where (session_has_id old.id) (retire now) s.sessions

    kept : find (session_has_id old.id) gone ≡ some (retire now row)
    kept =
        find-update_where (session_has_id old.id) (session_has_id old.id) (retire now) s.sessions
          (λ x. refl) row e
        ∙ rw (find_sound (session_has_id old.id) s.sessions row e) refl

settle-Spent :
    (i : ℕ) (s : AuthStore) (r : Result Session × AuthStore) → Spent i r → Spent i (settle s r)
settle-Spent i s (ok x, t) h = h
settle-Spent i s (err x, t) h = tt

-- A row that is revoked is never let through by the check.
check_found_revoked :
    (passwords : Passwords) (input : Rotation) (now : ℕ) (s : AuthStore) (old : Session) (u : User)
    → is_some old.revoked_at ≡ true
    → ¬ IsOk (check_found passwords input now old u s).0
unfolding check_found handle_revoked
check_found_revoked passwords input now s old u r = elim (Bool-cases (refused input old u now)) [
  | inl y ↦ rw y (λ x. x)
  | inr n ↦ rw n (
      rw r (elim (Bool-cases (was_rotated old.revoke_reason)) [
        | inl w ↦ rw w (λ x. x)
        | inr w ↦ rw w (λ x. x)
      ]))
]

-- A token whose session is revoked is never accepted.
rotate_session_revoked :
    (passwords : Passwords) (input : Rotation) (now : ℕ) (s : AuthStore) (old : Session)
    → find (session_has_id input.payload.session_id) s.sessions ≡ some old
    → is_some old.revoked_at ≡ true
    → ¬ IsOk (rotate_session passwords input now s).0
unfolding rotate_session
rotate_session_revoked passwords input now s old e r =
    bind_throws (rotate_check passwords input now) (λ x. rotate_commit passwords input x now) s
      (unread (Option-cases (find (user_has_id old.user_id) s.users)))
  where
    unread :
        (find (user_has_id old.user_id) s.users ≡ none)
          ⊎ ((u : User) × (find (user_has_id old.user_id) s.users ≡ some u))
        → ¬ IsOk (rotate_check passwords input now s).0
    unread (inl m) = rw (e, or_throw) (rw (m, or_throw) (λ x. x))
    unread (inr (u, v)) =
        subst (λ q. ¬ IsOk q.0) (sym (rotate_check_found passwords input now s old u e v))
          (check_found_revoked passwords input now s old u r)

-- A rotation of a row that was read before writes, whatever has become of the row.
commit_stale :
    (passwords : Passwords) (input : Rotation) (old : Session) (now : ℕ) (s : AuthStore)
    → find (session_has_id input.new_session_id) s.sessions ≡ none
    → (rotate_commit passwords input old now s).0 ≡ ok (successor passwords input old)
unfolding rotate_commit replace_session create_session
commit_stale passwords input old now s e =
    rw
      (find-update_where-none (session_has_id input.new_session_id) (session_has_id old.id)
        (retire now) s.sessions (λ x. refl) e)
      refl

-- After the write of a rotation of a session that is there, every refresh with that session's
-- claims that reads the session from then on is refused; a refresh that had read it before that
-- write, with a new session id that is unused, rotates it a second time, since the write does not
-- look at the row again.
pub rotate_session_once :
    (passwords : Passwords) (input again : Rotation) (old row new : Session) (now later : ℕ)
    (s t : AuthStore)
    → find (session_has_id old.id) s.sessions ≡ some row
    → rotate_commit passwords input old now s ≡ (ok new, t)
    → again.payload.session_id ≡ old.id
    → find (session_has_id again.new_session_id) t.sessions ≡ none
    → (¬ IsOk (rotate_session passwords again later t).0)
      × ((rotate_commit passwords again old later t).0 ≡ ok (successor passwords again old))
unfolding rotate_commit
rotate_session_once passwords input again old row new now later s t e done same unused =
    let spent = subst (Spent old.id) done (
      settle-Spent old.id s (replace_session passwords input old now s)
        (replace_session-Spent passwords input now s old row e)) in
    (
      rotate_session_revoked passwords again later t spent.0
          (ap (λ i. find (session_has_id i) t.sessions) same ∙ spent.1) spent.2,
      commit_stale passwords again old later t unused,
    )
