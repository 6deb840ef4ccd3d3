-- ===== src/Auth/Service/Ended.antt =====
-- A changed password ends what was open.
use coin_acceptor_backend.Prelude.{
  ℕ, All, true, false, ◌&&◌, Option, none, some, is_some, String, List, [], ◌∷◌, ◌==◌, find, ◌≡◌,
  refl, arith, Bool-cases, Option-cases, inl, inr, subst,
}
use coin_acceptor_backend.Effect.{
  bind_throws, unauthorized, database, Result, ok, err, IsOk, ◌>>=◌, gets, or_throw, lift,
}
use coin_acceptor_backend.Table.{update_where, All-find}
use coin_acceptor_backend.Auth.{
  User, Session, AuthStore, RefreshPayload, Rotation, Passwords, user_has_id, session_has_id,
  is_locked, is_live, set_revoked, revoke_where, revoke_user_sessions, refused, was_rotated,
  handle_revoked, check_found, check_row, rotate_check, rotate_commit, rotate_session,
}
use coin_acceptor_backend.Auth.Service.{
  AuthConfig, validate_new_password, change_found, change_password, validate_access,
}

-- No session of a user is live.
abbrev pub AllEnded : ℕ → AuthStore → Type 0
AllEnded user s = All (λ x. (x.user_id == user) ≡ true → is_some x.revoked_at ≡ true) s.sessions

revoked-AllEnded :
    (user : ℕ) (reason : String) (now : ℕ) (xs : List Session)
    → All
        (λ x. (x.user_id == user) ≡ true → is_some x.revoked_at ≡ true)
        (update_where (λ x. x.user_id == user && is_live x) (set_revoked reason now) xs)
revoked-AllEnded user reason now [] = tt
revoked-AllEnded user reason now (x ∷ xs) = elim (Bool-cases (x.user_id == user && is_live x)) [
  | inl y ↦ rw y ((λ _. refl), revoked-AllEnded user reason now xs)
  | inr n ↦ rw n ((λ e. ground arith), revoked-AllEnded user reason now xs)
]

abbrev Outcome : ℕ → Result (Unit {0}) × AuthStore → Type 0
Outcome user (ok x, t) = AllEnded user t
Outcome user (err e, t) = Unit

module _ (passwords : Passwords) (c : AuthConfig) (user : ℕ) (current new confirm : String)
    (now : ℕ) where
  found-Outcome :
      (u : User) (s : AuthStore) → Outcome user (change_found passwords user current new now u s)
  unfolding revoke_user_sessions revoke_where
  found-Outcome u s = elim (Bool-cases (passwords.verify u.password_hash current)) [
    | inl y ↦ elim (Bool-cases (passwords.verify u.password_hash new)) [
      | inl z ↦ rw (y, z) tt
      | inr m ↦ rw (y, m) (revoked-AllEnded user "password_changed" now s.sessions)
    ]
    | inr n ↦ rw n tt
  ]

  change-Outcome :
      (s : AuthStore) → Outcome user (change_password passwords c user current new confirm now s)
  unfolding change_password
  change-Outcome s = by_validation (validate_new_password c new confirm)
    where
      by_row :
          (o : Option User)
          → Outcome user
              ((or_throw o (database "P2025") >>= change_found passwords user current new now) s)
      by_row none = tt
      by_row (some u) = found-Outcome u s

      by_validation :
          (v : Result (Unit {0}))
          → Outcome user (
              (lift v >>= λ _. gets (λ t. find (user_has_id user) t.users) >>= λ o.
              or_throw o (database "P2025") >>= change_found passwords user current new now)
                s)
      by_validation (ok x) = by_row (find (user_has_id user) s.users)
      by_validation (err e) = tt

module _ (user : ℕ) (t : AuthStore) (ended : AllEnded user t) (later : ℕ) where
  no_access :
      (payload : RefreshPayload) → payload.sub ≡ user → ¬ IsOk (validate_access payload later t)
  unfolding validate_access is_locked
  no_access payload same h =
      elim (Option-cases (find (session_has_id payload.session_id) t.sessions)) [
        | inl e ↦ rw e at h
        | inr (x, e) ↦ elim (Bool-cases (x.user_id == payload.sub)) [
          | inl y ↦
              let over =
                All-find _ (session_has_id payload.session_id) t.sessions x e ended
                  (rw same at y) in
              rw (e, y, over) at h
          | inr n ↦ rw (e, n) at h
        ]
      ]

  module _ (passwords : Passwords) (input : Rotation) (same : input.payload.sub ≡ user) where
    revoked_row :
        (old : Session) (u : User)
        → is_some old.revoked_at ≡ true
        → ¬ IsOk (check_found passwords input later old u t).0
    unfolding check_found handle_revoked
    revoked_row old u over = elim (Bool-cases (refused input old u later)) [
      | inl y ↦ rw y (λ h. h)
      | inr n ↦ rw (n, over) (handled old)
    ]
      where
        handled : (old : Session) → ¬ IsOk (handle_revoked old later t).0
        handled old = elim (Bool-cases (was_rotated old.revoke_reason)) [
          | inl y ↦ rw y (λ h. h)
          | inr n ↦ rw n (λ h. h)
        ]

    foreign_row :
        (old : Session) (u : User)
        → (old.user_id == user) ≡ false
        → ¬ IsOk (check_found passwords input later old u t).0
    unfolding check_found
    foreign_row old u n =
        let wrong : refused input old u later ≡ true = rw (same, n) refl in rw wrong (λ h. h)

    any_row :
        (old : Session) (o : Option User)
        → find (session_has_id input.payload.session_id) t.sessions ≡ some old
        → ¬ IsOk
            ((or_throw o (unauthorized "Unauthorized") >>= check_found passwords input later old)
              t).0
    any_row old none e = λ h. h
    any_row old (some u) e = elim (Bool-cases (old.user_id == user)) [
      | inl y ↦
          revoked_row old u
            (All-find _ (session_has_id input.payload.session_id) t.sessions old e ended y)
      | inr n ↦ foreign_row old u n
    ]

    no_refresh : ¬ IsOk (rotate_session passwords input later t).0
    unfolding rotate_session rotate_check
    no_refresh =
        bind_throws (rotate_check passwords input later)
          (λ x. rotate_commit passwords input x later) t
          (by_session (find (session_has_id input.payload.session_id) t.sessions) refl)
      where
        by_session :
            (o : Option Session)
            → find (session_has_id input.payload.session_id) t.sessions ≡ o
            → ¬ IsOk
                ((or_throw o (unauthorized "Unauthorized") >>= check_row passwords input later) t).0
        by_session none e = λ h. h
        by_session (some old) e = any_row old (find (user_has_id old.user_id) t.users) e

-- In the store that a change of password leaves, no access token that names the user passes the
-- check and no refresh token that names the user is rotated, at whatever time it comes.
pub change_password_ends :
    (passwords : Passwords) (c : AuthConfig) (user : ℕ) (current new confirm : String)
    (now later : ℕ) (s t : AuthStore) (payload : RefreshPayload) (input : Rotation)
    → change_password passwords c user current new confirm now s ≡ (ok tt, t)
    → payload.sub ≡ user
    → input.payload.sub ≡ user
    → (¬ IsOk (validate_access payload later t))
      × (¬ IsOk (rotate_session passwords input later t).0)
change_password_ends passwords c user current new confirm now later s t payload input e a b =
    let ended =
      subst (Outcome user) e (change-Outcome passwords c user current new confirm now s) in
    (no_access user t ended later payload a, no_refresh user t ended later passwords input b)
