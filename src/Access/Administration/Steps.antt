-- ===== src/Access/Administration/Steps.antt =====
-- The services of roles, assignments and accounts side by side, at one time.
use coin_acceptor_backend.Prelude.{
  ℕ, Bool, true, false, not, ◌&&◌, Option, some, is_some, String, List, [], ◌∷◌, ◌==◌, ◌=s◌,
  if◌then◌else◌, find, filter, length, any, ◌≡◌, refl, arith, Bool-cases, inl, inr, find_sound,
}
use coin_acceptor_backend.Effect.{
  guards, guards-All, lift_keeps, not_found, Result, ok, err, settle, or_throw_keeps,
}
use coin_acceptor_backend.Table.{Unique-find_self}
use coin_acceptor_backend.Auth.{Passwords, User, revoke_user_sessions, user_has_id}
use coin_acceptor_backend.Access.{
  is_role, Assignment, is_last_super_admin_assignment, is_last_super_admin_user,
}
use coin_acceptor_backend.Access.Assignments.{
  revoke_guards, revoke_check, revoke_commit, AdminStore, GrantRequest, validate_assignable,
  equivalent, assignment_row, create_inside, create_assignment, of_user, revoke_found,
  revoke_assignment, is_past, assignment_clashes,
}
use coin_acceptor_backend.Access.Roles
use coin_acceptor_backend.Access.Accounts
use Prim.Native.String.{◌++◌ as append}
use coin_acceptor_backend.Access.Roles.{
  sync_of, create_role, update_role_status, sync_permissions, role_taken, repeats, no_reason, among,
}
use coin_acceptor_backend.Access.Accounts.{
  create_user, update_user_status, set_temporary_password, same_account, set_password_of,
  write_status, on_sessions,
}
use coin_acceptor_backend.Access.Administration.{
  IsGoverned, add-IsGoverned, revoke-IsGoverned, holder-IsGoverned, role_status-IsGoverned,
  role_added-IsGoverned,
}

pub data Step (now : ℕ) (s : AdminStore) : AdminStore → Type 0 where
  assigning :
      (user : ℕ) (dto : GrantRequest) (actor new_id : ℕ)
      → Step now s (create_assignment user dto actor new_id now s).1
  revoking : (user i : ℕ) (reason : String) → Step now s (revoke_assignment user i reason now s).1
  adding_role : (code : String) (new_id : ℕ) → Step now s (create_role code new_id s).1
  role_status :
      (i : ℕ) (status : String) (reason : Option String)
      → Step now s (update_role_status i status reason s).1
  syncing : (i : ℕ) (ids : List ℕ) → Step now s (sync_permissions i ids s).1
  adding_user : (u : User) → Step now s (create_user u s).1
  user_status :
      (i : ℕ) (status : String) (reason : Option String) (actor : ℕ)
      → Step now s (update_user_status i status reason actor now s).1
  temporary_password :
      (passwords : Passwords) (i : ℕ) (password : String)
      → Step now s (set_temporary_password passwords i password now s).1

pub data Reach (now : ℕ) (s : AdminStore) : AdminStore → Type 0 where
  here : Reach now s s
  next : {t u : AdminStore} → Reach now s t → Step now t u → Reach now s u

unused_id :
    (user : ℕ) (dto : GrantRequest) (i : ℕ) (xs : List Assignment)
    → any (assignment_clashes user dto i) xs ≡ false
    → any (λ a. a.id == i) xs ≡ false
unused_id user dto i [] n = n
unused_id user dto i (x ∷ xs) n = ground (arith, unused_id user dto i xs)

assigning-IsGoverned :
    (user : ℕ) (dto : GrantRequest) (actor new_id now : ℕ) (s : AdminStore)
    → IsGoverned now s.access
    → IsGoverned now (create_assignment user dto actor new_id now s).1.access
unfolding create_assignment create_inside assignment_row
assigning-IsGoverned user dto actor new_id now s h =
    elim (Bool-cases (is_past dto.expires_at now)) [
      | inl y ↦ rw y h
      | inr n ↦ rw n (validated (validate_assignable s user dto actor now))
    ]
  where
    validated :
        (r : Result (Unit {0}))
        → IsGoverned now
            (elim r as (λ _. Result Assignment × AdminStore) [
              | ok _ ↦ settle s (create_inside user dto new_id now s)
              | err e ↦ (err e, s)
            ]).1.access
    validated (err e) = h
    validated (ok u) = elim (Bool-cases (any (equivalent user dto now) s.access.assignments)) [
      | inl y ↦ rw y h
      | inr n ↦ elim (Bool-cases (any (assignment_clashes user dto new_id) s.access.assignments)) [
        | inl y ↦ rw (n, y) h
        | inr m ↦
            rw (n, m)
              (add-IsGoverned (assignment_row s user dto new_id) now s.access
                (unused_id user dto new_id s.access.assignments m) h)
      ]
    ]

is_refuted : (b : Bool) → not b ≡ true → b ≡ false
is_refuted b h = ground arith

revoking-IsGoverned :
    (user i : ℕ) (reason : String) (now : ℕ) (s : AdminStore)
    → IsGoverned now s.access
    → IsGoverned now (revoke_assignment user i reason now s).1.access
unfolding revoke_assignment revoke_check revoke_commit
revoking-IsGoverned user i reason now s h =
    lift_keeps governed (guards (revoke_guards i reason now s))
      (λ _. revoke_commit user i reason now) s h
      λ u passed.
        let (blank, (last, _)) = guards-All (revoke_guards i reason now s) passed in
        or_throw_keeps governed (find (of_user user i) s.access.assignments)
          (not_found "Role assignment not found.") (revoke_found now reason) s h
          (λ a e. row a e (is_refuted _ last))
  where
    governed : AdminStore → Type 0
    governed t = IsGoverned now t.access

    row :
        (a : Assignment)
        → find (of_user user i) s.access.assignments ≡ some a
        → is_last_super_admin_assignment s.access i now ≡ false
        → IsGoverned now (revoke_found now reason a s).1.access
    row a e m = elim (Bool-cases (is_some a.revoked_at)) [
      | inl y ↦ rw y h
      | inr n ↦
          let at : a.id ≡ i =
            ground (arith, find_sound (of_user user i) s.access.assignments a e) in
          let self =
            Unique-find_self (λ x. x.id) (of_user user i) s.access.assignments a e
              h.assignment_ids in
          rw n (revoke-IsGoverned a.id now _ s.access a (λ x. refl) self refl (rw at m) h)
    ]

adding_role-IsGoverned :
    (code : String) (new_id now : ℕ) (s : AdminStore)
    → IsGoverned now s.access
    → IsGoverned now (create_role code new_id s).1.access
unfolding create_role
adding_role-IsGoverned code new_id now s h =
    elim (Bool-cases (role_taken new_id code s.access.roles)) [
      | inl y ↦ rw y h
      | inr n ↦ rw n (role_added-IsGoverned _ now s.access n h)
    ]

role_status-step :
    (i : ℕ) (status : String) (reason : Option String) (now : ℕ) (s : AdminStore)
    → IsGoverned now s.access
    → IsGoverned now (update_role_status i status reason s).1.access
unfolding update_role_status
role_status-step i status reason now s h =
    or_throw_keeps (λ t. IsGoverned now t.access) (find (is_role i) s.access.roles)
      (not_found "Role not found.") (Roles.update_status_of i status reason) s h
      λ r e. elim (Bool-cases (r.is_system_role && not (status =s "active"))) [
        | inl y ↦ rw y h
        | inr n ↦ elim (Bool-cases ((status =s "inactive") && no_reason reason)) [
          | inl y ↦ rw (n, y) h
          | inr m ↦
              let at : r.id ≡ i = ground (arith, find_sound (is_role i) s.access.roles r e) in
              rw (n, m) (role_status-IsGoverned i now (status =s "active") r s.access e at n h)
        ]
      ]

syncing-IsGoverned :
    (i : ℕ) (ids : List ℕ) (now : ℕ) (s : AdminStore)
    → IsGoverned now s.access
    → IsGoverned now (sync_permissions i ids s).1.access
unfolding sync_permissions
syncing-IsGoverned i ids now s h =
    or_throw_keeps (λ t. IsGoverned now t.access) (find (is_role i) s.access.roles)
      (not_found "Role not found.") (sync_of i ids) s h
      λ r e. elim (Bool-cases (repeats ids)) [
        | inl y ↦ rw y h
        | inr n ↦
            elim (Bool-cases (not (length (filter (among ids) s.permissions) == length ids))) [
              | inl y ↦ rw (n, y) h
              | inr m ↦
                  rw (n, m)
                    (record {
                      somebody = h.somebody;
                      protected = h.protected;
                      role_ids = h.role_ids;
                      assignment_ids = h.assignment_ids;
                    })
            ]
      ]

adding_user-IsGoverned :
    (u : User) (now : ℕ) (s : AdminStore)
    → IsGoverned now s.access
    → IsGoverned now (create_user u s).1.access
unfolding create_user
adding_user-IsGoverned u now s h = elim (Bool-cases (any (same_account u) s.auth.users)) [
  | inl y ↦ rw y h
  | inr n ↦ rw n h
]

user_status-IsGoverned :
    (i : ℕ) (status : String) (reason : Option String) (actor now : ℕ) (s : AdminStore)
    → IsGoverned now s.access
    → IsGoverned now (update_user_status i status reason actor now s).1.access
unfolding update_user_status
user_status-IsGoverned i status reason actor now s h =
    or_throw_keeps governed (find (user_has_id i) s.auth.users) (not_found "User not found.")
      (Accounts.update_status_of i status reason actor now) s h
      λ u e.
        lift_keeps governed (guards (Accounts.status_guards i status reason actor now s))
          (λ _. Accounts.commit_status_of i status reason now u) s h
          λ t passed.
            let (own, (given, (last, _))) =
              guards-All (Accounts.status_guards i status reason actor now s) passed in
            written (status =s "active") (is_refuted _ last)
  where
    governed : AdminStore → Type 0
    governed t = IsGoverned now t.access

    written :
        (active : Bool)
        → not active && is_last_super_admin_user s.access i now ≡ false
        → IsGoverned now
            (if active
              then write_status i active s
              else on_sessions
                  (revoke_user_sessions i (append "user_" status) now)
                  (write_status i active s)).access
    written true l = holder-IsGoverned i now true s.access l h
    written false l = holder-IsGoverned i now false s.access l h

password-IsGoverned :
    (passwords : Passwords) (i : ℕ) (password : String) (now : ℕ) (s : AdminStore)
    → IsGoverned now s.access
    → IsGoverned now (set_temporary_password passwords i password now s).1.access
unfolding set_temporary_password
password-IsGoverned passwords i password now s h =
    or_throw_keeps (λ t. IsGoverned now t.access) (find (user_has_id i) s.auth.users)
      (not_found "User not found.") (set_password_of passwords i password now) s h (λ u e. h)

Step-IsGoverned :
    {now : ℕ} {s t : AdminStore} → Step now s t → IsGoverned now s.access → IsGoverned now t.access
Step-IsGoverned {now} {s} (assigning user dto actor new_id) h =
    assigning-IsGoverned user dto actor new_id now s h
Step-IsGoverned {now} {s} (revoking user i reason) h = revoking-IsGoverned user i reason now s h
Step-IsGoverned {now} {s} (adding_role code new_id) h = adding_role-IsGoverned code new_id now s h
Step-IsGoverned {now} {s} (role_status i status reason) h = role_status-step i status reason now s h
Step-IsGoverned {now} {s} (syncing i ids) h = syncing-IsGoverned i ids now s h
Step-IsGoverned {now} {s} (adding_user u) h = adding_user-IsGoverned u now s h
Step-IsGoverned {now} {s} (user_status i status reason actor) h =
    user_status-IsGoverned i status reason actor now s h
Step-IsGoverned {now} {s} (temporary_password passwords i password) h =
    password-IsGoverned passwords i password now s h

-- At any one time, the services of assignments, roles and accounts keep the system governed, in
-- whatever order they are called, as long as no other call comes between the checks of a call and
-- its writes: some user holds the global super admin role in force, every role with that code
-- stays an active system role, and the ids of roles and assignments stay unique.
pub Reach-IsGoverned :
    {now : ℕ} {s t : AdminStore} → IsGoverned now s.access → Reach now s t → IsGoverned now t.access
Reach-IsGoverned h here = h
Reach-IsGoverned h (next r step) = Step-IsGoverned step (Reach-IsGoverned h r)
