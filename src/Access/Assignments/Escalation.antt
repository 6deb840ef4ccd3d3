-- ===== src/Access/Assignments/Escalation.antt =====
-- Nobody hands out more than they have.
use coin_acceptor_backend.Prelude.{
  ℕ, All, Bool, true, false, ◌||◌, Option, none, some, String, List, [], ◌∷◌, ◌==◌, ◌=s◌, any,
  filter, ◌≡◌, refl, arith, Bool-cases, ◌⊎◌, inl, inr, sym, ◌∙◌, subst, eq_iff,
}
use coin_acceptor_backend.Effect.{Result, ok, err, settle, guards-All}
use coin_acceptor_backend.Table.{insert}
use coin_acceptor_backend.Access.{
  Assignment, RolePermission, AccessStore, in_scope, active_scope, permission_where, has_permission,
  grants, can_grant_role,
}
use coin_acceptor_backend.Access.Grants.{count_where-any, can_grant_role-has_permission}
use coin_acceptor_backend.Access.Assignments.{
  AdminStore, GrantRequest, assignable_guards, validate_assignable, equivalent, assignment_row,
  create_inside, create_assignment, is_past, assignment_clashes,
}

any-insert :
    {A : Type 0} (p : A → Bool) (x : A) (xs : List A) → any p (insert x xs) ≡ any p xs || p x
any-insert p x [] = ground arith
any-insert p x (y ∷ ys) = ground (arith, any-insert p x ys)

any_mono :
    {A : Type 0} (p q : A → Bool) (xs : List A)
    → ((x : A) → p x ≡ true → q x ≡ true)
    → any p xs ≡ true
    → any q xs ≡ true
any_mono p q [] h e = e
any_mono p q (x ∷ xs) h e = ground (arith, h x, any_mono p q xs h)

-- What a test says of the mappings of a role, it says of each code that the role grants.
granted :
    (t : String → Bool) (role : ℕ) (code : String) (ms : List RolePermission)
    → All (λ m. t m.code ≡ true) (filter (λ m. m.role_id == role) ms)
    → grants ms role code ≡ true
    → t code ≡ true
granted t role code [] a h = absurd (nothing h)
  where
    nothing : grants [] role code ≡ true → ⊥
    nothing e = ground arith
granted t role code (m ∷ ms) a h = elim (Bool-cases (m.role_id == role)) [
  | inl y ↦
      let both = rw y at a in
      elim (Bool-cases (m.code =s code)) [
        | inl z ↦ subst (λ c. t c ≡ true) ((eq_iff m.code code).0 z) both.0
        | inr z ↦ granted t role code ms both.1 (ground arith)
      ]
  | inr n ↦ granted t role code ms (rw n at a) (ground arith)
]

-- Authority in a scope is authority for every station of the scope.
in_scope-wider :
    (station granted_for x : Option ℕ)
    → in_scope station granted_for ≡ true
    → in_scope granted_for x ≡ true
    → in_scope station x ≡ true
in_scope-wider none none none a b = refl
in_scope-wider none none (some k) a b = ground arith
in_scope-wider none (some j) x a b = ground arith
in_scope-wider (some i) none none a b = refl
in_scope-wider (some i) none (some k) a b = ground arith
in_scope-wider (some i) (some j) none a b = refl
in_scope-wider (some i) (some j) (some k) a b = ground arith

module _ (s : AccessStore) (actor : ℕ) (code : String) (now : ℕ) where
  has_permission-wider :
      (station granted_for : Option ℕ)
      → in_scope station granted_for ≡ true
      → has_permission s actor code granted_for now ≡ true
      → has_permission s actor code station now ≡ true
  unfolding has_permission permission_where active_scope
  has_permission-wider station granted_for w h =
      count_where-any (permission_where s actor code station now) s.assignments
      ∙ any_mono (permission_where s actor code granted_for now)
          (permission_where s actor code station now) s.assignments
          (λ x e.
            let wide = in_scope-wider station granted_for x.station_id w in ground (arith, wide))
          (sym (count_where-any (permission_where s actor code granted_for now) s.assignments) ∙ h)

abbrev add : Assignment → AccessStore → AccessStore
add a s = record s { assignments = insert a s.assignments }

-- A grant that the check has passed gives nobody a permission that the actor lacks there.
add-IsWithin :
    (s : AccessStore) (a : Assignment) (actor user : ℕ) (code : String) (station : Option ℕ)
    (now : ℕ)
    → can_grant_role s actor a.role_id a.station_id now ≡ true
    → has_permission (add a s) user code station now ≡ true
    → (has_permission s user code station now ≡ true)
      ⊎ (has_permission s actor code station now ≡ true)
unfolding has_permission permission_where active_scope
add-IsWithin s a actor user code station now may h =
    elim (Bool-cases (any (permission_where s user code station now) s.assignments)) [
      | inl y ↦ inl (count_where-any (permission_where s user code station now) s.assignments ∙ y)
      | inr n ↦
          let new = by_new n in
          let there =
            granted (λ c. has_permission s actor c a.station_id now) a.role_id code
              s.role_permissions
              (can_grant_role-has_permission s actor a.role_id a.station_id now may)
              (ground arith) in
          inr (has_permission-wider s actor code now station a.station_id (ground arith) there)
    ]
  where
    by_new :
        any (permission_where s user code station now) s.assignments ≡ false
        → permission_where s user code station now a ≡ true
    by_new n =
        let some_row =
          sym (count_where-any (permission_where s user code station now) (insert a s.assignments))
          ∙ h in
        ground (arith, any-insert (permission_where s user code station now) a s.assignments)

validated-can_grant :
    (s : AdminStore) (user : ℕ) (dto : GrantRequest) (actor now : ℕ)
    → validate_assignable s user dto actor now ≡ ok tt
    → can_grant_role s.access actor dto.role_id dto.station_id now ≡ true
unfolding validate_assignable
validated-can_grant s user dto actor now h =
    let (_, (_, (_, (_, (may, _))))) = guards-All (assignable_guards s user dto actor now) h in may

abbrev Within : AdminStore → ℕ → ℕ → AccessStore → Type 0
Within s actor now t =
    (viewer : ℕ) (code : String) (station : Option ℕ)
    → has_permission t viewer code station now ≡ true
    → (has_permission s.access viewer code station now ≡ true)
      ⊎ (has_permission s.access actor code station now ≡ true)

-- Giving a role to a user, whether it succeeds or throws, lets nobody do anything new beyond what
-- the actor may do: whoever has a permission for a station, or globally, at that time afterwards
-- had it before, or the actor has it there.
pub create_assignment_within :
    (user : ℕ) (dto : GrantRequest) (actor new_id now : ℕ) (s : AdminStore) (viewer : ℕ)
    (code : String) (station : Option ℕ)
    → has_permission
        (create_assignment user dto actor new_id now s).1.access
        viewer
        code
        station
        now
      ≡ true
    → (has_permission s.access viewer code station now ≡ true)
      ⊎ (has_permission s.access actor code station now ≡ true)
unfolding create_assignment create_inside assignment_row
create_assignment_within user dto actor new_id now s =
    elim (Bool-cases (is_past dto.expires_at now))
      as (λ _. Within s actor now (create_assignment user dto actor new_id now s).1.access) [
        | inl y ↦ rw y same
        | inr n ↦ rw n (validated (validate_assignable s user dto actor now) refl)
      ]
  where
    same : Within s actor now s.access
    same v c st h = inl h

    validated :
        (r : Result (Unit {0}))
        → validate_assignable s user dto actor now ≡ r
        → Within s actor now
            (elim r as (λ _. Result Assignment × AdminStore) [
              | ok _ ↦ settle s (create_inside user dto new_id now s)
              | err e ↦ (err e, s)
            ]).1.access
    validated (err e) v = same
    validated (ok u) v = elim (Bool-cases (any (equivalent user dto now) s.access.assignments)) [
      | inl y ↦ rw y same
      | inr n ↦ elim (Bool-cases (any (assignment_clashes user dto new_id) s.access.assignments)) [
        | inl y ↦ rw (n, y) same
        | inr m ↦
            rw (n, m)
              (λ viewer code station h.
                add-IsWithin s.access (assignment_row s user dto new_id) actor viewer code station
                  now (validated-can_grant s user dto actor now v) h)
      ]
    ]
