-- ===== src/Access/Grants.antt =====
-- What a permission check grants, and that the list of codes agrees with it.
use coin_acceptor_backend.Prelude.{
  ℕ, ◌+◌, ◌<◌, All, Bool, true, false, not, ◌&&◌, ◌||◌, Option, none, some, String, List, [], ◌∷◌,
  ◌==◌, ◌=s◌, ltb, filter, any, all, map, ◌≡◌, refl, ◌↔◌, arith, Bool-cases, inl, inr, ==_iff,
  eq_iff, sym, ap, ◌∙◌,
}
use coin_acceptor_backend.Table.{count_where, All-map}
use coin_acceptor_backend.Access.{
  AccessStore, Assignment, RolePermission, active_scope, role_active, permission_where,
  has_permission, mapped, includes, distinct, permission_codes, can_grant_role, is_super_admin,
  super_admin_count, is_last_super_admin_user,
}

-- A count is positive where a row passes the test.
pub count_where-any :
    {A : Type 0} (p : A → Bool) (xs : List A) → ltb 0 (count_where p xs) ≡ any p xs
count_where-any p [] = ground arith
count_where-any p (x ∷ xs) = ground (arith, count_where-any p xs)

module _ {A : Type 0} where
  pub any-cong : (f g : A → Bool) (xs : List A) → ((x : A) → f x ≡ g x) → any f xs ≡ any g xs
  any-cong f g [] h = refl
  any-cong f g (x ∷ xs) h = rw (h x, any-cong f g xs h) refl

  any-filter : (f p : A → Bool) (xs : List A) → any f (filter p xs) ≡ any (λ x. p x && f x) xs
  any-filter f p [] = refl
  any-filter f p (x ∷ xs) = ground (arith, any-filter f p xs)

  any-map :
      {B : Type 0} (f : B → Bool) (g : A → B) (xs : List A)
      → any f (map g xs) ≡ any (λ x. f (g x)) xs
  any-map f g [] = refl
  any-map f g (x ∷ xs) = rw (any-map f g xs) refl

  and-any : (b : Bool) (f : A → Bool) (xs : List A) → b && any f xs ≡ any (λ x. b && f x) xs
  and-any b f [] = ground arith
  and-any b f (x ∷ xs) = ground (arith, and-any b f xs)

  any-or : (f g : A → Bool) (xs : List A) → any (λ x. f x || g x) xs ≡ any f xs || any g xs
  any-or f g [] = refl
  any-or f g (x ∷ xs) = ground (arith, any-or f g xs)

  any-none : (xs : List A) → any (λ _. false) xs ≡ false
  any-none [] = refl
  any-none (x ∷ xs) = any-none xs

any-swap :
    {A B : Type 0} (r : A → B → Bool) (xs : List A) (ys : List B)
    → any (λ x. any (r x) ys) xs ≡ any (λ y. any (λ x. r x y) xs) ys
any-swap r [] ys = sym (any-none ys)
any-swap r (x ∷ xs) ys = rw (any-swap r xs ys) (sym (any-or (r x) (λ y. any (λ z. r z y) xs) ys))

drop_apart : (c d x : String) → (d =s c) ≡ false → (not (x =s d) && (x =s c)) ≡ (x =s c)
drop_apart c d x n = elim (Bool-cases (x =s d)) [
  | inl y ↦ let same : x ≡ d = (eq_iff x d).0 y in rw y (sym (ap (λ z. z =s c) same ∙ n))
  | inr m ↦ rw m refl
]

distinct-includes : (c : String) (cs : List String) → includes c (distinct cs) ≡ includes c cs
unfolding distinct
distinct-includes c [] = refl
distinct-includes c (d ∷ ds) = elim (Bool-cases (d =s c)) [
  | inl y ↦ rw y refl
  | inr n ↦ rw n (
      any-filter (λ x. x =s c) (λ x. not (x =s d)) (distinct ds)
      ∙ any-cong _ (λ x. x =s c) (distinct ds) (λ x. drop_apart c d x n)
      ∙ distinct-includes c ds)
]

pub all-All : {A : Type 0} (p : A → Bool) (xs : List A) → all p xs ≡ true → All (λ x. p x ≡ true) xs
all-All p [] h = tt
all-All p (x ∷ xs) h = (ground arith, all-All p xs (ground arith))

-- The rows that pass a test are those that pass another one as well, and those that do not.
pub count_where-split :
    {A : Type 0} (p q : A → Bool) (xs : List A)
    → count_where p xs ≡ count_where (λ x. q x && p x) xs + count_where (λ x. p x && not (q x)) xs
count_where-split p q [] = omega arith
count_where-split p q (x ∷ xs) = ground (arith, count_where-split p q xs)

module _ (s : AccessStore) (user : ℕ) (code : String) (station : Option ℕ) (now : ℕ) where
  abbrev scoped : Assignment → RolePermission → Bool
  scoped a m =
      (active_scope user station now a && role_active s.roles a.role_id)
      && (m.role_id == a.role_id && (m.code =s code))

  regroup :
      (a : Assignment)
      → permission_where s user code station now a ≡ any (scoped a) s.role_permissions
  unfolding permission_where
  regroup a = and-any _ (λ m. m.role_id == a.role_id && (m.code =s code)) s.role_permissions

  reorder :
      (m : RolePermission)
      → any (λ a. scoped a m) s.assignments ≡ mapped s user station now m && (m.code =s code)
  reorder m =
      any-cong (λ a. scoped a m)
        (λ a.
          (role_active s.roles m.role_id && (m.code =s code))
          && (a.role_id == m.role_id && active_scope user station now a))
        s.assignments pointwise
      ∙ sym (
          and-any (role_active s.roles m.role_id && (m.code =s code))
            (λ a. a.role_id == m.role_id && active_scope user station now a) s.assignments)
      ∙ ground arith
    where
      pointwise :
          (a : Assignment)
          → scoped a m ≡ (
              (role_active s.roles m.role_id && (m.code =s code))
              && (a.role_id == m.role_id && active_scope user station now a))
      pointwise a = elim (Bool-cases (m.role_id == a.role_id)) [
        | inl y ↦
            let same : m.role_id ≡ a.role_id = (==_iff m.role_id a.role_id).0 y in
            rw same (ground arith)
        | inr n ↦ ground arith
      ]

  -- A permission check says yes exactly when the list of the user's permission codes, for the same
  -- station and time, has the permission.
  pub has_permission-includes :
      has_permission s user code station now ≡ includes code (permission_codes s user station now)
  unfolding has_permission permission_codes
  has_permission-includes =
      count_where-any (permission_where s user code station now) s.assignments
      ∙ any-cong _ (λ a. any (scoped a) s.role_permissions) s.assignments regroup
      ∙ any-swap scoped s.assignments s.role_permissions
      ∙ any-cong _ (λ m. mapped s user station now m && (m.code =s code)) s.role_permissions reorder
      ∙ sym (any-filter (λ m. m.code =s code) (mapped s user station now) s.role_permissions)
      ∙ sym (
          any-map (λ x. x =s code) (λ m. m.code)
            (filter (mapped s user station now) s.role_permissions))
      ∙ sym (
          distinct-includes code
            (map (λ m. m.code) (filter (mapped s user station now) s.role_permissions)))

-- A role that an actor may grant for a station, or globally, holds only permissions that the
-- actor's own check grants there.
pub can_grant_role-has_permission :
    (s : AccessStore) (actor role : ℕ) (station : Option ℕ) (now : ℕ)
    → can_grant_role s actor role station now ≡ true
    → All
        (λ m. has_permission s actor m.code station now ≡ true)
        (filter (λ m. m.role_id == role) s.role_permissions)
unfolding can_grant_role
can_grant_role-has_permission s actor role station now h =
    All-map _ _ _ (λ m k. has_permission-includes s actor m.code station now ∙ k)
      (all-All (λ m. includes m.code (permission_codes s actor station now)) _ h)

-- A user counts as the last global super admin exactly when the user has such an assignment in
-- force and no other user has one.
pub is_last_super_admin_user_iff :
    (s : AccessStore) (user now : ℕ)
    → (is_last_super_admin_user s user now ≡ true) ↔ (
        (0 < super_admin_count s (some user) now)
        × (count_where (λ a. is_super_admin s none now a && not (a.user_id == user)) s.assignments
            ≡ 0))
unfolding is_last_super_admin_user super_admin_count
is_last_super_admin_user_iff s user now = (λ h. ground (arith, split), λ h. ground (arith, split))
  where
    split :
        super_admin_count s none now
        ≡ super_admin_count s (some user) now
          + count_where (λ a. is_super_admin s none now a && not (a.user_id == user)) s.assignments
    split = count_where-split (is_super_admin s none now) (λ a. a.user_id == user) s.assignments
