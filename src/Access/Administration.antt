-- ===== src/Access/Administration.antt =====
-- What the administration of roles and accounts keeps: somebody is a global super admin.
pub mod Steps
use coin_acceptor_backend.Prelude.{
  ℕ, ◌+◌, ◌≤◌, ◌<◌, All, Bool, true, false, not, ◌&&◌, ◌||◌, Option, none, some, is_some, String,
  List, [], ◌∷◌, ◌==◌, ==_refl, ◌=s◌, leb, ltb, find, any, filter, length, if◌then◌else◌, ◌≡◌, refl,
  arith, Bool-cases, Option-cases, inl, inr, sym, ap, ◌∙◌, subst, ==_iff, eq_iff,
}
use coin_acceptor_backend.Effect.{Result, ok, err}
use coin_acceptor_backend.Table.{
  insert, update_where, count_where, Unique, Unique-find, Unique-update_where, All-map, All-insert,
  All-update_where,
}
use coin_acceptor_backend.Table.Counts.{
  each, count_where-insert, count_where-update_where, count_where-one,
}
use coin_acceptor_backend.Access.{
  Role, Assignment, AccessStore, is_role, is_super_admin, super_admin_role, super_admin_count,
  is_last_super_admin_user, is_last_super_admin_assignment, last_assignment, has_code,
}
use coin_acceptor_backend.Access.Grants.{is_last_super_admin_user_iff, count_where-split}

abbrev pub admins : AccessStore → ℕ → ℕ
admins s now = count_where (is_super_admin s none now) s.assignments

abbrev IsProtected : Role → Type 0
IsProtected r = (r.code =s "super_admin") ≡ true → r.is_system_role && r.is_active ≡ true

pub record IsGoverned (now : ℕ) (s : AccessStore) : Type 0 where
  pub somebody : 0 < admins s now
  pub protected : All IsProtected s.roles
  pub role_ids : Unique (λ r. r.id) s.roles
  pub assignment_ids : Unique (λ a. a.id) s.assignments

-- An assignment is added.
pub add-IsGoverned :
    (a : Assignment) (now : ℕ) (s : AccessStore)
    → any (λ x. x.id == a.id) s.assignments ≡ false
    → IsGoverned now s
    → IsGoverned now (record s { assignments = insert a s.assignments })
add-IsGoverned a now s n h = record {
  somebody =
      ground (arith, h.somebody, count_where-insert (is_super_admin s none now) a s.assignments);
  protected = h.protected;
  role_ids = h.role_ids;
  assignment_ids = unique s.assignments n h.assignment_ids;
}
  where
    unique :
        (xs : List Assignment)
        → any (λ x. x.id == a.id) xs ≡ false
        → Unique (λ x. x.id) xs
        → Unique (λ x. x.id) (insert a xs)
    unique [] m u = (tt, tt)
    unique (x ∷ xs) m (k, u) = (All-insert _ a xs (ground arith) k, unique xs (ground arith) u)

super_admin_role-has_code :
    (roles : List Role) (i : ℕ)
    → super_admin_role roles i ≡ true
    → has_code "super_admin" roles i ≡ true
super_admin_role-has_code [] i h = h
super_admin_role-has_code (r ∷ rs) i h = ground (arith, super_admin_role-has_code rs i)

-- An assignment that is not the last one of a super admin, where it is the only one that counts,
-- does not count.
not_counted :
    (s : AccessStore) (i now : ℕ) (a : Assignment)
    → find (λ x. x.id == i) s.assignments ≡ some a
    → is_last_super_admin_assignment s i now ≡ false
    → admins s now ≤ 1
    → is_super_admin s none now a ≡ false
unfolding is_last_super_admin_assignment super_admin_count
not_counted s i now a e n few =
    let last : last_assignment s now (some a) ≡ false = ap (last_assignment s now) (sym e) ∙ n in
    ground (arith, super_admin_role-has_code s.roles a.role_id)

pub revoke-IsGoverned :
    (i now : ℕ) (f : Assignment → Assignment) (s : AccessStore) (a : Assignment)
    → ((x : Assignment) → (f x).id ≡ x.id)
    → find (λ x. x.id == i) s.assignments ≡ some a
    → a.id ≡ i
    → is_last_super_admin_assignment s i now ≡ false
    → IsGoverned now s
    → IsGoverned now (record s { assignments = update_where (λ x. x.id == i) f s.assignments })
revoke-IsGoverned i now f s a keep e at n h = record {
  somebody = elim (Bool-cases (leb (admins s now) 1)) [
    | inl few ↦ ground (arith, h.somebody, unchanged (ground arith))
    | inr many ↦ ground (
      arith,
      count_where-one (is_super_admin s none now) (λ x. x.id) i f s.assignments h.assignment_ids,
    )
  ];
  protected = h.protected;
  role_ids = h.role_ids;
  assignment_ids = Unique-update_where (λ x. x.id) _ f s.assignments keep h.assignment_ids;
}
  where
    unchanged :
        admins s now ≤ 1
        → admins s now
          ≤ count_where (is_super_admin s none now) (update_where (λ x. x.id == i) f s.assignments)
    unchanged few =
        count_where-update_where (is_super_admin s none now) (is_super_admin s none now)
          (λ x. x.id == i) f s.assignments
          (All-map _ _ s.assignments
            (λ x same counts. elim (Bool-cases (x.id == i)) [
              | inl y ↦ absurd (clash x (same (rw at y)) counts (not_counted s i now a e n few))
              | inr m ↦ rw m counts
            ])
            (Unique-find (λ x. x.id) (λ x. x.id == i) s.assignments a e h.assignment_ids))
      where
        clash :
            (x : Assignment)
            → x ≡ a
            → is_super_admin s none now x ≡ true
            → is_super_admin s none now a ≡ false
            → ⊥
        clash x same counts m =
            let c = subst (λ z. is_super_admin s none now z ≡ true) same counts in cc

-- The assignments of a user come with the user's status.
abbrev with_holder : ℕ → Bool → AccessStore → AccessStore
with_holder i active s = record s {
  assignments =
      update_where (λ a. a.user_id == i) (λ a. record a { user_is_active = active }) s.assignments;
}

-- Nobody who counts is restricted where others count.
others_count :
    (i now : ℕ) (s : AccessStore)
    → is_last_super_admin_user s i now ≡ false
    → 0 < admins s now
    → 0 < count_where (λ a. is_super_admin s none now a && not (a.user_id == i)) s.assignments
unfolding super_admin_count
others_count i now s n h = elim (Bool-cases (ltb 0 others)) [
  | inl y ↦ ground arith
  | inr m ↦
      let alone : others ≡ 0 = ground arith in
      let mine : 0 < super_admin_count s (some i) now = ground (arith, h, split) in
      absurd (clash ((is_last_super_admin_user_iff s i now).1 (mine, alone)))
]
  where
    others : ℕ
    others = count_where (λ a. is_super_admin s none now a && not (a.user_id == i)) s.assignments

    split : admins s now ≡ super_admin_count s (some i) now + others
    split = count_where-split (is_super_admin s none now) (λ a. a.user_id == i) s.assignments

    clash : is_last_super_admin_user s i now ≡ true → ⊥
    clash y = cc

pub holder-IsGoverned :
    (i now : ℕ) (active : Bool) (s : AccessStore)
    → not active && is_last_super_admin_user s i now ≡ false
    → IsGoverned now s
    → IsGoverned now (with_holder i active s)
holder-IsGoverned i now true s n h = record {
  somebody = ground (
    arith,
    h.somebody,
    count_where-update_where (is_super_admin s none now) (is_super_admin s none now)
        (λ a. a.user_id == i) (λ a. record a { user_is_active = true }) s.assignments
        (each _ s.assignments (λ a y. ground arith)),
  );
  protected = h.protected;
  role_ids = h.role_ids;
  assignment_ids = Unique-update_where (λ x. x.id) _ _ s.assignments (λ x. refl) h.assignment_ids;
}
holder-IsGoverned i now false s n h = record {
  somebody = ground (
    arith,
    others_count i now s n h.somebody,
    count_where-update_where (is_super_admin s none now)
        (λ a. is_super_admin s none now a && not (a.user_id == i)) (λ a. a.user_id == i)
        (λ a. record a { user_is_active = false }) s.assignments
        (each _ s.assignments (λ a y. ground arith)),
  );
  protected = h.protected;
  role_ids = h.role_ids;
  assignment_ids = Unique-update_where (λ x. x.id) _ _ s.assignments (λ x. refl) h.assignment_ids;
}

-- Roles: where every role that makes super admins still does, everybody who counted counts.
roles-somebody :
    (now : ℕ) (roles : List Role) (s : AccessStore)
    → ((i : ℕ) → super_admin_role s.roles i ≡ true → super_admin_role roles i ≡ true)
    → 0 < admins s now
    → 0 < admins (record s { roles = roles }) now
roles-somebody now roles s keep h = ground (arith, h, counts s.assignments)
  where
    counts :
        (xs : List Assignment)
        → count_where (is_super_admin s none now) xs
          ≤ count_where (is_super_admin (record s { roles = roles }) none now) xs
    counts [] = omega arith
    counts (x ∷ xs) = ground (arith, keep x.role_id, counts xs)

abbrev status_set : Bool → Role → Role
status_set active r = record r { is_active = active }

-- A role that may be deactivated makes no super admins.
super_admin_role-status :
    (j i : ℕ) (active : Bool) (roles : List Role)
    → All (λ r. (is_role j r && not active) ≡ true → (r.code =s "super_admin") ≡ false) roles
    → super_admin_role roles i ≡ true
    → super_admin_role (update_where (is_role j) (status_set active) roles) i ≡ true
super_admin_role-status j i active [] a h = h
super_admin_role-status j i active (r ∷ rs) (k, a) h =
    ground (arith, k, super_admin_role-status j i active rs a)

pub role_status-IsGoverned :
    (j now : ℕ) (active : Bool) (before : Role) (s : AccessStore)
    → find (is_role j) s.roles ≡ some before
    → before.id ≡ j
    → before.is_system_role && not active ≡ false
    → IsGoverned now s
    → IsGoverned now (record s { roles = update_where (is_role j) (status_set active) s.roles })
role_status-IsGoverned j now active before s e at n h = record {
  somebody =
      roles-somebody now _ s
        (λ i. super_admin_role-status j i active s.roles (harmless s.roles same h.protected))
        h.somebody;
  protected =
      All-update_where IsProtected (λ r. (r.id == before.id) ≡ true → r ≡ before) IsProtected
        (is_role j) (status_set active) s.roles still (λ r m k p. p) same h.protected;
  role_ids = Unique-update_where (λ r. r.id) _ _ s.roles (λ r. refl) h.role_ids;
  assignment_ids = h.assignment_ids;
}
  where
    same : All (λ r. (r.id == before.id) ≡ true → r ≡ before) s.roles
    same = Unique-find (λ r. r.id) (is_role j) s.roles before e h.role_ids

    still :
        (r : Role)
        → is_role j r ≡ true
        → ((r.id == before.id) ≡ true → r ≡ before)
        → IsProtected r
        → IsProtected (status_set active r)
    still r y k p c = let system = ap (λ x. x.is_system_role) (k (rw at y)) in ground (arith, p c)

    harmless :
        (rs : List Role)
        → All (λ r. (r.id == before.id) ≡ true → r ≡ before) rs
        → All IsProtected rs
        → All (λ r. (is_role j r && not active) ≡ true → (r.code =s "super_admin") ≡ false) rs
    harmless [] a b = tt
    harmless (r ∷ rs) (k, a) (p, b) = (
      λ y.
          let it : r ≡ before = k (rw at (ground arith)) in
          let system = ap (λ x. x.is_system_role) it in ground (arith, p),
      harmless rs a b,
    )

-- A code that makes super admins is taken, so a new role has another one.
code_taken :
    (roles : List Role) (i : ℕ)
    → super_admin_role roles i ≡ true
    → any (λ r. r.code =s "super_admin") roles ≡ true
code_taken [] i h = h
code_taken (r ∷ rs) i h = ground (arith, code_taken rs i)

has_admin_role :
    (s : AccessStore) (now : ℕ) (xs : List Assignment)
    → 0 < count_where (is_super_admin s none now) xs
    → any (λ r. r.code =s "super_admin") s.roles ≡ true
has_admin_role s now [] h = ground arith
has_admin_role s now (x ∷ xs) h = elim (Bool-cases (is_super_admin s none now x)) [
  | inl y ↦ code_taken s.roles x.role_id (ground arith)
  | inr n ↦ has_admin_role s now xs (ground arith)
]

super_admin_role-insert :
    (r : Role) (roles : List Role) (i : ℕ)
    → super_admin_role roles i ≡ true
    → super_admin_role (insert r roles) i ≡ true
super_admin_role-insert r [] i h = absurd (nothing h)
  where
    nothing : super_admin_role [] i ≡ true → ⊥
    nothing e = ground arith
super_admin_role-insert r (x ∷ xs) i h = ground (arith, super_admin_role-insert r xs i)

pub role_added-IsGoverned :
    (r : Role) (now : ℕ) (s : AccessStore)
    → any (λ x. is_role r.id x || (x.code =s r.code)) s.roles ≡ false
    → IsGoverned now s
    → IsGoverned now (record s { roles = insert r s.roles })
role_added-IsGoverned r now s n h = record {
  somebody = roles-somebody now _ s (super_admin_role-insert r s.roles) h.somebody;
  protected = All-insert IsProtected r s.roles (λ y. absurd (apart s.roles n y taken)) h.protected;
  role_ids = unique s.roles n h.role_ids;
  assignment_ids = h.assignment_ids;
}
  where
    taken : any (λ x. x.code =s "super_admin") s.roles ≡ true
    taken = has_admin_role s now s.assignments h.somebody

    apart :
        (xs : List Role)
        → any (λ x. is_role r.id x || (x.code =s r.code)) xs ≡ false
        → (r.code =s "super_admin") ≡ true
        → any (λ x. x.code =s "super_admin") xs ≡ true
        → ⊥
    apart [] m y t = ground arith
    apart (x ∷ xs) m y t =
        let same : r.code ≡ "super_admin" = (eq_iff r.code "super_admin").0 y in
        elim (Bool-cases (x.code =s "super_admin")) [
          | inl z ↦ clash (ap (λ c. x.code =s c) same ∙ z) (ground arith)
          | inr z ↦ apart xs (ground arith) y (ground arith)
        ]
      where
        clash : (x.code =s r.code) ≡ true → (x.code =s r.code) ≡ false → ⊥
        clash u v = cc

    unique :
        (xs : List Role)
        → any (λ x. is_role r.id x || (x.code =s r.code)) xs ≡ false
        → Unique (λ x. x.id) xs
        → Unique (λ x. x.id) (insert r xs)
    unique [] m u = (tt, tt)
    unique (x ∷ xs) m (k, u) = (All-insert _ r xs (ground arith) k, unique xs (ground arith) u)
