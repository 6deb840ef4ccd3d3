-- ===== src/Equipment/Credentials/Upkeep.antt =====
-- Rotations and revocations without force, and all steps of the staff together.
use coin_acceptor_backend.Prelude.{
  ℕ, ◌<◌, Bool, true, false, ◌||◌, Option, none, some, is_some, get_or, String, ◌==◌, ltb, find,
  is_blank, codes, ◌≡◌, refl, arith, Bool-cases, inl, inr, ◌⊎◌, find_sound, ==_iff,
}
use coin_acceptor_backend.Effect.{
  Error, not_found, conflict, database, Result, ok, err, ◌>>◌, lift, check, or_throw_keeps,
  lift_keeps, settle_keeps,
}
use coin_acceptor_backend.Table.{insert, All-find, find-insert}
use coin_acceptor_backend.Table.Counts.{count_where-insert}
use coin_acceptor_backend.Commands.{Lifecycle}
use coin_acceptor_backend.Access.Scope.{require_station}
use coin_acceptor_backend.Equipment.Credentials.{
  CredentialType, CredentialStatus, Credential, Holder, CredentialStore, KeyRequest, Secrets,
  Material, material, validate_expiry, is_revoked_status, is_marked_active, is_active_lifecycle,
  counts_for, active_credential_count, validate_final_active_revoke,
}
use coin_acceptor_backend.Equipment.Credentials.Service.{
  holder_has_id, of_device, credential_row, write_and_show, create, rotate_row, rotate_active,
  allows_rotation, with_holder, replace_credential, rotate_found, rotate, holder_of,
}
use coin_acceptor_backend.Equipment.Credentials.Revocation.{
  revoke_found, revoke_unless_over, revoke, revoke_forced,
}
use coin_acceptor_backend.Equipment.Credentials.Remaining.{
  IsKeyed, insert-IsKeyed, write-IsKeyed, inserted, copied, create-IsKeyed,
}

module _ (device : ℕ) (s : CredentialStore) (h : IsKeyed device s) where
  rotated :
      (x : Secrets) (dto : KeyRequest) (actor new_id now i j : ℕ) (before : Credential) (d : Holder)
      (m : Material)
      → find (of_device j i) s.credentials ≡ some before
      → is_marked_active before ≡ true
      → IsKeyed device (rotate_row x dto actor new_id now before d m s).1
  unfolding active_credential_count
  rotated x dto actor new_id now i j before d m e live = settle_keeps (IsKeyed device) s _ h (
      lift_keeps (IsKeyed device) (validate_expiry dto.expires_at now)
        (replace_credential x before d dto actor m new_id now) s h (λ expires _. written expires))
    where
      written :
          (expires : Option ℕ)
          → IsKeyed device (replace_credential x before d dto actor m new_id now expires s).1
      written expires =
          let c =
            credential_row x before.device_id before.credential_type expires actor m
              (some before.id) new_id in
          inserted device s h (database "P2002") c
            (write_and_show before c m.shown d (get_or dto.reason "rotated") actor now)
            (λ n.
              let grown = insert-IsKeyed device c s n h in
              copied device s h (
                write-IsKeyed device before (of_device j i) (get_or dto.reason "rotated") actor now
                  _ (find-insert (of_device j i) c s.credentials before e) (enough c refl refl refl)
                  grown))
        where
          enough :
              (c : Credential)
              → c.device_id ≡ before.device_id
              → c.status ≡ CredentialStatus.active
              → c.revoked_at ≡ none
              → (counts_for device before ≡ false)
                ⊎ (1 < active_credential_count (insert c s.credentials) device)
          enough c same status over = elim (Bool-cases (before.device_id == device)) [
            | inl y ↦
                let counted : counts_for device c ≡ true = rw (same, y, status, over) refl in
                inr (
                  ground (
                    arith,
                    h.keyed,
                    counted,
                    count_where-insert (counts_for device) c s.credentials,
                  ))
            | inr n ↦ inl (rw n refl)
          ]

  rotate-IsKeyed :
      (x : Secrets) (j i : ℕ) (dto : KeyRequest) (actor new_id now : ℕ)
      → IsKeyed device (rotate x j i dto actor new_id now s).1
  unfolding rotate
  rotate-IsKeyed x j i dto actor new_id now =
      or_throw_keeps (IsKeyed device) (find (of_device j i) s.credentials)
        (not_found "Credential not found.") (with_holder (rotate_found x dto actor new_id now)) s h
        λ before e.
          or_throw_keeps (IsKeyed device) (holder_of before s) (not_found "Credential not found.")
            (rotate_found x dto actor new_id now before) s h
            λ d e1.
              lift_keeps (IsKeyed device)
                (require_station s.access actor "device_credentials.rotate" d.station_id now)
                (λ _.
                  lift (allows_rotation before) >> rotate_active x dto actor new_id now before d)
                s h λ u1 e2. active before d e (is_marked_active before) refl
    where
      active :
          (before : Credential) (d : Holder)
          → find (of_device j i) s.credentials ≡ some before
          → (b : Bool) → is_marked_active before ≡ b
          → IsKeyed device
              ((lift (check b (conflict "Credential is not active."))
                  >> rotate_active x dto actor new_id now before d)
                s).1
      active before d e false live = h
      active before d e true live =
          lift_keeps (IsKeyed device) (material x before.credential_type dto)
            (rotate_row x dto actor new_id now before d) s h
            (λ m _. rotated x dto actor new_id now i j before d m e live)

  -- What the guard of a revocation without force leaves to count.
  others_remain :
      (before : Credential) (d : Holder)
      → holder_of before s ≡ some d
      → validate_final_active_revoke d.lifecycle_status
          (active_credential_count s.credentials before.device_id)
          false
        ≡ ok tt
      → (counts_for device before ≡ false) ⊎ (1 < active_credential_count s.credentials device)
  unfolding validate_final_active_revoke
  others_remain before d e passed = elim (Bool-cases (before.device_id == device)) [
    | inl y ↦
        let same : before.device_id ≡ device = (==_iff before.device_id device).0 y in
        let held : (d.id == device) ≡ true =
          rw same at (find_sound (holder_has_id before.device_id) s.devices d e) in
        let serves = All-find _ (holder_has_id before.device_id) s.devices d e h.running held in
        inr (rw same at (more d.lifecycle_status _ serves passed))
    | inr n ↦ inl (rw n refl)
  ]
    where
      more :
          (l : Lifecycle) (n : ℕ)
          → is_active_lifecycle l ≡ true
          → validate_final_active_revoke l n false ≡ ok tt
          → 1 < n
      more l n a passed = elim (Bool-cases (ltb 1 n)) [
        | inl y ↦ ground arith
        | inr m ↦
            absurd (
              clash _ (conflict "Cannot revoke final active credential.") refl
                (rw (a, m) at passed))
      ]
        where
          clash : (r : Result (Unit {0})) (x : Error) → r ≡ err x → r ≡ ok tt → ⊥
          clash r x a b = cc

  revoke-IsKeyed :
      (j i : ℕ) (reason : String) (actor now : ℕ)
      → IsKeyed device (revoke j i reason false actor now s).1
  unfolding revoke
  revoke-IsKeyed j i reason actor now = elim (Bool-cases (is_blank (codes reason))) [
    | inl y ↦ rw y h
    | inr n ↦ rw n (
        or_throw_keeps (IsKeyed device) (find (of_device j i) s.credentials)
          (not_found "Credential not found.") (with_holder (revoke_found reason false actor now)) s
          h
          λ before e.
            or_throw_keeps (IsKeyed device) (holder_of before s) (not_found "Credential not found.")
              (revoke_found reason false actor now before) s h
              λ d e1.
                lift_keeps (IsKeyed device)
                  (require_station s.access actor "device_credentials.revoke" d.station_id now)
                  (λ _.
                    revoke_unless_over
                      (is_revoked_status before.status || is_some before.revoked_at) reason false
                      actor now before d)
                  s h
                  λ u e2.
                    unless_over before d e e1
                      (is_revoked_status before.status || is_some before.revoked_at))
  ]
    where
      unless_over :
          (before : Credential) (d : Holder)
          → find (of_device j i) s.credentials ≡ some before
          → holder_of before s ≡ some d
          → (over : Bool)
          → IsKeyed device (revoke_unless_over over reason false actor now before d s).1
      unless_over before d e e1 true = h
      unless_over before d e e1 false =
          lift_keeps (IsKeyed device)
            (validate_final_active_revoke d.lifecycle_status
              (active_credential_count s.credentials before.device_id) false)
            (λ _. revoke_forced reason false actor now before d) s h
            λ u passed. copied device s h (
              write-IsKeyed device before (of_device j i) reason actor now s e
                (others_remain before d e1 passed) h)

-- What staff do without force.
pub data Step (s : CredentialStore) : CredentialStore → Type 0 where
  creating :
      (x : Secrets) (i : ℕ) (kind : CredentialType) (dto : KeyRequest) (actor new_id now : ℕ)
      → Step s (create x i kind dto actor new_id now s).1
  rotating :
      (x : Secrets) (j i : ℕ) (dto : KeyRequest) (actor new_id now : ℕ)
      → Step s (rotate x j i dto actor new_id now s).1
  revoking :
      (j i : ℕ) (reason : String) (actor now : ℕ) → Step s (revoke j i reason false actor now s).1

pub data Reach (s : CredentialStore) : CredentialStore → Type 0 where
  here : Reach s s
  next : {t u : CredentialStore} → Reach s t → Step t u → Reach s u

pub Step-IsKeyed :
    (device : ℕ) {s t : CredentialStore} → Step s t → IsKeyed device s → IsKeyed device t
Step-IsKeyed device {s} (creating x i kind dto actor new_id now) h =
    create-IsKeyed device s h x i kind dto actor new_id now
Step-IsKeyed device {s} (rotating x j i dto actor new_id now) h =
    rotate-IsKeyed device s h x j i dto actor new_id now
Step-IsKeyed device {s} (revoking j i reason actor now) h =
    revoke-IsKeyed device s h j i reason actor now

-- Creations, rotations and revocations without force, in whatever order and on whatever
-- credentials and devices, leave an active device that has a credential which is marked active and
-- not revoked with at least one such credential, expired or not, and the ids of credentials
-- unique, as long as no other call comes between what a call reads and what it writes; the
-- device's lifecycle is taken to stay as it is.
pub Reach-IsKeyed :
    (device : ℕ) {s t : CredentialStore} → IsKeyed device s → Reach s t → IsKeyed device t
Reach-IsKeyed device h here = h
Reach-IsKeyed device h (next r step) = Step-IsKeyed device step (Reach-IsKeyed device h r)
