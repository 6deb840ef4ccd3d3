-- ===== src/Equipment/Credentials/Remaining.antt =====
-- A device in service keeps a credential that is marked active.
use coin_acceptor_backend.Prelude.{
  ℕ, ◌≤◌, ◌<◌, All, Bool, true, false, none, some, String, List, [], ◌∷◌, ◌==◌, find, any, ◌≡◌,
  refl, arith, Bool-cases, inl, inr, ◌⊎◌, subst,
}
use coin_acceptor_backend.Effect.{
  Error, not_found, Action, ◌>>◌, lift, or_throw_keeps, lift_keeps, settle_keeps,
}
use coin_acceptor_backend.Table.{
  insert, update_where, count_where, Unique, Unique-find, Unique-update_where, All-insert, All-map,
}
use coin_acceptor_backend.Table.Counts.{
  count_where-insert, count_where-update_where, count_where-one,
}
use coin_acceptor_backend.Store.{AuditEntry}
use coin_acceptor_backend.Access.Scope.{require_station}
use coin_acceptor_backend.Equipment.Credentials.{
  CredentialType, Credential, Holder, CredentialStore, KeyRequest, Secrets, Material, material,
  validate_expiry, is_active_lifecycle, counts_for, active_credential_count,
}
use coin_acceptor_backend.Equipment.Credentials.Service.{
  holder_has_id, credential_has_id, credential_row, credential_clashes, insert_credential,
  insert_unless, insert_and_audit, key_exists, audit_and_show, create_for, create, create_row,
  create_allowed, allows_creation, revoke_row,
}

-- A device in service with a credential that is marked active and not revoked. Whether the time of
-- that credential has passed is not asked, as the code does not ask it.
pub record IsKeyed (device : ℕ) (s : CredentialStore) : Type 0 where
  pub ids : Unique (λ c. c.id) s.credentials
  pub keyed : 0 < active_credential_count s.credentials device
  pub running :
      All (λ d. (d.id == device) ≡ true → is_active_lifecycle d.lifecycle_status ≡ true) s.devices

-- Where a row that is written over does not count, or others count beside it.
left_over :
    (device : ℕ) (before : Credential) (f : Credential → Credential) (xs : List Credential)
    → Unique (λ c. c.id) xs
    → All (λ x. (x.id == before.id) ≡ true → x ≡ before) xs
    → (counts_for device before ≡ false) ⊎ (1 < count_where (counts_for device) xs)
    → 0 < count_where (counts_for device) xs
    → 0 < count_where (counts_for device) (update_where (credential_has_id before.id) f xs)
left_over device before f xs u same (inr many) more =
    ground (arith, count_where-one (counts_for device) (λ x. x.id) before.id f xs u)
left_over device before f xs u same (inl foreign) more = ground (arith, more, unchanged)
  where
    clash : (x : Credential) → x ≡ before → counts_for device x ≡ true → ⊥
    clash x e counts = let c = subst (λ z. counts_for device z ≡ true) e counts in cc

    unchanged :
        count_where (counts_for device) xs
        ≤ count_where (counts_for device) (update_where (credential_has_id before.id) f xs)
    unchanged =
        count_where-update_where (counts_for device) (counts_for device)
          (credential_has_id before.id) f xs
          (All-map _ _ xs
            (λ x e counts. elim (Bool-cases (x.id == before.id)) [
              | inl y ↦ absurd (clash x (e y) counts)
              | inr n ↦ rw n counts
            ])
            same)

insert-Unique :
    (c : Credential) (xs : List Credential)
    → any (credential_clashes c) xs ≡ false
    → Unique (λ x. x.id) xs
    → Unique (λ x. x.id) (insert c xs)
insert-Unique c [] n u = (tt, tt)
insert-Unique c (x ∷ xs) n (h, u) =
    (All-insert _ c xs (ground arith) h, insert-Unique c xs (ground arith) u)

pub insert-IsKeyed :
    (device : ℕ) (c : Credential) (s : CredentialStore)
    → any (credential_clashes c) s.credentials ≡ false
    → IsKeyed device s
    → IsKeyed device (record s { credentials = insert c s.credentials })
unfolding active_credential_count
insert-IsKeyed device c s n h = record {
  ids = insert-Unique c s.credentials n h.ids;
  keyed = ground (arith, h.keyed, count_where-insert (counts_for device) c s.credentials);
  running = h.running;
}

pub write-IsKeyed :
    (device : ℕ) (before : Credential) (q : Credential → Bool) (reason : String) (actor now : ℕ)
    (s : CredentialStore)
    → find q s.credentials ≡ some before
    → (counts_for device before ≡ false) ⊎ (1 < active_credential_count s.credentials device)
    → IsKeyed device s
    → IsKeyed device (record s {
      credentials =
          update_where (credential_has_id before.id) (revoke_row reason actor now) s.credentials;
    })
unfolding active_credential_count
write-IsKeyed device before q reason actor now s e enough h = record {
  ids = Unique-update_where (λ x. x.id) _ _ s.credentials (λ x. refl) h.ids;
  keyed =
      left_over device before (revoke_row reason actor now) s.credentials h.ids
        (Unique-find (λ x. x.id) q s.credentials before e h.ids) enough h.keyed;
  running = h.running;
}

module _ (device : ℕ) (s : CredentialStore) (h : IsKeyed device s) where
  pub inserted :
      {A : Type 0} (e : Error) (c : Credential) (k : Action CredentialStore A)
      → (any (credential_clashes c) s.credentials ≡ false
          → IsKeyed device (k (record s { credentials = insert c s.credentials })).1)
      → IsKeyed device ((insert_credential e c >> k) s).1
  inserted {A} e c k = go (any (credential_clashes c) s.credentials)
    where
      go :
          (b : Bool)
          → (b ≡ false → IsKeyed device (k (record s { credentials = insert c s.credentials })).1)
          → IsKeyed device ((insert_unless b e c >> k) s).1
      go true f = h
      go false f = f refl

  pub copied :
      {a : List AuditEntry} {t : CredentialStore}
      → IsKeyed device t
      → IsKeyed device (record t { audits = a })
  copied k = record { ids = k.ids; keyed = k.keyed; running = k.running }

  created :
      (x : Secrets) (kind : CredentialType) (dto : KeyRequest) (actor new_id now : ℕ) (d : Holder)
      (m : Material)
      → IsKeyed device (create_row x kind dto actor new_id now d m s).1
  created x kind dto actor new_id now d m = settle_keeps (IsKeyed device) s _ h (
      lift_keeps (IsKeyed device) (validate_expiry dto.expires_at now)
        (insert_and_audit key_exists x d.id kind actor m d.station_id new_id now) s h
        (λ expires e.
          let c = credential_row x d.id kind expires actor m none new_id in
          inserted key_exists c (audit_and_show "device_credentials.created" c m.shown d.station_id)
            (λ n. copied (insert-IsKeyed device c s n h))))

  pub create-IsKeyed :
      (x : Secrets) (i : ℕ) (kind : CredentialType) (dto : KeyRequest) (actor new_id now : ℕ)
      → IsKeyed device (create x i kind dto actor new_id now s).1
  unfolding create
  create-IsKeyed x i kind dto actor new_id now =
      or_throw_keeps (IsKeyed device) (find (holder_has_id i) s.devices)
        (not_found "Device not found.") (create_for x kind dto actor new_id now) s h
        λ d e.
          lift_keeps (IsKeyed device)
            (require_station s.access actor "device_credentials.create" d.station_id now)
            (λ _. lift (allows_creation d) >> create_allowed x kind dto actor new_id now d) s h
            λ u1 e1.
              lift_keeps (IsKeyed device) (allows_creation d)
                (λ _. create_allowed x kind dto actor new_id now d) s h
                λ u2 e2.
                  lift_keeps (IsKeyed device) (material x kind dto)
                    (create_row x kind dto actor new_id now d) s h
                    λ m e3. created x kind dto actor new_id now d m
