-- ===== src/Equipment/Credentials/Service.antt =====
-- device-credential.service.ts and the operations that it calls. A credential's device is there by
-- its foreign key. The response shows the credential's columns and, once, its secret.
use coin_acceptor_backend.Prelude.{
  ℕ, Bool, true, false, not, ◌&&◌, ◌||◌, Option, none, some, get_or, String, List, ◌==◌, ◌=s◌, find,
  any,
}
use coin_acceptor_backend.Effect.{
  Error, bad_request, not_found, conflict, database, Result, ok, err, Action, ◌>>=◌, ◌>>◌, gets,
  or_throw, lift, transaction, check,
}
use coin_acceptor_backend.Table.{insert, update_where}
use coin_acceptor_backend.Equipment.Credentials.{
  CredentialType, CredentialStatus, Credential, Holder, CredentialStore, KeyRequest, Secrets,
  Material, material, validate_expiry, refuses_credentials, is_marked_active,
}
use coin_acceptor_backend.Access.Scope.{require_station}

abbrev pub holder_has_id : ℕ → Holder → Bool
holder_has_id i d = d.id == i

abbrev pub credential_has_id : ℕ → Credential → Bool
credential_has_id i c = c.id == i

abbrev pub of_device : ℕ → ℕ → Credential → Bool
of_device device i c = c.id == i && c.device_id == device

-- `CredentialMaterialService.data` and the defaults of the columns.
abbrev pub credential_row :
    Secrets → ℕ → CredentialType → Option ℕ → ℕ → Material → Option ℕ → ℕ → Credential
credential_row x device kind expires actor m rotated_from new_id = record {
  id = new_id;
  device_id = device;
  key_id = x.key_id kind;
  credential_type = kind;
  secret_hash = m.secret_hash;
  secret_encrypted = m.secret_encrypted;
  public_key_pem = m.public_key_pem;
  certificate_fingerprint = m.certificate_fingerprint;
  status = CredentialStatus.active;
  expires_at = expires;
  revoked_at = none;
  revoke_reason = none;
  revoked_by_user_id = none;
  created_by_user_id = actor;
  rotated_from_credential_id = rotated_from;
}

-- The primary key and uq_device_credentials_key_id.
abbrev pub credential_clashes : Credential → Credential → Bool
credential_clashes new c = c.id == new.id || (c.key_id =s new.key_id)

abbrev pub insert_unless : Bool → Error → Credential → Action CredentialStore (Unit {0})
insert_unless true e c s = (err e, s)
insert_unless false e c s = (ok tt, record s { credentials = insert c s.credentials })

abbrev pub insert_credential : Error → Credential → Action CredentialStore (Unit {0})
insert_credential e c s = insert_unless (any (credential_clashes c) s.credentials) e c s

abbrev pub set_credentials : (List Credential → List Credential) → CredentialStore → CredentialStore
set_credentials f s = record s { credentials = f s.credentials }

abbrev pub revoke_row : String → ℕ → ℕ → Credential → Credential
revoke_row reason actor now c = record c {
  status = CredentialStatus.revoked;
  revoked_at = some now;
  revoked_by_user_id = some actor;
  revoke_reason = some reason;
}

abbrev pub write_revoked : ℕ → String → ℕ → ℕ → CredentialStore → CredentialStore
write_revoked i reason actor now =
    set_credentials (update_where (credential_has_id i) (revoke_row reason actor now))

abbrev pub audit_credential : String → ℕ → ℕ → CredentialStore → CredentialStore
audit_credential action i station s = record s {
  audits =
      insert
        (record { action = action; entity_id = some i; station_id = some station; reason = none })
        s.audits;
}

abbrev pub scoped : ℕ → String → ℕ → ℕ → Action CredentialStore (Unit {0})
scoped actor code station now s = (require_station s.access actor code station now, s)

abbrev pub audit_and_show :
    String → Credential → Option String → ℕ → Action CredentialStore (Credential × Option String)
audit_and_show action c shown station s = (ok (c, shown), audit_credential action c.id station s)

abbrev pub insert_and_audit :
    Error
    → Secrets
    → ℕ
    → CredentialType
    → ℕ
    → Material
    → ℕ
    → ℕ
    → ℕ
    → Option ℕ
    → Action CredentialStore (Credential × Option String)
insert_and_audit clash x device kind actor m station new_id now expires = do
  let c = credential_row x device kind expires actor m none new_id
  insert_credential clash c
  audit_and_show "device_credentials.created" c m.shown station

abbrev pub key_exists : Error
key_exists = conflict "Credential key already exists."

-- `CredentialCreateOperation.execute`
abbrev pub create_row :
    Secrets
    → CredentialType
    → KeyRequest
    → ℕ
    → ℕ
    → ℕ
    → Holder
    → Material
    → Action CredentialStore (Credential × Option String)
create_row x kind dto actor new_id now d m = transaction (
    lift (validate_expiry dto.expires_at now)
    >>= insert_and_audit key_exists x d.id kind actor m d.station_id new_id now)

abbrev pub create_allowed :
    Secrets
    → CredentialType
    → KeyRequest
    → ℕ
    → ℕ
    → ℕ
    → Holder
    → Action CredentialStore (Credential × Option String)
create_allowed x kind dto actor new_id now d =
    lift (material x kind dto) >>= create_row x kind dto actor new_id now d

abbrev pub allows_creation : Holder → Result (Unit {0})
allows_creation d =
    check (not (refuses_credentials d.lifecycle_status))
      (bad_request "Device cannot receive credentials.")

abbrev pub create_for :
    Secrets
    → CredentialType
    → KeyRequest
    → ℕ
    → ℕ
    → ℕ
    → Holder
    → Action CredentialStore (Credential × Option String)
create_for x kind dto actor new_id now d = do
  scoped actor "device_credentials.create" d.station_id now
  lift (allows_creation d)
  create_allowed x kind dto actor new_id now d

unfoldable pub create :
    Secrets
    → ℕ
    → CredentialType
    → KeyRequest
    → ℕ
    → ℕ
    → ℕ
    → Action CredentialStore (Credential × Option String)
unfolding material validate_expiry
create x device kind dto actor new_id now = do
  row ← gets (λ s. find (holder_has_id device) s.devices)
  d ← or_throw row (not_found "Device not found.")
  create_for x kind dto actor new_id now d

abbrev pub holder_of : Credential → CredentialStore → Option Holder
holder_of c s = find (holder_has_id c.device_id) s.devices

-- `requireCredential`
abbrev pub with_holder :
    {A : Type 0}
    → (Credential → Holder → Action CredentialStore A)
    → Credential
    → Action CredentialStore A
with_holder k before s =
    (or_throw (holder_of before s) (not_found "Credential not found.") >>= k before) s

abbrev pub with_credential :
    {A : Type 0}
    → ℕ
    → ℕ
    → (Credential → Holder → Action CredentialStore A)
    → Action CredentialStore A
with_credential device i k s =
    (or_throw (find (of_device device i) s.credentials) (not_found "Credential not found.")
        >>= with_holder k)
      s

abbrev pub write_and_show :
    Credential
    → Credential
    → Option String
    → Holder
    → String
    → ℕ
    → ℕ
    → Action CredentialStore (Credential × Option String)
write_and_show before c shown d reason actor now s =
    audit_and_show "device_credentials.rotated" c shown d.station_id
      (write_revoked before.id reason actor now s)

abbrev pub replace_credential :
    Secrets
    → Credential
    → Holder
    → KeyRequest
    → ℕ
    → Material
    → ℕ
    → ℕ
    → Option ℕ
    → Action CredentialStore (Credential × Option String)
replace_credential x before d dto actor m new_id now expires = do
  let kind = before.credential_type
  let c = credential_row x before.device_id kind expires actor m (some before.id) new_id
  insert_credential (database "P2002") c
  write_and_show before c m.shown d (get_or dto.reason "rotated") actor now

-- `CredentialRotateOperation.execute`: the transaction, for the row that was read before it.
abbrev pub rotate_row :
    Secrets
    → KeyRequest
    → ℕ
    → ℕ
    → ℕ
    → Credential
    → Holder
    → Material
    → Action CredentialStore (Credential × Option String)
rotate_row x dto actor new_id now before d m = transaction (
    lift (validate_expiry dto.expires_at now)
    >>= replace_credential x before d dto actor m new_id now)

abbrev pub rotate_active :
    Secrets
    → KeyRequest
    → ℕ
    → ℕ
    → ℕ
    → Credential
    → Holder
    → Action CredentialStore (Credential × Option String)
rotate_active x dto actor new_id now before d =
    lift (material x before.credential_type dto) >>= rotate_row x dto actor new_id now before d

abbrev pub allows_rotation : Credential → Result (Unit {0})
allows_rotation before = check (is_marked_active before) (conflict "Credential is not active.")

abbrev pub rotate_found :
    Secrets
    → KeyRequest
    → ℕ
    → ℕ
    → ℕ
    → Credential
    → Holder
    → Action CredentialStore (Credential × Option String)
rotate_found x dto actor new_id now before d = do
  scoped actor "device_credentials.rotate" d.station_id now
  lift (allows_rotation before)
  rotate_active x dto actor new_id now before d

unfoldable pub rotate :
    Secrets → ℕ → ℕ → KeyRequest → ℕ → ℕ → ℕ → Action CredentialStore (Credential × Option String)
unfolding material validate_expiry
rotate x device i dto actor new_id now =
    with_credential device i (rotate_found x dto actor new_id now)
