-- ===== src/Equipment/Credentials.antt =====
-- apps/device-credentials: keys, secrets and certificates of devices, and the policy of their
-- rotation. Random values, hashing, encryption and the tests of a PEM text are parameters.
pub mod Service
pub mod Revocation
pub mod Remaining
pub mod Upkeep
use coin_acceptor_backend.Prelude.{
  ℕ, Bool, true, false, not, ◌&&◌, ◌||◌, Option, none, some, is_some, get_or, String, List, ◌==◌,
  ◌=s◌, leb, ltb, find, any, codes, is_blank, if◌then◌else◌,
}
use coin_acceptor_backend.Effect.{
  Error, bad_request, not_found, conflict, database, Result, ok, err, Action, ◌>>=◌, ◌>>◌, pure,
  gets, modify, throw, throw_if, or_throw, lift, transaction, check, then_result,
}
use coin_acceptor_backend.Table.{insert, update_where, count_where}
use coin_acceptor_backend.Store.{AuditEntry}
use coin_acceptor_backend.Commands.{Lifecycle}
use coin_acceptor_backend.Access.{AccessStore, has_permission}
use coin_acceptor_backend.Access.Scope.{require_station}

pub data CredentialType : Type 0 where
  api_key hmac certificate : CredentialType

pub data CredentialStatus : Type 0 where
  active expired revoked : CredentialStatus

pub record Credential : Type 0 where
  pub id : ℕ
  pub device_id : ℕ
  pub key_id : String
  pub credential_type : CredentialType
  pub secret_hash : Option String
  pub secret_encrypted : Option String
  pub public_key_pem : Option String
  pub certificate_fingerprint : Option String
  pub status : CredentialStatus
  pub expires_at : Option ℕ
  pub revoked_at : Option ℕ
  pub revoke_reason : Option String
  pub revoked_by_user_id : Option ℕ
  pub created_by_user_id : ℕ
  pub rotated_from_credential_id : Option ℕ

pub record Holder : Type 0 where
  pub id : ℕ
  pub station_id : ℕ
  pub lifecycle_status : Lifecycle

pub record CredentialStore : Type 0 where
  pub access : AccessStore
  pub devices : List Holder
  pub credentials : List Credential
  pub audits : List AuditEntry

-- `CreateCredentialDto` and `RotateCredentialDto`, `expiresAt` read as a time.
pub record KeyRequest : Type 0 where
  pub expires_at : Option ℕ
  pub public_key_pem : Option String
  pub certificate_fingerprint : Option String
  pub reason : Option String

-- What one call draws at random, with the functions of node:crypto and argon2, and the regular
-- expressions over a PEM text.
pub record Secrets : Type 0 where
  pub key_id : CredentialType → String
  pub api_key : String
  pub hmac_secret : String
  pub hash : String → String
  pub encrypt : String → String
  pub has_private_key : String → Bool
  pub begins_public : String → Bool
  pub ends_public : String → Bool
  pub hex_digits : String → String
  pub fingerprint : String → String

pub record Material : Type 0 where
  pub secret_hash : Option String
  pub secret_encrypted : Option String
  pub public_key_pem : Option String
  pub certificate_fingerprint : Option String
  -- what the response shows once
  pub shown : Option String

-- `!text`: absent or empty.
abbrev is_absent : Option String → Bool
is_absent none = true
is_absent (some t) = t =s ""

unfoldable pub validate_pem : Secrets → String → Result (Unit {0})
validate_pem x pem =
    if x.has_private_key pem
    then err (bad_request "Private keys are not accepted.")
    else check (x.begins_public pem && x.ends_public pem) (bad_request "Invalid public key PEM.")

abbrev validate_given_pem : Secrets → Option String → Result (Unit {0})
validate_given_pem x none = ok tt
validate_given_pem x (some pem) = if pem =s "" then ok tt else validate_pem x pem

abbrev fingerprint_of : Secrets → KeyRequest → String
fingerprint_of x dto = elim dto.certificate_fingerprint [
  | some t ↦ x.hex_digits t
  | none ↦ x.fingerprint (get_or dto.public_key_pem "")
]

-- `CertificateValidationService.validate`
unfoldable pub validate_certificate : Secrets → KeyRequest → Result Material
unfolding validate_pem
validate_certificate x dto =
    if is_absent dto.public_key_pem && is_absent dto.certificate_fingerprint
    then err (bad_request "Certificate credentials require public key material.")
    else then_result (validate_given_pem x dto.public_key_pem) λ _. ok (record {
      secret_hash = none;
      secret_encrypted = none;
      public_key_pem = dto.public_key_pem;
      certificate_fingerprint = some (fingerprint_of x dto);
      shown = none;
    })

-- `CredentialMaterialService.material`
unfoldable pub material : Secrets → CredentialType → KeyRequest → Result Material
unfolding validate_certificate
material x CredentialType.api_key dto = ok (record {
  secret_hash = some (x.hash x.api_key);
  secret_encrypted = none;
  public_key_pem = none;
  certificate_fingerprint = none;
  shown = some x.api_key;
})
material x CredentialType.hmac dto = ok (record {
  secret_hash = none;
  secret_encrypted = some (x.encrypt x.hmac_secret);
  public_key_pem = none;
  certificate_fingerprint = none;
  shown = some x.hmac_secret;
})
material x CredentialType.certificate dto = validate_certificate x dto

unfoldable pub validate_expiry : Option ℕ → ℕ → Result (Option ℕ)
validate_expiry none now = ok none
validate_expiry (some t) now =
    if leb t now then err (bad_request "expiresAt must be later than validFrom.") else ok (some t)

abbrev pub refuses_credentials : Lifecycle → Bool
refuses_credentials Lifecycle.disabled = true
refuses_credentials Lifecycle.decommissioned = true
refuses_credentials _ = false

abbrev pub is_active_status : CredentialStatus → Bool
is_active_status CredentialStatus.active = true
is_active_status _ = false

abbrev pub is_revoked_status : CredentialStatus → Bool
is_revoked_status CredentialStatus.revoked = true
is_revoked_status _ = false

abbrev pub is_active_lifecycle : Lifecycle → Bool
is_active_lifecycle Lifecycle.active = true
is_active_lifecycle _ = false

-- `validateActive`: active and not revoked, whether or not its time has passed.
abbrev pub is_marked_active : Credential → Bool
is_marked_active c = is_active_status c.status && not (is_some c.revoked_at)

abbrev pub counts_for : ℕ → Credential → Bool
counts_for device c = c.device_id == device && is_marked_active c

unfoldable pub active_credential_count : List Credential → ℕ → ℕ
active_credential_count xs device = count_where (counts_for device) xs

-- `validateFinalActiveRevoke`
unfoldable pub validate_final_active_revoke : Lifecycle → ℕ → Bool → Result (Unit {0})
validate_final_active_revoke lifecycle n force =
    if not (is_active_lifecycle lifecycle) || ltb 1 n
    then ok tt
    else check force (conflict "Cannot revoke final active credential.")
