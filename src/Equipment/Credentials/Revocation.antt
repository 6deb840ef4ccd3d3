-- ===== src/Equipment/Credentials/Revocation.antt =====
-- device-credential.service.ts, its revocation of a credential.
use coin_acceptor_backend.Prelude.{
  ℕ, Bool, true, false, not, ◌&&◌, ◌||◌, some, is_some, String, codes, is_blank, if◌then◌else◌,
}
use coin_acceptor_backend.Effect.{bad_request, ok, Action, ◌>>◌, throw_if, lift}
use coin_acceptor_backend.Access.{has_permission}
use coin_acceptor_backend.Equipment.Credentials.{
  Credential, Holder, CredentialStore, active_credential_count, validate_final_active_revoke,
  is_revoked_status,
}
use coin_acceptor_backend.Access.Scope.{require_station}
use coin_acceptor_backend.Equipment.Credentials.Service.{
  scoped, with_credential, write_revoked, revoke_row, audit_credential,
}

abbrev pub lacks_force : Bool → ℕ → ℕ → ℕ → CredentialStore → Bool
lacks_force force actor station now s =
    force
    && not (has_permission s.access actor "device_credentials.force_revoke" (some station) now)

-- The permission to force is asked twice, of the permissions and, where they have none, of the
-- stations in scope.
abbrev pub assert_force : Bool → ℕ → ℕ → ℕ → Action CredentialStore (Unit {0})
assert_force force actor station now s = (
  (if lacks_force force actor station now s
      then require_station s.access actor "device_credentials.force_revoke" station now
      else ok tt),
  s,
)

-- `CredentialRevokeOperation.execute`: the transaction, for the row that was read before it.
abbrev pub write_and_audit :
    String → ℕ → ℕ → Credential → Holder → Action CredentialStore Credential
write_and_audit reason actor now before d s = (
  ok (revoke_row reason actor now before),
  audit_credential "device_credentials.revoked" before.id d.station_id
      (write_revoked before.id reason actor now s),
)

abbrev pub revoke_forced :
    String → Bool → ℕ → ℕ → Credential → Holder → Action CredentialStore Credential
revoke_forced reason force actor now before d =
    assert_force force actor d.station_id now >> write_and_audit reason actor now before d

abbrev pub revoke_marked :
    String → Bool → ℕ → ℕ → Credential → Holder → Action CredentialStore Credential
revoke_marked reason force actor now before d s =
    (lift (
          validate_final_active_revoke d.lifecycle_status
            (active_credential_count s.credentials before.device_id) force)
        >> revoke_forced reason force actor now before d)
      s

abbrev pub revoke_unless_over :
    Bool → String → Bool → ℕ → ℕ → Credential → Holder → Action CredentialStore Credential
revoke_unless_over true reason force actor now before d s = (ok before, s)
revoke_unless_over false reason force actor now before d s =
    revoke_marked reason force actor now before d s

abbrev pub revoke_found :
    String → Bool → ℕ → ℕ → Credential → Holder → Action CredentialStore Credential
revoke_found reason force actor now before d = do
  scoped actor "device_credentials.revoke" d.station_id now
  let over = is_revoked_status before.status || is_some before.revoked_at
  revoke_unless_over over reason force actor now before d

unfoldable pub revoke : ℕ → ℕ → String → Bool → ℕ → ℕ → Action CredentialStore Credential
unfolding validate_final_active_revoke active_credential_count
revoke device i reason force actor now = do
  throw_if (is_blank (codes reason)) (bad_request "Reason is required.")
  with_credential device i (revoke_found reason force actor now)
