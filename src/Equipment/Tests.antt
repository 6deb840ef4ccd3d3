-- ===== src/Equipment/Tests.antt =====
-- The status policies at a concrete device, locker and port.
use coin_acceptor_backend.Prelude.{none, some, ◌≡◌, refl, false, true, [], ◌∷◌, arith}
use coin_acceptor_backend.Effect.{ok, err, conflict}
use coin_acceptor_backend.Store.{
  Locker, Availability, DoorStatus, LockStatus, ChargingPort, PortStatus, PowerState,
}
use coin_acceptor_backend.Commands.{Lifecycle}
use coin_acceptor_backend.Equipment.Policy.{
  DeviceRow, validate_lifecycle, transition_data, validate_locker, validate_port,
}
use coin_acceptor_backend.Equipment.Lifecycle.{IsDated, transition_data-IsDated}
use coin_acceptor_backend.Equipment.Credentials.{
  CredentialType, CredentialStatus, CredentialStore, KeyRequest, Secrets, active_credential_count,
}
use coin_acceptor_backend.Access.Scope.{require_station}
use coin_acceptor_backend.Equipment.Credentials.Service.{rotate}
use coin_acceptor_backend.Equipment.Credentials.Revocation.{revoke}
use coin_acceptor_backend.Equipment.Credentials.Remaining.{IsKeyed}
use coin_acceptor_backend.Equipment.Credentials.Upkeep.{
  here, next, rotating, revoking, Reach-IsKeyed,
}

abbrev in_service : DeviceRow
in_service = record {
  lifecycle_status = Lifecycle.active;
  activated_at = some 100;
  maintenance_started_at = none;
  decommissioned_at = none;
}

in_service-IsDated : IsDated in_service
in_service-IsDated = record { maintained = refl; ended = refl; started = refl }

serviced : validate_lifecycle Lifecycle.active Lifecycle.maintenance (some "coin jam") 1 ≡ ok tt
unfolding validate_lifecycle
serviced = refl

transition_data-IsDated_example : IsDated (transition_data Lifecycle.maintenance 500 in_service)
transition_data-IsDated_example =
    transition_data-IsDated in_service Lifecycle.maintenance (some "coin jam") 1 500 serviced
      in_service-IsDated

abbrev locker : Locker
locker = record {
  id = 1;
  device_id = 2;
  locker_number = 1;
  availability_status = Availability.available;
  door_status = DoorStatus.closed;
  lock_status = LockStatus.locked;
  last_status_changed_at = none;
  maintenance_reason = none;
}

locker_serviced : validate_locker locker Availability.maintenance (some "hinge") 0 ≡ ok tt
unfolding validate_locker
locker_serviced = refl

abbrev port : ChargingPort
port = record {
  id = 1;
  locker_id = 1;
  device_id = 2;
  port_number = 1;
  status = PortStatus.disabled;
  power_state = PowerState.off;
  last_status_changed_at = none;
  maintenance_reason = some "relay";
}

port_repaired : validate_port port PortStatus.available none 0 ≡ ok tt
unfolding validate_port
port_repaired = refl

abbrev keyed_store : CredentialStore
keyed_store = record {
  access = record {
    roles = (record { id = 1; code = "super_admin"; is_system_role = true; is_active = true }) ∷ [];
    assignments =
        (record {
          id = 7;
          user_id = 9;
          user_is_active = true;
          role_id = 1;
          station_id = none;
          revoked_at = none;
          expires_at = none;
        })
        ∷ [];
    role_permissions =
        (record { role_id = 1; code = "device_credentials.rotate" })
        ∷ (record { role_id = 1; code = "device_credentials.revoke" })
        ∷ [];
  };
  devices = (record { id = 2; station_id = 5; lifecycle_status = Lifecycle.active }) ∷ [];
  credentials =
      (record {
        id = 1;
        device_id = 2;
        key_id = "cred_hmac_a";
        credential_type = CredentialType.hmac;
        secret_hash = none;
        secret_encrypted = some "sealed";
        public_key_pem = none;
        certificate_fingerprint = none;
        status = CredentialStatus.active;
        expires_at = none;
        revoked_at = none;
        revoke_reason = none;
        revoked_by_user_id = none;
        created_by_user_id = 9;
        rotated_from_credential_id = none;
      })
      ∷ [];
  audits = [];
}

abbrev drawn : Secrets
drawn = record {
  key_id = λ _. "cred_hmac_b";
  api_key = "cak_x";
  hmac_secret = "secret";
  hash = λ t. t;
  encrypt = λ t. t;
  has_private_key = λ _. false;
  begins_public = λ _. true;
  ends_public = λ _. true;
  hex_digits = λ t. t;
  fingerprint = λ t. t;
}

abbrev plain_request : KeyRequest
plain_request = record {
  expires_at = none;
  public_key_pem = none;
  certificate_fingerprint = none;
  reason = none;
}

abbrev rotated_store : CredentialStore
rotated_store = (rotate drawn 2 1 plain_request 9 12 100 keyed_store).1

-- The rotation went through, and the last credential is not given up.
rotated_key :
    (revoke 2 12 "lost" false 9 101 rotated_store).0
    ≡ err (conflict "Cannot revoke final active credential.")
unfolding rotate revoke require_station
rotated_key = refl

keyed_store-IsKeyed : IsKeyed 2 keyed_store
unfolding active_credential_count
keyed_store-IsKeyed = record { ids = (tt, tt); keyed = ground arith; running = (λ _. refl, tt) }

Reach-IsKeyed_example : IsKeyed 2 (revoke 2 12 "lost" false 9 101 rotated_store).1
Reach-IsKeyed_example =
    Reach-IsKeyed 2 keyed_store-IsKeyed
      (next (next here (rotating drawn 2 1 plain_request 9 12 100)) (revoking 2 12 "lost" 9 101))
