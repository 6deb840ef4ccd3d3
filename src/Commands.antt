-- ===== src/Commands.antt =====
-- Device commands (apps/device-commands): the rows, and the checks that a command passes.
pub mod Policy
pub mod Contract
pub mod Service
pub mod Delivery
pub mod Acknowledge
pub mod Tests
use coin_acceptor_backend.Prelude.{ℕ, Bool, true, false, Option, String, List, ◌==◌}
use coin_acceptor_backend.Json.{Json}
use coin_acceptor_backend.Store.{AuditEntry}

pub data CommandStatus : Type 0 where
  queued sent acknowledged completed failed expired cancelled : CommandStatus

pub data AckResult : Type 0 where
  acknowledged completed failed : AckResult

pub record Command : Type 0 where
  pub id : ℕ
  pub station_id : ℕ
  pub device_id : ℕ
  pub command_type : String
  pub payload : Json
  pub status : CommandStatus
  pub idempotency_key : ℕ
  pub requested_by_user_id : Option ℕ
  pub requested_at : ℕ
  pub available_at : ℕ
  pub sent_at : Option ℕ
  pub acknowledged_at : Option ℕ
  pub completed_at : Option ℕ
  pub expires_at : Option ℕ
  pub failure_code : Option String
  pub failure_reason : Option String
  pub device_response : Option Json
  pub acknowledgement_event_id : Option ℕ

pub data Lifecycle : Type 0 where
  pending active maintenance disabled decommissioned : Lifecycle

pub record Device : Type 0 where
  pub id : ℕ
  pub station_id : ℕ
  pub lifecycle_status : Lifecycle

pub record CommandStore : Type 0 where
  pub devices : List Device
  pub commands : List Command
  pub audits : List AuditEntry

abbrev pub command_has_id : ℕ → Command → Bool
command_has_id i c = c.id == i
