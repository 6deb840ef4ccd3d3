-- ===== src/Store.antt =====
-- The rows of the tables that the payment and charging services share (prisma/schema.prisma,
-- charging_system_source_of_truth.sql), and the store that holds them.
pub mod Write
use coin_acceptor_backend.Prelude.{ℕ, Bool, true, false, Option, String, List}
use coin_acceptor_backend.Json.{Json}

-- UUIDs and generated references are only compared, so they are naturals; a time is a number of
-- milliseconds; an amount is in minor units, which the schema keeps from being negative.
pub data Method : Type 0 where
  coin qr : Method

pub data PaymentStatus : Type 0 where
  pending processing confirmed failed expired cancelled refunded : PaymentStatus

pub record Payment : Type 0 where
  pub id : ℕ
  pub payment_reference : ℕ
  pub station_id : ℕ
  pub device_id : ℕ
  pub charging_package_id : ℕ
  pub payment_method : Method
  pub status : PaymentStatus
  pub expected_amount_minor : ℕ
  pub received_amount_minor : ℕ
  pub currency : String
  pub package_duration_seconds_snapshot : ℕ
  pub idempotency_key : ℕ
  pub initiated_at : ℕ
  pub confirmed_at : Option ℕ
  pub failed_at : Option ℕ
  pub expired_at : Option ℕ
  pub cancelled_at : Option ℕ
  pub refunded_at : Option ℕ
  pub failure_code : Option String
  pub failure_reason : Option String
  pub metadata : Json

pub data QrStatus : Type 0 where
  created pending confirmed failed expired cancelled refunded : QrStatus

pub record QrTransaction : Type 0 where
  pub id : ℕ
  pub payment_id : ℕ
  pub provider : String
  pub merchant_reference : String
  pub provider_transaction_id : Option String
  pub provider_status : QrStatus
  pub amount_minor : ℕ
  pub currency : String
  pub qr_expires_at : Option ℕ
  pub callback_received_at : Option ℕ
  pub confirmed_at : Option ℕ
  pub failed_at : Option ℕ
  pub failure_code : Option String
  pub failure_reason : Option String
  pub raw_response : Json

pub record CoinInsertion : Type 0 where
  pub payment_id : ℕ
  pub device_id : ℕ
  pub device_event_id : ℕ
  pub denomination_minor : ℕ
  pub credited_amount_minor : ℕ
  pub currency : String
  pub pulse_count : ℕ
  pub accepted : Bool
  pub reject_reason : Option String
  pub inserted_at : ℕ
  pub metadata : Json

-- The columns of an audit log entry that the services differ in.
pub record AuditEntry : Type 0 where
  pub action : String
  pub entity_id : Option ℕ
  pub station_id : Option ℕ
  pub reason : Option String

pub data SessionStatus : Type 0 where
  pending awaiting_device active paused completed stopped failed cancelled expired : SessionStatus

pub record ChargingSession : Type 0 where
  pub id : ℕ
  pub session_reference : ℕ
  pub station_id : ℕ
  pub device_id : ℕ
  pub locker_id : ℕ
  pub charging_port_id : ℕ
  pub status : SessionStatus
  pub currency : String
  pub access_code_hash : Option String
  pub access_code_expires_at : Option ℕ
  pub purchased_duration_seconds : ℕ
  pub remaining_seconds : ℕ
  pub total_paid_minor : ℕ

-- A row of charging_session_payments.
pub record SessionPayment : Type 0 where
  pub charging_session_id : ℕ
  pub payment_id : ℕ
  pub duration_seconds_added : ℕ
  pub amount_minor : ℕ
  pub currency : String

pub data Availability : Type 0 where
  available reserved in_use maintenance disabled fault : Availability

pub data DoorStatus : Type 0 where
  open_door closed unknown : DoorStatus

pub data LockStatus : Type 0 where
  locked unlocked unknown fault : LockStatus

pub record Locker : Type 0 where
  pub id : ℕ
  pub device_id : ℕ
  pub locker_number : ℕ
  pub availability_status : Availability
  pub door_status : DoorStatus
  pub lock_status : LockStatus
  pub last_status_changed_at : Option ℕ
  pub maintenance_reason : Option String

pub data PortStatus : Type 0 where
  available in_use maintenance disabled fault : PortStatus

pub data PowerState : Type 0 where
  on off fault unknown : PowerState

pub record ChargingPort : Type 0 where
  pub id : ℕ
  pub locker_id : ℕ
  pub device_id : ℕ
  pub port_number : ℕ
  pub status : PortStatus
  pub power_state : PowerState
  pub last_status_changed_at : Option ℕ
  pub maintenance_reason : Option String

-- An open alert of the kind that a missing slot raises; its deduplication key is the device.
pub record Alert : Type 0 where
  pub station_id : ℕ
  pub device_id : ℕ
  pub is_open : Bool
  pub payment_reference : ℕ

pub record Store : Type 0 where
  pub payments : List Payment
  pub qrs : List QrTransaction
  pub coins : List CoinInsertion
  pub sessions : List ChargingSession
  pub links : List SessionPayment
  pub lockers : List Locker
  pub ports : List ChargingPort
  pub alerts : List Alert
  pub audits : List AuditEntry
