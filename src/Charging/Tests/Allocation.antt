-- ===== src/Charging/Tests/Allocation.antt =====
-- One free locker, and a confirmed payment of a public customer.
use coin_acceptor_backend.Prelude.{ℕ, false, none, some, [], ◌∷◌, ◌≡◌, refl}
use coin_acceptor_backend.Effect.{ok}
use coin_acceptor_backend.Store.{
  coin, Payment, PaymentStatus, ChargingSession, SessionStatus, Locker, Availability, DoorStatus,
  LockStatus, ChargingPort, PortStatus, PowerState, Store,
}
use coin_acceptor_backend.Charging.Allocation.{
  Fresh, public_payment_metadata, payment_is_public_customer, slot_free, free_slot, alert_no_slot,
  session_row, link_row, link_allowed, refresh_totals, allocate, linked_session, ensure_inside,
  ensure_for_payment_reference,
}
use coin_acceptor_backend.Charging.Allocation.Invariant.{
  IsAllocated, ensure_for_payment_reference-IsAllocated,
}
use coin_acceptor_backend.Charging.Allocation.Again.{ensure_for_payment_reference_again}
use coin_acceptor_backend.Table.Order.{order_by, put_row}

abbrev paid : Payment
paid = record {
  id = 1;
  payment_reference = 70;
  station_id = 1;
  device_id = 2;
  charging_package_id = 3;
  payment_method = coin;
  status = PaymentStatus.confirmed;
  expected_amount_minor = 100;
  received_amount_minor = 100;
  currency = "TZS";
  package_duration_seconds_snapshot = 40;
  idempotency_key = 1;
  initiated_at = 1000;
  confirmed_at = some 1500;
  failed_at = none;
  expired_at = none;
  cancelled_at = none;
  refunded_at = none;
  failure_code = none;
  failure_reason = none;
  metadata = public_payment_metadata "hash" (some "coin");
}

abbrev first_locker : Locker
first_locker = record {
  id = 5;
  device_id = 2;
  locker_number = 1;
  availability_status = Availability.available;
  door_status = DoorStatus.closed;
  lock_status = LockStatus.locked;
  last_status_changed_at = none;
  maintenance_reason = none;
}

abbrev first_port : ChargingPort
first_port = record {
  id = 6;
  locker_id = 5;
  device_id = 2;
  port_number = 1;
  status = PortStatus.available;
  power_state = PowerState.off;
  last_status_changed_at = none;
  maintenance_reason = none;
}

abbrev waiting : Store
waiting = record {
  payments = paid ∷ [];
  qrs = [];
  coins = [];
  sessions = [];
  links = [];
  lockers = first_locker ∷ [];
  ports = first_port ∷ [];
  alerts = [];
  audits = [];
}

abbrev now_at : ℕ → Fresh
now_at t = record {
  session_id = t;
  session_reference = t;
  now = t;
  locker_locked = λ _. false;
  port_locked = λ _. false;
}

abbrev served : Store
served = (ensure_for_payment_reference (now_at 1600) 70 waiting).1

abbrev pending_session : ChargingSession
pending_session = record {
  id = 1600;
  session_reference = 1600;
  station_id = 1;
  device_id = 2;
  locker_id = 5;
  charging_port_id = 6;
  status = SessionStatus.pending;
  currency = "TZS";
  access_code_hash = none;
  access_code_expires_at = none;
  purchased_duration_seconds = 0;
  remaining_seconds = 0;
  total_paid_minor = 0;
}

session_created :
    ensure_for_payment_reference (now_at 1600) 70 waiting ≡ (ok (some pending_session), served)
unfolding ensure_for_payment_reference ensure_inside public_payment_metadata
    payment_is_public_customer slot_free free_slot alert_no_slot session_row link_row link_allowed
    refresh_totals allocate linked_session order_by put_row
session_created = refl

worth_the_package :
    served.sessions
    ≡ record pending_session {
      purchased_duration_seconds = 40;
      remaining_seconds = 40;
      total_paid_minor = 100;
    }
      ∷ []
unfolding ensure_for_payment_reference ensure_inside public_payment_metadata
    payment_is_public_customer slot_free free_slot alert_no_slot session_row link_row link_allowed
    refresh_totals allocate linked_session order_by put_row
worth_the_package = refl

ensure_for_payment_reference_again_example :
    (y : ChargingSession) × (ensure_for_payment_reference (now_at 1700) 70 served
      ≡ (ok (some y), served))
    × (y.id ≡ pending_session.id)
ensure_for_payment_reference_again_example =
    ensure_for_payment_reference_again (now_at 1600) (now_at 1700) 70 pending_session waiting served
      session_created

ensure_for_payment_reference-IsAllocated_example : IsAllocated served
ensure_for_payment_reference-IsAllocated_example =
    ensure_for_payment_reference-IsAllocated (now_at 1600) 70 waiting
      (record { apart = tt; once = tt; paid = tt })
