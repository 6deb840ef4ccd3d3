-- ===== src/Payments/Initiation.antt =====
-- charging-package-read.service.ts, payment-initiation.service.ts and qr-payment.service.ts: a
-- device starts a payment for a package.
use coin_acceptor_backend.Prelude.{
  ℕ, Bool, true, false, not, ◌&&◌, ◌||◌, Option, none, some, String, List, ◌==◌, ◌=s◌, leb, ltb,
  find, filter, any, if◌then◌else◌,
}
use coin_acceptor_backend.Effect.{
  bad_request, conflict, database, Result, ok, err, Action, ◌>>=◌, ◌>>◌, pure, gets, modify, throw,
  throw_if, or_throw,
}
use coin_acceptor_backend.Table.{insert}
use coin_acceptor_backend.Table.Order.{order_by}
use coin_acceptor_backend.Json.{Json, obj, end}
use coin_acceptor_backend.Json.Sensitive.{sanitize_json}
use coin_acceptor_backend.Store.{
  Payment, PaymentStatus, Method, coin, qr, QrTransaction, QrStatus, AuditEntry, Store,
}
use coin_acceptor_backend.Store.Write.{has_id, payment_state_allowed, update_payment, record_audit}
use coin_acceptor_backend.Payments.Coins.{same_method}

pub record Package : Type 0 where
  pub id : ℕ
  pub station_id : Option ℕ
  pub code : String
  pub name : String
  pub duration_seconds : ℕ
  pub price_minor : ℕ
  pub currency : String
  pub allow_coin : Bool
  pub allow_qr : Bool
  pub is_active : Bool
  pub valid_from : ℕ
  pub valid_until : Option ℕ
  pub display_order : ℕ

abbrev pub allows : Method → Package → Bool
allows coin p = p.allow_coin
allows qr p = p.allow_qr

abbrev pub for_station : ℕ → Option ℕ → Bool
for_station i none = true
for_station i (some j) = j == i

abbrev pub still_on : Option ℕ → ℕ → Bool
still_on none now = true
still_on (some t) now = ltb now t

-- `availableWhere`
unfoldable pub available_where : ℕ → ℕ → Package → Bool
available_where station now p =
    p.is_active
    && leb p.valid_from now
    && for_station station p.station_id
    && still_on p.valid_until now
    && (p.allow_coin || p.allow_qr)

abbrev shown_before : Package → Package → Bool
shown_before p q =
    ltb p.display_order q.display_order
    || (p.display_order == q.display_order && leb p.price_minor q.price_minor)

unfoldable pub list_available : ℕ → ℕ → List Package → List Package
unfolding available_where order_by
list_available station now ps = order_by shown_before (filter (available_where station now) ps)

unfoldable pub require_available : ℕ → ℕ → Method → ℕ → List Package → Option Package
unfolding available_where
require_available i station m now ps =
    find (λ p. p.id == i && available_where station now p && allows m p) ps

-- `populate_payment_package_snapshot`, the trigger before each insert of a payment: it refuses the
-- row, or fills in the columns that the package decides.
unfoldable pub snapshot_allowed : Payment → Package → Bool
snapshot_allowed row p =
    for_station row.station_id p.station_id
    && p.is_active
    && leb p.valid_from row.initiated_at
    && still_on p.valid_until row.initiated_at
    && allows row.payment_method p

abbrev pub with_snapshot : Payment → Package → Payment
with_snapshot row p = record row {
  expected_amount_minor = p.price_minor;
  currency = p.currency;
  package_duration_seconds_snapshot = p.duration_seconds;
}

abbrev pub package_has_id : ℕ → Package → Bool
package_has_id i p = p.id == i

-- The unique keys of a payment.
abbrev pub payment_clashes : Payment → Payment → Bool
payment_clashes row x =
    x.id == row.id
    || x.payment_reference == row.payment_reference
    || x.idempotency_key == row.idempotency_key

-- `payments.create` with its triggers, for the package that the row names.
abbrev pub create_from : Payment → Package → Action Store Payment
create_from row p = do
  throw_if (not (snapshot_allowed row p)) (database "populate_payment_package_snapshot")
  let new = with_snapshot row p
  throw_if (not (payment_state_allowed new)) (database "validate_payment_state")
  taken ← gets (λ s. any (payment_clashes new) s.payments)
  throw_if taken (database "P2002")
  modify (λ s. record s { payments = insert new s.payments })
  pure new

unfoldable pub create_payment : List Package → Payment → Action Store Payment
unfolding snapshot_allowed
create_payment packages row =
    or_throw (find (package_has_id row.charging_package_id) packages)
      (database "populate_payment_package_snapshot")
    >>= create_from row

abbrev pub agrees : QrTransaction → Payment → Bool
agrees q p =
    same_method p.payment_method qr
    && p.expected_amount_minor == q.amount_minor
    && (p.currency =s q.currency)

abbrev same_provider_id : Option String → Option String → Bool
same_provider_id (some a) (some b) = a =s b
same_provider_id _ _ = false

-- The unique keys of a QR transaction.
abbrev pub qr_clashes : QrTransaction → QrTransaction → Bool
qr_clashes q x =
    x.id == q.id
    || x.payment_id == q.payment_id
    || (x.merchant_reference =s q.merchant_reference)
    || ((x.provider =s q.provider)
        && same_provider_id x.provider_transaction_id q.provider_transaction_id)

-- `qr_payment_transactions.create` with `validate_qr_payment_transaction`, for the payment that the
-- row names.
abbrev pub create_qr_for : QrTransaction → Payment → Action Store QrTransaction
create_qr_for q p = do
  throw_if (not (agrees q p)) (database "validate_qr_payment_transaction")
  taken ← gets (λ s. any (qr_clashes q) s.qrs)
  throw_if taken (database "P2002")
  modify (λ s. record s { qrs = insert q s.qrs })
  pure q

unfoldable pub create_qr : QrTransaction → Action Store QrTransaction
create_qr q = do
  p ← or_throw (← gets (λ s. find (has_id q.payment_id) s.payments)) (database "P2003")
  create_qr_for q p

-- `CreateDevicePaymentDto`, its key filled in where the client sent none.
pub record PaymentRequest : Type 0 where
  pub charging_package_id : ℕ
  pub payment_method : Method
  pub idempotency_key : ℕ

pub record DeviceAuth : Type 0 where
  pub station_id : ℕ
  pub device_id : ℕ
  pub is_active : Bool

-- What a provider answers to `createTransaction`, with the reference it was asked under.
pub record QrOffer : Type 0 where
  pub provider : String
  pub merchant_reference : String
  pub provider_transaction_id : Option String
  pub provider_status : QrStatus
  pub expires_at : Option ℕ
  pub raw_response : Json

-- What is generated for the new rows, and the provider, which may throw.
pub record NewPayment : Type 0 where
  pub id : ℕ
  pub qr_id : ℕ
  pub reference : ℕ
  pub now : ℕ
  pub offer : Payment → Result QrOffer

unfoldable pub payment_row : DeviceAuth → PaymentRequest → NewPayment → Payment
payment_row auth dto new = record {
  id = new.id;
  payment_reference = new.reference;
  station_id = auth.station_id;
  device_id = auth.device_id;
  charging_package_id = dto.charging_package_id;
  payment_method = dto.payment_method;
  status = PaymentStatus.pending;
  expected_amount_minor = 1;
  received_amount_minor = 0;
  currency = "TZS";
  package_duration_seconds_snapshot = 1;
  idempotency_key = dto.idempotency_key;
  initiated_at = new.now;
  confirmed_at = none;
  failed_at = none;
  expired_at = none;
  cancelled_at = none;
  refunded_at = none;
  failure_code = none;
  failure_reason = none;
  metadata = obj end;
}

unfoldable pub qr_row : Payment → QrOffer → ℕ → QrTransaction
unfolding sanitize_json
qr_row p offer i = record {
  id = i;
  payment_id = p.id;
  provider = offer.provider;
  merchant_reference = offer.merchant_reference;
  provider_transaction_id = offer.provider_transaction_id;
  provider_status = offer.provider_status;
  amount_minor = p.expected_amount_minor;
  currency = p.currency;
  qr_expires_at = offer.expires_at;
  callback_received_at = none;
  confirmed_at = none;
  failed_at = none;
  failure_code = none;
  failure_reason = none;
  raw_response = sanitize_json offer.raw_response;
}

-- `QrPaymentService.createTransaction`
abbrev pub create_offered : Payment → ℕ → Result QrOffer → Action Store QrTransaction
create_offered p i (ok offer) = create_qr (qr_row p offer i)
create_offered p i (err e) = throw e

unfoldable pub fail_data : ℕ → Payment → Payment
fail_data now p = record p {
  status = PaymentStatus.failed;
  failed_at = some now;
  failure_code = some "qr_provider_failed";
  failure_reason = some "QR provider transaction could not be created.";
}

-- What a client is told: the payment, and its QR transaction where it has one.
abbrev pub Initiated : Type 0
Initiated = Payment × Option QrTransaction

abbrev pub of_payment_row : Payment → QrTransaction → Bool
of_payment_row p q = q.payment_id == p.id

abbrev pub recover : Payment → ℕ → Result QrTransaction × Store → Result Initiated × Store
recover p now (ok q, s) = (ok (p, some q), s)
recover p now (err e, s) = (update_payment p.id (fail_data now) >>= λ failed. pure (failed, none)) s

abbrev pub offer_for : Payment → NewPayment → Method → Action Store Initiated
offer_for p new coin s = (ok (p, none), s)
offer_for p new qr s = recover p new.now (create_offered p new.qr_id (new.offer p) s)

abbrev key_audit : DeviceAuth → Payment → AuditEntry
key_audit auth p = record {
  action = "payments.conflicting_idempotency_key";
  entity_id = some p.id;
  station_id = some auth.station_id;
  reason = some "Payment idempotency key was reused with different input.";
}

-- `idempotent`
unfoldable pub idempotent : DeviceAuth → PaymentRequest → Payment → Action Store Initiated
idempotent auth dto p s =
    if p.device_id == auth.device_id
      && p.charging_package_id == dto.charging_package_id
      && same_method p.payment_method dto.payment_method
    then (ok (p, find (of_payment_row p) s.qrs), s)
    else (err (conflict "Payment idempotency key conflicts."), record_audit (key_audit auth p) s)

abbrev pub has_key : ℕ → Payment → Bool
has_key k p = p.idempotency_key == k

abbrev pub initiate_new :
    List Package → DeviceAuth → PaymentRequest → NewPayment → Action Store Initiated
initiate_new packages auth dto new = do
  p ← create_payment packages (payment_row auth dto new)
  offer_for p new dto.payment_method

abbrev pub existing_or_new :
    List Package
    → DeviceAuth
    → PaymentRequest
    → NewPayment
    → Option Payment
    → Action Store Initiated
existing_or_new packages auth dto new (some p) = idempotent auth dto p
existing_or_new packages auth dto new none = initiate_new packages auth dto new

unfoldable pub initiate :
    List Package → DeviceAuth → PaymentRequest → NewPayment → Action Store Initiated
unfolding require_available create_payment payment_row create_qr qr_row fail_data idempotent
    update_payment
initiate packages auth dto new = do
  throw_if (not auth.is_active) (bad_request "Device is not active.")
  _ ←
      or_throw
        (require_available dto.charging_package_id auth.station_id dto.payment_method new.now
          packages)
        (bad_request "Charging package is unavailable.")
  existing ← gets (λ s. find (has_key dto.idempotency_key) s.payments)
  existing_or_new packages auth dto new existing
