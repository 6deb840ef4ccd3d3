-- ===== src/Payments/Refund.antt =====
-- apps/payments/services/payment-refund.service.ts. The provider's refund is outside the program:
-- it is a parameter, called between the check and the transaction.
use coin_acceptor_backend.Prelude.{
  ℕ, not, Option, none, some, String, ◌=s◌, find, or_else, if◌then◌else◌,
}
use coin_acceptor_backend.Effect.{
  Error, bad_request, not_found, conflict, Result, Action, ◌>>=◌, ◌>>◌, pure, gets, modify, throw,
  throw_if, lift, or_throw, transaction,
}
use coin_acceptor_backend.Json.{Json, obj, str, Fields, end, field}
use coin_acceptor_backend.Json.Sensitive.{sanitize_json}
use coin_acceptor_backend.Store.{Payment, PaymentStatus, qr, QrTransaction, QrStatus, Store}
use coin_acceptor_backend.Store.Write.{has_id, update_payment, update_qr, record_audit}
use coin_acceptor_backend.Payments.Policy.{assert_transition, same_status}
use coin_acceptor_backend.Payments.Coins.{same_method}
use coin_acceptor_backend.Payments.Cancellation.{of_payment}

pub record RefundRequest : Type 0 where
  pub reason : String
  pub idempotency_key : Option String

pub record ProviderRefund : Type 0 where
  pub provider_transaction_id : Option String
  pub raw_response : Json

-- What the check hands on: a payment that is refunded already, or one to refund with its QR row.
pub data Refundable : Type 0 where
  done : Payment → Refundable
  due : Payment → QrTransaction → Refundable

abbrev not_refundable : Error
not_refundable = conflict "Only confirmed QR payments can be refunded."

abbrev due_row : Payment → Option QrTransaction → Action Store Refundable
due_row p none = throw not_refundable
due_row p (some q) = do
  throw_if (not (same_status p.status PaymentStatus.confirmed)) not_refundable
  lift (assert_transition p.status PaymentStatus.refunded)
  throw_if (not (q.provider =s "mock")) (bad_request "QR payment provider is not configured.")
  pure (due p q)

-- Up to the call of the provider. `scope` is the outcome of the station scope check.
unfoldable pub refund_check : (ℕ → Result (Unit {0})) → ℕ → Action Store Refundable
unfolding assert_transition
refund_check scope i = do
  p ← or_throw (← gets (λ s. find (has_id i) s.payments)) (not_found "Payment not found.")
  lift (scope p.station_id)
  if same_status p.status PaymentStatus.refunded then pure (done p) else (do
    throw_if (not (same_method p.payment_method qr)) not_refundable
    q ← gets (λ s. find (of_payment p.id) s.qrs)
    due_row p q)

-- `{ ...base, refundReason, refundIdempotencyKey }`: a later key of an object replaces an earlier
-- one in its place.
unfoldable pub put_field : String → Json → Fields → Fields
put_field k v end = field k v end
put_field k v (field j w fs) = if j =s k then field k v fs else field j w (put_field k v fs)

unfoldable pub remove_field : String → Fields → Fields
remove_field k end = end
remove_field k (field j w fs) = if j =s k then fs else field j w (remove_field k fs)

-- An undefined value leaves no field in the stored object, whatever stood there.
abbrev put_optional : String → Option String → Fields → Fields
put_optional k none fs = remove_field k fs
put_optional k (some v) fs = put_field k (str v) fs

abbrev base_fields : Json → Fields
base_fields (obj fs) = fs
base_fields _ = end

unfoldable pub refund_metadata : Json → RefundRequest → Json
unfolding put_field remove_field sanitize_json
refund_metadata value dto = sanitize_json (
    obj (
      put_optional "refundIdempotencyKey" dto.idempotency_key
        (put_field "refundReason" (str dto.reason) (base_fields value))))

unfoldable pub refund_data : Payment → RefundRequest → ℕ → Payment → Payment
unfolding refund_metadata
refund_data read dto now p = record p {
  status = PaymentStatus.refunded;
  refunded_at = some now;
  metadata = refund_metadata read.metadata dto;
}

unfoldable pub refund_qr : ProviderRefund → QrTransaction → QrTransaction
unfolding sanitize_json
refund_qr r q = record q {
  provider_status = QrStatus.refunded;
  provider_transaction_id = or_else r.provider_transaction_id q.provider_transaction_id;
  raw_response = sanitize_json r.raw_response;
}

-- The transaction after the provider has paid back.
unfoldable pub refund_commit : Payment → ProviderRefund → RefundRequest → ℕ → Action Store Payment
unfolding refund_data refund_qr update_payment
refund_commit p r dto now = transaction do
  modify (update_qr (of_payment p.id) (refund_qr r))
  row ← update_payment p.id (refund_data p dto now)
  modify (
      record_audit (record {
        action = "payments.refunded";
        entity_id = some p.id;
        station_id = some p.station_id;
        reason = some dto.reason;
      }))
  pure row

abbrev finish :
    (Payment → QrTransaction → Result ProviderRefund)
    → RefundRequest
    → ℕ
    → Refundable
    → Action Store Payment
finish provider dto now (done p) = pure p
finish provider dto now (due p q) = do r ← lift (provider p q); refund_commit p r dto now

-- `refund`, with nothing in between.
unfoldable pub refund :
    (ℕ → Result (Unit {0}))
    → (Payment → QrTransaction → Result ProviderRefund)
    → ℕ
    → RefundRequest
    → ℕ
    → Action Store Payment
unfolding refund_check refund_commit
refund scope provider i dto now = refund_check scope i >>= finish provider dto now
