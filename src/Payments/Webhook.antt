-- ===== src/Payments/Webhook.antt =====
-- apps/payments/services/payment-webhook.service.ts and payment-webhook-state.ts. The provider's
-- checks of the raw body come before; `apply_event` is what runs in the transaction.
pub mod Effects
pub mod Outcome
use coin_acceptor_backend.Prelude.{
  ℕ, Bool, true, false, not, ◌&&◌, ◌||◌, Option, none, some, String, List, ◌==◌, ◌=s◌, find,
  or_else, if◌then◌else◌,
}
use Prim.Native.String.{◌++◌ as append}
use coin_acceptor_backend.Effect.{
  Error, bad_request, unauthorized, not_found, Result, ok, err, Action, ◌>>=◌, ◌>>◌, pure, gets,
  modify, throw, throw_if, lift, or_throw, transaction,
}
use coin_acceptor_backend.Json.{Json}
use coin_acceptor_backend.Json.Sensitive.{sanitize_json}
use coin_acceptor_backend.Store.{Payment, PaymentStatus, QrTransaction, QrStatus, AuditEntry, Store}
use coin_acceptor_backend.Store.Write.{has_id, update_payment, update_qr, record_audit}
use coin_acceptor_backend.Payments.Policy.{assert_transition, is_terminal, same_status}

pub data WebhookStatus : Type 0 where
  confirmed failed expired : WebhookStatus

pub record WebhookEvent : Type 0 where
  pub merchant_reference : String
  pub provider_transaction_id : Option String
  pub status : WebhookStatus
  pub amount_minor : ℕ
  pub currency : String
  pub raw_response : Json
  pub failure_code : Option String
  pub failure_reason : Option String

abbrev pub as_payment_status : WebhookStatus → PaymentStatus
as_payment_status confirmed = PaymentStatus.confirmed
as_payment_status failed = PaymentStatus.failed
as_payment_status expired = PaymentStatus.expired

abbrev as_qr_status : WebhookStatus → QrStatus
as_qr_status confirmed = QrStatus.confirmed
as_qr_status failed = QrStatus.failed
as_qr_status expired = QrStatus.expired

-- A column that Prisma writes only where the value is defined.
abbrev keep_or : Option ℕ → Option ℕ → Option ℕ
keep_or new old = or_else new old

-- The patch of `paymentData`, applied to a row.
unfoldable pub patch_by : WebhookStatus → WebhookEvent → ℕ → Payment → Payment
patch_by confirmed event now p = record p {
  status = PaymentStatus.confirmed;
  received_amount_minor = p.expected_amount_minor;
  confirmed_at = some now;
}
patch_by failed event now p = record p {
  status = PaymentStatus.failed;
  failed_at = some now;
  failure_code = or_else event.failure_code p.failure_code;
  failure_reason = or_else event.failure_reason p.failure_reason;
}
patch_by expired event now p = record p {
  status = PaymentStatus.expired;
  expired_at = some now;
  failure_code = or_else event.failure_code p.failure_code;
  failure_reason = or_else event.failure_reason p.failure_reason;
}

unfoldable pub payment_data : WebhookEvent → ℕ → Payment → Payment
unfolding patch_by
payment_data event now p = patch_by event.status event now p

abbrev at_status : WebhookStatus → WebhookStatus → ℕ → Option ℕ
at_status confirmed confirmed now = some now
at_status failed failed now = some now
at_status expired expired now = some now
at_status _ _ now = none

unfoldable pub qr_data : WebhookEvent → ℕ → QrTransaction → QrTransaction
unfolding sanitize_json
qr_data event now q = record q {
  provider_status = as_qr_status event.status;
  provider_transaction_id = or_else event.provider_transaction_id q.provider_transaction_id;
  callback_received_at = some now;
  confirmed_at = keep_or (at_status confirmed event.status now) q.confirmed_at;
  failed_at = keep_or (at_status failed event.status now) q.failed_at;
  failure_code = or_else event.failure_code q.failure_code;
  failure_reason = or_else event.failure_reason q.failure_reason;
  raw_response = sanitize_json event.raw_response;
}

abbrev pub conflict_audit : Payment → ℕ → String → AuditEntry
conflict_audit p qr_id reason = record {
  action = "payments.conflicting_callback";
  entity_id = some qr_id;
  station_id = some p.station_id;
  reason = some reason;
}

abbrev pub has_qr_id : ℕ → QrTransaction → Bool
has_qr_id i q = q.id == i

-- The policy's check, then the QR row and the payment row, in the order of the code.
unfoldable pub update_payment_status :
    Payment → QrTransaction → WebhookEvent → ℕ → Action Store Payment
unfolding payment_data update_payment
update_payment_status p q event now = do
  lift (assert_transition p.status (as_payment_status event.status))
  modify (update_qr (has_qr_id q.id) (qr_data event now))
  update_payment p.id (payment_data event now)

-- Whether the clause for the provider's own id selects a row. Without that id the clause is the
-- empty filter, and `any_row` says whether Prisma lets it select every row.
abbrev by_provider_id : Bool → Option String → Option String → Bool
by_provider_id any_row none found = any_row
by_provider_id any_row (some i) none = false
by_provider_id any_row (some i) (some j) = j =s i

abbrev pub qr_matches : Bool → String → WebhookEvent → QrTransaction → Bool
qr_matches any_row provider event q =
    q.provider =s provider
    && (q.merchant_reference =s event.merchant_reference
        || by_provider_id any_row event.provider_transaction_id q.provider_transaction_id)

unfoldable pub amount_differs : QrTransaction → WebhookEvent → Bool
amount_differs q event =
    not (event.amount_minor == q.amount_minor) || not (event.currency =s q.currency)

unfoldable pub terminal_conflict : WebhookEvent → Payment → Bool
unfolding is_terminal
terminal_conflict event p =
    is_terminal p.status && not (same_status p.status (as_payment_status event.status))

-- The branches of `applyEvent`, for the rows that it has found.
unfoldable pub apply_to : QrTransaction → WebhookEvent → ℕ → Payment → Action Store Payment
unfolding update_payment_status amount_differs terminal_conflict
apply_to q event now p =
    if amount_differs q event
    then modify (record_audit (conflict_audit p q.id "Amount mismatch."))
      >> throw (bad_request "QR callback amount mismatch.")
    else if terminal_conflict event p
    then modify (record_audit (conflict_audit p q.id "Terminal conflict.")) >> pure p
    else update_payment_status p q event now

-- The payment of the QR row, locked for the rest of the transaction.
abbrev pub apply_to_row : WebhookEvent → ℕ → QrTransaction → Action Store Payment
apply_to_row event now q = do
  p ←
      or_throw (← gets (λ s. find (has_id q.payment_id) s.payments))
        (not_found "Payment not found.")
  apply_to q event now p

unfoldable pub apply_event : Bool → String → WebhookEvent → ℕ → Action Store Payment
unfolding apply_to
apply_event any_row provider event now = do
  q ←
      or_throw (← gets (λ s. find (qr_matches any_row provider event) s.qrs))
        (not_found "QR transaction not found.")
  apply_to_row event now q

-- `ensurePublicSession`: a session is asked for a confirmed payment only, and a failure to
-- allocate one is logged and dropped.
unfoldable pub ensure_public_session :
    (ℕ → Action Store (Unit {0})) → Payment → Action Store (Unit {0})
ensure_public_session ensure p s =
    if same_status p.status PaymentStatus.confirmed
    then (ok tt, (ensure p.payment_reference s).1)
    else (ok tt, s)

abbrev pub signature_audit : String → AuditEntry
signature_audit provider = record {
  action = "payments.invalid_webhook_signature";
  entity_id = none;
  station_id = none;
  reason = some (append "Invalid " (append provider " webhook signature."));
}

abbrev pub receive_known :
    Bool
    → (ℕ → Action Store (Unit {0}))
    → Bool
    → Result WebhookEvent
    → String
    → ℕ
    → Action Store Payment
receive_known any_row ensure true parsed provider now = do
  event ← lift parsed
  p ← transaction (apply_event any_row provider event now)
  ensure_public_session ensure p
  pure p
receive_known any_row ensure false parsed provider now = do
  modify (record_audit (signature_audit provider))
  throw (unauthorized "Invalid webhook signature.")

-- `receive`, over the provider's verdict on the signature and its reading of the raw body
-- (Payments.Provider). The registry knows the provider `mock` alone.
unfoldable pub receive :
    Bool
    → (ℕ → Action Store (Unit {0}))
    → Bool
    → Result WebhookEvent
    → String
    → ℕ
    → Action Store Payment
unfolding apply_event ensure_public_session
receive any_row ensure verified parsed provider now = do
  throw_if (not (provider =s "mock")) (bad_request "QR payment provider is not configured.")
  receive_known any_row ensure verified parsed provider now
