-- ===== src/Payments/Cancellation.antt =====
-- apps/payments/services/payment-cancellation.service.ts. The service reads the payment before
-- it opens the transaction that writes, so the two are separate steps.
use coin_acceptor_backend.Prelude.{
  ℕ, Bool, true, false, ◌&&◌, Option, some, String, ◌==◌, find, or_else, if◌then◌else◌,
}
use coin_acceptor_backend.Effect.{
  not_found, conflict, Action, ◌>>=◌, ◌>>◌, pure, gets, modify, throw_if, lift, or_throw,
  transaction,
}
use coin_acceptor_backend.Json.{str, obj, end, field}
use coin_acceptor_backend.Json.Sensitive.{sanitize_json}
use coin_acceptor_backend.Store.{Payment, PaymentStatus, QrTransaction, QrStatus, Store}
use coin_acceptor_backend.Store.Write.{update_payment, update_qr, record_audit}
use coin_acceptor_backend.Payments.Policy.{assert_transition, is_terminal, same_status}

abbrev pub of_payment : ℕ → QrTransaction → Bool
of_payment i q = q.payment_id == i

abbrev pub cancellable : ℕ → ℕ → Payment → Bool
cancellable reference device_id p = p.payment_reference == reference && p.device_id == device_id

-- Up to the transaction: the row that was read, if it is to be cancelled; `none` if it is so
-- already.
unfoldable pub cancel_check : ℕ → ℕ → Action Store (Payment × Bool)
unfolding is_terminal assert_transition
cancel_check reference device_id = do
  p ←
      or_throw (← gets (λ s. find (cancellable reference device_id) s.payments))
        (not_found "Payment not found.")
  if same_status p.status PaymentStatus.cancelled then pure (p, false) else (do
    throw_if (is_terminal p.status) (conflict "Payment is already terminal.")
    lift (assert_transition p.status PaymentStatus.cancelled)
    pure (p, true))

unfoldable pub cancel_data : Option String → ℕ → Payment → Payment
cancel_data reason now p = record p {
  status = PaymentStatus.cancelled;
  cancelled_at = some now;
  failure_reason = or_else reason p.failure_reason;
}

unfoldable pub cancel_qr : QrTransaction → QrTransaction
unfolding sanitize_json
cancel_qr q = record q {
  provider_status = QrStatus.cancelled;
  raw_response = sanitize_json (obj (field "cancelledBy" (str "device") end));
}

-- The transaction, for the payment that the check has read. An update of the QR row where there
-- is none does nothing, as the `if` has it.
unfoldable pub cancel_commit : Payment → Option String → ℕ → Action Store Payment
unfolding cancel_data cancel_qr update_payment
cancel_commit p reason now = transaction do
  modify (update_qr (of_payment p.id) cancel_qr)
  updated ← update_payment p.id (cancel_data reason now)
  modify (
      record_audit (record {
        action = "payments.cancelled";
        entity_id = some p.id;
        station_id = some p.station_id;
        reason = reason;
      }))
  pure updated

-- `cancel`, with nothing in between.
unfoldable pub cancel : ℕ → ℕ → Option String → ℕ → Action Store Payment
unfolding cancel_check cancel_commit
cancel reference device_id reason now = do
  found ← cancel_check reference device_id
  if found.1 then cancel_commit found.0 reason now else pure found.0
