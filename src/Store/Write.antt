-- ===== src/Store/Write.antt =====
-- Writes to the payment tables, with the triggers of charging_system_source_of_truth.sql that may
-- refuse them.
use coin_acceptor_backend.Prelude.{ℕ, Bool, true, ◌&&◌, not, some, ◌==◌, leb, is_some, find, ◌≡◌}
use coin_acceptor_backend.Effect.{
  database, ok, Action, ◌>>=◌, ◌>>◌, gets, modify, throw_if, or_throw,
}
use coin_acceptor_backend.Table.{update_where, insert}
use coin_acceptor_backend.Store.{
  PaymentStatus, Payment, QrTransaction, CoinInsertion, AuditEntry, Store,
}

-- `validate_payment_state`, the trigger before each insert and update of a payment.
abbrev status_allowed : PaymentStatus → Payment → Bool
status_allowed PaymentStatus.confirmed p =
    is_some p.confirmed_at && leb p.expected_amount_minor p.received_amount_minor
status_allowed PaymentStatus.refunded p =
    is_some p.confirmed_at
    && leb p.expected_amount_minor p.received_amount_minor
    && is_some p.refunded_at
status_allowed PaymentStatus.failed p = is_some p.failed_at
status_allowed PaymentStatus.expired p = is_some p.expired_at
status_allowed PaymentStatus.cancelled p = is_some p.cancelled_at
status_allowed PaymentStatus.pending p = true
status_allowed PaymentStatus.processing p = true

abbrev pub payment_state_allowed : Payment → Bool
payment_state_allowed p = status_allowed p.status p

abbrev pub has_id : ℕ → Payment → Bool
has_id i p = p.id == i

-- `tx.payments.update({ where: { id }, data })`; the row that it returns.
unfoldable pub update_payment : ℕ → (Payment → Payment) → Action Store Payment
update_payment i f = do
  p ← or_throw (← gets (λ s. find (has_id i) s.payments)) (database "P2025")
  throw_if (not (payment_state_allowed (f p))) (database "validate_payment_state")
  modify (λ s. record s { payments = update_where (has_id i) f s.payments })
  gets (λ _. f p)

abbrev pub update_qr : (QrTransaction → Bool) → (QrTransaction → QrTransaction) → Store → Store
update_qr q f s = record s { qrs = update_where q f s.qrs }

abbrev pub add_coin : CoinInsertion → Store → Store
add_coin c s = record s { coins = insert c s.coins }

-- `AuditLogsService.record`
abbrev pub record_audit : AuditEntry → Store → Store
record_audit a s = record s { audits = insert a s.audits }

-- A row that is there and may be written is written.
pub update_payment_found :
    (i : ℕ) (f : Payment → Payment) (s : Store) (p : Payment)
    → find (has_id i) s.payments ≡ some p
    → payment_state_allowed (f p) ≡ true
    → update_payment i f s
      ≡ (ok (f p), record s { payments = update_where (has_id i) f s.payments })
unfolding update_payment
update_payment_found i f s p e a = rw (e, or_throw) (rw a)
