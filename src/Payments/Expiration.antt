-- ===== src/Payments/Expiration.antt =====
-- apps/payments/services/payment-expiration.service.ts: the batch that expires stale payments.
-- The candidates are read before the transaction, which tests their status again.
use coin_acceptor_backend.Prelude.{
  ℕ, ◌-◌, ◌*◌, Bool, true, false, ◌&&◌, Option, none, some, List, [], ◌∷◌, ◌==◌, leb, filter, any,
  take, length, if◌then◌else◌,
}
use coin_acceptor_backend.Effect.{ok, Action}
use coin_acceptor_backend.Table.{update_where}
use coin_acceptor_backend.Store.{
  Payment, PaymentStatus, Method, coin, qr, QrTransaction, QrStatus, Store,
}
use coin_acceptor_backend.Store.Write.{update_qr, record_audit}
use coin_acceptor_backend.Payments.Cancellation.{of_payment}

abbrev pub is_open_status : PaymentStatus → Bool
is_open_status PaymentStatus.pending = true
is_open_status PaymentStatus.processing = true
is_open_status _ = false

abbrev pub is_due : ℕ → Option ℕ → Bool
is_due now none = false
is_due now (some t) = leb t now

-- `qr_payment_transactions: { qr_expires_at: { lte: now } }`: a row is there and is due.
abbrev pub qr_due : List QrTransaction → ℕ → Payment → Bool
qr_due qrs now p = any (λ q. of_payment p.id q && is_due now q.qr_expires_at) qrs

abbrev pub by_method : Method → Bool → Bool → Bool
by_method coin coin_due qr_due = coin_due
by_method qr coin_due qr_due = qr_due

unfoldable pub is_stale : Store → ℕ → ℕ → Payment → Bool
is_stale s cutoff now p =
    is_open_status p.status
    && by_method p.payment_method (leb p.initiated_at cutoff) (qr_due s.qrs now p)

-- `findMany` with `take: limit`; times are of the epoch, so the cut-off is not before it.
unfoldable pub candidates : ℕ → ℕ → ℕ → Store → List Payment
unfolding is_stale
candidates window limit now s =
    take limit (filter (is_stale s (now - window * 1000) now) s.payments)

abbrev pub is_among : List Payment → ℕ → Bool
is_among ps i = any (λ p. p.id == i) ps

abbrev pub is_unsettled : QrStatus → Bool
is_unsettled QrStatus.created = true
is_unsettled QrStatus.pending = true
is_unsettled _ = false

unfoldable pub expire_qr : ℕ → QrTransaction → QrTransaction
expire_qr now q = record q { provider_status = QrStatus.expired; failed_at = some now }

unfoldable pub expire_payment : ℕ → Payment → Payment
expire_payment now p = record p { status = PaymentStatus.expired; expired_at = some now }

unfoldable pub record_expiries : List Payment → Store → Store
record_expiries [] s = s
record_expiries (p ∷ ps) s = record_expiries ps (
    record_audit
      (record {
        action = "payments.expired";
        entity_id = some p.id;
        station_id = some p.station_id;
        reason = none;
      })
      s)

-- The transaction over the rows that were read.
unfoldable pub expire_commit : List Payment → ℕ → Store → Store
unfolding expire_qr expire_payment record_expiries
expire_commit found now s =
    let s₁ =
      update_qr (λ q. is_among found q.payment_id && is_unsettled q.provider_status) (expire_qr now)
        s in
    let s₂ = record s₁ {
      payments =
          update_where (λ p. is_among found p.id && is_open_status p.status) (expire_payment now)
            s₁.payments;
    } in
    record_expiries found s₂

-- `expireBatch`: how many it took up, and the store afterwards.
unfoldable pub expire_batch : ℕ → ℕ → ℕ → Action Store ℕ
unfolding candidates expire_commit
expire_batch window limit now s =
    let found = candidates window limit now s in
    (ok (length found), if length found == 0 then s else expire_commit found now s)
