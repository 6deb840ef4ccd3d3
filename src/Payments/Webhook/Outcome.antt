-- ===== src/Payments/Webhook/Outcome.antt =====
-- What a matching callback does to an open payment.
use coin_acceptor_backend.Prelude.{ℕ}
use coin_acceptor_backend.Table.{update_where}
use coin_acceptor_backend.Store.{Payment, QrTransaction, Store}
use coin_acceptor_backend.Store.Write.{has_id}
use coin_acceptor_backend.Payments.Webhook.{WebhookEvent, has_qr_id, payment_data, qr_data}

module _ (q : QrTransaction) (event : WebhookEvent) (now : ℕ) (p : Payment) (s : Store) where
  -- The store after an applied callback.
  abbrev pub applied : Store
  applied = record s {
    qrs = update_where (has_qr_id q.id) (qr_data event now) s.qrs;
    payments = update_where (has_id p.id) (payment_data event now) s.payments;
  }
