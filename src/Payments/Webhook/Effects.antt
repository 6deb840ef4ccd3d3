-- ===== src/Payments/Webhook/Effects.antt =====
-- What each branch of a webhook does to the store.
use coin_acceptor_backend.Prelude.{ℕ, Bool, true, false, ◌≡◌, find, Option, some, ap, ◌∙◌}
use coin_acceptor_backend.Effect.{
  bad_request, not_found, ok, err, Action, Result, or_throw, ◌>>=◌, settle, pure,
}
use coin_acceptor_backend.Store.{Payment, QrTransaction, Store}
use coin_acceptor_backend.Store.Write.{record_audit, has_id}
use coin_acceptor_backend.Payments.Webhook.{
  WebhookEvent, amount_differs, terminal_conflict, conflict_audit, apply_to, apply_to_row,
  apply_event, qr_matches, receive, ensure_public_session, update_payment_status,
}

module _ (q : QrTransaction) (event : WebhookEvent) (now : ℕ) (p : Payment) (s : Store) where
  pub apply_to_mismatch :
      amount_differs q event ≡ true
      → apply_to q event now p s ≡ (
        err (bad_request "QR callback amount mismatch."),
        record_audit (conflict_audit p q.id "Amount mismatch.") s,
      )
  unfolding apply_to
  apply_to_mismatch d = rw d

  pub apply_to_conflict :
      amount_differs q event ≡ false
      → terminal_conflict event p ≡ true
      → apply_to q event now p s
        ≡ (ok p, record_audit (conflict_audit p q.id "Terminal conflict.") s)
  unfolding apply_to
  apply_to_conflict d c = rw (d, c)

  pub apply_to_update :
      amount_differs q event ≡ false
      → terminal_conflict event p ≡ false
      → apply_to q event now p s ≡ update_payment_status p q event now s
  unfolding apply_to
  apply_to_update d c = rw (d, c)

  -- A callback whose amount or currency is not that of the QR row that it names is refused and
  -- leaves the whole store as it was before the callback, the audit entry that the handler records
  -- for it included.
  pub receive_mismatch :
      (any_row : Bool) (ensure : ℕ → Action Store (Unit {0}))
      → find (qr_matches any_row "mock" event) s.qrs ≡ some q
      → find (has_id q.payment_id) s.payments ≡ some p
      → amount_differs q event ≡ true
      → receive any_row ensure true (ok event) "mock" now s
        ≡ (err (bad_request "QR callback amount mismatch."), s)
  unfolding receive apply_event
  receive_mismatch any_row ensure f g d =
      ap
        (λ (r : Result Payment × Store). elim (settle s r).0 as (λ _. Result Payment × Store) [
          | ok a ↦ (ensure_public_session ensure a >>= λ _. pure a) (settle s r).1
          | err e ↦ (err e, (settle s r).1)
        ])
        applied
    where
      applied : apply_event any_row "mock" event now s ≡ (
        err (bad_request "QR callback amount mismatch."),
        record_audit (conflict_audit p q.id "Amount mismatch.") s,
      )
      applied =
          ap
            (λ (o : Option QrTransaction).
              (or_throw o (not_found "QR transaction not found.") >>= apply_to_row event now) s)
            f
          ∙ ap
              (λ (o : Option Payment).
                (or_throw o (not_found "Payment not found.") >>= apply_to q event now) s)
              g
          ∙ apply_to_mismatch d
