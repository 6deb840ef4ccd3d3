-- ===== src/Payments/Invariant/Others.antt =====
-- Cancellation, expiry and refunds keep the payment tables sound.
use coin_acceptor_backend.Prelude.{
  ℕ, ◌&&◌, Option, none, some, List, [], ◌∷◌, String, ◌≡◌, refl, ◌==◌, find, inl, inr, Bool-cases,
  Option-cases, ◌⊎◌, sym, ap, ◌∙◌, length,
}
use coin_acceptor_backend.Effect.{Action, pure, modify, ◌>>=◌, ◌>>◌}
use coin_acceptor_backend.Table.{
  update_where, All-map, All-find, All-unit, All-update_where, Unique-update_where,
}
use coin_acceptor_backend.Store.{Payment, QrTransaction, AuditEntry, CoinInsertion, Store}
use coin_acceptor_backend.Store.Write.{has_id, update_payment, update_qr, record_audit}
use coin_acceptor_backend.Payments.Cancellation.{cancel_commit, cancel_data, cancel_qr, of_payment}
use coin_acceptor_backend.Payments.Refund.{
  ProviderRefund, RefundRequest, refund_commit, refund_data, refund_qr,
}
use coin_acceptor_backend.Payments.Expiration.{
  expire_batch, expire_commit, expire_qr, expire_payment, record_expiries, is_among, is_open_status,
  candidates, is_unsettled,
}
use coin_acceptor_backend.Payments.Invariant.{
  IsGood, IsBalanced, IsForQr-qrs, IsForQr-update_where, IsOwned-update_where, IsSound, IsSoundOk,
  KeepsIdentity, update_payment-IsSound, update_payment_missing, transaction-IsSound,
  bind-IsSoundOk, credited,
}

-- An audit entry is no part of the invariant.
pub audit-IsSound : (a : AuditEntry) (s : Store) → IsSound s → IsSound (record_audit a s)
audit-IsSound a s h = record {
  unique = h.unique;
  good = h.good;
  for_qr = h.for_qr;
  owned = h.owned;
}

-- The shape of both transactions: the QR rows, the payment, an audit entry.
abbrev write_both :
    ℕ → (QrTransaction → QrTransaction) → (Payment → Payment) → AuditEntry → Action Store Payment
write_both i g f a = do
  modify (update_qr (of_payment i) g)
  row ← update_payment i f
  modify (record_audit a)
  pure row

module _ (i : ℕ) (g : QrTransaction → QrTransaction) (f : Payment → Payment) (a : AuditEntry)
    (s : Store) where
  write_both-IsSound :
      ((q : QrTransaction) → (g q).payment_id ≡ q.payment_id)
      → KeepsIdentity f
      → ((x : Payment) → (f x).received_amount_minor ≡ x.received_amount_minor)
      → IsSound s
      → IsSoundOk (write_both i g f a s)
  write_both-IsSound keep k same h =
      bind-IsSoundOk (update_payment i f) (λ row. modify (record_audit a) >>= λ _. pure row) s'
        (by_row (Option-cases (find (has_id i) s.payments)))
        (λ row t sound. audit-IsSound a t sound)
    where
      s' : Store
      s' = update_qr (of_payment i) g s

      balanced : (p : Payment) → IsGood s.coins p → IsBalanced s.coins (f p)
      balanced p (_, b) m =
          let paid = b (sym (k.same_method p) ∙ m) in
          same p ∙ paid ∙ ap (λ j. credited j s.coins) (sym (k.same_id p))

      by_row :
          (find (has_id i) s.payments ≡ none)
            ⊎ ((p : Payment) × (find (has_id i) s.payments ≡ some p))
          → IsSoundOk (update_payment i f s')
      by_row (inl missing) = rw (update_payment_missing i f s' missing) tt
      by_row (inr (p, e)) =
          update_payment-IsSound i f s' p e k h.unique
            (All-map _ _ s.payments (λ x good n. good) h.good)
            (IsForQr-qrs g (of_payment i) s.payments s.qrs keep h.for_qr) h.owned
            (balanced p (All-find (IsGood s.coins) (has_id i) s.payments p e h.good))

-- A cancellation, whatever has become of the payment since it was read.
pub cancel_commit-IsSound :
    (p : Payment) (reason : Option String) (now : ℕ) (s : Store)
    → IsSound s
    → IsSound (cancel_commit p reason now s).1
unfolding cancel_commit cancel_qr cancel_data
cancel_commit-IsSound p reason now s h =
    let f = cancel_data reason now in
    let a : AuditEntry = record {
      action = "payments.cancelled";
      entity_id = some p.id;
      station_id = some p.station_id;
      reason = reason;
    } in
    transaction-IsSound (write_both p.id cancel_qr f a) s h (
      write_both-IsSound p.id cancel_qr f a s (λ q. refl)
        (record { same_id = λ x. refl; same_method = λ x. refl }) (λ x. refl) h)

pub refund_commit-IsSound :
    (p : Payment) (r : ProviderRefund) (dto : RefundRequest) (now : ℕ) (s : Store)
    → IsSound s
    → IsSound (refund_commit p r dto now s).1
unfolding refund_commit refund_qr refund_data
refund_commit-IsSound p r dto now s h =
    let f = refund_data p dto now in
    let a : AuditEntry = record {
      action = "payments.refunded";
      entity_id = some p.id;
      station_id = some p.station_id;
      reason = some dto.reason;
    } in
    transaction-IsSound (write_both p.id (refund_qr r) f a) s h (
      write_both-IsSound p.id (refund_qr r) f a s (λ q. refl)
        (record { same_id = λ x. refl; same_method = λ x. refl }) (λ x. refl) h)

record_expiries-IsSound :
    (ps : List Payment) (s : Store) → IsSound s → IsSound (record_expiries ps s)
unfolding record_expiries
record_expiries-IsSound [] s h = h
record_expiries-IsSound (p ∷ ps) s h = record_expiries-IsSound ps _ (audit-IsSound _ s h)

expire_payment-IsGood :
    (now : ℕ) (cs : List CoinInsertion) (x : Payment)
    → IsGood cs x
    → IsGood cs (expire_payment now x)
unfolding expire_payment
expire_payment-IsGood now cs x (_, b) = (refl, b)

-- The expiry batch, for any rows that it may have read.
pub expire_commit-IsSound :
    (found : List Payment) (now : ℕ) (s : Store) → IsSound s → IsSound (expire_commit found now s)
unfolding expire_commit expire_qr expire_payment
expire_commit-IsSound found now s h =
    let test = λ (p : Payment). is_among found p.id && is_open_status p.status in
    let due =
      λ (q : QrTransaction). is_among found q.payment_id && is_unsettled q.provider_status in
    record_expiries-IsSound found _ (record {
      unique =
          Unique-update_where (λ x. x.id) test (expire_payment now) s.payments (λ x. refl) h.unique;
      good =
          All-update_where (IsGood s.coins) (λ x. Unit {0}) (IsGood s.coins) test
            (expire_payment now) s.payments (λ x _ _ good. expire_payment-IsGood now s.coins x good)
            (λ x _ _ good. good) (All-unit s.payments) h.good;
      for_qr =
          All-map _ _ (update_where due (expire_qr now) s.qrs)
            (λ q.
              IsForQr-update_where (expire_payment now) test s.payments q
                (record { same_id = λ x. refl; same_method = λ x. refl }))
            (IsForQr-qrs (expire_qr now) due s.payments s.qrs (λ q. refl) h.for_qr);
      owned =
          IsOwned-update_where (expire_payment now) test s.payments s.coins
            (record { same_id = λ x. refl; same_method = λ x. refl }) h.owned;
    })

pub expire_batch-IsSound :
    (window limit now : ℕ) (s : Store) → IsSound s → IsSound (expire_batch window limit now s).1
unfolding expire_batch
expire_batch-IsSound window limit now s h =
    elim (Bool-cases (length (candidates window limit now s) == 0)) [
      | inl y ↦ rw y h
      | inr n ↦ rw n (expire_commit-IsSound (candidates window limit now s) now s h)
    ]
