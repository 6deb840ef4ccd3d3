-- ===== src/Payments/Invariant/Webhooks.antt =====
-- Webhooks keep the payment tables sound.
use coin_acceptor_backend.Prelude.{
  ℕ, Bool, true, false, some, String, ◌≡◌, refl, ◌=s◌, find, find_sound, inl, inr, Bool-cases,
}
use coin_acceptor_backend.Effect.{
  not_found, Result, ok, err, Action, transaction, pure, modify, ◌>>◌,
}
use coin_acceptor_backend.Table.{All-map, All-find, Unique-find_self}
use coin_acceptor_backend.Store.{Payment, PaymentStatus, qr, QrTransaction, Store}
use coin_acceptor_backend.Store.Write.{has_id, update_payment, update_qr}
use coin_acceptor_backend.Payments.Policy.{assert_transition, same_status}
use coin_acceptor_backend.Payments.Webhook.{
  WebhookEvent, WebhookStatus, confirmed, failed, expired, as_payment_status, patch_by,
  payment_data, qr_data, has_qr_id, qr_matches, update_payment_status, apply_event,
  ensure_public_session, receive, receive_known, apply_to, apply_to_row, amount_differs,
  terminal_conflict,
}
use coin_acceptor_backend.Payments.Webhook.Effects.{
  apply_to_mismatch, apply_to_conflict, apply_to_update,
}
use coin_acceptor_backend.Payments.Invariant.{
  IsForQr, IsForQr-qrs, IsSound, IsSoundOk, bind-IsSound, KeepsIdentity, update_payment-IsSound,
  transaction-IsSound, lift-IsSoundOk, or_throw-IsSoundOk,
}

payment_data-KeepsIdentity :
    (event : WebhookEvent) (now : ℕ) → KeepsIdentity (payment_data event now)
unfolding payment_data
payment_data-KeepsIdentity event now = record {
  same_id = same_id event.status;
  same_method = same_method event.status;
}
  where
    same_id : (w : WebhookStatus) (p : Payment) → (patch_by w event now p).id ≡ p.id
    same_id confirmed p = refl
    same_id failed p = refl
    same_id expired p = refl

    same_method :
        (w : WebhookStatus) (p : Payment)
        → (patch_by w event now p).payment_method ≡ p.payment_method
    same_method confirmed p = refl
    same_method failed p = refl
    same_method expired p = refl

module _ (p : Payment) (q : QrTransaction) (event : WebhookEvent) (now : ℕ) (s : Store) where
  update_payment_status-IsSound :
      IsSound s
      → find (has_id p.id) s.payments ≡ some p
      → p.payment_method ≡ qr
      → IsSoundOk (update_payment_status p q event now s)
  unfolding update_payment_status qr_data
  update_payment_status-IsSound h e m =
      let s' = update_qr (has_qr_id q.id) (qr_data event now) s in
      lift-IsSoundOk (assert_transition p.status (as_payment_status event.status))
        (λ _.
          modify (update_qr (has_qr_id q.id) (qr_data event now))
          >> update_payment p.id (payment_data event now))
        s
        λ _ _.
          update_payment-IsSound p.id (payment_data event now) s' p e
            (payment_data-KeepsIdentity event now) h.unique
            (All-map _ _ s.payments (λ x g n. g) h.good)
            (IsForQr-qrs (qr_data event now) (has_qr_id q.id) s.payments s.qrs (λ r. refl) h.for_qr)
            h.owned (λ c. absurd (cc ((payment_data-KeepsIdentity event now).same_method p)))

-- The payment of a QR transaction is a QR payment.
IsForQr-method :
    (s : Store) (p : Payment) (q : QrTransaction)
    → find (has_id q.payment_id) s.payments ≡ some p
    → IsForQr s.payments q
    → p.payment_method ≡ qr
IsForQr-method s p q e (_, h) =
    All-find _ (has_id q.payment_id) s.payments p e h
      (find_sound (has_id q.payment_id) s.payments p e)

apply_to-IsSound :
    (q : QrTransaction) (event : WebhookEvent) (now : ℕ) (s : Store) (p : Payment)
    → IsSound s
    → find (has_id q.payment_id) s.payments ≡ some p
    → IsForQr s.payments q
    → IsSoundOk (apply_to q event now p s)
apply_to-IsSound q event now s p h e f = elim (Bool-cases (amount_differs q event)) [
  | inl differs ↦ rw (apply_to_mismatch q event now p s differs) tt
  | inr same ↦ elim (Bool-cases (terminal_conflict event p)) [
    | inl clash ↦
        rw (apply_to_conflict q event now p s same clash)
          (record { unique = h.unique; good = h.good; for_qr = h.for_qr; owned = h.owned })
    | inr free ↦ rw (apply_to_update q event now p s same free) (
        update_payment_status-IsSound p q event now s h
          (Unique-find_self (λ x. x.id) (has_id q.payment_id) s.payments p e h.unique)
          (IsForQr-method s p q e f))
  ]
]

apply_event-IsSound :
    (any_row : Bool) (provider : String) (event : WebhookEvent) (now : ℕ) (s : Store)
    → IsSound s
    → IsSoundOk (apply_event any_row provider event now s)
unfolding apply_event
apply_event-IsSound any_row provider event now s h =
    or_throw-IsSoundOk (find (qr_matches any_row provider event) s.qrs)
      (not_found "QR transaction not found.") (apply_to_row event now) s
      λ q found.
        or_throw-IsSoundOk (find (has_id q.payment_id) s.payments) (not_found "Payment not found.")
          (apply_to q event now) s
          λ p e. apply_to-IsSound q event now s p h e (
            All-find (IsForQr s.payments) (qr_matches any_row provider event) s.qrs q found
              h.for_qr)

module _ (ensure : ℕ → Action Store (Unit {0})) where
  ensure-IsSound :
      (keep : (r : ℕ) (t : Store) → IsSound t → IsSound (ensure r t).1) (p : Payment) (t : Store)
      → IsSound t
      → IsSound (ensure_public_session ensure p t).1
  unfolding ensure_public_session
  ensure-IsSound keep p t h = elim (Bool-cases (same_status p.status PaymentStatus.confirmed)) [
    | inl y ↦ rw y (keep p.payment_reference t h)
    | inr n ↦ rw n h
  ]

-- Whatever a provider sends, the payment tables stay sound, if the allocation of a session keeps
-- them so.
pub receive-IsSound :
    (any_row : Bool) (ensure : ℕ → Action Store (Unit {0})) (verified : Bool)
    (parsed : Result WebhookEvent) (provider : String) (now : ℕ) (s : Store)
    → ((r : ℕ) (t : Store) → IsSound t → IsSound (ensure r t).1)
    → IsSound s
    → IsSound (receive any_row ensure verified parsed provider now s).1
unfolding receive
receive-IsSound any_row ensure verified parsed provider now s keep h =
    elim (Bool-cases (provider =s "mock")) [
      | inl known ↦ rw known (by_input verified parsed)
      | inr other ↦ rw other h
    ]
  where
    by_input :
        (v : Bool) (r : Result WebhookEvent)
        → IsSound (receive_known any_row ensure v r provider now s).1
    by_input true (ok event) =
        bind-IsSound (transaction (apply_event any_row provider event now))
          (λ p. ensure_public_session ensure p >> pure p) s
          (transaction-IsSound (apply_event any_row provider event now) s h
            (apply_event-IsSound any_row provider event now s h))
          (λ p t sound.
            bind-IsSound (ensure_public_session ensure p) (λ _. pure p) t
              (ensure-IsSound ensure keep p t sound) (λ _ _ u. u))
    by_input true (err e) = h
    by_input false r = record {
      unique = h.unique;
      good = h.good;
      for_qr = h.for_qr;
      owned = h.owned;
    }
