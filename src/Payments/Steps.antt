-- ===== src/Payments/Steps.antt =====
-- The payment services side by side. What a service reads before its transaction may be stale by
-- the time that it writes, so the writing transactions take any rows as read.
use coin_acceptor_backend.Prelude.{
  ℕ, Bool, true, Option, some, List, String, ◌≡◌, refl, ap, ◌∙◌, find, find_sound,
}
use coin_acceptor_backend.Effect.{bind_return, Result, ok, Action, settle, modify, pure, ◌>>=◌}
use coin_acceptor_backend.Table.{find-update_where, update_where}
use coin_acceptor_backend.Store.{Payment, PaymentStatus, AuditEntry, Store}
use coin_acceptor_backend.Store.Write.{
  has_id, update_payment, update_qr, update_payment_found, record_audit,
}
use coin_acceptor_backend.Payments.Webhook.{WebhookEvent, receive}
use coin_acceptor_backend.Payments.Coins.{CoinEvent, CoinPayload, handle_coin}
use coin_acceptor_backend.Payments.Cancellation.{cancel_commit, cancel_data, cancel_qr, of_payment}
use coin_acceptor_backend.Payments.Refund.{ProviderRefund, RefundRequest, refund_commit}
use coin_acceptor_backend.Payments.Expiration.{expire_commit}
use coin_acceptor_backend.Payments.Initiation.{
  Package, DeviceAuth, PaymentRequest, NewPayment, QrOffer, create_payment, payment_row, create_qr,
  qr_row, fail_data,
}
use coin_acceptor_backend.Charging.Flows.{CheckoutRecord}
use coin_acceptor_backend.Charging.PublicPayments.{
  PublicRequest, public_payment_row, accepted_transaction,
}
use coin_acceptor_backend.Payments.Invariant.{IsSound}
use coin_acceptor_backend.Payments.Invariant.Creation.{
  IsUnpaid, create_payment-IsSound, create_qr-IsSound, fail_payment-IsSound,
}
use coin_acceptor_backend.Payments.Invariant.Webhooks.{receive-IsSound}
use coin_acceptor_backend.Payments.Invariant.Coins.{handle_coin-IsSound}
use coin_acceptor_backend.Payments.Invariant.Others.{
  cancel_commit-IsSound, refund_commit-IsSound, expire_commit-IsSound,
}

-- The allocation of a session keeps stores sound; Charging.Allocation.Again.ensure-IsSound shows it of
-- the one that is modelled.
abbrev pub KeepsSound : (ℕ → Action Store (Unit {0})) → Type 0
KeepsSound ensure = (r : ℕ) (t : Store) → IsSound t → IsSound (ensure r t).1

pub data Step (ensure : ℕ → Action Store (Unit {0})) (s : Store) : Store → Type 0 where
  webhook :
      (any_row verified : Bool) (parsed : Result WebhookEvent) (provider : String) (now : ℕ)
      → Step ensure s (receive any_row ensure verified parsed provider now s).1
  coin_event :
      (event : CoinEvent) (parsed : Result CoinPayload) (denomination : ℕ → Result (Option ℕ))
      (now : ℕ)
      → Step ensure s (handle_coin event parsed denomination now s).1
  cancelling :
      (read : Payment) (reason : Option String) (now : ℕ)
      → Step ensure s (cancel_commit read reason now s).1
  refunding :
      (read : Payment) (r : ProviderRefund) (dto : RefundRequest) (now : ℕ)
      → Step ensure s (refund_commit read r dto now s).1
  expiring : (read : List Payment) (now : ℕ) → Step ensure s (expire_commit read now s)
  -- a device's payment, and a customer's, whatever the checkout and the package that were read
  initiating :
      (packages : List Package) (auth : DeviceAuth) (dto : PaymentRequest) (new : NewPayment)
      → Step ensure s (create_payment packages (payment_row auth dto new) s).1
  initiating_public :
      (packages : List Package) (r : PublicRequest) (checkout : CheckoutRecord) (p : Package)
      → Step ensure s (create_payment packages (public_payment_row r checkout p) s).1
  -- a QR transaction, for a payment that was read, or its failure
  offering :
      (read : Payment) (offer : QrOffer) (i : ℕ)
      → Step ensure s (create_qr (qr_row read offer i) s).1
  offering_public :
      (r : PublicRequest) (read : Payment)
      → Step ensure s (create_qr (accepted_transaction r read) s).1
  failing : (i now : ℕ) → Step ensure s (update_payment i (fail_data now) s).1

pub data Reach (ensure : ℕ → Action Store (Unit {0})) (s : Store) : Store → Type 0 where
  here : Reach ensure s s
  next : {t u : Store} → Reach ensure s t → Step ensure t u → Reach ensure s u

unpaid :
    (auth : DeviceAuth) (dto : PaymentRequest) (new : NewPayment)
    → IsUnpaid (payment_row auth dto new)
unfolding payment_row
unpaid auth dto new m = refl

by_qr :
    (r : PublicRequest) (checkout : CheckoutRecord) (p : Package)
    → IsUnpaid (public_payment_row r checkout p)
unfolding public_payment_row
by_qr r checkout p m = absurd (cc)

Step-IsSound :
    {ensure : ℕ → Action Store (Unit {0})} {s t : Store}
    → KeepsSound ensure
    → Step ensure s t
    → IsSound s
    → IsSound t
Step-IsSound {ensure} {s} k (webhook any_row verified parsed provider now) h =
    receive-IsSound any_row ensure verified parsed provider now s k h
Step-IsSound {s = s} k (coin_event event parsed denomination now) h =
    handle_coin-IsSound event parsed denomination now s h
Step-IsSound {s = s} k (cancelling read reason now) h = cancel_commit-IsSound read reason now s h
Step-IsSound {s = s} k (refunding read r dto now) h = refund_commit-IsSound read r dto now s h
Step-IsSound {s = s} k (expiring read now) h = expire_commit-IsSound read now s h
Step-IsSound {s = s} k (initiating packages auth dto new) h =
    create_payment-IsSound packages (payment_row auth dto new) s (unpaid auth dto new) h
Step-IsSound {s = s} k (initiating_public packages r checkout p) h =
    create_payment-IsSound packages (public_payment_row r checkout p) s (by_qr r checkout p) h
Step-IsSound {s = s} k (offering read offer i) h = create_qr-IsSound (qr_row read offer i) s h
Step-IsSound {s = s} k (offering_public r read) h =
    create_qr-IsSound (accepted_transaction r read) s h
Step-IsSound {s = s} k (failing i now) h = fail_payment-IsSound i now s h

-- From a sound store, the writes of the payment services reach sound stores only, in whatever
-- order they come and however old the rows are that were read before: callbacks, coins,
-- cancellations, refunds, expiries, new payments of devices and of public customers, new QR
-- transactions and payments whose provider failed; provided that the allocation of a session keeps
-- stores sound. In a sound store payment ids are unique, every payment row is one that the
-- database's trigger admits, a coin payment has received exactly the sum that its coins credit, QR
-- rows belong to QR payments, and the payments of all QR rows and coins are there.
pub Reach-IsSound :
    {ensure : ℕ → Action Store (Unit {0})} {s t : Store}
    → KeepsSound ensure
    → IsSound s
    → Reach ensure s t
    → IsSound t
Reach-IsSound k h here = h
Reach-IsSound k h (next r step) = Step-IsSound k step (Reach-IsSound k h r)

-- The row that a writing transaction leaves behind, and what it reports.
abbrev pub row_of : ℕ → Store → Option Payment
row_of i s = find (has_id i) s.payments

module _ (read now_row : Payment) (reason : Option String) (now : ℕ) (s : Store) where
  -- The write of a cancellation succeeds on the payment that has the id it has read, whatever the
  -- status of that payment is by then, and leaves its row with the status cancelled: a payment
  -- that was confirmed in the meantime too.
  pub cancel_commit_overwrites :
      row_of read.id s ≡ some now_row
      → ((cancel_commit read reason now s).0 ≡ ok (cancel_data reason now now_row))
        × (row_of read.id (cancel_commit read reason now s).1
            ≡ some (cancel_data reason now now_row))
        × ((cancel_data reason now now_row).status ≡ PaymentStatus.cancelled)
  unfolding cancel_commit cancel_data update_payment
  cancel_commit_overwrites e = (ap (λ r. r.0) run, ap (λ r. row_of read.id r.1) run ∙ row, refl)
    where
      f : Payment → Payment
      f = cancel_data reason now

      s' : Store
      s' = update_qr (of_payment read.id) cancel_qr s

      t : Store
      t = record s' { payments = update_where (has_id read.id) f s.payments }

      entry : AuditEntry
      entry = record {
        action = "payments.cancelled";
        entity_id = some read.id;
        station_id = some read.station_id;
        reason = reason;
      }

      run : cancel_commit read reason now s ≡ (ok (f now_row), record_audit entry t)
      run = ap (settle s) (
          bind_return (update_payment read.id f)
            (λ row. modify (record_audit entry) >>= λ _. pure row) s' (f now_row) t
            (update_payment_found read.id f s' now_row e refl))

      at : has_id read.id now_row ≡ true
      at = find_sound (has_id read.id) s.payments now_row e

      row : row_of read.id t ≡ some (f now_row)
      row =
          find-update_where (has_id read.id) (has_id read.id) f s.payments (λ x. refl) now_row e
          ∙ rw at
