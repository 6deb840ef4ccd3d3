-- ===== src/Payments/Tests.antt =====
-- The payment theorems at concrete payments.
use coin_acceptor_backend.Prelude.{
  ℕ, true, false, Option, none, some, List, [], ◌∷◌, ◌≡◌, refl, ◌↔◌, ◌⊎◌,
}
use coin_acceptor_backend.Effect.{bad_request, Result, ok, err, Action}
use coin_acceptor_backend.Json.{null}
use coin_acceptor_backend.Store.{
  Method, coin, qr, Payment, PaymentStatus, QrTransaction, QrStatus, Store,
}
use coin_acceptor_backend.Payments.Policy.{assert_transition}
use coin_acceptor_backend.Payments.Policy.Lifecycle.{
  ◌⟶◌, Reaches, stay, onward, assert_transition_iff, final_absorbs, confirmed_keeps,
}
use coin_acceptor_backend.Payments.Webhook.{WebhookEvent, WebhookStatus, amount_differs, receive}
use coin_acceptor_backend.Payments.Webhook.Effects.{receive_mismatch}
use coin_acceptor_backend.Payments.Coins.{CoinEvent, CoinPayload, handle_coin}
use coin_acceptor_backend.Payments.Coins.Laws.{handle_coin_again}
use coin_acceptor_backend.Payments.Cancellation.{cancel_commit, cancel_data}
use coin_acceptor_backend.Payments.Invariant.{IsSound}
use coin_acceptor_backend.Payments.Steps.{
  here, next, coin_event, Reach-IsSound, row_of, cancel_commit_overwrites,
}

abbrev payment_of : ℕ → Method → PaymentStatus → Option ℕ → ℕ → Payment
payment_of i method status confirmed_at received = record {
  id = i;
  payment_reference = 70;
  station_id = 1;
  device_id = 2;
  charging_package_id = 3;
  payment_method = method;
  status = status;
  expected_amount_minor = 100;
  received_amount_minor = received;
  currency = "TZS";
  package_duration_seconds_snapshot = 40;
  idempotency_key = i;
  initiated_at = 1000;
  confirmed_at = confirmed_at;
  failed_at = none;
  expired_at = none;
  cancelled_at = none;
  refunded_at = none;
  failure_code = none;
  failure_reason = none;
  metadata = null;
}

abbrev by_coin : Payment
by_coin = payment_of 1 coin PaymentStatus.pending none 0

abbrev by_qr : Payment
by_qr = payment_of 1 qr PaymentStatus.pending none 0

abbrev store_of : Payment → List QrTransaction → Store
store_of p qrs = record {
  payments = p ∷ [];
  qrs = qrs;
  coins = [];
  sessions = [];
  links = [];
  lockers = [];
  ports = [];
  alerts = [];
  audits = [];
}

abbrev waiting : Store
waiting = store_of by_coin []

abbrev coin_in : CoinEvent
coin_in = record { id = 9; station_id = 1; device_id = 2; occurred_at = 2000 }

abbrev eight_pulses : CoinPayload
eight_pulses = record {
  payment_reference = 70;
  pulse_count = 8;
  inserted_at = none;
  metadata = none;
}

abbrev worth : ℕ → Result (Option ℕ)
worth n = ok (some 100)

abbrev after_coin : Store
after_coin = (handle_coin coin_in (ok eight_pulses) worth 2500 waiting).1

abbrev no_session : ℕ → Action Store (Unit {0})
no_session r s = (ok tt, s)

waiting-IsSound : IsSound waiting
waiting-IsSound = record {
  unique = (tt, tt);
  good = ((refl, λ _. refl), tt);
  for_qr = tt;
  owned = tt;
}

Reach-IsSound_example : IsSound after_coin
Reach-IsSound_example =
    Reach-IsSound {ensure = no_session} {s = waiting} {t = after_coin} (λ r t h. h) waiting-IsSound
      (next here (coin_event coin_in (ok eight_pulses) worth 2500))

-- The coin pays for the package.
coin_confirms : handle_coin coin_in (ok eight_pulses) worth 2500 waiting ≡ (ok tt, after_coin)
unfolding handle_coin assert_transition
coin_confirms = refl

handle_coin_again_example :
    handle_coin coin_in (ok eight_pulses) worth 9000 after_coin ≡ (ok tt, after_coin)
handle_coin_again_example =
    handle_coin_again coin_in (ok eight_pulses) worth 2500 waiting after_coin eight_pulses worth
      (some 100) 9000 coin_confirms refl

assert_transition_iff_example :
    (assert_transition PaymentStatus.pending PaymentStatus.confirmed ≡ ok tt) ↔ (
      (PaymentStatus.pending ≡ PaymentStatus.confirmed)
      ⊎ (PaymentStatus.pending ⟶ PaymentStatus.confirmed))
assert_transition_iff_example = assert_transition_iff PaymentStatus.pending PaymentStatus.confirmed

cancelled_stays : Reaches PaymentStatus.cancelled PaymentStatus.cancelled
unfolding assert_transition
cancelled_stays = onward stay refl

final_absorbs_example : PaymentStatus.cancelled ≡ PaymentStatus.cancelled
final_absorbs_example = final_absorbs cancelled_stays refl

refunding : Reaches PaymentStatus.confirmed PaymentStatus.refunded
unfolding assert_transition
refunding = onward stay refl

confirmed_keeps_example :
    (PaymentStatus.refunded ≡ PaymentStatus.confirmed)
    ⊎ (PaymentStatus.refunded ≡ PaymentStatus.refunded)
confirmed_keeps_example = confirmed_keeps refunding refl

abbrev qr_row : QrTransaction
qr_row = record {
  id = 4;
  payment_id = 1;
  provider = "mock";
  merchant_reference = "m-1";
  provider_transaction_id = some "t-1";
  provider_status = QrStatus.pending;
  amount_minor = 100;
  currency = "TZS";
  qr_expires_at = none;
  callback_received_at = none;
  confirmed_at = none;
  failed_at = none;
  failure_code = none;
  failure_reason = none;
  raw_response = null;
}

abbrev short_callback : WebhookEvent
short_callback = record {
  merchant_reference = "m-1";
  provider_transaction_id = some "t-1";
  status = WebhookStatus.confirmed;
  amount_minor = 60;
  currency = "TZS";
  raw_response = null;
  failure_code = none;
  failure_reason = none;
}

abbrev at_till : Store
at_till = store_of by_qr (qr_row ∷ [])

short : amount_differs qr_row short_callback ≡ true
unfolding amount_differs
short = refl

receive_mismatch_example :
    receive false no_session true (ok short_callback) "mock" 3000 at_till
    ≡ (err (bad_request "QR callback amount mismatch."), at_till)
receive_mismatch_example =
    receive_mismatch qr_row short_callback 3000 by_qr at_till false no_session refl refl short

-- The payment was pending when the cancellation read it, and is confirmed when it writes.
abbrev paid_meanwhile : Payment
paid_meanwhile = payment_of 1 coin PaymentStatus.confirmed (some 2500) 100

cancel_commit_overwrites_example :
    ((cancel_commit by_coin none 3000 (store_of paid_meanwhile [])).0
      ≡ ok (cancel_data none 3000 paid_meanwhile))
    × (row_of 1 (cancel_commit by_coin none 3000 (store_of paid_meanwhile [])).1
        ≡ some (cancel_data none 3000 paid_meanwhile))
    × ((cancel_data none 3000 paid_meanwhile).status ≡ PaymentStatus.cancelled)
cancel_commit_overwrites_example =
    cancel_commit_overwrites by_coin paid_meanwhile none 3000 (store_of paid_meanwhile []) refl

abbrev full_callback : WebhookEvent
full_callback = record short_callback { amount_minor = 100 }
