-- ===== src/Payments/Coins.antt =====
-- Coin insertions: apps/payments/handlers/coin-insertion-event.handler.ts,
-- coin-insertion-record.ts and coin-insertion-payload.ts.
pub mod Laws
use coin_acceptor_backend.Prelude.{
  ℕ, ◌+◌, Bool, true, false, not, ◌&&◌, ◌||◌, Option, none, some, is_some, get_or, String, List,
  ◌==◌, leb, find, if◌then◌else◌, ℤ, pos,
}
use coin_acceptor_backend.Effect.{
  Error, bad_request, Result, ok, err, Action, ◌>>=◌, ◌>>◌, pure, gets, modify, throw_if, lift,
  or_throw, transaction, check, then_result,
}
use coin_acceptor_backend.Json.{
  Json, Num, int, num, str, obj, Fields, end, get, string_value, object_fields,
}
use coin_acceptor_backend.Json.Sensitive.{sanitize_json}
use coin_acceptor_backend.Store.{
  Payment, PaymentStatus, Method, coin, qr, CoinInsertion, AuditEntry, Store,
}
use coin_acceptor_backend.Store.Write.{has_id, update_payment, add_coin, record_audit}
use coin_acceptor_backend.Payments.Policy.{assert_transition, is_terminal}

pub record CoinPayload : Type 0 where
  pub payment_reference : ℕ
  pub pulse_count : ℕ
  pub inserted_at : Option ℕ
  pub metadata : Option Fields

-- The columns of a device event that the handler reads.
pub record CoinEvent : Type 0 where
  pub id : ℕ
  pub station_id : ℕ
  pub device_id : ℕ
  pub occurred_at : ℕ

-- What the language does with text and numbers: `Number(value)` and `Date.parse`, `none` for NaN,
-- and the identity of a reference's text.
pub record Conversions : Type 0 where
  pub to_number : Option Json → Option Num
  pub parse_date : String → Option ℕ
  pub reference : String → ℕ

-- `Number.isInteger(n) && n >= 1`
abbrev pub as_positive : Option Num → Option ℕ
as_positive (some (int (pos (ℕ.suc n)))) = some (ℕ.suc n)
as_positive _ = none

-- The optional `insertedAt`: absent, a time, or text that is no time. The empty text is absent.
abbrev inserted_time : Conversions → Option String → Result (Option ℕ)
inserted_time c none = ok none
inserted_time c (some raw) = elim (c.parse_date raw) [
  | none ↦ err (bad_request "Invalid coin insertion payload.")
  | some t ↦ ok (some t)
]

abbrev build_payload :
    Conversions → Option String → Option ℕ → Option String → Option Fields → Result CoinPayload
build_payload c (some reference) (some pulses) inserted metadata =
    then_result (inserted_time c inserted) λ t. ok (record {
      payment_reference = c.reference reference;
      pulse_count = pulses;
      inserted_at = t;
      metadata = metadata;
    })
build_payload c _ _ inserted metadata = err (bad_request "Invalid coin insertion payload.")

unfoldable pub parse_coin_payload : Conversions → Fields → Result CoinPayload
unfolding get
parse_coin_payload c payload =
    build_payload c (string_value (get "paymentReference" payload))
      (as_positive (c.to_number (get "pulseCount" payload)))
      (string_value (get "insertedAt" payload)) (object_fields (get "metadata" payload))

abbrev pub same_method : Method → Method → Bool
same_method coin coin = true
same_method qr qr = true
same_method _ _ = false

abbrev pub of_event : ℕ → CoinInsertion → Bool
of_event i c = c.device_event_id == i

abbrev pub has_reference : ℕ → Payment → Bool
has_reference r p = p.payment_reference == r

-- `insertCoin`
unfoldable pub coin_row : CoinEvent → Payment → CoinPayload → ℕ → ℕ → Bool → CoinInsertion
unfolding sanitize_json
coin_row event p payload denomination credited accepted = record {
  payment_id = p.id;
  device_id = event.device_id;
  device_event_id = event.id;
  denomination_minor = denomination;
  credited_amount_minor = credited;
  currency = p.currency;
  pulse_count = payload.pulse_count;
  accepted = accepted;
  reject_reason = if accepted then none else some "unsupported_pulse_count";
  inserted_at = get_or payload.inserted_at event.occurred_at;
  metadata = sanitize_json (obj (get_or payload.metadata end));
}

abbrev pub coin_status : ℕ → ℕ → PaymentStatus
coin_status received expected =
    if leb expected received then PaymentStatus.confirmed else PaymentStatus.processing

unfoldable pub coin_data : ℕ → ℕ → Payment → Payment
coin_data received now p = record p {
  status = coin_status received p.expected_amount_minor;
  received_amount_minor = received;
  confirmed_at = if leb p.expected_amount_minor received then some now else p.confirmed_at;
}

unfoldable pub accept : CoinEvent → Payment → CoinPayload → ℕ → ℕ → Action Store (Unit {0})
unfolding coin_row coin_data update_payment
accept event p payload amount now = do
  modify (add_coin (coin_row event p payload amount amount true))
  let received = p.received_amount_minor + amount
  lift (assert_transition p.status (coin_status received p.expected_amount_minor))
  update_payment p.id (coin_data received now)
  pure tt

unfoldable pub reject : CoinEvent → Payment → CoinPayload → Action Store (Unit {0})
unfolding coin_row
reject event p payload = do
  modify (add_coin (coin_row event p payload 1 0 false))
  modify (
      record_audit (record {
        action = "payments.coin_event_rejected";
        entity_id = some p.id;
        station_id = some p.station_id;
        reason = some "Unsupported coin pulse count.";
      }))

-- `if (!amount)`: a missing mapping entry, or no money, rejects the coin; an amount credits it.
abbrev pub credit : CoinEvent → Payment → CoinPayload → Option ℕ → ℕ → Action Store (Unit {0})
credit event p payload none now = reject event p payload
credit event p payload (some ℕ.zero) now = reject event p payload
credit event p payload (some (ℕ.suc n)) now = accept event p payload (ℕ.suc n) now

-- The three refusals of `handle`, in their order.
unfoldable pub accepts_coins : CoinEvent → Payment → Result (Unit {0})
unfolding is_terminal
accepts_coins event p =
    if not (p.device_id == event.device_id)
    then err (bad_request "Payment not found.")
    else if not (same_method p.payment_method coin)
    then err (bad_request "Payment does not accept coins.")
    else if is_terminal p.status
    then err (bad_request "Payment is already terminal.")
    else ok tt

abbrev pub insert_for : CoinEvent → CoinPayload → Option ℕ → ℕ → Payment → Action Store (Unit {0})
insert_for event payload amount now p = do
  lift (accepts_coins event p)
  credit event p payload amount now

-- The body of the transaction, once the coin is known to be new.
unfoldable pub insert_new : CoinEvent → CoinPayload → Option ℕ → ℕ → Action Store (Unit {0})
unfolding accept reject accepts_coins
insert_new event payload amount now = do
  p ←
      or_throw (← gets (λ s. find (has_reference payload.payment_reference) s.payments))
        (bad_request "Payment not found.")
  insert_for event payload amount now p

-- The transaction: an event that has a coin already changes nothing.
abbrev pub coin_transaction : CoinEvent → CoinPayload → ℕ → Option ℕ → Action Store (Unit {0})
coin_transaction event payload now amount = do
  duplicate ← gets (λ s. is_some (find (of_event event.id) s.coins))
  if duplicate then pure tt else insert_new event payload amount now

-- `handle`, over the payload's reading and the amount that the pulse mapping gives
-- (Settings.Pulses).
unfoldable pub handle_coin :
    CoinEvent → Result CoinPayload → (ℕ → Result (Option ℕ)) → ℕ → Action Store (Unit {0})
unfolding insert_new
handle_coin event parsed denomination now = do
  payload ← lift parsed
  amount ← lift (denomination payload.pulse_count)
  transaction (coin_transaction event payload now amount)
