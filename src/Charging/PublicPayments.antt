-- ===== src/Charging/PublicPayments.antt =====
-- public-payment.service.ts and public-package.service.ts: a customer without an account starts a
-- payment and asks for its status.
use coin_acceptor_backend.Prelude.{
  ℕ, ◌+◌, ◌*◌, Bool, not, ◌&&◌, ◌||◌, Option, none, some, is_some, String, List, ◌==◌, ◌=s◌, leb,
  ltb, find, filter, if◌then◌else◌,
}
use Prim.Native.String.{◌++◌ as append}
use coin_acceptor_backend.Effect.{
  conflict, not_found, ok, Action, ◌>>=◌, ◌>>◌, pure, gets, modify, throw_if, or_throw,
}
use coin_acceptor_backend.Table.Order.{order_by}
use coin_acceptor_backend.Json.{str, obj, field, end}
use coin_acceptor_backend.Store.{
  Payment, PaymentStatus, Method, QrTransaction, QrStatus, ChargingSession, AuditEntry, Store,
}
use coin_acceptor_backend.Store.Write.{record_audit}
use coin_acceptor_backend.Payments.Policy.{same_status}
use coin_acceptor_backend.Payments.Initiation.{
  Package, for_station, still_on, has_key, of_payment_row, create_payment, create_qr,
}
use coin_acceptor_backend.Charging.Allocation.{
  Fresh, public_payment_metadata, ensure_for_payment_reference, has_reference,
}
use coin_acceptor_backend.Charging.Flows.{
  CheckoutRecord, FlowRecord, Tokens, issue_flow, require_checkout, require_flow,
}

-- `availablePackageWhere`
unfoldable pub available_package : ℕ → ℕ → Package → Bool
available_package station now p =
    p.is_active
    && p.allow_qr
    && (p.currency =s "TZS")
    && leb p.valid_from now
    && for_station station p.station_id
    && still_on p.valid_until now

abbrev shown_before : Package → Package → Bool
shown_before p q =
    ltb p.display_order q.display_order
    || (p.display_order == q.display_order && leb p.price_minor q.price_minor)

unfoldable pub list_for_device : ℕ → ℕ → List Package → List Package
unfolding available_package order_by
list_for_device station now ps = order_by shown_before (filter (available_package station now) ps)

unfoldable pub require_for_payment : String → ℕ → ℕ → List Package → Option Package
unfolding available_package
require_for_payment code station now ps =
    find (λ p. (p.code =s code) && available_package station now p) ps

-- The two stores that a request works on: the database and the token store.
pub record PublicStore : Type 0 where
  pub tokens : Tokens
  pub rows : Store

abbrev on_tokens : {A : Type 0} → Action Tokens A → Action PublicStore A
on_tokens m s = let (r, t) = m s.tokens in (r, record s { tokens = t })

abbrev on_rows : {A : Type 0} → Action Store A → Action PublicStore A
on_rows m s = let (r, t) = m s.rows in (r, record s { rows = t })

-- The request, and what is generated for it. The key is `public:`, the checkout and the key that
-- the client chose.
pub record PublicRequest : Type 0 where
  pub checkout_token : String
  pub package_code : String
  pub payment_method : String
  pub key_for : CheckoutRecord → ℕ
  pub payment_id : ℕ
  pub qr_id : ℕ
  pub reference : ℕ
  pub merchant_reference : Payment → String
  pub flow_token : String
  pub hash : String → String
  pub print : ℕ → String
  pub ttl_seconds : ℕ
  pub now : ℕ

-- `createPayment`: the row is confirmed from the start, and paid in full.
unfoldable pub public_payment_row : PublicRequest → CheckoutRecord → Package → Payment
unfolding public_payment_metadata
public_payment_row r checkout p = record {
  id = r.payment_id;
  payment_reference = r.reference;
  station_id = checkout.station_id;
  device_id = checkout.device_id;
  charging_package_id = p.id;
  payment_method = Method.qr;
  status = PaymentStatus.confirmed;
  expected_amount_minor = p.price_minor;
  received_amount_minor = p.price_minor;
  currency = p.currency;
  package_duration_seconds_snapshot = p.duration_seconds;
  idempotency_key = r.key_for checkout;
  initiated_at = r.now;
  confirmed_at = some r.now;
  failed_at = none;
  expired_at = none;
  cancelled_at = none;
  refunded_at = none;
  failure_code = none;
  failure_reason = none;
  metadata = public_payment_metadata checkout.checkout_hash (some r.payment_method);
}

-- `createAcceptedTransaction`
unfoldable pub accepted_transaction : PublicRequest → Payment → QrTransaction
accepted_transaction r p = record {
  id = r.qr_id;
  payment_id = p.id;
  provider = r.payment_method;
  merchant_reference = r.merchant_reference p;
  provider_transaction_id =
      some (append r.payment_method (append "-" (r.print p.payment_reference)));
  provider_status = QrStatus.confirmed;
  amount_minor = p.expected_amount_minor;
  currency = p.currency;
  qr_expires_at = some (r.now + 10 * 60 * 1000);
  callback_received_at = none;
  confirmed_at = none;
  failed_at = none;
  failure_code = none;
  failure_reason = none;
  raw_response = obj (
      field "provider" (str r.payment_method) (
        field "status" (str "confirmed")
          (field "paymentReference" (str (r.print p.payment_reference)) end)));
}

abbrev not_idempotent : Package → CheckoutRecord → Payment → Bool
not_idempotent p checkout x =
    not (x.charging_package_id == p.id && x.device_id == checkout.device_id)

-- `existing ?? createPayment(...)`, with `assertIdempotent` for the one that exists.
abbrev pub payment_for :
    List Package → PublicRequest → CheckoutRecord → Package → Option Payment → Action Store Payment
payment_for packages r checkout p none = create_payment packages (public_payment_row r checkout p)
payment_for packages r checkout p (some x) =
    throw_if (not_idempotent p checkout x) (conflict "Payment idempotency key conflicts.") >> pure x

abbrev pub transaction_for :
    PublicRequest → Payment → Option QrTransaction → Action Store QrTransaction
transaction_for r p (some q) = pure q
transaction_for r p none = create_qr (accepted_transaction r p)

abbrev new_flow : PublicRequest → CheckoutRecord → Payment → FlowRecord
new_flow r checkout p = record {
  flow_hash = "";
  checkout_hash = checkout.checkout_hash;
  station_id = checkout.station_id;
  device_id = checkout.device_id;
  payment_id = p.id;
  payment_reference = r.print p.payment_reference;
  session_reference = none;
  expires_at = 0;
  revoked_at = none;
}

abbrev initiated_audit : Payment → AuditEntry
initiated_audit p = record {
  action = "public_payment.initiated";
  entity_id = some p.id;
  station_id = some p.station_id;
  reason = none;
}

unfoldable pub initiate_public :
    List Package → PublicRequest → Action PublicStore (Payment × QrTransaction × FlowRecord)
unfolding require_checkout require_for_payment create_payment public_payment_row create_qr
    accepted_transaction issue_flow
initiate_public packages r = do
  checkout ← on_tokens (require_checkout r.hash r.checkout_token r.now)
  p ←
      or_throw (require_for_payment r.package_code checkout.station_id r.now packages)
        (not_found "Public charging resource not found.")
  existing ← on_rows (gets (λ s. find (has_key (r.key_for checkout)) s.payments))
  x ← on_rows (payment_for packages r checkout p existing)
  held ← on_rows (gets (λ s. find (of_payment_row x) s.qrs))
  q ← on_rows (transaction_for r x held)
  f ← on_tokens (issue_flow r.hash r.ttl_seconds r.flow_token (new_flow r checkout x) r.now)
  on_rows (modify (record_audit (initiated_audit x)))
  pure (x, q, f)

pub record PublicStatus : Type 0 where
  pub status : PaymentStatus
  pub session : Option ChargingSession
  pub can_claim_locker_pin : Bool

abbrev session_if_confirmed : Fresh → Payment → Action Store (Option ChargingSession)
session_if_confirmed fresh p s =
    if same_status p.status PaymentStatus.confirmed
    then ensure_for_payment_reference fresh p.payment_reference s
    else (ok none, s)

-- `status`
unfoldable pub public_status :
    (String → String) → (ℕ → String) → Fresh → ℕ → String → Action PublicStore PublicStatus
unfolding require_flow ensure_for_payment_reference
public_status hash print fresh reference flow_token = do
  flow ← on_tokens (require_flow hash flow_token fresh.now)
  throw_if (not (flow.payment_reference =s print reference))
      (not_found "Public charging resource not found.")
  p ←
      or_throw (← on_rows (gets (λ s. find (has_reference reference) s.payments)))
        (not_found "Public charging resource not found.")
  throw_if (not (p.id == flow.payment_id)) (not_found "Public charging resource not found.")
  session ← on_rows (session_if_confirmed fresh p)
  pure (record {
    status = p.status;
    session = session;
    can_claim_locker_pin = same_status p.status PaymentStatus.confirmed && is_some session;
  })
