-- ===== src/Payments/Provider.antt =====
-- mock-qr-payment.provider.ts and qr-provider.registry.ts: the provider that the repository comes
-- with. The HMAC of a body and the reading of its JSON are parameters.
use coin_acceptor_backend.Prelude.{
  ℕ, Bool, true, false, Option, none, some, get_or, String, List, [], ◌∷◌, ◌=s◌, if◌then◌else◌,
}
use Prim.Native.String.{◌++◌ as append}
use coin_acceptor_backend.Effect.{bad_request, Result, ok, err, then_result}
use coin_acceptor_backend.Json.{Json, str, bool, obj, Fields, end, field, get, string_value}
use coin_acceptor_backend.Json.Sensitive.{sanitize_json}
use coin_acceptor_backend.Store.{QrStatus}
use coin_acceptor_backend.Payments.Webhook.{WebhookEvent, WebhookStatus, confirmed, failed, expired}
use coin_acceptor_backend.Payments.Coins.{Conversions, as_positive}
use coin_acceptor_backend.Payments.Initiation.{QrOffer}

-- What the provider is given by its surroundings.
pub record MockProvider : Type 0 where
  pub hmac : String → String
  pub parse_json : String → Result Fields
  pub conversions : Conversions

-- `createTransaction`
unfoldable pub create_transaction : String → Option ℕ → QrOffer
create_transaction merchant_reference expires_at = record {
  provider = "mock";
  merchant_reference = merchant_reference;
  provider_transaction_id = some (append "mock-" merchant_reference);
  provider_status = QrStatus.pending;
  expires_at = expires_at;
  raw_response = obj (field "provider" (str "mock") (field "mode" (str "development") end));
}

-- `header`: a header that comes several times counts by its first value.
pub data Header : Type 0 where
  one : String → Header
  many : List String → Header

abbrev pub header_value : Option Header → Option String
header_value none = none
header_value (some (one v)) = some v
header_value (some (many [])) = none
header_value (some (many (v ∷ vs))) = some v

abbrev nonempty_header : Option String → Option String
nonempty_header none = none
nonempty_header (some String.[]) = none
nonempty_header (some (String.◌∷◌ c t)) = some (String.◌∷◌ c t)

-- `verifyWebhook`: no signature, or an empty one, is none.
unfoldable pub verify_webhook : MockProvider → String → Option Header → Bool
verify_webhook m raw_body signature = elim (nonempty_header (header_value signature)) [
  | none ↦ false
  | some s ↦ s =s m.hmac raw_body
]

abbrev text_or_empty : Option Json → String
text_or_empty (some (str t)) = t
text_or_empty _ = ""

abbrev pub webhook_status : String → Option WebhookStatus
webhook_status t =
    if t =s "confirmed"
    then some confirmed
    else if t =s "failed"
    then some failed
    else if t =s "expired"
    then some expired
    else none

abbrev build_event : Fields → Option WebhookStatus → Option ℕ → Result WebhookEvent
build_event parsed none amount = err (bad_request "Unsupported QR webhook status.")
build_event parsed (some status) none = err (bad_request "Invalid QR webhook amount.")
build_event parsed (some status) (some amount) = ok (record {
  merchant_reference = text_or_empty (get "merchantReference" parsed);
  provider_transaction_id = string_value (get "providerTransactionId" parsed);
  status = status;
  amount_minor = amount;
  currency = text_or_empty (get "currency" parsed);
  raw_response = sanitize_json (obj parsed);
  failure_code = string_value (get "failureCode" parsed);
  failure_reason = string_value (get "failureReason" parsed);
})

-- `parseWebhook`
unfoldable pub parse_webhook : MockProvider → String → Result WebhookEvent
unfolding get sanitize_json
parse_webhook m raw_body = then_result (m.parse_json raw_body) λ parsed.
    build_event parsed (webhook_status (text_or_empty (get "status" parsed)))
      (as_positive (m.conversions.to_number (get "amountMinor" parsed)))

pub record MockRefund : Type 0 where
  pub provider_transaction_id : Option String
  pub raw_response : Json

-- `refundTransaction`, which always succeeds.
unfoldable pub refund_transaction : String → Option String → MockRefund
refund_transaction merchant_reference id = record {
  provider_transaction_id = id;
  raw_response = obj (
      field "provider" (str "mock")
        (field "merchantReference" (str merchant_reference) (field "refunded" (bool true) end)));
}

-- `get`: only the mock provider is there, under the name that is asked for or configured.
unfoldable pub get_provider : String → Option String → Result String
get_provider configured asked =
    let name = get_or asked configured in
    if name =s "mock" then ok "mock" else err (bad_request "QR payment provider is not configured.")
