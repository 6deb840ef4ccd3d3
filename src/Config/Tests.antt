-- ===== src/Config/Tests.antt =====
-- A production environment with a provider's name.
use coin_acceptor_backend.Prelude.{none, some, ◌≡◌, refl}
use coin_acceptor_backend.Effect.{bad_request, ok, err}
use coin_acceptor_backend.Json.{Fields, field, end, str, get}
use coin_acceptor_backend.Payments.Provider.{get_provider}
use coin_acceptor_backend.Config.{
  Platform, PaymentEnv, optional_string, parse_positive_int, parse_qr_provider, parse_payment_env,
}
use coin_acceptor_backend.Config.Production.{production_has_no_provider}

abbrev platform : Platform
platform = record {
  to_number = λ _. none;
  parse_url = λ t. some t;
  lower = λ t. t;
  size = λ _. 32;
  trim_slashes = λ t. t;
}

abbrev variables : Fields
variables = field "QR_PAYMENT_PROVIDER" (str "selcom") end

abbrev checked : PaymentEnv
checked = record {
  qr_payment_provider = "selcom";
  qr_mock_webhook_secret = "development-mock-webhook-secret";
  qr_payment_expiry_seconds = 300;
  payment_pending_window_seconds = 600;
}

accepted : parse_payment_env platform "production" variables ≡ (ok checked, variables)
unfolding parse_payment_env parse_qr_provider optional_string parse_positive_int get
accepted = refl

production_has_no_provider_example :
    get_provider "selcom" none ≡ err (bad_request "QR payment provider is not configured.")
production_has_no_provider_example =
    production_has_no_provider platform variables variables checked accepted
