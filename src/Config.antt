-- ===== src/Config.antt =====
-- config/env.validation.ts and config/payment-env.validation.ts: the environment is checked before
-- the application starts.
pub mod Production
pub mod Tests
use coin_acceptor_backend.Prelude.{
  ℕ, ℤ, pos, Bool, true, false, not, ◌&&◌, ◌||◌, Option, none, some, String, List, [], ◌∷◌, ◌==◌,
  ◌=s◌, any, codes, is_blank, leb, if◌then◌else◌,
}
use Prim.Native.String.{◌++◌ as append}
use coin_acceptor_backend.Effect.{
  Error, bad_request, Result, ok, err, Action, ◌>>=◌, ◌>>◌, pure, throw, throw_if, lift,
}
use coin_acceptor_backend.Json.{Json, Num, int, str, Fields, get}
use coin_acceptor_backend.Payments.Coins.{as_positive}

-- `Number`, `new URL(value)` without its last slash, and three functions on texts.
pub record Platform : Type 0 where
  pub to_number : String → Option Num
  pub parse_url : String → Option String
  pub lower : String → String
  pub size : String → ℕ
  pub trim_slashes : String → String

-- A check that throws an `Error`, over the variables that it reads.
abbrev pub Parser : Type 0 → Type 0
Parser A = Action Fields A

abbrev invalid : {A : Type 0} → String → Parser A
invalid message = throw (bad_request message)

abbrev value_of : String → Parser (Option Json)
value_of key config = (ok (get key config), config)

abbrev required : String → Option Json → Parser String
required key (some (str t)) =
    if is_blank (codes t)
    then invalid (append "Missing required environment variable: " key)
    else pure t
required key _ = invalid (append "Missing required environment variable: " key)

unfoldable pub require_value : String → Parser String
unfolding get
require_value key = value_of key >>= required key

abbrev text_or : String → String → Option Json → Parser String
text_or key default none = pure default
text_or key default (some (str String.[])) = pure default
text_or key default (some (str (String.◌∷◌ c t))) = pure (String.◌∷◌ c t)
text_or key default (some _) = invalid (append key " must be a string.")

unfoldable pub optional_string : String → String → Parser String
unfolding get
optional_string key default = value_of key >>= text_or key default

abbrev port_of : Option ℕ → Parser ℕ
port_of none = invalid "PORT must be a valid TCP port."
port_of (some n) = if leb n 65535 then pure n else invalid "PORT must be a valid TCP port."

unfoldable pub parse_port : Platform → String → Parser ℕ
parse_port p value = port_of (as_positive (p.to_number value))

abbrev url_of : String → Option String → Parser String
url_of key none = invalid (append key " must be a valid URL.")
url_of key (some u) = pure u

unfoldable pub parse_url_value : Platform → String → String → Parser String
parse_url_value p value key = url_of key (p.parse_url value)

abbrev boolean_of : Bool → Option Json → Parser Bool
boolean_of default none = pure default
boolean_of default (some (str String.[])) = pure default
boolean_of default (some (str t)) =
    if t =s "true"
    then pure true
    else if t =s "false"
    then pure false
    else invalid "Boolean environment values must be true or false."
boolean_of default (some _) = invalid "Boolean environment values must be true or false."

unfoldable pub parse_boolean : String → Bool → Parser Bool
unfolding get
parse_boolean key default = value_of key >>= boolean_of default

abbrev positive_of : String → Option ℕ → Parser ℕ
positive_of key none = invalid (append key " must be a positive integer.")
positive_of key (some n) = pure n

abbrev number_or : Platform → String → ℕ → Option Json → Parser ℕ
number_or p key default none = positive_of key (as_positive (some (int (pos default))))
number_or p key default (some (str String.[])) =
    positive_of key (as_positive (some (int (pos default))))
number_or p key default (some (str t)) = positive_of key (as_positive (p.to_number t))
number_or p key default (some _) = invalid (append key " must be a number.")

unfoldable pub parse_positive_int : Platform → String → ℕ → Parser ℕ
unfolding get
parse_positive_int p key default = value_of key >>= number_or p key default

abbrev known_same_site : String → Parser String
known_same_site t =
    if any (λ x. x =s t) ("lax" ∷ "strict" ∷ "none" ∷ [])
    then pure t
    else invalid "COOKIE_SAME_SITE must be lax, strict, or none."

abbrev same_site_of : Platform → Option Json → Parser String
same_site_of p none = known_same_site "lax"
same_site_of p (some (str String.[])) = known_same_site "lax"
same_site_of p (some (str t)) = known_same_site (p.lower t)
same_site_of p (some _) = invalid "COOKIE_SAME_SITE must be lax, strict, or none."

unfoldable pub parse_same_site : Platform → Parser String
unfolding get
parse_same_site p = value_of "COOKIE_SAME_SITE" >>= same_site_of p

abbrev pub is_production : String → Bool
is_production env = env =s "production"

unfoldable pub parse_encryption_key : Platform → String → Parser String
unfolding optional_string
parse_encryption_key p env = do
  let fallback = if is_production env then "" else "0123456789abcdef0123456789abcdef"
  key ← optional_string "DEVICE_CREDENTIAL_ENCRYPTION_KEY" fallback
  throw_if (not (p.size key == 32))
      (bad_request "DEVICE_CREDENTIAL_ENCRYPTION_KEY must be 32 characters.")
  pure key

unfoldable pub parse_qr_provider : String → Parser String
unfolding optional_string
parse_qr_provider env = do
  provider ← optional_string "QR_PAYMENT_PROVIDER" "mock"
  throw_if (is_production env && (provider =s "mock"))
      (bad_request "QR_PAYMENT_PROVIDER=mock is not allowed in production.")
  pure provider

pub record PaymentEnv : Type 0 where
  pub qr_payment_provider : String
  pub qr_mock_webhook_secret : String
  pub qr_payment_expiry_seconds : ℕ
  pub payment_pending_window_seconds : ℕ

abbrev pub payment_env : String → String → ℕ → ℕ → PaymentEnv
payment_env provider secret expiry window = record {
  qr_payment_provider = provider;
  qr_mock_webhook_secret = secret;
  qr_payment_expiry_seconds = expiry;
  payment_pending_window_seconds = window;
}

-- The settings after the provider's name, each with its default.
abbrev pub expiry_setting : Platform → Parser ℕ
expiry_setting p = parse_positive_int p "QR_PAYMENT_EXPIRY_SECONDS" 300

abbrev pub window_setting : Platform → Parser ℕ
window_setting p = parse_positive_int p "PAYMENT_PENDING_WINDOW_SECONDS" 600

abbrev pub secret_setting : Parser String
secret_setting = optional_string "QR_MOCK_WEBHOOK_SECRET" "development-mock-webhook-secret"

abbrev pub with_window : Platform → String → String → ℕ → Parser PaymentEnv
with_window p provider secret expiry =
    window_setting p >>= λ window. pure (payment_env provider secret expiry window)

abbrev pub with_expiry : Platform → String → String → Parser PaymentEnv
with_expiry p provider secret = expiry_setting p >>= with_window p provider secret

abbrev pub with_provider : Platform → String → Parser PaymentEnv
with_provider p provider = secret_setting >>= with_expiry p provider

unfoldable pub parse_payment_env : Platform → String → Parser PaymentEnv
unfolding parse_qr_provider optional_string parse_positive_int
parse_payment_env p env = parse_qr_provider env >>= with_provider p

pub record Environment : Type 0 where
  pub node_env : String
  pub port : ℕ
  pub api_prefix : String
  pub frontend_url : String
  pub database_url : String
  pub redis_url : Option String
  pub swagger_enabled : Bool
  pub cors_origin : String
  pub public_customer_web_origin : String
  pub cookie_secure : Bool
  pub cookie_same_site : String
  pub device_auth_enabled : Bool
  pub device_credential_encryption_key : String
  pub device_hmac_clock_skew_seconds : ℕ
  pub device_event_max_future_seconds : ℕ
  pub device_command_poll_limit : ℕ
  pub device_command_expiry_interval_seconds : ℕ
  pub payment : PaymentEnv
  pub jwt_access_secret : String
  pub jwt_refresh_secret : String
  pub jwt_access_ttl : String
  pub jwt_refresh_ttl : String
  pub auth_max_failed_attempts : ℕ
  pub auth_lock_minutes : ℕ
  pub auth_min_password_length : ℕ
  pub request_size_limit : String
  pub public_checkout_ttl_seconds : ℕ
  pub public_customer_flow_ttl_seconds : ℕ
  pub app_name : String
  pub host : String

abbrev known_environment : String → Bool
known_environment env = any (λ x. x =s env) ("development" ∷ "test" ∷ "production" ∷ [])

abbrev redis_of : Platform → Option Json → Parser (Option String)
redis_of p none = pure none
redis_of p (some (str String.[])) = pure none
redis_of p (some v) =
    text_or "REDIS_URL" "" (some v) >>= λ t. parse_url_value p t "REDIS_URL" >>= λ u. pure (some u)

unfoldable pub validate_env : Platform → Parser Environment
unfolding require_value optional_string parse_port parse_url_value parse_boolean parse_positive_int
    parse_same_site parse_encryption_key parse_payment_env
validate_env p = do
  env ← require_value "NODE_ENV"
  throw_if (not (known_environment env))
      (bad_request "NODE_ENV must be development, test, or production.")
  app_name ← optional_string "APP_NAME" "charging-system-api"
  host ← optional_string "HOST" "0.0.0.0"
  port ← parse_port p (← require_value "PORT")
  prefix ← require_value "API_PREFIX"
  frontend ← parse_url_value p (← require_value "FRONTEND_URL") "FRONTEND_URL"
  database ← parse_url_value p (← require_value "DATABASE_URL") "DATABASE_URL"
  redis ← redis_of p (← value_of "REDIS_URL")
  swagger ← parse_boolean "SWAGGER_ENABLED" (not (is_production env))
  raw_frontend ← require_value "FRONTEND_URL"
  cors ← parse_url_value p (← optional_string "CORS_ORIGIN" raw_frontend) "CORS_ORIGIN"
  customer ←
      parse_url_value p (← optional_string "PUBLIC_CUSTOMER_WEB_ORIGIN" raw_frontend)
        "PUBLIC_CUSTOMER_WEB_ORIGIN"
  secure ← parse_boolean "COOKIE_SECURE" (is_production env)
  same_site ← parse_same_site p
  device_auth ← parse_boolean "DEVICE_AUTH_ENABLED" false
  key ← parse_encryption_key p env
  skew ← parse_positive_int p "DEVICE_HMAC_CLOCK_SKEW_SECONDS" 300
  future ← parse_positive_int p "DEVICE_EVENT_MAX_FUTURE_SECONDS" 300
  poll ← parse_positive_int p "DEVICE_COMMAND_POLL_LIMIT" 10
  interval ← parse_positive_int p "DEVICE_COMMAND_EXPIRY_INTERVAL_SECONDS" 60
  payment ← parse_payment_env p env
  access_secret ← optional_string "JWT_ACCESS_SECRET" "development-access-secret-change-me"
  refresh_secret ← optional_string "JWT_REFRESH_SECRET" "development-refresh-secret-change-me"
  access_ttl ← optional_string "JWT_ACCESS_TTL" "7d"
  refresh_ttl ← optional_string "JWT_REFRESH_TTL" "30d"
  attempts ← parse_positive_int p "AUTH_MAX_FAILED_ATTEMPTS" 5
  minutes ← parse_positive_int p "AUTH_LOCK_MINUTES" 15
  min_length ← parse_positive_int p "AUTH_MIN_PASSWORD_LENGTH" 12
  limit ← optional_string "REQUEST_SIZE_LIMIT" "1mb"
  checkout_ttl ← parse_positive_int p "PUBLIC_CHECKOUT_TTL_SECONDS" 600
  flow_ttl ← parse_positive_int p "PUBLIC_CUSTOMER_FLOW_TTL_SECONDS" 3600
  pure (record {
    node_env = env;
    port = port;
    api_prefix = p.trim_slashes prefix;
    frontend_url = frontend;
    database_url = database;
    redis_url = redis;
    swagger_enabled = swagger;
    cors_origin = cors;
    public_customer_web_origin = customer;
    cookie_secure = secure;
    cookie_same_site = same_site;
    device_auth_enabled = device_auth;
    device_credential_encryption_key = key;
    device_hmac_clock_skew_seconds = skew;
    device_event_max_future_seconds = future;
    device_command_poll_limit = poll;
    device_command_expiry_interval_seconds = interval;
    payment = payment;
    jwt_access_secret = access_secret;
    jwt_refresh_secret = refresh_secret;
    jwt_access_ttl = access_ttl;
    jwt_refresh_ttl = refresh_ttl;
    auth_max_failed_attempts = attempts;
    auth_lock_minutes = minutes;
    auth_min_password_length = min_length;
    request_size_limit = limit;
    public_checkout_ttl_seconds = checkout_ttl;
    public_customer_flow_ttl_seconds = flow_ttl;
    app_name = app_name;
    host = host;
  })
