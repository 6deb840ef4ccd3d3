-- ===== src/Charging/Flows.antt =====
-- anonymous-checkout.service.ts and anonymous-customer-flow.service.ts: the tokens of customers
-- without an account, kept in the token store (Charging.Tokens). A token is stored by its hash.
pub mod Laws
use coin_acceptor_backend.Prelude.{
  ℕ, ◌+◌, ◌-◌, ◌*◌, ◌/◌, ◌≤◌, ◌<◌, Bool, true, false, not, ◌&&◌, ◌||◌, Option, none, some, is_some,
  String, List, [], ◌∷◌, leb, ltb, find, if◌then◌else◌, ◌≡◌, refl, arith, Bool-cases, inl, inr, ap,
  ◌∙◌, sym,
}
use coin_acceptor_backend.Effect.{
  Error, unauthorized, Result, ok, err, Action, ◌>>=◌, ◌>>◌, pure, modify, throw,
}
use coin_acceptor_backend.Charging.Tokens.{
  Key, flow, payment_flow, checkout, key_eq, Entry, entry_of, put_entry, set_json, get_json,
  read_entry,
}
use coin_acceptor_backend.Charging.Tokens.Refinement.{find-put_entry, key_eq_refl}

pub record CheckoutRecord : Type 0 where
  pub checkout_hash : String
  pub station_id : ℕ
  pub device_id : ℕ
  pub expires_at : ℕ

pub record FlowRecord : Type 0 where
  pub flow_hash : String
  pub checkout_hash : String
  pub station_id : ℕ
  pub device_id : ℕ
  pub payment_id : ℕ
  pub payment_reference : String
  pub session_reference : Option String
  pub expires_at : ℕ
  pub revoked_at : Option ℕ

-- What the services store under their keys.
pub data TokenRecord : Type 0 where
  of_checkout : CheckoutRecord → TokenRecord
  of_flow : FlowRecord → TokenRecord
  of_lookup : String → TokenRecord

abbrev pub Tokens : Type 0
Tokens = List (Entry TokenRecord)

-- `setJson` and `getJson` at a time.
abbrev store_json : Key → TokenRecord → ℕ → ℕ → Action Tokens (Unit {0})
store_json k v ttl now = modify (set_json k v ttl now)

abbrev load_json : Key → ℕ → Action Tokens (Option TokenRecord)
load_json k now m = let (v, n) = get_json k now m in (ok v, n)

abbrev as_checkout : Option TokenRecord → Option CheckoutRecord
as_checkout (some (of_checkout r)) = some r
as_checkout _ = none

abbrev as_flow : Option TokenRecord → Option FlowRecord
as_flow (some (of_flow r)) = some r
as_flow _ = none

abbrev as_lookup : Option TokenRecord → Option String
as_lookup (some (of_lookup h)) = some h
as_lookup _ = none

abbrev pub invalid_token : Error
invalid_token = unauthorized "Invalid public charging token."

-- `AnonymousCheckoutService.issue`, for the token that was generated.
unfoldable pub issue_checkout :
    (String → String) → ℕ → String → ℕ → ℕ → ℕ → Action Tokens CheckoutRecord
unfolding set_json
issue_checkout hash ttl token station device now = do
  let r : CheckoutRecord = record {
    checkout_hash = hash token;
    station_id = station;
    device_id = device;
    expires_at = now + ttl * 1000;
  }
  store_json (checkout (hash token)) (of_checkout r) ttl now
  pure r

abbrev accept_checkout : ℕ → Option CheckoutRecord → Action Tokens CheckoutRecord
accept_checkout now none = throw invalid_token
accept_checkout now (some r) = if leb r.expires_at now then throw invalid_token else pure r

unfoldable pub require_checkout : (String → String) → String → ℕ → Action Tokens CheckoutRecord
unfolding get_json
require_checkout hash token now = do
  r ← load_json (checkout (hash token)) now
  accept_checkout now (as_checkout r)

-- `AnonymousCustomerFlowService.issue`
unfoldable pub issue_flow :
    (String → String) → ℕ → String → FlowRecord → ℕ → Action Tokens FlowRecord
unfolding set_json
issue_flow hash ttl token input now = do
  let r : FlowRecord = record input { flow_hash = hash token; expires_at = now + ttl * 1000 }
  store_json (flow (hash token)) (of_flow r) ttl now
  store_json (payment_flow input.payment_reference) (of_lookup (hash token)) ttl now
  pure r

abbrev accept_flow : ℕ → Option FlowRecord → Action Tokens FlowRecord
accept_flow now none = throw invalid_token
accept_flow now (some r) =
    if is_some r.revoked_at || leb r.expires_at now then throw invalid_token else pure r

unfoldable pub require_flow : (String → String) → String → ℕ → Action Tokens FlowRecord
unfolding get_json
require_flow hash token now = do r ← load_json (flow (hash token)) now; accept_flow now (as_flow r)

-- `Math.max(1, Math.floor((Date.parse(iso) - Date.now()) / 1000))`
unfoldable pub seconds_until : ℕ → ℕ → ℕ
seconds_until expires_at now = let s = (expires_at - now) / 1000 in if ltb s 1 then 1 else s

abbrev bind_found : String → String → ℕ → Option FlowRecord → Action Tokens (Unit {0})
bind_found hash session now none = pure tt
bind_found hash session now (some r) =
    store_json (flow hash) (of_flow (record r { session_reference = some session }))
      (seconds_until r.expires_at now) now

abbrev bind_lookup : String → ℕ → Option String → Action Tokens (Unit {0})
bind_lookup session now none = pure tt
bind_lookup session now (some hash) = do
  r ← load_json (flow hash) now
  bind_found hash session now (as_flow r)

-- `bindSession`
unfoldable pub bind_session : String → String → ℕ → Action Tokens (Unit {0})
unfolding get_json set_json seconds_until
bind_session payment session now = do
  lookup ← load_json (payment_flow payment) now
  bind_lookup session now (as_lookup lookup)
