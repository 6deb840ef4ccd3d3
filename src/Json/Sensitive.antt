-- ===== src/Json/Sensitive.antt =====
-- Forbidden keys in JSON payloads: common/utils/sensitive-json.util.ts, and the same walk with
-- other key sets in payments/services/payment-sanitizer.service.ts and
-- device-ingestion/services/sensitive-payload.service.ts.
pub mod Depth
use coin_acceptor_backend.Prelude.{
  ℕ, suc, ◌+◌, Bool, true, false, not, ◌||◌, List, [], ◌∷◌, String, if◌then◌else◌, ltb, ◌==◌, codes,
  has, is_lower, is_upper, is_digit,
}
use coin_acceptor_backend.Effect.{Error, bad_request, Result, ok, err, then_result}
use coin_acceptor_backend.Json.{
  Json, null, bool, num, str, arr, obj, Elems, nil, cons, Fields, end, field,
}

abbrev is_word : ℕ → Bool
is_word c = is_lower c || is_upper c || is_digit c || c == b'_'

-- `key.replace(/[^a-zA-Z0-9_]/g, '').toLowerCase()`
unfoldable pub normalize_codes : List ℕ → List ℕ
normalize_codes [] = []
normalize_codes (c ∷ cs) =
    let rest = normalize_codes cs in
    if is_word c then (if is_upper c then c + 32 else c) ∷ rest else rest

unfoldable pub normalize_key : String → List ℕ
unfolding normalize_codes
normalize_key key = normalize_codes (codes key)

abbrev pub forbidden_keys : List (List ℕ)
forbidden_keys =
    codes "password"
    ∷ codes "apikey"
    ∷ codes "api_key"
    ∷ codes "secret"
    ∷ codes "sharedsecret"
    ∷ codes "shared_secret"
    ∷ codes "hmacsecret"
    ∷ codes "hmac_secret"
    ∷ codes "token"
    ∷ codes "accesstoken"
    ∷ codes "access_token"
    ∷ codes "refreshtoken"
    ∷ codes "refresh_token"
    ∷ codes "privatekey"
    ∷ codes "private_key"
    ∷ codes "credential"
    ∷ codes "credentials"
    ∷ codes "accesscode"
    ∷ codes "access_code"
    ∷ codes "lockercode"
    ∷ codes "locker_code"
    ∷ []

abbrev pub payment_keys : List (List ℕ)
payment_keys =
    codes "password"
    ∷ codes "pin"
    ∷ codes "token"
    ∷ codes "secret"
    ∷ codes "apikey"
    ∷ codes "api_key"
    ∷ codes "authorization"
    ∷ codes "credential"
    ∷ codes "credentials"
    ∷ codes "privatekey"
    ∷ codes "private_key"
    ∷ []

abbrev pub event_keys : List (List ℕ)
event_keys =
    codes "password"
    ∷ codes "apikey"
    ∷ codes "api_key"
    ∷ codes "secret"
    ∷ codes "accesstoken"
    ∷ codes "access_token"
    ∷ codes "refreshtoken"
    ∷ codes "refresh_token"
    ∷ codes "privatekey"
    ∷ codes "private_key"
    ∷ codes "phonefiles"
    ∷ codes "phone_files"
    ∷ codes "contacts"
    ∷ codes "messages"
    ∷ []

-- The recursive walk that the three services share; each gives its own key set and message.
module _ (keys : List (List ℕ)) (e : Error) where
  unfoldable mutual
    pub assert_no_keys : Json → ℕ → Result (Unit {0})
    assert_no_keys null depth = ok tt
    assert_no_keys (bool b) depth = ok tt
    assert_no_keys (num n) depth = ok tt
    assert_no_keys (str s) depth = ok tt
    assert_no_keys (arr vs) depth =
        let items = assert_items vs (suc depth) in if ltb 8 depth then ok tt else items
    assert_no_keys (obj fs) depth =
        let entries = assert_entries fs (suc depth) in if ltb 8 depth then ok tt else entries

    pub assert_items : Elems → ℕ → Result (Unit {0})
    assert_items nil depth = ok tt
    assert_items (cons v vs) depth =
        let rest = assert_items vs depth in then_result (assert_no_keys v depth) (λ _. rest)

    pub assert_entries : Fields → ℕ → Result (Unit {0})
    assert_entries end depth = ok tt
    assert_entries (field k v fs) depth =
        let rest = assert_entries fs depth in
        let here = assert_no_keys v depth in
        if has keys (normalize_key k) then err e else then_result here (λ _. rest)

unfoldable pub assert_no_forbidden_json_keys : Json → Result (Unit {0})
assert_no_forbidden_json_keys v =
    assert_no_keys forbidden_keys (bad_request "JSON payload contains forbidden fields.") v 0

-- `PaymentSanitizerService.assertSafe`
unfoldable pub payment_assert_safe : Json → Result (Unit {0})
payment_assert_safe v =
    assert_no_keys payment_keys (bad_request "Payment payload contains forbidden fields.") v 0

-- `SensitivePayloadService.assertSafe`
unfoldable pub event_assert_safe : Json → Result (Unit {0})
event_assert_safe v =
    assert_no_keys event_keys (bad_request "Payload contains forbidden fields.") v 0

-- `CommandPayloadSanitizerService.assertSafe` rewords the refusal.
unfoldable pub command_assert_safe : Json → Result (Unit {0})
unfolding assert_no_forbidden_json_keys
command_assert_safe v = elim (assert_no_forbidden_json_keys v) [
  | ok _ ↦ ok tt
  | err _ ↦ err (bad_request "Command payload contains forbidden fields.")
]

-- Keeps the entries whose key is not in the set.
unfoldable pub drop_keys : List (List ℕ) → Fields → Fields
drop_keys keys end = end
drop_keys keys (field k v fs) =
    let rest = drop_keys keys fs in if has keys (normalize_key k) then rest else field k v rest

unfoldable mutual
  pub sanitize_sensitive_json : Json → Json
  sanitize_sensitive_json (arr vs) = arr (sanitize_items vs)
  sanitize_sensitive_json (obj fs) = obj (drop_keys forbidden_keys fs)
  sanitize_sensitive_json v = v

  pub sanitize_items : Elems → Elems
  sanitize_items nil = nil
  sanitize_items (cons v vs) = cons (sanitize_sensitive_json v) (sanitize_items vs)

abbrev pub take_fields : ℕ → Fields → Fields
take_fields ℕ.zero fs = end
take_fields (suc n) end = end
take_fields (suc n) (field k v fs) = field k v (take_fields n fs)

-- `sanitizeJson` of the payment sanitizer: an object without the sensitive keys, 50 entries at
-- most; anything else becomes `{}`.
unfoldable pub sanitize_json : Json → Json
unfolding drop_keys
sanitize_json (obj fs) = obj (take_fields 50 (drop_keys payment_keys fs))
sanitize_json _ = obj end
