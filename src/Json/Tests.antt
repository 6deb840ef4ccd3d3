-- ===== src/Json/Tests.antt =====
-- The walk for forbidden keys at a concrete payload.
use coin_acceptor_backend.Prelude.{◌≤◌, false, has, ◌≡◌, refl, arith}
use coin_acceptor_backend.Effect.{Error, bad_request, ok, err}
use coin_acceptor_backend.Json.{Json, null, obj, field, end}
use coin_acceptor_backend.Json.Sensitive.{normalize_key, payment_keys, assert_no_keys}
use coin_acceptor_backend.Json.Sensitive.Depth.{
  in_obj, nested, key, Found, assert_no_keys_accepts, assert_no_keys_refuses,
}

abbrev refusal : Error
refusal = bad_request "Payment payload contains forbidden fields."

-- `{ note: { pulse: null } }` and `{ note: { "P-I-N": null } }`
abbrev harmless : Json
harmless = obj (field "note" (obj (field "pulse" null end)) end)

abbrev leaking : Json
leaking = obj (field "note" (obj (field "P-I-N" null end)) end)

harmless_passes : assert_no_keys payment_keys refusal harmless 0 ≡ ok tt
unfolding assert_no_keys normalize_key
harmless_passes = refl

assert_no_keys_accepts_example : has payment_keys (normalize_key "pulse") ≡ false
assert_no_keys_accepts_example =
    assert_no_keys_accepts payment_keys refusal harmless "pulse" 1 harmless_passes
      (in_obj (nested (in_obj key))) one_le
  where
    one_le : 1 ≤ 8
    one_le = omega arith

leaking_refused : assert_no_keys payment_keys refusal leaking 0 ≡ err refusal
unfolding assert_no_keys normalize_key
leaking_refused = refl

assert_no_keys_refuses_example : Found payment_keys 0 leaking
assert_no_keys_refuses_example =
    assert_no_keys_refuses payment_keys refusal leaking refusal leaking_refused
