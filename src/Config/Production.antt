-- ===== src/Config/Production.antt =====
-- What the checks of the environment mean for QR payments in production.
use coin_acceptor_backend.Prelude.{
  false, ◌&&◌, none, String, ◌=s◌, ◌≡◌, refl, Bool-cases, inl, inr, ap, subst, arith,
}
use coin_acceptor_backend.Effect.{
  Error, bad_request, Result, ok, err, Action, ◌>>=◌, ◌>>◌, pure, throw_if,
}
use coin_acceptor_backend.Json.{Fields}
use coin_acceptor_backend.Payments.Provider.{get_provider}
use coin_acceptor_backend.Config.{
  Platform, PaymentEnv, Parser, optional_string, parse_qr_provider, payment_env, expiry_setting,
  window_setting, secret_setting, with_window, with_expiry, with_provider, parse_payment_env,
  is_production,
}

-- A chain that returns has passed its first step.
bind_ok :
    {S A B : Type 0} (m : Action S A) (k : A → Action S B) (s t : S) (b : B)
    → (m >>= k) s ≡ (ok b, t)
    → (a : A) × (m s ≡ (ok a, (m s).1)) × (k a (m s).1 ≡ (ok b, t))
bind_ok {S} {A} {B} m k s t b e = by_result (m s) e
  where
    by_result :
        (r : Result A × S)
        → (elim r.0 as (λ _. Result B × S) [ ok a ↦ k a r.1 | err x ↦ (err x, r.1) ]) ≡ (ok b, t)
        → (a : A) × (r ≡ (ok a, r.1)) × (k a r.1 ≡ (ok b, t))
    by_result (ok a, u) h = (a, refl, h)
    by_result (err x, u) h = absurd (clash x (err x) refl (ap (λ z. z.0) h))
      where
        clash : (x : Error) (r : Result B) → r ≡ err x → r ≡ ok b → ⊥
        clash x r p q = cc

same_value : {A : Type 0} (a b : A) → Result.ok a ≡ ok b → a ≡ b
same_value a b h = ground arith

no_error : {A : Type 0} (x : Error) (c : Fields) (b : A) → Result.err x ≡ ok b → ⊥
no_error x c b h = cc

-- In production, the name of the provider that passes is not the mock's.
provider_not_mock :
    (config c : Fields) (name : String)
    → parse_qr_provider "production" config ≡ (ok name, c)
    → (name =s "mock") ≡ false
unfolding parse_qr_provider
provider_not_mock config c name e =
    let (provider, _, rest) =
      bind_ok (optional_string "QR_PAYMENT_PROVIDER" "mock") checked config c name e in
    elim (Bool-cases (provider =s "mock")) [
      | inl y ↦ absurd (no_error _ c name (ap (λ z. z.0) (rw y at rest)))
      | inr n ↦
          subst (λ t. (t =s "mock") ≡ false)
            (same_value provider name (ap (λ z. z.0) (rw n at rest))) n
    ]
  where
    checked : String → Parser String
    checked provider =
        throw_if (is_production "production" && (provider =s "mock"))
          (bad_request "QR_PAYMENT_PROVIDER=mock is not allowed in production.")
        >> pure provider

with_provider_keeps :
    (p : Platform) (name : String) (config c : Fields) (env : PaymentEnv)
    → with_provider p name config ≡ (ok env, c)
    → name ≡ env.qr_payment_provider
with_provider_keeps p name config c env e =
    let (secret, _, rest) = bind_ok secret_setting (with_expiry p name) config c env e in
    let (expiry, _, rest) = bind_ok (expiry_setting p) (with_window p name secret) _ c env rest in
    let (window, _, rest) =
      bind_ok (window_setting p) (λ w. pure (payment_env name secret expiry w)) _ c env rest in
    ap (λ x. x.qr_payment_provider)
      (same_value (payment_env name secret expiry window) env (ap (λ z. z.0) rest))

-- An environment that passes the check in production names a QR payment provider that the registry
-- does not have, so that looking the provider up by the configured name fails.
pub production_has_no_provider :
    (p : Platform) (config c : Fields) (env : PaymentEnv)
    → parse_payment_env p "production" config ≡ (ok env, c)
    → get_provider env.qr_payment_provider none
      ≡ err (bad_request "QR payment provider is not configured.")
unfolding parse_payment_env get_provider
production_has_no_provider p config c env e =
    let (name, first, rest) =
      bind_ok (parse_qr_provider "production") (with_provider p) config c env e in
    let same = with_provider_keeps p name (parse_qr_provider "production" config).1 c env rest in
    rw (subst (λ t. (t =s "mock") ≡ false) same (provider_not_mock config _ name first)) refl
