-- ===== src/Ingestion/Hmac.antt =====
-- device-hmac.service.ts. Hashing, decryption and the comparison of hexadecimal texts are
-- parameters; so is `Date.parse`.
use Prim.Native.String.{◌++◌ as append}
use coin_acceptor_backend.Prelude.{
  ℕ, ◌+◌, ◌*◌, ◌-◌, ◌≤◌, Bool, true, false, not, ◌&&◌, ◌||◌, Option, none, some, is_some, String,
  List, ◌==◌, ◌=s◌, ltb, leb, find, ◌≡◌, arith,
}
use coin_acceptor_backend.Effect.{
  Error, unauthorized, ok, Action, ◌>>=◌, ◌>>◌, pure, gets, modify, throw, throw_if, or_throw,
}
use coin_acceptor_backend.Table.{update_where}
use coin_acceptor_backend.Ingestion.Nonces.{Nonce, reserve_nonce, reserve_nonce_again}

-- A request: the headers after `trim`, none where that leaves nothing, the method in upper case,
-- and the URL up to its query.
pub record Request : Type 0 where
  pub key_id : Option String
  pub timestamp : Option String
  pub nonce : Option String
  pub signature : Option String
  pub method : String
  pub path : String
  pub raw_body : String

pub record Credential : Type 0 where
  pub id : ℕ
  pub device_id : ℕ
  pub station_id : ℕ
  pub key_id : String
  pub is_hmac : Bool
  pub is_active : Bool
  pub revoked_at : Option ℕ
  pub valid_from : ℕ
  pub expires_at : Option ℕ
  pub secret_encrypted : Option String
  pub last_used_at : Option ℕ

pub record Crypto : Type 0 where
  pub parse_date : String → Option ℕ
  pub decrypt : String → Option String
  pub sha256 : String → String
  pub hmac_sha256 : String → String → String
  pub same_hex : String → String → Bool

pub record IngestionStore : Type 0 where
  pub credentials : List Credential
  pub nonces : List Nonce

pub record Authenticated : Type 0 where
  pub device_id : ℕ
  pub station_id : ℕ
  pub credential_id : ℕ
  pub key_id : String

abbrev rejection : Error
rejection = unauthorized "Device authentication failed."

-- `Math.abs(Date.now() - time) > skewMs`, and no time at all.
unfoldable pub timestamp_rejected : ℕ → Option ℕ → ℕ → Bool
timestamp_rejected skew_seconds none now = true
timestamp_rejected skew_seconds (some time) now =
    ltb (skew_seconds * 1000) (now - time) || ltb (skew_seconds * 1000) (time - now)

abbrev unexpired : Option ℕ → ℕ → Bool
unexpired none now = true
unexpired (some t) now = ltb now t

-- `findCredential`
unfoldable pub is_credential : String → ℕ → Credential → Bool
is_credential key now c =
    (c.key_id =s key)
    && c.is_hmac
    && c.is_active
    && not (is_some c.revoked_at)
    && leb c.valid_from now
    && unexpired c.expires_at now

unfoldable pub canonical : Crypto → Request → String → String → String
canonical k r timestamp nonce = append r.method (
    append "\n" (
      append r.path (
        append "\n"
          (append timestamp (append "\n" (append nonce (append "\n" (k.sha256 r.raw_body))))))))

abbrev signed_with : Crypto → Option String → String → String → Bool
signed_with k none text signature = false
signed_with k (some secret) text signature = k.same_hex (k.hmac_sha256 secret text) signature

-- `verifySignature`: a failure to decrypt is a refusal like a wrong signature.
unfoldable pub signature_valid : Crypto → Request → String → String → String → String → Bool
unfolding canonical
signature_valid k r encrypted timestamp nonce signature =
    signed_with k (k.decrypt encrypted) (canonical k r timestamp nonce) signature

abbrev has_id : ℕ → Credential → Bool
has_id i c = c.id == i

unfoldable pub mark_used : ℕ → ℕ → IngestionStore → IngestionStore
mark_used i now s = record s {
  credentials = update_where (has_id i) (λ c. record c { last_used_at = some now }) s.credentials;
}

-- `reserveNonce`: what it returns, with the nonces that it leaves.
abbrev reserve : ℕ → String → ℕ → ℕ → Action IngestionStore Bool
reserve c nonce skew now s =
    let r = reserve_nonce c nonce skew now s.nonces in (ok r.0, record s { nonces = r.1 })

abbrev with_secret :
    Crypto
    → ℕ
    → Request
    → String
    → String
    → String
    → ℕ
    → Credential
    → String
    → Action IngestionStore Authenticated
with_secret k skew r timestamp nonce signature now c encrypted = do
  reserved ← reserve c.id nonce skew now
  throw_if (not reserved) rejection
  throw_if (not (signature_valid k r encrypted timestamp nonce signature)) rejection
  modify (mark_used c.id now)
  pure (record {
    device_id = c.device_id;
    station_id = c.station_id;
    credential_id = c.id;
    key_id = c.key_id;
  })

abbrev with_credential :
    Crypto
    → ℕ
    → Request
    → String
    → String
    → String
    → ℕ
    → Credential
    → Action IngestionStore Authenticated
with_credential k skew r timestamp nonce signature now c = do
  encrypted ← or_throw c.secret_encrypted rejection
  with_secret k skew r timestamp nonce signature now c encrypted

unfoldable pub authenticate_with :
    Crypto
    → ℕ
    → Request
    → String
    → String
    → String
    → String
    → ℕ
    → Action IngestionStore Authenticated
unfolding reserve_nonce signature_valid mark_used timestamp_rejected is_credential
authenticate_with k skew r key timestamp nonce signature now = do
  throw_if (timestamp_rejected skew (k.parse_date timestamp) now) rejection
  c ← or_throw (← gets (λ s. find (is_credential key now) s.credentials)) rejection
  with_credential k skew r timestamp nonce signature now c

abbrev with_headers :
    Crypto
    → ℕ
    → Request
    → Option String
    → Option String
    → Option String
    → Option String
    → ℕ
    → Action IngestionStore Authenticated
with_headers k skew r (some key) (some timestamp) (some nonce) (some signature) now =
    authenticate_with k skew r key timestamp nonce signature now
with_headers k skew r _ _ _ _ now = throw rejection

-- `authenticate`
unfoldable pub authenticate : Crypto → ℕ → Request → ℕ → Action IngestionStore Authenticated
unfolding authenticate_with
authenticate k skew r now = with_headers k skew r r.key_id r.timestamp r.nonce r.signature now

-- A captured request, which carries the time and the nonce that its device has signed.
module _ (c : ℕ) (nonce : String) (skew time now later : ℕ) (xs t : List Nonce) where
  -- Whether a copy passes the two checks that do not depend on the signature.
  abbrev pub copy_admitted : Bool
  copy_admitted =
      not (timestamp_rejected skew (some time) later) && (reserve_nonce c nonce skew later t).0

  -- After a request with an acceptable timestamp has reserved its nonce, a copy of it passes the
  -- timestamp and the nonce checks exactly in the interval from the time of reservation plus the
  -- clock skew to its timestamp plus the clock skew, which is not empty where the device's clock
  -- is ahead.
  pub copy_admitted_iff :
      reserve_nonce c nonce skew now xs ≡ (true, t)
      → timestamp_rejected skew (some time) now ≡ false
      → now ≤ later
      → copy_admitted ≡ leb (now + skew * 1000) later && leb later (time + skew * 1000)
  unfolding timestamp_rejected
  copy_admitted_iff e f le = rw (reserve_nonce_again c nonce skew now later xs t e) (ground arith)
