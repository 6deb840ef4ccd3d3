-- ===== src/Ingestion/Tests.antt =====
-- Nonces at a concrete request.
pub mod Events
use coin_acceptor_backend.Prelude.{
  ◌+◌, ◌*◌, ◌≤◌, true, false, ◌&&◌, some, List, [], ◌∷◌, ◌≡◌, refl, leb, arith,
}
use coin_acceptor_backend.Ingestion.Nonces.{Nonce, reserve_nonce, reserve_nonce_again}
use coin_acceptor_backend.Ingestion.Hmac.{timestamp_rejected, copy_admitted, copy_admitted_iff}

-- The nonce "n" of credential 3, reserved at 1000 s for 300 s.
abbrev reserved : List Nonce
reserved = record { credential_id = 3; nonce = "n"; expires_at = 1300000 } ∷ []

reserves : reserve_nonce 3 "n" 300 1000000 [] ≡ (true, reserved)
unfolding reserve_nonce
reserves = refl

reserve_nonce_again_example :
    (reserve_nonce 3 "n" 300 1200000 reserved).0 ≡ leb (1000000 + 300 * 1000) 1200000
reserve_nonce_again_example = reserve_nonce_again 3 "n" 300 1000000 1200000 [] reserved reserves

-- The device's clock is 200 s ahead: the copy that comes 400 s later is let through.
fresh : timestamp_rejected 300 (some 1200000) 1000000 ≡ false
unfolding timestamp_rejected
fresh = refl

copy_admitted_iff_example :
    copy_admitted 3 "n" 300 1200000 1000000 1400000 [] reserved
    ≡ leb (1000000 + 300 * 1000) 1400000 && leb 1400000 (1200000 + 300 * 1000)
copy_admitted_iff_example =
    copy_admitted_iff 3 "n" 300 1200000 1000000 1400000 [] reserved reserves fresh in_order
  where
    in_order : 1000000 ≤ 1400000
    in_order = omega arith
