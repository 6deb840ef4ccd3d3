-- ===== src/Charging/Tests.antt =====
-- Access codes from concrete random numbers.
pub mod Allocation
pub mod Tokens
use coin_acceptor_backend.Prelude.{ℕ, true, String, none, [], ◌∷◌, ◌≡◌, refl}
use coin_acceptor_backend.Effect.{ok, IsOk}
use coin_acceptor_backend.Store.{ChargingSession, SessionStatus}
use coin_acceptor_backend.Charging.Claim.{ClaimStore, Slot, claim_commit}
use coin_acceptor_backend.Charging.Claim.Once.{claim_commit_once}
use coin_acceptor_backend.Charging.AccessCode.{strong_enough, pin_of, first_strong, generate}
use coin_acceptor_backend.Charging.AccessCode.Pins.{Pin, generate-Pin}
use coin_acceptor_backend.Prelude.{take, arith}

-- 1234 and 7777 are passed over, 0420 is not.
third_number : generate (1234 ∷ 7777 ∷ 420 ∷ []) ≡ 0 ∷ 4 ∷ 2 ∷ 0 ∷ []
unfolding generate first_strong strong_enough pin_of
third_number = refl

generate-Pin_example : Pin (generate (1234 ∷ 7777 ∷ 420 ∷ [])) (take 20 (1234 ∷ 7777 ∷ 420 ∷ []))
generate-Pin_example =
    generate-Pin (1234 ∷ 7777 ∷ 420 ∷ []) (ground arith, (ground arith, (ground arith, tt)))

abbrev allocated : ChargingSession
allocated = record {
  id = 1;
  session_reference = 50;
  station_id = 1;
  device_id = 2;
  locker_id = 3;
  charging_port_id = 4;
  status = SessionStatus.awaiting_device;
  currency = "TZS";
  access_code_hash = none;
  access_code_expires_at = none;
  purchased_duration_seconds = 40;
  remaining_seconds = 40;
  total_paid_minor = 100;
}

abbrev unclaimed : ClaimStore
unclaimed = record {
  store = record {
    payments = [];
    qrs = [];
    coins = [];
    sessions = allocated ∷ [];
    links = [];
    lockers = [];
    ports = [];
    alerts = [];
    audits = [];
  };
  commands = [];
}

abbrev slot : Slot
slot = record { locker_number = 1; port_number = 1 }

abbrev printed : ℕ → String
printed n = "S-1"

abbrev claimed : ClaimStore
claimed = (claim_commit printed allocated "v" 900000 slot unclaimed).1

first_claim : claim_commit printed allocated "v" 900000 slot unclaimed ≡ (ok tt, claimed)
unfolding claim_commit
first_claim = refl

claim_commit_once_example : ¬ IsOk (claim_commit printed allocated "w" 950000 slot claimed).0
claim_commit_once_example =
    claim_commit_once printed allocated allocated "v" "w" 900000 950000 slot slot unclaimed claimed
      allocated refl refl first_claim refl
