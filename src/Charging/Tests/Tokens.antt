-- ===== src/Charging/Tests/Tokens.antt =====
-- A customer's token that lasts a minute.
use coin_acceptor_backend.Prelude.{arith, ℕ, none, some, String, List, [], ◌∷◌, ◌≡◌, refl}
use coin_acceptor_backend.Effect.{ok}
use coin_acceptor_backend.Charging.Tokens.{checkout, set_json, get_json, delete_key, put_entry}
use coin_acceptor_backend.Charging.Tokens.Refinement.{
  Call, setting, getting, deleting, run_memory, run_spec, run_memory_refines,
}
use coin_acceptor_backend.Charging.Flows.{
  FlowRecord, require_flow, bind_session, issue_flow, seconds_until,
}
use coin_acceptor_backend.Charging.Flows.Laws.{require_flow-bind_session}

abbrev calls : List (ℕ × Call ℕ)
calls =
    (1000, setting (checkout "a") 7 1)
    ∷ (1500, getting (checkout "a"))
    ∷ (2000, getting (checkout "a"))
    ∷ (2000, deleting (checkout "a"))
    ∷ []

-- The entry is there for less than a second.
one_second : run_memory calls [] ≡ some 7 ∷ none ∷ []
unfolding run_memory set_json get_json delete_key put_entry
one_second = refl

run_memory_refines_example : run_memory calls [] ≡ run_spec calls (λ _ _. none)
run_memory_refines_example =
    run_memory_refines calls 0 [] (λ _ _. none)
      (omega arith, (omega arith, (omega arith, (omega arith, tt)))) (λ k t h. refl)

abbrev customer : FlowRecord
customer = record {
  flow_hash = "";
  checkout_hash = "c";
  station_id = 1;
  device_id = 2;
  payment_id = 3;
  payment_reference = "p";
  session_reference = none;
  expires_at = 0;
  revoked_at = none;
}

abbrev plain : String → String
plain t = t

-- Bound half a second late, the token's entry ends half a second early.
require_flow-bind_session_example :
    (require_flow plain "t" 60000
      (bind_session "p" "s" 1500 (issue_flow plain 60 "t" customer 1000 []).1).1).0
    ≡ ok (record customer { flow_hash = "t"; expires_at = 61000; session_reference = some "s" })
unfolding seconds_until
require_flow-bind_session_example =
    require_flow-bind_session plain 60 "t" customer 1000 1500 60000 "s" [] refl (omega arith)
