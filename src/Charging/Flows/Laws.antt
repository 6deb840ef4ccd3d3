-- ===== src/Charging/Flows/Laws.antt =====
-- How long a customer's token lets its customer in.
use coin_acceptor_backend.Prelude.{
  ℕ, ◌+◌, ◌*◌, ◌<◌, true, false, ◌&&◌, none, some, String, leb, ltb, find, if◌then◌else◌, ◌≡◌, refl,
  arith, Bool-cases, inl, inr, ap, ◌∙◌,
}
use coin_acceptor_backend.Effect.{ok, err}
use coin_acceptor_backend.Charging.Tokens.{
  flow, payment_flow, entry_of, put_entry, set_json, get_json,
}
use coin_acceptor_backend.Charging.Tokens.Refinement.{find-put_entry, key_eq_refl}
use coin_acceptor_backend.Charging.Flows.{
  FlowRecord, of_flow, of_lookup, Tokens, invalid_token, issue_flow, require_flow, bind_session,
  seconds_until,
}

-- A token lets its customer in until its time is over, and not a moment longer.
issued_found :
    (hash : String → String) (ttl : ℕ) (token : String) (input : FlowRecord) (now : ℕ) (m : Tokens)
    → find (entry_of (flow (hash token))) (issue_flow hash ttl token input now m).1
      ≡ some (record {
        key = flow (hash token);
        expires_at = now + ttl * 1000;
        value = of_flow (record input { flow_hash = hash token; expires_at = now + ttl * 1000 });
      })
unfolding issue_flow set_json
issued_found hash ttl token input now m =
    find-put_entry _ (flow (hash token)) (put_entry _ m)
    ∙ find-put_entry _ (flow (hash token)) m
    ∙ rw (key_eq_refl (flow (hash token))) refl

-- The customer's token, from the moment that it is issued on.
pub require_flow-issue_flow :
    (hash : String → String) (ttl : ℕ) (token : String) (input : FlowRecord) (now later : ℕ)
    (m : Tokens)
    → input.revoked_at ≡ none
    → (require_flow hash token later (issue_flow hash ttl token input now m).1).0 ≡ (
        if ltb later (now + ttl * 1000)
        then ok (record input { flow_hash = hash token; expires_at = now + ttl * 1000 })
        else err invalid_token)
unfolding require_flow get_json
require_flow-issue_flow hash ttl token input now later m valid =
    elim (Bool-cases (leb (now + ttl * 1000) later)) [
      | inl y ↦
          let over : ltb later (now + ttl * 1000) ≡ false = ground arith in
          rw (issued_found hash ttl token input now m, y, over) refl
      | inr n ↦
          let left : ltb later (now + ttl * 1000) ≡ true = ground arith in
          rw (issued_found hash ttl token input now m, n, left, valid, n) refl
    ]

lookup_found :
    (hash : String → String) (ttl : ℕ) (token : String) (input : FlowRecord) (now : ℕ) (m : Tokens)
    → find
        (entry_of (payment_flow input.payment_reference))
        (issue_flow hash ttl token input now m).1
      ≡ some (record {
        key = payment_flow input.payment_reference;
        expires_at = now + ttl * 1000;
        value = of_lookup (hash token);
      })
unfolding issue_flow set_json
lookup_found hash ttl token input now m =
    find-put_entry _ (payment_flow input.payment_reference) (put_entry _ m)
    ∙ rw (key_eq_refl (payment_flow input.payment_reference)) refl

-- A session that is bound to the payment of an issued flow, while the flow lasts.
bind_session-issue_flow :
    (hash : String → String) (ttl : ℕ) (token : String) (input : FlowRecord) (now bound : ℕ)
    (session : String) (m : Tokens)
    → bound < now + ttl * 1000
    → (bind_session input.payment_reference session bound
        (issue_flow hash ttl token input now m).1).1
      ≡ set_json
          (flow (hash token))
          (of_flow (record input {
            flow_hash = hash token;
            expires_at = now + ttl * 1000;
            session_reference = some session;
          }))
          (seconds_until (now + ttl * 1000) bound)
          bound
          (issue_flow hash ttl token input now m).1
unfolding bind_session get_json
bind_session-issue_flow hash ttl token input now bound session m h =
    let lasts : leb (now + ttl * 1000) bound ≡ false = ground arith in
    rw
      (
        lookup_found hash ttl token input now m,
        lasts,
        issued_found hash ttl token input now m,
        lasts,
      )
      refl

-- A flow that is issued without a revocation and bound to a session before it expires is read back
-- by its token, with the session's reference, as long as neither its own time nor the renewed time
-- to live of its record has passed, and is refused from then on.
pub require_flow-bind_session :
    (hash : String → String) (ttl : ℕ) (token : String) (input : FlowRecord) (now bound later : ℕ)
    (session : String) (m : Tokens)
    → input.revoked_at ≡ none
    → bound < now + ttl * 1000
    → (require_flow hash token later
        (bind_session input.payment_reference session bound
          (issue_flow hash ttl token input now m).1).1).0
      ≡ (if ltb later (now + ttl * 1000)
            && ltb later (bound + seconds_until (now + ttl * 1000) bound * 1000)
          then ok (record input {
            flow_hash = hash token;
            expires_at = now + ttl * 1000;
            session_reference = some session;
          })
          else err invalid_token)
unfolding require_flow get_json set_json
require_flow-bind_session hash ttl token input now bound later session m valid h =
    let stored = bind_session-issue_flow hash ttl token input now bound session m h in
    let there : find (entry_of (flow (hash token)))
          (bind_session input.payment_reference session bound
            (issue_flow hash ttl token input now m).1).1
        ≡ some (record {
          key = flow (hash token);
          expires_at = bound + seconds_until (now + ttl * 1000) bound * 1000;
          value = of_flow (record input {
            flow_hash = hash token;
            expires_at = now + ttl * 1000;
            session_reference = some session;
          });
        }) =
      ap (find (entry_of (flow (hash token)))) stored
      ∙ find-put_entry _ (flow (hash token)) (issue_flow hash ttl token input now m).1
      ∙ rw (key_eq_refl (flow (hash token))) refl in
    elim (Bool-cases (leb (bound + seconds_until (now + ttl * 1000) bound * 1000) later)) [
      | inl y ↦
          let gone : ltb later (bound + seconds_until (now + ttl * 1000) bound * 1000) ≡ false =
            ground arith in
          rw (there, y, gone) (ground arith)
      | inr n ↦
          let kept : ltb later (bound + seconds_until (now + ttl * 1000) bound * 1000) ≡ true =
            ground arith in
          elim (Bool-cases (leb (now + ttl * 1000) later)) [
            | inl y ↦
                let over : ltb later (now + ttl * 1000) ≡ false = ground arith in
                rw (there, n, valid, y, over) refl
            | inr l ↦
                let left : ltb later (now + ttl * 1000) ≡ true = ground arith in
                rw (there, n, valid, l, left, kept) refl
          ]
    ]
