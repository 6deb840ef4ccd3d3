-- ===== src/Charging/Claim.antt =====
-- access-code-claim.service.ts. The flow that a token stands for, the generated pin and the verifier
-- that is made of it are arguments; so is the printing of numbers.
pub mod Once
use coin_acceptor_backend.Prelude.{
  ℕ, ◌+◌, ◌*◌, Bool, true, false, not, ◌&&◌, ◌||◌, Option, none, some, is_some, String, List, [],
  ◌∷◌, ◌==◌, ==_refl, find, find_sound, any, if◌then◌else◌, ◌≡◌, refl, ap, sym, subst, ◌∙◌,
  Bool-cases, Option-cases, inl, inr, arith, ℤ, pos,
}
use coin_acceptor_backend.Effect.{
  Error, not_found, conflict, database, Result, ok, err, Action, ◌>>=◌, ◌>>◌, pure, gets, modify,
  throw, throw_if, lift, or_throw, transaction, settle, IsOk,
}
use coin_acceptor_backend.Table.{insert, update_where, find-update_where}
use coin_acceptor_backend.Json.{Json, obj, str, num, int, Fields, end, field}
use coin_acceptor_backend.Store.{
  ChargingSession, SessionStatus, SessionPayment, Payment, PaymentStatus, Locker, ChargingPort,
  AuditEntry, Store,
}
use coin_acceptor_backend.Store.Write.{record_audit}
use coin_acceptor_backend.Payments.Policy.{same_status}

-- The columns of a device command that the service writes; its idempotency key is made of the
-- session's id.
pub record PrepareCommand : Type 0 where
  pub station_id : ℕ
  pub device_id : ℕ
  pub session_id : ℕ
  pub command_type : String
  pub payload : Json
  pub expires_at : ℕ

pub record ClaimStore : Type 0 where
  pub store : Store
  pub commands : List PrepareCommand

pub record Flow : Type 0 where
  pub session_reference : ℕ
  pub payment_reference : ℕ

pub record Slot : Type 0 where
  pub locker_number : ℕ
  pub port_number : ℕ

pub record Claimed : Type 0 where
  pub session_reference : ℕ
  pub slot : Slot
  pub access_code : List ℕ
  pub charging_duration_seconds : ℕ
  pub access_code_expires_at : ℕ

abbrev pub by_reference : ℕ → ChargingSession → Bool
by_reference r x = x.session_reference == r

abbrev pub has_session_id : ℕ → ChargingSession → Bool
has_session_id i x = x.id == i

unfoldable pub is_over : SessionStatus → Bool
is_over SessionStatus.completed = true
is_over SessionStatus.stopped = true
is_over SessionStatus.failed = true
is_over SessionStatus.cancelled = true
is_over SessionStatus.expired = true
is_over _ = false

-- `requirePayment`
unfoldable pub has_payment : Store → ℕ → ℕ → Bool
has_payment s reference session_id =
    any
      (λ l.
        l.charging_session_id == session_id
        && any
            (λ p.
              p.id == l.payment_id
              && p.payment_reference == reference
              && same_status p.status PaymentStatus.confirmed)
            s.payments)
      s.links

abbrev claim_audit : String → ChargingSession → AuditEntry
claim_audit action x = record {
  action = action;
  entity_id = some x.id;
  station_id = some x.station_id;
  reason = none;
}

abbrev audit_claim : String → ChargingSession → ClaimStore → ClaimStore
audit_claim action x s = record s { store = record_audit (claim_audit action x) s.store }

-- `commandPayload`; `print` is the text of a reference.
unfoldable pub command_payload : (ℕ → String) → ChargingSession → String → Slot → Json
command_payload print x verifier slot = obj (
    field "sessionReference" (str (print x.session_reference)) (
      field "lockerNumber" (num (int (pos slot.locker_number))) (
        field "portNumber" (num (int (pos slot.port_number))) (
          field "durationSeconds" (num (int (pos x.purchased_duration_seconds)))
            (field "accessCodeVerifier" (str verifier) end)))))

abbrev pub set_verifier : String → ℕ → ChargingSession → ChargingSession
set_verifier verifier expires_at x = record x {
  access_code_hash = some verifier;
  access_code_expires_at = some expires_at;
}

-- `upsert` with an empty update.
unfoldable pub add_command : PrepareCommand → List PrepareCommand → List PrepareCommand
add_command c cs = if any (λ x. x.session_id == c.session_id) cs then cs else insert c cs

abbrev pub taken : Option ChargingSession → Bool
taken none = true
taken (some x) = is_some x.access_code_hash

-- The body of the transaction of `storeVerifierAndCommand`, for the session that was read.
unfoldable pub store_verifier :
    (ℕ → String) → ChargingSession → String → ℕ → Slot → Action ClaimStore (Unit {0})
unfolding command_payload add_command
store_verifier print read verifier expires_at slot = do
  locked ← gets (λ s. find (by_reference read.session_reference) s.store.sessions)
  throw_if (taken locked) (conflict "ACCESS_CODE_ALREADY_CLAIMED")
  present ← gets (λ s. is_some (find (has_session_id read.id) s.store.sessions))
  throw_if (not present) (database "P2025")
  modify (λ s. record s {
    store = record s.store {
      sessions =
          update_where (has_session_id read.id) (set_verifier verifier expires_at) s.store.sessions;
    };
  })
  modify (λ s. record s {
    commands =
        add_command
          (record {
            station_id = read.station_id;
            device_id = read.device_id;
            session_id = read.id;
            command_type = "charging.prepare";
            payload = command_payload print read verifier slot;
            expires_at = expires_at;
          })
          s.commands;
  })
  modify (audit_claim "public_access_code.claimed" read)

unfoldable pub claim_commit :
    (ℕ → String) → ChargingSession → String → ℕ → Slot → Action ClaimStore (Unit {0})
unfolding store_verifier
claim_commit print read verifier expires_at slot =
    transaction (store_verifier print read verifier expires_at slot)

-- `claim` for the session that the reference names, with the numbers of its locker and port.
abbrev claim_slot :
    (ℕ → String)
    → (Slot → Result String)
    → List ℕ
    → ℕ
    → ChargingSession
    → Slot
    → Action ClaimStore Claimed
claim_slot print verifier_of pin now x slot = do
  verifier ← lift (verifier_of slot)
  claim_commit print x verifier (now + 900 * 1000) slot
  pure (record {
    session_reference = x.session_reference;
    slot = slot;
    access_code = pin;
    charging_duration_seconds = x.purchased_duration_seconds;
    access_code_expires_at = now + 900 * 1000;
  })

abbrev claim_session :
    (ℕ → String)
    → (Slot → Result String)
    → List ℕ
    → ℕ
    → Flow
    → ChargingSession
    → Action ClaimStore Claimed
claim_session print verifier_of pin now flow x = do
  throw_if (not (flow.session_reference == x.session_reference))
      (not_found "Public charging resource not found.")
  throw_if (is_over x.status) (conflict "Charging session is terminal.")
  paid ← gets (λ s. has_payment s.store flow.payment_reference x.id)
  throw_if (not paid) (not_found "Public charging resource not found.")
  if is_some x.access_code_hash
      then modify (audit_claim "public_access_code.replay_attempt" x)
        >> throw (conflict "ACCESS_CODE_ALREADY_CLAIMED")
      else do
        l ←
            or_throw (← gets (λ s. find (λ l. l.id == x.locker_id) s.store.lockers))
              (database "lockers")
        p ←
            or_throw (← gets (λ s. find (λ p. p.id == x.charging_port_id) s.store.ports))
              (database "charging_ports")
        claim_slot print verifier_of pin now x
            (record { locker_number = l.locker_number; port_number = p.port_number })

-- `claim`
unfoldable pub claim :
    (ℕ → String) → Result Flow → ℕ → (Slot → Result String) → List ℕ → ℕ → Action ClaimStore Claimed
unfolding is_over has_payment claim_commit
claim print required reference verifier_of pin now = do
  flow ← lift required
  x ←
      or_throw (← gets (λ s. find (by_reference reference) s.store.sessions))
        (not_found "Public charging resource not found.")
  claim_session print verifier_of pin now flow x
