-- ===== src/Commands/Acknowledge.antt =====
-- command-acknowledgement.service.ts.
pub mod Laws
use coin_acceptor_backend.Prelude.{
  ℕ, Bool, true, false, not, ◌&&◌, Option, none, some, get_or, or_else, is_some, String, List, ◌==◌,
  ◌=s◌, find, if◌then◌else◌,
}
use coin_acceptor_backend.Effect.{
  bad_request, not_found, Result, ok, err, Action, ◌>>=◌, ◌>>◌, pure, gets, modify, lift, or_throw,
  transaction, then_result,
}
use coin_acceptor_backend.Table.{update_where}
use coin_acceptor_backend.Json.{Json, Fields, obj, end, get, string_value, object_fields}
use coin_acceptor_backend.Json.Sensitive.{command_assert_safe}
use coin_acceptor_backend.Commands.{Command, CommandStatus, AckResult, CommandStore, command_has_id}
use coin_acceptor_backend.Commands.Policy.{as_status, assert_can_acknowledge, is_duplicate_ack}

-- The columns of the device event that carries the acknowledgement.
pub record AckEvent : Type 0 where
  pub id : ℕ
  pub device_id : ℕ
  pub received_at : ℕ

pub record Ack : Type 0 where
  pub command_id : ℕ
  pub result : AckResult
  pub response : Fields

-- `COMMAND_ACK_RESULTS.includes(result)`
abbrev ack_result : String → Option AckResult
ack_result r =
    if r =s "acknowledged"
    then some AckResult.acknowledged
    else if r =s "completed"
    then some AckResult.completed
    else if r =s "failed"
    then some AckResult.failed
    else none

abbrev known_result : Option String → Option AckResult
known_result none = none
known_result (some r) = ack_result r

abbrev build_ack : Option ℕ → Option AckResult → Fields → Result Ack
build_ack (some i) (some r) response =
    ok (record { command_id = i; result = r; response = response })
build_ack _ _ response = err (bad_request "Invalid command acknowledgement payload.")

-- `parse`; `row_id` is the identity of the row that a text names.
unfoldable pub parse_ack : (String → ℕ) → Fields → Result Ack
unfolding get
parse_ack row_id payload =
    build_ack
      (elim (string_value (get "commandId" payload)) [ none ↦ none | some t ↦ some (row_id t) ])
      (known_result (string_value (get "result" payload)))
      (get_or (object_fields (get "response" payload)) end)

-- `ackData`, applied to the row, by the reported result.
unfoldable pub ack_data : AckResult → Fields → AckEvent → Command → Command
unfolding get
ack_data AckResult.acknowledged response event c = record c {
  status = CommandStatus.acknowledged;
  acknowledgement_event_id = some event.id;
  device_response = some (obj response);
  acknowledged_at = or_else c.acknowledged_at (some event.received_at);
}
ack_data AckResult.completed response event c = record c {
  status = CommandStatus.completed;
  acknowledgement_event_id = some event.id;
  device_response = some (obj response);
  completed_at = some event.received_at;
  acknowledged_at = or_else c.acknowledged_at (some event.received_at);
}
ack_data AckResult.failed response event c = record c {
  status = CommandStatus.failed;
  acknowledgement_event_id = some event.id;
  device_response = some (obj response);
  failure_code = some (get_or (string_value (get "failureCode" response)) "device_failed");
  failure_reason =
      some
        (get_or (string_value (get "failureReason" response)) "Device reported command failure.");
}

abbrev acked_by : ℕ → Option ℕ → Bool
acked_by i none = false
acked_by i (some j) = j == i

abbrev pub is_acked_row : ℕ → ℕ → Command → Bool
is_acked_row i device_id c = c.id == i && c.device_id == device_id

-- The command is left alone where this event, or one with the same result, was applied before.
unfoldable pub already_applied : Ack → AckEvent → Command → Bool
unfolding is_duplicate_ack
already_applied ack event c =
    if acked_by event.id c.acknowledgement_event_id
    then true
    else is_duplicate_ack c.status ack.result

abbrev pub apply_ack : Ack → AckEvent → Command → Action CommandStore (Unit {0})
apply_ack ack event c = if already_applied ack event c then pure tt else (do
  lift (assert_can_acknowledge c.status ack.result)
  modify (λ s. record s {
    commands =
        update_where (command_has_id c.id) (ack_data ack.result ack.response event) s.commands;
  }))

abbrev pub ack_transaction : Ack → AckEvent → Action CommandStore (Unit {0})
ack_transaction ack event = do
  c ←
      or_throw (← gets (λ s. find (is_acked_row ack.command_id event.device_id) s.commands))
        (not_found "Device command not found.")
  apply_ack ack event c

unfoldable pub acknowledge : (String → ℕ) → AckEvent → Fields → Action CommandStore (Unit {0})
unfolding parse_ack already_applied assert_can_acknowledge ack_data command_assert_safe
acknowledge row_id event payload = do
  ack ← lift (parse_ack row_id payload)
  lift (command_assert_safe (obj ack.response))
  transaction (ack_transaction ack event)
