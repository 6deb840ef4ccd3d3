-- ===== src/Commands/Acknowledge/Laws.antt =====
-- Acknowledgements: a repeated event changes nothing, and a change follows the policy.
use coin_acceptor_backend.Prelude.{true, false, Option, some, ◌≡◌, refl, ◌∙◌, ==_refl, find}
use coin_acceptor_backend.Effect.{ok, or_throw}
use coin_acceptor_backend.Table.{update_where, find-update_where}
use coin_acceptor_backend.Json.{Fields}
use coin_acceptor_backend.Commands.{Command, AckResult, CommandStore, command_has_id}
use coin_acceptor_backend.Commands.Policy.{as_status, assert_can_acknowledge}
use coin_acceptor_backend.Commands.Policy.Laws.{Acks, assert_can_acknowledge_iff}
use coin_acceptor_backend.Commands.Acknowledge.{
  AckEvent, Ack, ack_data, already_applied, ack_transaction, is_acked_row,
}

-- The row of the command that an acknowledgement names, for the device that sends it.
abbrev pub acked_row : Ack → AckEvent → CommandStore → Option Command
acked_row ack event s = find (is_acked_row ack.command_id event.device_id) s.commands

ack_data_keeps :
    (r : AckResult) (fs : Fields) (event : AckEvent) (c : Command)
    → ((ack_data r fs event c).id ≡ c.id)
      × ((ack_data r fs event c).device_id ≡ c.device_id)
      × ((ack_data r fs event c).status ≡ as_status r)
      × ((ack_data r fs event c).acknowledgement_event_id ≡ some event.id)
unfolding ack_data
ack_data_keeps AckResult.acknowledged fs event c = (refl, refl, refl, refl)
ack_data_keeps AckResult.completed fs event c = (refl, refl, refl, refl)
ack_data_keeps AckResult.failed fs event c = (refl, refl, refl, refl)

module _ (ack : Ack) (event : AckEvent) (s : CommandStore) (c : Command) where
  abbrev pub written : CommandStore
  written = record s {
    commands =
        update_where (command_has_id c.id) (ack_data ack.result ack.response event) s.commands;
  }

  -- The row after the write.
  written_row :
      acked_row ack event s ≡ some c
      → acked_row ack event written ≡ some (ack_data ack.result ack.response event c)
  written_row e =
      find-update_where (is_acked_row ack.command_id event.device_id) (command_has_id c.id)
        (ack_data ack.result ack.response event) s.commands keeps c e
      ∙ rw (==_refl c.id)
    where
      keeps :
          (x : Command)
          → is_acked_row ack.command_id event.device_id (ack_data ack.result ack.response event x)
            ≡ is_acked_row ack.command_id event.device_id x
      keeps x = let (i, d, _, _) = ack_data_keeps ack.result ack.response event x in rw (i, d)

  -- A recorded event is recognised.
  applied_again : already_applied ack event (ack_data ack.result ack.response event c) ≡ true
  unfolding already_applied
  applied_again =
      let (_, _, _, j) = ack_data_keeps ack.result ack.response event c in rw (j, ==_refl event.id)

  -- An acknowledgement that is for a command of the device that sends it, is no repetition and is
  -- accepted by the policy moves the command by an arrow of the policy; the command's row then has
  -- the reported status, and delivering the same event once more leaves the store as it is.
  pub ack_transaction_moves :
      acked_row ack event s ≡ some c
      → already_applied ack event c ≡ false
      → assert_can_acknowledge c.status ack.result ≡ ok tt
      → Acks c.status ack.result
        × (ack_transaction ack event s ≡ (ok tt, written))
        × (acked_row ack event written ≡ some (ack_data ack.result ack.response event c))
        × ((ack_data ack.result ack.response event c).status ≡ as_status ack.result)
        × (ack_transaction ack event written ≡ (ok tt, written))
  ack_transaction_moves e fresh can = (
    (assert_can_acknowledge_iff c.status ack.result).0 can,
    rw (e, or_throw) (rw fresh (rw can)),
    written_row e,
    (ack_data_keeps ack.result ack.response event c).2,
    rw (written_row e, or_throw) (rw applied_again),
  )
