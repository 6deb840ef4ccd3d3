-- ===== src/Commands/Delivery.antt =====
-- command-polling.service.ts and command-expiry.service.ts: two batches over locked rows.
pub mod Laws
pub mod Polls
use coin_acceptor_backend.Prelude.{
  ℕ, Bool, true, false, not, ◌&&◌, ◌||◌, Option, none, some, String, List, [], ◌∷◌, ◌==◌, ltb, leb,
  find, filter, any, take, length, if◌then◌else◌,
}
use coin_acceptor_backend.Effect.{Result, ok, err, Action}
use coin_acceptor_backend.Table.{update_where}
use coin_acceptor_backend.Commands.{Command, CommandStatus, CommandStore}

abbrev pub is_queued : CommandStatus → Bool
is_queued CommandStatus.queued = true
is_queued _ = false

abbrev pub is_sent : CommandStatus → Bool
is_sent CommandStatus.sent = true
is_sent _ = false

abbrev pub expired_by : ℕ → Option ℕ → Bool
expired_by now none = false
expired_by now (some t) = leb t now

-- `ORDER BY key ASC, id ASC`
module _ (key : Command → ℕ) where
  abbrev pub before : Command → Command → Bool
  before a b = ltb (key a) (key b) || (key a == key b && leb a.id b.id)

  unfoldable pub put_in_order : Command → List Command → List Command
  put_in_order c [] = c ∷ []
  put_in_order c (d ∷ ds) =
      let rest = put_in_order c ds in if before c d then c ∷ d ∷ ds else d ∷ rest

  unfoldable pub in_order : List Command → List Command
  unfolding put_in_order
  in_order [] = []
  in_order (c ∷ cs) = put_in_order c (in_order cs)

abbrev pub is_among : List Command → ℕ → Bool
is_among cs i = any (λ c. c.id == i) cs

-- The WHERE clause of the polling query; `locked` are the rows that other transactions hold, which
-- SKIP LOCKED leaves out.
unfoldable pub is_eligible : ℕ → ℕ → (ℕ → Bool) → Command → Bool
is_eligible device_id now locked c =
    c.device_id == device_id
    && is_queued c.status
    && leb c.available_at now
    && not (expired_by now c.expires_at)
    && not (locked c.id)

unfoldable pub poll_ids : ℕ → ℕ → ℕ → (ℕ → Bool) → List Command → List Command
unfolding is_eligible in_order
poll_ids limit device_id now locked cs =
    take limit (in_order (λ c. c.requested_at) (filter (is_eligible device_id now locked) cs))

unfoldable pub mark_sent : ℕ → Command → Command
mark_sent clock c = record c { status = CommandStatus.sent; sent_at = some clock }

-- `updateMany` over the selected ids.
unfoldable pub deliver : List Command → ℕ → ℕ → List Command → List Command
unfolding mark_sent
deliver ids device_id clock cs =
    update_where (λ c. is_among ids c.id && c.device_id == device_id && is_queued c.status)
      (mark_sent clock) cs

abbrev pub delivered : List Command → ℕ → List Command → List Command
delivered ids device_id cs =
    filter (λ c. is_among ids c.id && c.device_id == device_id && is_sent c.status) cs

-- `poll`: `now` is the database's clock, `clock` the service's.
unfoldable pub poll : ℕ → ℕ → ℕ → ℕ → (ℕ → Bool) → Action CommandStore (List Command)
unfolding poll_ids deliver
poll limit device_id now clock locked s =
    let ids = poll_ids limit device_id now locked s.commands in
    let cs = deliver ids device_id clock s.commands in
    if length ids == 0 then (ok [], s) else (
      ok (in_order (λ c. c.requested_at) (delivered ids device_id cs)),
      record s { commands = cs },
    )

unfoldable pub is_overdue : ℕ → (ℕ → Bool) → Command → Bool
is_overdue now locked c =
    (is_queued c.status || is_sent c.status) && expired_by now c.expires_at && not (locked c.id)

abbrev expiry_key : Option ℕ → ℕ
expiry_key none = 0
expiry_key (some t) = t

unfoldable pub expire_command : Command → Command
expire_command c = record c {
  status = CommandStatus.expired;
  failure_reason = some "Command expired.";
}

-- `expireBatch`: the number of rows and the store afterwards.
unfoldable pub expire_batch : ℕ → ℕ → (ℕ → Bool) → Action CommandStore ℕ
unfolding is_overdue in_order expire_command
expire_batch limit now locked s =
    let ids =
      take limit
        (in_order (λ c. expiry_key c.expires_at) (filter (is_overdue now locked) s.commands)) in
    let hit = λ (c : Command). is_among ids c.id in
    if length ids == 0 then (ok 0, s) else (
      ok (length (filter hit s.commands)),
      record s { commands = update_where hit expire_command s.commands },
    )
