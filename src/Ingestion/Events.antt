-- ===== src/Ingestion/Events.antt =====
-- device-event.service.ts and device-event-processor.ts: a device's event is stored once and given
-- to the first handler that takes it. Handlers write to a store of their own, `S`.
pub mod Again
use coin_acceptor_backend.Prelude.{
  ℕ, Bool, true, false, not, ◌&&◌, ◌||◌, Option, none, some, is_some, String, List, [], ◌∷◌, ◌==◌,
  ◌=s◌, find, any, if◌then◌else◌,
}
use coin_acceptor_backend.Effect.{
  Error, conflict, database, Result, ok, err, Action, ◌>>=◌, ◌>>◌, pure, gets, modify, throw, lift,
}
use coin_acceptor_backend.Table.{insert, update_where}
use coin_acceptor_backend.Json.{Json}
use coin_acceptor_backend.Store.{AuditEntry}

pub data ProcessingStatus : Type 0 where
  received processed failed : ProcessingStatus

pub record Event : Type 0 where
  pub id : ℕ
  pub station_id : ℕ
  pub device_id : ℕ
  pub external_event_id : String
  pub event_category : String
  pub event_type : String
  pub sequence_number : Option ℕ
  pub occurred_at : ℕ
  pub received_at : ℕ
  pub firmware_version : Option String
  pub payload : Json
  pub payload_sha256 : String
  pub processing_status : ProcessingStatus
  pub processed_at : Option ℕ
  pub failure_code : Option String
  pub failure_reason : Option String

-- The request body, `occurredAt` read as a time.
pub record EventRequest : Type 0 where
  pub external_event_id : String
  pub event_category : String
  pub event_type : String
  pub sequence_number : Option ℕ
  pub occurred_at : ℕ
  pub firmware_version : Option String
  pub payload : Json

pub record Sender : Type 0 where
  pub station_id : ℕ
  pub device_id : ℕ

pub record IngestStore (S : Type 0) : Type 0 where
  pub events : List Event
  pub audits : List AuditEntry
  pub rows : S

pub record Handler (S : Type 0) : Type 0 where
  pub can_handle : String → String → Bool
  pub handle : Event → Action S (Unit {0})

pub record IngestResponse : Type 0 where
  pub event_id : ℕ
  pub processing_status : ProcessingStatus
  pub duplicate : Bool
  pub received_at : ℕ

-- What surrounds a request: the validator, the hash of a payload, the generated id, the clock and
-- the events that other requests store between this one's look-up and its write.
pub record Surroundings (S : Type 0) : Type 0 where
  pub validate : EventRequest → Result (Unit {0})
  pub hash : Json → String
  pub new_id : ℕ
  pub now : ℕ
  pub meanwhile : List Event → List Event

unfoldable pub map_ingest_response : Event → Bool → IngestResponse
map_ingest_response e duplicate = record {
  event_id = e.id;
  processing_status = e.processing_status;
  duplicate = duplicate;
  received_at = e.received_at;
}

abbrev pub same_number : Option ℕ → Option ℕ → Bool
same_number none none = true
same_number (some a) (some b) = a == b
same_number _ _ = false

abbrev pub same_text : Option String → Option String → Bool
same_text none none = true
same_text (some a) (some b) = a =s b
same_text _ _ = false

abbrev pub by_external_id : Sender → EventRequest → Event → Bool
by_external_id sender dto e =
    e.device_id == sender.device_id && (e.external_event_id =s dto.external_event_id)

abbrev sent_number : Option ℕ → Option ℕ → Bool
sent_number _ none = false
sent_number none (some b) = false
sent_number (some a) (some b) = a == b

abbrev pub by_sequence : Sender → EventRequest → Event → Bool
by_sequence sender dto e =
    e.device_id == sender.device_id && sent_number e.sequence_number dto.sequence_number

abbrev or_sequence : Sender → EventRequest → List Event → Option Event → Option Event
or_sequence sender dto events (some e) = some e
or_sequence sender dto events none = find (by_sequence sender dto) events

unfoldable pub find_duplicate : Sender → EventRequest → List Event → Option Event
find_duplicate sender dto events =
    or_sequence sender dto events (find (by_external_id sender dto) events)

unfoldable pub matches_duplicate : Event → EventRequest → String → Bool
matches_duplicate e dto sha =
    (e.external_event_id =s dto.external_event_id)
    && (e.event_category =s dto.event_category)
    && (e.event_type =s dto.event_type)
    && same_number e.sequence_number dto.sequence_number
    && e.occurred_at == dto.occurred_at
    && same_text e.firmware_version dto.firmware_version
    && (e.payload_sha256 =s sha)

unfoldable pub event_row : Sender → EventRequest → String → ℕ → ℕ → Event
event_row sender dto sha new_id now = record {
  id = new_id;
  station_id = sender.station_id;
  device_id = sender.device_id;
  external_event_id = dto.external_event_id;
  event_category = dto.event_category;
  event_type = dto.event_type;
  sequence_number = dto.sequence_number;
  occurred_at = dto.occurred_at;
  received_at = now;
  firmware_version = dto.firmware_version;
  payload = dto.payload;
  payload_sha256 = sha;
  processing_status = ProcessingStatus.received;
  processed_at = none;
  failure_code = none;
  failure_reason = none;
}

abbrev pub event_has_id : ℕ → Event → Bool
event_has_id i e = e.id == i

-- The unique keys of device_events.
abbrev pub event_clashes : Sender → EventRequest → ℕ → Event → Bool
event_clashes sender dto new_id e =
    e.id == new_id || by_external_id sender dto e || by_sequence sender dto e

abbrev conflict_audit : Sender → Event → AuditEntry
conflict_audit sender e = record {
  action = "device_events.conflicting_duplicate";
  entity_id = some e.id;
  station_id = some sender.station_id;
  reason = some "Conflicting device event idempotency key reuse.";
}

abbrev pub mark_processed : ℕ → Event → Event
mark_processed now e = record e {
  processing_status = ProcessingStatus.processed;
  processed_at = some now;
}

abbrev pub mark_failed : Event → Event
mark_failed e = record e {
  processing_status = ProcessingStatus.failed;
  failure_code = some "processing_failed";
  failure_reason = some "Device event could not be processed safely.";
}

module _ {S : Type 0} where
  abbrev pub set_events : (List Event → List Event) → IngestStore S → IngestStore S
  set_events f s = record s { events = f s.events }

  unfoldable pub handle_duplicate :
      Sender → EventRequest → String → Event → Action (IngestStore S) IngestResponse
  unfolding matches_duplicate map_ingest_response
  handle_duplicate sender dto sha e s =
      if matches_duplicate e dto sha then (ok (map_ingest_response e true), s) else (
        err (conflict "Device event conflicts with an existing event."),
        record s { audits = insert (conflict_audit sender e) s.audits },
      )

  abbrev takes : Event → Handler S → Bool
  takes e h = h.can_handle e.event_category e.event_type

  -- `DeviceEventProcessor.process`
  unfoldable pub run_processor : List (Handler S) → Event → Action S ProcessingStatus
  run_processor handlers e = elim (find (takes e) handlers) [
    | none ↦ pure ProcessingStatus.received
    | some h ↦ h.handle e >> pure ProcessingStatus.processed
  ]

  abbrev pub write_event : ℕ → (Event → Event) → IngestStore S → IngestStore S
  write_event i f = set_events (update_where (event_has_id i) f)

  -- The answer, by how the handler ended.
  abbrev pub settle_event :
      ℕ
      → Event
      → IngestStore S
      → Result ProcessingStatus × S
      → Result IngestResponse × IngestStore S
  settle_event now e s (ok ProcessingStatus.received, rows) =
      (ok (map_ingest_response e false), record s { rows = rows })
  settle_event now e s (ok _, rows) = (
    ok (map_ingest_response (mark_processed now e) false),
    write_event e.id (mark_processed now) (record s { rows = rows }),
  )
  settle_event now e s (err _, rows) = (
    ok (map_ingest_response (mark_failed e) false),
    write_event e.id mark_failed (record s { rows = rows }),
  )

  unfoldable pub process_event :
      List (Handler S) → ℕ → Event → Action (IngestStore S) IngestResponse
  unfolding run_processor map_ingest_response
  process_event handlers now e s = settle_event now e s (run_processor handlers e s.rows)

  abbrev pub clash_answer :
      Sender → EventRequest → String → Option Event → Action (IngestStore S) IngestResponse
  clash_answer sender dto sha none = throw (database "P2002")
  clash_answer sender dto sha (some e) = handle_duplicate sender dto sha e

  -- `createEvent`, whose write fails where another request was faster.
  abbrev pub create_or_answer :
      List (Handler S)
      → Surroundings S
      → Sender
      → EventRequest
      → Action (IngestStore S) IngestResponse
  create_or_answer handlers around sender dto s =
      let t = set_events around.meanwhile s in
      let e = event_row sender dto (around.hash dto.payload) around.new_id around.now in
      if any (event_clashes sender dto around.new_id) t.events
      then clash_answer sender dto (around.hash dto.payload) (find_duplicate sender dto t.events) t
      else process_event handlers around.now e (set_events (insert e) t)

  abbrev pub duplicate_or_new :
      List (Handler S)
      → Surroundings S
      → Sender
      → EventRequest
      → Option Event
      → Action (IngestStore S) IngestResponse
  duplicate_or_new handlers around sender dto (some e) s =
      handle_duplicate sender dto (around.hash dto.payload) e s
  duplicate_or_new handlers around sender dto none s = create_or_answer handlers around sender dto s

  unfoldable pub ingest :
      List (Handler S)
      → Surroundings S
      → Sender
      → EventRequest
      → Action (IngestStore S) IngestResponse
  unfolding find_duplicate handle_duplicate process_event event_row
  ingest handlers around sender dto = do
    lift (around.validate dto)
    existing ← gets (λ s. find_duplicate sender dto s.events)
    duplicate_or_new handlers around sender dto existing
