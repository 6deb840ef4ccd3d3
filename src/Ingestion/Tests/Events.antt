-- ===== src/Ingestion/Tests/Events.antt =====
-- A heartbeat of a device that has no row, sent twice.
use coin_acceptor_backend.Prelude.{ℕ, false, true, none, some, [], ◌≡◌, refl}
use coin_acceptor_backend.Effect.{ok}
use coin_acceptor_backend.Json.{obj, end}
use coin_acceptor_backend.Ingestion.Events.{
  ProcessingStatus, EventRequest, Sender, IngestStore, IngestResponse, Surroundings,
  map_ingest_response, find_duplicate, event_row, run_processor, process_event, ingest,
}
use coin_acceptor_backend.Ingestion.Events.Again.{ingest_again}
use coin_acceptor_backend.Ingestion.Handlers.{string_at, assert_in, handle_heartbeat}
use coin_acceptor_backend.Ingestion.Pipeline.{Rows, Services, all_handlers}

abbrev services : Services
services = record {
  conversions = record { to_number = λ _. none; parse_date = λ _. none; reference = λ _. 0 };
  texts = record { upper = λ t. t; print = λ n. "0" };
  settings = [];
  row_id = λ _. 0;
  now = 2000;
}

abbrev nothing_yet : IngestStore Rows
nothing_yet = record {
  events = [];
  audits = [];
  rows = record {
    field = record { devices = []; lockers = []; ports = []; telemetry = [] };
    commands = record { devices = []; commands = []; audits = [] };
    payments = record {
      payments = [];
      qrs = [];
      coins = [];
      sessions = [];
      links = [];
      lockers = [];
      ports = [];
      alerts = [];
      audits = [];
    };
  };
}

abbrev sender : Sender
sender = record { station_id = 1; device_id = 2 }

abbrev heartbeat : EventRequest
heartbeat = record {
  external_event_id = "e-1";
  event_category = "heartbeat";
  event_type = "device.heartbeat";
  sequence_number = some 4;
  occurred_at = 1900;
  firmware_version = none;
  payload = obj end;
}

abbrev at_time : ℕ → Surroundings Rows
at_time t = record {
  validate = λ _. ok tt;
  hash = λ _. "h";
  new_id = t;
  now = t;
  meanwhile = λ es. es;
}

abbrev answer : IngestResponse
answer = record {
  event_id = 2000;
  processing_status = ProcessingStatus.failed;
  duplicate = false;
  received_at = 2000;
}

abbrev stored : IngestStore Rows
stored = (ingest (all_handlers services) (at_time 2000) sender heartbeat nothing_yet).1

first_time :
    ingest (all_handlers services) (at_time 2000) sender heartbeat nothing_yet ≡ (ok answer, stored)
unfolding ingest find_duplicate process_event run_processor all_handlers handle_heartbeat string_at
    assert_in map_ingest_response event_row
first_time = refl

-- The event that failed is not processed when it comes again.
ingest_again_example :
    ingest (all_handlers services) (at_time 9000) sender heartbeat stored
    ≡ (ok (record answer { duplicate = true }), stored)
ingest_again_example =
    ingest_again (all_handlers services) (at_time 2000) (at_time 9000) sender heartbeat nothing_yet
      stored answer first_time refl refl
