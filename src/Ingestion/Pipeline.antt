-- ===== src/Ingestion/Pipeline.antt =====
-- device-event-processor.ts: the six handlers in their order, each on its own tables.
use coin_acceptor_backend.Prelude.{ℕ, Bool, ◌&&◌, ◌||◌, String, List, [], ◌∷◌, ◌=s◌}
use coin_acceptor_backend.Effect.{Action}
use coin_acceptor_backend.Store.{Store}
use coin_acceptor_backend.Commands.{CommandStore}
use coin_acceptor_backend.Commands.Acknowledge.{AckEvent, acknowledge}
use coin_acceptor_backend.Payments.Coins.{CoinEvent, Conversions, parse_coin_payload, handle_coin}
use coin_acceptor_backend.Settings.Resolution.{Setting}
use coin_acceptor_backend.Settings.Pulses.{Texts, denomination_for}
use coin_acceptor_backend.Ingestion.Events.{Event, Handler}
use coin_acceptor_backend.Ingestion.Handlers.{
  FieldStore, payload_of, handle_heartbeat, is_heartbeat,
}
use coin_acceptor_backend.Ingestion.Handlers.Places.{
  handle_locker, is_locker_event, handle_port, is_port_event,
}
use coin_acceptor_backend.Ingestion.Handlers.Readings.{handle_telemetry, is_telemetry}

pub record Rows : Type 0 where
  pub field : FieldStore
  pub commands : CommandStore
  pub payments : Store

-- What the coin handler and the acknowledgement need from elsewhere.
pub record Services : Type 0 where
  pub conversions : Conversions
  pub texts : Texts
  pub settings : List Setting
  pub row_id : String → ℕ
  pub now : ℕ

-- An action on a part of the store.
abbrev on_field : Action FieldStore (Unit {0}) → Action Rows (Unit {0})
on_field m s = let (r, t) = m s.field in (r, record s { field = t })

abbrev on_commands : Action CommandStore (Unit {0}) → Action Rows (Unit {0})
on_commands m s = let (r, t) = m s.commands in (r, record s { commands = t })

abbrev on_payments : Action Store (Unit {0}) → Action Rows (Unit {0})
on_payments m s = let (r, t) = m s.payments in (r, record s { payments = t })

abbrev ack_event : Event → AckEvent
ack_event e = record { id = e.id; device_id = e.device_id; received_at = e.received_at }

abbrev coin_event : Event → CoinEvent
coin_event e = record {
  id = e.id;
  station_id = e.station_id;
  device_id = e.device_id;
  occurred_at = e.occurred_at;
}

abbrev is_ack : String → String → Bool
is_ack category type =
    ((category =s "command_ack") && (type =s "device.command_ack"))
    || ((category =s "command") && (type =s "command.acknowledged"))

abbrev is_coin : String → String → Bool
is_coin category type = (category =s "payment") && (type =s "payment.coin_inserted")

unfoldable pub all_handlers : Services → List (Handler Rows)
unfolding handle_heartbeat handle_telemetry handle_locker handle_port acknowledge handle_coin
all_handlers services =
    record { can_handle = is_heartbeat; handle = λ e. on_field (handle_heartbeat e) }
    ∷ record {
      can_handle = is_telemetry;
      handle = λ e. on_field (handle_telemetry services.conversions.parse_date e);
    }
    ∷ record { can_handle = is_locker_event; handle = λ e. on_field (handle_locker e) }
    ∷ record { can_handle = is_port_event; handle = λ e. on_field (handle_port e) }
    ∷ record {
      can_handle = is_ack;
      handle = λ e. on_commands (acknowledge services.row_id (ack_event e) (payload_of e));
    }
    ∷ record {
      can_handle = is_coin;
      handle = λ e. on_payments (
          handle_coin (coin_event e) (parse_coin_payload services.conversions (payload_of e))
            (denomination_for services.texts services.settings e.station_id e.device_id)
            services.now);
    }
    ∷ []
