-- ===== src/Charging/Allocation.antt =====
-- public-session-creation.service.ts and public-payment-metadata.ts: a session for a confirmed
-- payment. The binding of the customer's flow, which follows the transaction, is in Charging.Flows.
pub mod Invariant
pub mod Again
use coin_acceptor_backend.Prelude.{
  ℕ, ◌+◌, Bool, true, false, not, ◌&&◌, ◌||◌, Option, none, some, is_some, String, List, [], ◌∷◌,
  ◌++◌, ◌==◌, ◌=s◌, ltb, leb, find, any, filter, map, if◌then◌else◌,
}
use coin_acceptor_backend.Effect.{
  Error, database, Result, ok, err, Action, ◌>>=◌, ◌>>◌, pure, gets, modify, throw_if, or_throw,
  transaction,
}
use coin_acceptor_backend.Table.{insert, update_where}
use coin_acceptor_backend.Table.Order.{order_by, head_row}
use coin_acceptor_backend.Json.{Json, Fields, str, obj, get, end, field}
use coin_acceptor_backend.Store.{
  Payment, PaymentStatus, ChargingSession, SessionStatus, SessionPayment, Locker, Availability,
  ChargingPort, PortStatus, Alert, AuditEntry, Store,
}
use coin_acceptor_backend.Store.Write.{has_id, record_audit}
use coin_acceptor_backend.Payments.Policy.{same_status}

-- What stands outside: the generated id and reference, the clock, and the rows that other
-- transactions hold.
pub record Fresh : Type 0 where
  pub session_id : ℕ
  pub session_reference : ℕ
  pub now : ℕ
  pub locker_locked : ℕ → Bool
  pub port_locked : ℕ → Bool

abbrev is_channel : Option Json → Bool
is_channel (some (str t)) = t =s "public_customer"
is_channel _ = false

unfoldable pub payment_is_public_customer : Json → Bool
unfolding get
payment_is_public_customer (obj fs) = is_channel (get "channel" fs)
payment_is_public_customer _ = false

abbrev with_method : Option String → Fields
with_method none = end
with_method (some m) = field "paymentMethod" (str m) end

unfoldable pub public_payment_metadata : String → Option String → Json
public_payment_metadata checkout_hash method = obj (
    field "channel" (str "public_customer")
      (field "checkoutHash" (str checkout_hash) (with_method method)))

-- The statuses of the two partial unique indexes.
abbrev pub is_running : SessionStatus → Bool
is_running SessionStatus.pending = true
is_running SessionStatus.awaiting_device = true
is_running SessionStatus.active = true
is_running SessionStatus.paused = true
is_running _ = false

abbrev pub runs_in : ℕ → ChargingSession → Bool
runs_in l x = is_running x.status && x.locker_id == l

abbrev pub runs_at : ℕ → ChargingSession → Bool
runs_at p x = is_running x.status && x.charging_port_id == p

abbrev is_offered : Availability → Bool
is_offered Availability.available = true
is_offered _ = false

abbrev is_usable : PortStatus → Bool
is_usable PortStatus.available = true
is_usable _ = false

pub record Slot : Type 0 where
  pub locker : Locker
  pub port : ChargingPort

-- The join with its WHERE clause.
unfoldable pub slot_free : Store → Fresh → ℕ → Slot → Bool
slot_free s fresh device x =
    not (any (runs_in x.locker.id) s.sessions)
    && not (any (runs_at x.port.id) s.sessions)
    && x.port.locker_id == x.locker.id
    && x.port.device_id == x.locker.device_id
    && x.locker.device_id == device
    && is_offered x.locker.availability_status
    && is_usable x.port.status
    && not (fresh.locker_locked x.locker.id)
    && not (fresh.port_locked x.port.id)

abbrev slots_of : List ChargingPort → Locker → List Slot
slots_of ports l = map (λ p. record { locker = l; port = p }) ports

abbrev all_slots : List Locker → List ChargingPort → List Slot
all_slots [] ports = []
all_slots (l ∷ ls) ports = slots_of ports l ++ all_slots ls ports

abbrev slot_before : Slot → Slot → Bool
slot_before x y =
    ltb x.locker.locker_number y.locker.locker_number
    || (x.locker.locker_number == y.locker.locker_number
        && leb x.port.port_number y.port.port_number)

-- The query of `reserveSlot`.
unfoldable pub free_slot : Store → Fresh → ℕ → Option Slot
unfolding slot_free order_by
free_slot s fresh device =
    head_row
      (order_by slot_before (filter (slot_free s fresh device) (all_slots s.lockers s.ports)))

abbrev locker_id_is : ℕ → Locker → Bool
locker_id_is i l = l.id == i

abbrev set_reserved : ℕ → Locker → Locker
set_reserved now l = record l {
  availability_status = Availability.reserved;
  last_status_changed_at = some now;
}

abbrev pub is_open_for : ℕ → Alert → Bool
is_open_for device a = a.device_id == device && a.is_open

-- `alertNoSlot`
unfoldable pub alert_no_slot : Payment → Store → Store
alert_no_slot p s = if any (is_open_for p.device_id) s.alerts then s else record s {
  alerts =
      insert
        (record {
          station_id = p.station_id;
          device_id = p.device_id;
          is_open = true;
          payment_reference = p.payment_reference;
        })
        s.alerts;
}

-- The row as it is created: nothing is purchased before a payment is linked.
unfoldable pub session_row : Payment → Slot → Fresh → ChargingSession
session_row p slot fresh = record {
  id = fresh.session_id;
  session_reference = fresh.session_reference;
  station_id = p.station_id;
  device_id = p.device_id;
  locker_id = slot.locker.id;
  charging_port_id = slot.port.id;
  status = SessionStatus.pending;
  currency = p.currency;
  access_code_hash = none;
  access_code_expires_at = none;
  purchased_duration_seconds = 0;
  remaining_seconds = 0;
  total_paid_minor = 0;
}

-- The unique keys of charging_sessions.
abbrev pub clashes : ChargingSession → ChargingSession → Bool
clashes new x =
    x.id == new.id
    || x.session_reference == new.session_reference
    || runs_in new.locker_id x
    || runs_at new.charging_port_id x

-- The link, with the columns that its trigger fills in.
unfoldable pub link_row : Payment → ChargingSession → SessionPayment
link_row p x = record {
  charging_session_id = x.id;
  payment_id = p.id;
  duration_seconds_added = p.package_duration_seconds_snapshot;
  amount_minor = p.received_amount_minor;
  currency = p.currency;
}

abbrev pub is_link : ℕ → SessionPayment → Bool
is_link i l = l.payment_id == i

-- The check of `validate_session_payment_link` and the unique key of a payment.
unfoldable pub link_allowed : Payment → Store → Bool
link_allowed p s =
    same_status p.status PaymentStatus.confirmed
    && leb p.expected_amount_minor p.received_amount_minor
    && not (any (is_link p.id) s.links)

-- The sums over the links of a session.
abbrev pub total_duration : ℕ → List SessionPayment → ℕ
total_duration i [] = 0
total_duration i (l ∷ ls) =
    (if l.charging_session_id == i then l.duration_seconds_added else 0) + total_duration i ls

abbrev pub total_amount : ℕ → List SessionPayment → ℕ
total_amount i [] = 0
total_amount i (l ∷ ls) =
    (if l.charging_session_id == i then l.amount_minor else 0) + total_amount i ls

abbrev pub session_id_is : ℕ → ChargingSession → Bool
session_id_is i x = x.id == i

-- `refresh_session_payment_totals`
unfoldable pub refresh_totals : SessionPayment → Store → Store
refresh_totals l s = record s {
  sessions =
      update_where (session_id_is l.charging_session_id)
        (λ x. record x {
          purchased_duration_seconds = total_duration l.charging_session_id s.links;
          remaining_seconds = x.remaining_seconds + l.duration_seconds_added;
          total_paid_minor = total_amount l.charging_session_id s.links;
        })
        s.sessions;
}

abbrev pub reserve : Locker → ℕ → Store → Store
reserve l now s = record s {
  lockers = update_where (locker_id_is l.id) (set_reserved now) s.lockers;
}

abbrev created_audit : ChargingSession → AuditEntry
created_audit x = record {
  action = "public_session.created";
  entity_id = some x.id;
  station_id = some x.station_id;
  reason = none;
}

-- The writes of `ensureInsideTransaction` for the slot that was found.
unfoldable pub allocate : Payment → Fresh → Slot → Action Store (Option ChargingSession)
unfolding session_row link_row link_allowed refresh_totals
allocate p fresh slot = do
  modify (reserve slot.locker fresh.now)
  let x = session_row p slot fresh
  taken ← gets (λ s. any (clashes x) s.sessions)
  throw_if taken (database "P2002")
  modify (λ s. record s { sessions = insert x s.sessions })
  allowed ← gets (link_allowed p)
  throw_if (not allowed) (database "validate_session_payment_link")
  modify (λ s. record s { links = insert (link_row p x) s.links })
  modify (refresh_totals (link_row p x))
  modify (record_audit (created_audit x))
  pure (some x)

abbrev pub allocate_or_alert : Payment → Fresh → Option Slot → Action Store (Option ChargingSession)
allocate_or_alert p fresh none = modify (alert_no_slot p) >> pure none
allocate_or_alert p fresh (some slot) = allocate p fresh slot

-- `findLinkedSession`
abbrev pub session_of : List ChargingSession → Option SessionPayment → Option ChargingSession
session_of xs none = none
session_of xs (some l) = find (session_id_is l.charging_session_id) xs

unfoldable pub linked_session : Store → ℕ → Option ChargingSession
linked_session s i = session_of s.sessions (find (is_link i) s.links)

abbrev pub existing_or_new :
    Payment → Fresh → Option ChargingSession → Action Store (Option ChargingSession)
existing_or_new p fresh (some x) s = (ok (some x), s)
existing_or_new p fresh none s = allocate_or_alert p fresh (free_slot s fresh p.device_id) s

-- Whether a payment may have a session.
abbrev pub is_due : Payment → Bool
is_due p = same_status p.status PaymentStatus.confirmed && payment_is_public_customer p.metadata

abbrev pub ensure_found : Fresh → Option Payment → Action Store (Option ChargingSession)
ensure_found fresh none s = (ok none, s)
ensure_found fresh (some p) s =
    if is_due p then existing_or_new p fresh (linked_session s p.id) s else (ok none, s)

abbrev pub has_reference : ℕ → Payment → Bool
has_reference r p = p.payment_reference == r

unfoldable pub ensure_inside : Fresh → ℕ → Action Store (Option ChargingSession)
unfolding allocate alert_no_slot linked_session free_slot payment_is_public_customer
ensure_inside fresh reference s = ensure_found fresh (find (has_reference reference) s.payments) s

-- `ensureForPaymentReference`
unfoldable pub ensure_for_payment_reference : Fresh → ℕ → Action Store (Option ChargingSession)
unfolding ensure_inside
ensure_for_payment_reference fresh reference = transaction (ensure_inside fresh reference)
