-- ===== src/Lib.antt =====
-- Verification library of the coin acceptor backend: a NestJS service that takes payments for
-- charging lockers (coins at the machine, QR payments by a provider, payments of customers at a web
-- page), gives paid customers a locker, sends commands to the machines and takes their events in.
--
-- The parts and how they interact. The environment is checked at the start (Config). A device's
-- request is authenticated (Ingestion.Hmac) and its events are validated, stored once and handed to
-- handlers (Ingestion.Events, Pipeline), which write what the device says of itself, its lockers and
-- ports (Ingestion.Handlers), or credit a payment (Payments.Coins) with what the settings say that
-- its pulses are worth (Settings.Pulses), or acknowledge a command. Devices start payments
-- (Payments.Initiation), and so do customers without an account (Charging.PublicPayments); a
-- provider's callback confirms, fails or expires a QR payment (Payments.Webhook); staff and devices
-- cancel and refund, a timer expires (Payments.Cancellation, Refund, Expiration). All of them change
-- the store of Store. A confirmed payment of a public customer gets a charging session with a locker
-- and a port (Charging.Allocation); the customer holds tokens for it (Charging.Tokens, Flows) and
-- claims the access code of the locker (Charging.Claim). Commands go from staff to devices through a
-- queue that a device polls and acknowledges (Commands). Staff sign in with rotating refresh tokens
-- (Auth), act with the permissions of their roles (Access) and administer roles and accounts
-- (Access.Assignments, Roles, Accounts).
--
-- Files and the code that they model (paths from the repository's root):
--   Prelude, Effect, Table: shared names; a service as a function from the store to its result, or
--     to the exception that it throws, and the store afterwards; database tables as lists of rows,
--     with their order (Table.Order) and the number of rows that pass a test (Table.Counts)
--   Config: src/config/env.validation.ts and payment-env.validation.ts
--   Json, Json.Sensitive: src/common/utils/sensitive-json.util.ts and the sanitisers of payments,
--     device-ingestion and device-commands; assert_no_keys is the recursive walk
--   Store, Store.Write: prisma/schema.prisma and the trigger validate_payment_state of
--     charging_system_source_of_truth.sql
--   Payments.Policy, Webhook, Coins, Cancellation, Expiration, Refund: the services of the same
--     names under src/apps/payments; Payments.Steps puts them side by side
--   Payments.Initiation, Payments.Provider: payment-initiation.service.ts, qr-payment.service.ts,
--     charging-package-read.service.ts and src/apps/payments/providers
--   Commands.Policy, Contract, Service, Delivery, Acknowledge: src/apps/device-commands/services
--   Settings.Resolution, Settings.Pulses: src/apps/settings/services and coin-pulse-mapping.service.ts
--   Ingestion.Nonces, Ingestion.Hmac: device-replay-protection.service.ts and device-hmac.service.ts
--   Ingestion.Events, Handlers, Validation, Pipeline: device-event.service.ts, the handlers, the
--     validators and device-event-processor.ts of src/apps/device-ingestion
--   Equipment.Policy: the status policies of stations, devices, lockers and charging ports
--   Equipment.Credentials, with Service and Revocation: src/apps/device-credentials/services
--   Auth: auth-session.service.ts and auth-account.service.ts
--   Auth.Service: auth.service.ts, token.service.ts, password.service.ts, auth-ttl.service.ts and the
--     guard of the access token
--   Charging.AccessCode, Charging.Claim: the services access-code-generation and access-code-claim
--     of src/apps/public-charging
--   Charging.Allocation, Tokens, Flows, PublicPayments: public-session-creation, public-redis-token
--     (the memory branch), anonymous-checkout and anonymous-customer-flow, public-payment and
--     public-package of the same directory
--   Access: src/apps/access-control/services/permission.service.ts
--   Access.Assignments, Roles, Accounts, Scope: role-assignments.service.ts, roles.service.ts,
--     users.service.ts of src/apps/users, station-scope.service.ts and permissions.guard.ts;
--     Access.Administration.Steps puts the first three side by side
--   Modules called Tests hold test data and the theorems applied to it.
--
-- How code corresponds to definitions. A method that reads and writes tables is an Action on a store
-- record; a transaction is `transaction`, which takes the writes back when its body throws. What a
-- service reads before its transaction and what it writes inside it are separate definitions, so
-- that another service may run in between; the theorems on roles, accounts and credentials suppose that
-- none does, and say so. A camelCase method keeps its name in snake_case. Ids and
-- references are only compared, so they are natural numbers; a time is a number of milliseconds; an
-- amount is in minor units. Numbers in JSON are integers, or lie strictly between two integers.
-- White space is that of ASCII and the no-break space, and keys are lower-cased over ASCII after
-- all other characters are dropped.
--
-- Bounds. No definition needs fuel: every loop is over a list or a JSON value. The walk for forbidden
-- keys stops below depth 8, as the code does.
--
-- Arguments that stand for code outside the repository: the provider's signature check and parser,
-- argon2, AES, JWT and HMAC, Date.parse, new URL, Number, toUpperCase, JSON.stringify and what
-- PostgreSQL makes of a JSONB value, the rows that other transactions lock, and whether Prisma lets
-- the empty clause of an OR select every row. The allocation of a session for a confirmed payment
-- (Charging.Allocation) is an argument of the webhook, which calls it through an interface; an
-- event store knows the tables of its handlers only as a parameter.
--
-- Not modelled: the course of charging sessions after their allocation, the services that edit
-- stations, devices, lockers and ports (their status policies are modelled), alerts, reports and
-- the queries that only read; the Redis branches; audit entries carry their action, entity, station
-- and reason only; check constraints of the database other than the payment trigger and the unique
-- keys that a write names; the width of SMALLINT counters; timers and the HTTP layer.
pub mod Prelude
pub mod Effect
pub mod Config
pub mod Table
pub mod Json
pub mod Store
pub mod Payments
pub mod Commands
pub mod Equipment
pub mod Auth
pub mod Access
pub mod Settings
pub mod Ingestion
pub mod Charging
