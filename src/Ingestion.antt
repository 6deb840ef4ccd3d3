-- ===== src/Ingestion.antt =====
-- Device ingestion (apps/device-ingestion): how a device's requests are authenticated,
-- and what its events do.
pub mod Nonces
pub mod Hmac
pub mod Events
pub mod Handlers
pub mod Validation
pub mod Pipeline
pub mod Tests
