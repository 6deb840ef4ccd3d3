-- ===== src/Equipment.antt =====
-- Stations, devices, lockers, ports and credentials: the policies that guard their status changes.
pub mod Policy
pub mod Lifecycle
pub mod Credentials
pub mod Tests
