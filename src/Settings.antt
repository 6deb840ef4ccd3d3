-- ===== src/Settings.antt =====
-- Settings of the hardware (apps/settings): which setting applies, and what a coin is worth.
pub mod Resolution
pub mod Pulses
pub mod Tests
