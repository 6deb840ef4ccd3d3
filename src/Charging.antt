-- ===== src/Charging.antt =====
-- Public charging (apps/public-charging): payments of customers without an account, the sessions
-- that they get, their tokens and the access codes of lockers.
pub mod AccessCode
pub mod Claim
pub mod Allocation
pub mod Tokens
pub mod Flows
pub mod PublicPayments
pub mod Tests
