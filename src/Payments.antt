-- ===== src/Payments.antt =====
-- Payments (apps/payments): the status policy, webhooks of the QR provider, coin insertions,
-- expiry, cancellation, refunds, initiation and the provider that the repository comes with.
pub mod Policy
pub mod Webhook
pub mod Coins
pub mod Cancellation
pub mod Expiration
pub mod Refund
pub mod Invariant
pub mod Steps
pub mod Initiation
pub mod Provider
pub mod Tests
