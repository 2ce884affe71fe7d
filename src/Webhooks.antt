-- ===== src/Webhooks.antt =====
-- webhooks: from a stored event of a gateway to a reconciled transaction.
pub mod Events
pub mod Payload
pub mod Worker
pub mod Path
pub mod Drive
pub mod Process
pub mod Intake
pub mod Delivery
pub mod Signature
pub mod Endpoints
pub mod Authentic
pub mod Invariant
pub mod Memory
pub mod Tasks
pub mod Loop
mod Tests
