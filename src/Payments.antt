-- ===== src/Payments.antt =====
-- transactions/transactions.service.ts and transactions.controller.ts: the payment requests.
pub mod Charge
pub mod World
pub mod Requests
pub mod Service
pub mod Attempts
pub mod Row
pub mod Steps
pub mod Failover
pub mod Create
pub mod Fallback
pub mod Lock
pub mod Stored
pub mod Tasks
pub mod Controller
pub mod Invariant
pub mod Tests
