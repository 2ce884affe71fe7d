-- ===== src/Routing.antt =====
-- gateways/routing-engine.service.ts: the scores of the gateways, their ranking and the circuit
-- breakers.
pub mod Config
pub mod Score
pub mod Stats
pub mod Engine
pub mod Breaker
pub mod Ranking
pub mod Effects
pub mod Counted
pub mod Recorded
pub mod Table
pub mod Endpoint
pub mod Tasks
pub mod Ranked
mod Tests
