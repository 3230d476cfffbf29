-- ===== src/Scheduler.antt =====
-- internal/router/scheduler: the FIFO scheduler of the router's run loop.
pub mod State
pub mod Collision
pub mod Grant
pub mod Queue
pub mod Fairness
pub mod Handlers
pub mod Ledger
pub mod Tests
