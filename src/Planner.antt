-- ===== src/Planner.antt =====
-- internal/router: the eviction policies that the scheduler asks (group.go, matrix.go).
pub mod Group
pub mod Cached
pub mod Lifecycle
pub mod Room
pub mod Tests
