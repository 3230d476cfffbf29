-- ===== src/Router.antt =====
-- internal/router/base.go: the router around its scheduler.
pub mod Grants
pub mod Flow
pub mod Loop
pub mod Serving
pub mod Unload
pub mod Tests
