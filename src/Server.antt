-- ===== src/Server.antt =====
-- internal/server: which model a request goes to.
pub mod Selector
