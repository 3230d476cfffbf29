-- ===== src/Config.antt =====
-- internal/config: the configuration, from its files to the values that the other parts read.
pub mod Merge
pub mod Names
pub mod Selectors
