-- ===== src/Process.antt =====
-- internal/process: the life of a child process, as its run loop drives it (process_command.go).
pub mod Types
pub mod Start
pub mod Loop
pub mod Settled
pub mod Transitions
pub mod Answers
pub mod Tests
