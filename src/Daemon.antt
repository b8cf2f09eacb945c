-- ===== src/Daemon.antt =====
-- The monitoring daemon: daemon/*.py.
pub mod Simulator
pub mod Handlers
pub mod Filters
pub mod Polling
pub mod Runner
pub mod Events
pub mod Rounds
