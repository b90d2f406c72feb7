-- ===== src/Process.antt =====
-- internal/process: how digest runs are started, how they exclude each other, and how they stop.
pub mod Runner
pub mod Reload
pub mod Routing
