-- ===== src/App.antt =====
-- internal/app/service.go: one digest cycle, from the source pages to the acknowledged messages.
pub mod Ports
pub mod Deliver
pub mod Service
pub mod Run
pub mod Stored
