-- ===== src/Event.antt =====
-- src/events/: the events from the orchestrator and those to it.
pub mod Inbound
pub mod Outbound
