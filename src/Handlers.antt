-- ===== src/Handlers.antt =====
-- Package internal/handlers: how a request is forwarded.
pub mod Failover
