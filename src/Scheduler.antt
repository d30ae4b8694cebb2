-- ===== src/Scheduler.antt =====
-- internal/scheduler: the loops that run beside the server.
pub mod Core
pub mod Expiry
