-- ===== src/Operation.antt =====
-- internal/operation: the lock of every operation that changes the runtime.
pub mod Coordinator
