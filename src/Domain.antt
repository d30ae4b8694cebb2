-- ===== src/Domain.antt =====
-- The validated model of the desired state (internal/domain).
pub mod Ports
pub mod Endpoint
pub mod Model
pub mod Legacy
pub mod Checks
pub mod Security
pub mod Protocols
pub mod Users
pub mod Nodes
pub mod State
mod Distinct
mod Tests
