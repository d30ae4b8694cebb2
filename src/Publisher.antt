-- ===== src/Publisher.antt =====
-- internal/publisher and the tables of internal/store that it writes: the publication of a desired
-- state as the configuration that Mihomo runs. The order of the modules is that of the calls.
pub mod World
pub mod Monad
pub mod Triple
pub mod View
pub mod Files
pub mod Rows
pub mod Store
pub mod Runtime
pub mod Recovery
pub mod Verify
pub mod Request
pub mod Commit
pub mod Publish
pub mod Keeps
pub mod Agreement
mod Example
pub mod Guarantees
pub mod Retention
pub mod Refusal
mod Tests
