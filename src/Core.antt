-- ===== src/Core.antt =====
-- The core package, src/smallage/core: one module for each of its files.
pub mod Envelope
pub mod Floats
pub mod Keys
pub mod Retry
pub mod Cron
pub mod Scheduler
pub mod Deferred
pub mod Results
pub mod Payloads
pub mod Stats
pub mod Testing
pub mod Transport
pub mod Worker
pub mod Scripts
