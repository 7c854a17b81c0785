-- ===== src/Core/Worker.antt =====
-- The worker supervisor, src/smallage/core/worker.py.
pub mod Config
pub mod Calls
pub mod Handler
pub mod Loops
pub mod Shutdown
