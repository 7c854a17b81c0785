-- ===== src/Litestar.antt =====
-- The Litestar package, src/smallage/litestar.
pub mod Health
pub mod Di
pub mod Registry
pub mod Plugin
pub mod Cli
