-- ===== src/Readiness.antt =====
-- What `IsReady` says of an instance that a run has patched.
pub mod Laws
pub mod Kept
pub mod Configure
pub mod Run
pub mod Patched
