-- ===== src/Settled.antt =====
-- Runs on a cluster in which all is in place: they go through, and end well.
pub mod Rules
pub mod Laws
pub mod Install
pub mod Version
pub mod Found
pub mod Deferred
pub mod Run
