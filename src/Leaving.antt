-- ===== src/Leaving.antt =====
-- The deletion of an instance on a cluster where every deletion takes effect at once: the run goes
-- through and drops the finalizer.
pub mod Laws
pub mod Remove
pub mod Run
pub mod Uninstall
