-- ===== src/Controller.antt =====
-- internal/controller/openstacklightspeed_controller.go: the reconciler.
pub mod Status
pub mod Version
pub mod Delete
pub mod Reconcile
pub mod Notify
pub mod Persist
pub mod Deleting
pub mod Live
pub mod Resolving
pub mod Removing
pub mod Requests
pub mod Defaults
pub mod Run
pub mod First
pub mod Takes
pub mod Ends
