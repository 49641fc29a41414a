-- ===== src/OlsInstall.antt =====
-- internal/controller/ols_install.go: installing the OpenShift Lightspeed (OLS) operator for an
-- instance, checking it and removing it.
pub mod Version
pub mod Csv
pub mod Plan
pub mod Subscription
pub mod Operator
pub mod Reads
pub mod Selected
pub mod Success
pub mod Installing
pub mod Uninstalling
pub mod Order
pub mod Framed
pub mod Saved
pub mod Existing
pub mod Found
pub mod Answers
pub mod Uninstalled
