-- ===== src/OlsConfig.antt =====
-- internal/controller/funcs.go: the OLSConfig resource, which configures the OLS operator.
pub mod Labels
pub mod Get
pub mod Remove
pub mod Removal
pub mod Rag
pub mod Patch
pub mod Ready
pub mod Writes
pub mod Patched
pub mod Labelled
pub mod Pinged
pub mod Sources
