-- ===== src/Tests.antt =====
-- Concrete instances of what the model takes as parameters, and the theorems at concrete inputs.
pub mod Maps
pub mod Memory
pub mod Store
pub mod Installs
pub mod Configs
pub mod Runs
pub mod Versions
pub mod Cycles
pub mod Starts
pub mod Steady
pub mod Leaves
pub mod Histories
pub mod Patched
