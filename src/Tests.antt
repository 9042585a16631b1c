-- ===== src/Tests.antt =====
-- The theorems at concrete inputs, over small environments.
pub mod Setting
pub mod Plugins
pub mod Failures
pub mod Helpers
pub mod Connections
pub mod Shims
pub mod Plays
