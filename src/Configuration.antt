-- ===== src/Configuration.antt =====
-- caikit/config/config.py
pub mod Values
pub mod Merging
pub mod Merged
pub mod Paths
pub mod Configure
pub mod Precedence
